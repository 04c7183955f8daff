-- ===== src/Samples/Guards.antt =====
-- The guard of the system's DNS: a VPN that comes and goes.
use dns_relay.Prelude.{◌≡◌, refl, true, false, none, some, [], ◌∷◌}
use dns_relay.Prelude.Slices.{Bytes}
use dns_relay.Dns.Text.Affix.{eq_bytes, strip_prefix}
use dns_relay.Dns.Text.Spaces.{
  lines, trim, chars, split_whitespace, before_any, starts_with, contains, has,
}
use dns_relay.Netguard.{
  Guard, Reports, overridden, reverted, tick, revert, detect_vpn_interface, get_default_route_iface,
  reassert_via_resolvectl, link_passes, is_already_correct,
}
use dns_relay.Netguard.Invariant.{IsGuard, start, ticks, Reachable-IsGuard, behind}

abbrev tunnel : Bytes
tunnel = (b't' ∷ b'u' ∷ b'n' ∷ b'0' ∷ [])

-- A tunnel that is up.
abbrev reports_up : Reports
reports_up = record {
  link_show = some (
      b'2' ∷ b':' ∷ b' ' ∷ b't' ∷ b'u' ∷ b'n' ∷ b'0' ∷ b':' ∷ b' ' ∷ b'<' ∷ b'U' ∷ b'P' ∷ b','
      ∷ b'L' ∷ b'O' ∷ b'W' ∷ b'E' ∷ b'R' ∷ b'_' ∷ b'U' ∷ b'P' ∷ b'>' ∷ b' ' ∷ b'm' ∷ []);
  route_show = some (
      b'd' ∷ b'e' ∷ b'f' ∷ b'a' ∷ b'u' ∷ b'l' ∷ b't' ∷ b' ' ∷ b'd' ∷ b'e' ∷ b'v' ∷ b' ' ∷ b'e'
      ∷ b'0' ∷ b' ' ∷ b'p' ∷ []);
  status = true;
  dns_of = λ iface. none;
  set_dns = λ iface. some true;
  reverts = λ iface. true;
  other_order = false;
}

abbrev reports_down : Reports
reports_down = record reports_up { link_show = some [] }

abbrev fresh : Guard
fresh = record { is_vpn_active = false; touched_links = [] }

abbrev target : Bytes
target = (b'1' ∷ b'2' ∷ b'7' ∷ b'.' ∷ b'0' ∷ b'.' ∷ b'0' ∷ b'.' ∷ b'1' ∷ [])

up_run :
    (tick fresh reports_up target).changes ≡ overridden (b'e' ∷ b'0' ∷ []) ∷ overridden tunnel ∷ []
unfolding tick detect_vpn_interface get_default_route_iface reassert_via_resolvectl link_passes
    is_already_correct lines trim chars split_whitespace before_any starts_with contains has
    eq_bytes strip_prefix
up_run = refl

down_run :
    (tick
      (record { is_vpn_active = true; touched_links = tunnel ∷ [] })
      reports_down
      target).changes
    ≡ reverted tunnel ∷ []
unfolding tick detect_vpn_interface revert lines
down_run = refl

Reachable-IsGuard_example :
    IsGuard (tick (tick fresh reports_up target).guard reports_down target).guard (
      behind
        (tick (tick fresh reports_up target).guard reports_down target)
        (behind (tick fresh reports_up target) []))
Reachable-IsGuard_example =
    Reachable-IsGuard (tick (tick fresh reports_up target).guard reports_down target).guard
      (behind (tick (tick fresh reports_up target).guard reports_down target)
        (behind (tick fresh reports_up target) []))
      (ticks reports_down target (λ iface. refl) (ticks reports_up target (λ iface. refl) start))
