-- ===== src/Netguard/Invariant.antt =====
-- The guard never forgets an interface whose DNS it has overridden.
use dns_relay.Prelude.{
  ◌≡◌, refl, Bool, true, false, Option, none, some, List, [], ◌∷◌, Outcome, ok, refuse, panic,
  out_of_fuel, Bool-cases, inl, inr,
}
use dns_relay.Prelude.Slices.{Bytes}
use dns_relay.Netguard.{
  Guard, Reports, Ticked, revert, reassert_via_resolvectl, unless_empty, without_vpn, with_vpn,
  detected, tick, iterated, add_target, get_default_route_iface, detect_vpn_interface,
}
use dns_relay.Netguard.Links.{change_all, Within, link_passes-Within, revert_all-Has}

-- Every overridden interface is known to the guard, and without a VPN there is none to know.
pub record IsGuard (g : Guard) (system : List Bytes) : Type 0 where
  pub known : Within system g.touched_links
  pub idle : g.is_vpn_active ≡ false → g.touched_links ≡ []

-- The system behind the changes of a tick.
abbrev pub behind : Ticked → List Bytes → List Bytes
behind ticked system = change_all ticked.changes system

abbrev Kept : Ticked → List Bytes → Type 0
Kept ticked system = IsGuard ticked.guard (behind ticked system)

revert-Kept :
    (g : Guard) (reverts : Bytes → Bool) (system : List Bytes)
    → ((x : Bytes) → reverts x ≡ true)
    → Within system g.touched_links
    → Kept (revert g reverts) system
unfolding revert
revert-Kept g reverts system works known = record {
  known = λ i m.
      let (there, apart) = revert_all-Has reverts g.touched_links system i works m in
      absurd (apart (known i there));
  idle = λ _. refl;
}

reassert-Kept :
    (g : Guard) (reports : Reports) (dns_target : Bytes) (targets system : List Bytes)
    → g.is_vpn_active ≡ true
    → Within system g.touched_links
    → Kept (reassert_via_resolvectl g reports dns_target targets) system
unfolding reassert_via_resolvectl
reassert-Kept g reports dns_target targets system active known = elim (Bool-cases reports.status) [
  | inl e ↦ rw e (record {
    known = link_passes-Within reports dns_target targets g.touched_links system known;
    idle = λ off. (let refuted = rw active at off in cc);
  })
  | inr e ↦ rw e (record { known = known; idle = λ off. (let refuted = rw active at off in cc) })
]

unless_empty-Kept :
    (g : Guard) (reports : Reports) (dns_target : Bytes) (targets system : List Bytes)
    → g.is_vpn_active ≡ true
    → Within system g.touched_links
    → Kept (unless_empty g reports dns_target targets) system
unless_empty-Kept g reports dns_target [] system active known = record {
  known = known;
  idle = λ off. (let refuted = rw active at off in cc);
}
unless_empty-Kept g reports dns_target (iface ∷ targets) system active known =
    reassert-Kept g reports dns_target (iface ∷ targets) system active known

without_vpn-Kept :
    (was : Bool) (g : Guard) (reports : Reports) (system : List Bytes)
    → ((x : Bytes) → reports.reverts x ≡ true)
    → Within system g.touched_links
    → (was ≡ false → g.touched_links ≡ [])
    → Kept (without_vpn was g reports) system
without_vpn-Kept true g reports system works known idle =
    revert-Kept g reports.reverts system works known
without_vpn-Kept false g reports system works known idle = record {
  known = known;
  idle = λ _. idle refl;
}

with_vpn-Kept :
    (g : Guard) (reports : Reports) (dns_target : Bytes) (vpn_iface : Option Bytes)
    (system : List Bytes)
    → ((x : Bytes) → reports.reverts x ≡ true)
    → IsGuard g system
    → Kept (with_vpn g reports dns_target vpn_iface) system
with_vpn-Kept g reports dns_target none system works w =
    without_vpn-Kept g.is_vpn_active (record g { is_vpn_active = false }) reports system works
      w.known w.idle
with_vpn-Kept g reports dns_target (some iface) system works w =
    unless_empty-Kept (record g { is_vpn_active = true }) reports dns_target
      (iterated reports.other_order
        (add_target (get_default_route_iface reports.route_show) (iface ∷ [])))
      system refl w.known

tick-Kept :
    (g : Guard) (reports : Reports) (dns_target : Bytes) (system : List Bytes)
    → ((x : Bytes) → reports.reverts x ≡ true)
    → IsGuard g system
    → Kept (tick g reports dns_target) system
unfolding tick
tick-Kept g reports dns_target system works w = on (detect_vpn_interface reports.link_show)
  where
    on : (o : Outcome (Option Bytes)) → Kept (detected g reports dns_target o) system
    on (ok vpn_iface) = with_vpn-Kept g reports dns_target vpn_iface system works w
    on refuse = w
    on panic = w
    on out_of_fuel = w

-- The guard, and the interfaces that are overridden, from the start of the process through ticks and the
-- revert of its end. A command to revert an interface succeeds.
pub data Reachable : Guard → List Bytes → Type 0 where
  start : Reachable (record { is_vpn_active = false; touched_links = [] }) []
  ticks :
      {g : Guard} {system : List Bytes} (reports : Reports) (dns_target : Bytes)
      → ((x : Bytes) → reports.reverts x ≡ true)
      → Reachable g system
      → Reachable (tick g reports dns_target).guard (behind (tick g reports dns_target) system)
  stops :
      {g : Guard} {system : List Bytes} (reverts : Bytes → Bool)
      → ((x : Bytes) → reverts x ≡ true)
      → Reachable g system
      → Reachable (revert g reverts).guard (behind (revert g reverts) system)

-- Whatever the ticks see, and whichever commands of theirs fail, the guard knows every interface whose
-- DNS is overridden, so that its revert gives all of them back; and while it takes no VPN to be active,
-- no interface is overridden. A revert of an interface is taken to succeed.
pub Reachable-IsGuard : (g : Guard) (system : List Bytes) → Reachable g system → IsGuard g system
Reachable-IsGuard g system start = record { known = λ i m. m; idle = λ _. refl }
Reachable-IsGuard g system (ticks {g = before} {system = old} reports dns_target works reached) =
    tick-Kept before reports dns_target old works (Reachable-IsGuard before old reached)
Reachable-IsGuard g system (stops {g = before} {system = old} reverts works reached) =
    revert-Kept before reverts old works (Reachable-IsGuard before old reached).known
