-- ===== src/Netguard.antt =====
-- The Linux backend of shared/src/netguard.rs. What the commands print, as text, and whether they succeed
-- are arguments; a command that changes the system's DNS is an entry of the trace. Log lines are left out.
pub mod Links
pub mod Invariant
use dns_relay.Prelude.{
  ℕ, ◌-◌, Bool, true, false, not, ◌&&◌, ◌||◌, Option, none, some, List, [], ◌∷◌, ◌++◌, ◌==◌, drop,
  any, map, if◌then◌else◌, Outcome, ok, refuse, panic, out_of_fuel,
}
use dns_relay.Prelude.Slices.{Bytes}
use dns_relay.Dns.Text.Affix.{eq_bytes}
use dns_relay.Dns.Text.Spaces.{
  lines, split_whitespace, trim, before_any, starts_with, contains, is_some, has,
}

abbrev pub vpn_iface_prefixes : List Bytes
vpn_iface_prefixes =
    (b'u' ∷ b't' ∷ b'u' ∷ b'n' ∷ [])
    ∷ (b'i' ∷ b'p' ∷ b's' ∷ b'e' ∷ b'c' ∷ [])
    ∷ (b'p' ∷ b'p' ∷ b'p' ∷ [])
    ∷ (b't' ∷ b'u' ∷ b'n' ∷ [])
    ∷ (b't' ∷ b'a' ∷ b'p' ∷ [])
    ∷ []

-- `split(": ").next()` and what is behind it, if the text has `: `.
abbrev pub after_colon_space : Bytes → Option Bytes
after_colon_space [] = none
after_colon_space (b ∷ text) =
    let rest = after_colon_space text in
    if starts_with (b ∷ text) (b':' ∷ b' ' ∷ []) then some (drop 1 text) else rest

-- The text up to `: `, or all of it.
abbrev pub before_colon_space : Bytes → Bytes
before_colon_space [] = []
before_colon_space (b ∷ text) =
    let rest = before_colon_space text in
    if starts_with (b ∷ text) (b':' ∷ b' ' ∷ []) then [] else b ∷ rest

-- The name in a line of `ip link show`: the second part between `: `.
abbrev pub name_of : Bytes → Bytes
name_of rest = trim (before_any (λ b. b == b':') (before_colon_space rest))

abbrev pub is_vpn : Bytes → Bool
is_vpn name = any (λ prefix. starts_with name prefix) vpn_iface_prefixes

abbrev pub is_up : Bytes → Bool
is_up line =
    contains line (b'U' ∷ b'P' ∷ b',' ∷ [])
    || contains line (b',' ∷ b'U' ∷ b'P' ∷ [])
    || contains line (b'<' ∷ b'U' ∷ b'P' ∷ b'>' ∷ [])

abbrev pub vpn_of_line : Bytes → Option Bytes → Option Bytes
vpn_of_line line none = none
vpn_of_line line (some rest) =
    if is_vpn (name_of rest) && is_up line then some (name_of rest) else none

abbrev pub or_else {ℓ} : {A : Type ℓ} → Option A → Option A → Option A
or_else none later = later
or_else (some a) later = some a

abbrev pub first_vpn : List Bytes → Option Bytes
first_vpn [] = none
first_vpn (line ∷ rest) = or_else (vpn_of_line line (after_colon_space line)) (first_vpn rest)

-- The output of `ip link show`, or its failure.
unfoldable pub detect_vpn_interface : Option Bytes → Outcome (Option Bytes)
unfolding lines trim starts_with contains before_any
detect_vpn_interface none = refuse
detect_vpn_interface (some text) = ok (first_vpn (lines text))

abbrev pub head : List Bytes → Option Bytes
head [] = none
head (tok ∷ _) = some tok

abbrev pub behind_dev : List Bytes → Option Bytes
behind_dev [] = none
behind_dev (tok ∷ parts) =
    let later = behind_dev parts in
    if eq_bytes tok (b'd' ∷ b'e' ∷ b'v' ∷ []) then head parts else later

unfoldable pub get_default_route_iface : Option Bytes → Option Bytes
unfolding split_whitespace eq_bytes
get_default_route_iface none = none
get_default_route_iface (some text) = behind_dev (split_whitespace text)

-- A change of the DNS of an interface: set to the target and done, or given back to the system.
pub data Change : Type 0 where
  overridden : Bytes → Change
  reverted : Bytes → Change

pub record Guard : Type 0 where
  pub is_vpn_active : Bool
  pub touched_links : List Bytes

-- What the commands of a tick come to: their output, and for `resolvectl dns` with a target whether it
-- succeeds, or none if it cannot be run; `reverts` tells whether `resolvectl revert` does.
pub record Reports : Type 0 where
  pub link_show : Option Bytes
  pub route_show : Option Bytes
  pub status : Bool
  pub dns_of : Bytes → Option Bytes
  pub set_dns : Bytes → Option Bool
  pub reverts : Bytes → Bool
  pub other_order : Bool

-- `insert` of a HashSet.
abbrev pub touch : Bytes → List Bytes → List Bytes
touch iface links = if has links iface then links else iface ∷ links

abbrev pub add_target : Option Bytes → List Bytes → List Bytes
add_target none targets = targets
add_target (some iface) targets = touch iface targets

unfoldable pub is_already_correct : Option Bytes → Bytes → Bool
unfolding contains
is_already_correct none dns_target = false
is_already_correct (some text) dns_target = contains text dns_target

pub record Pass : Type 0 where
  pub goes_on : Bool
  pub links : List Bytes
  pub changes : List Change

-- `resolvectl dns` on one interface. With success the domain of the interface is set as well.
abbrev pub set_on : Bytes → List Bytes → Option Bool → Pass
set_on iface links none = record { goes_on = false; links = links; changes = [] }
set_on iface links (some true) = record {
  goes_on = true;
  links = touch iface links;
  changes = overridden iface ∷ [];
}
set_on iface links (some false) = record { goes_on = true; links = links; changes = [] }

abbrev pub link_pass : Bool → Bytes → List Bytes → Option Bool → Pass
link_pass true iface links set = record { goes_on = true; links = touch iface links; changes = [] }
link_pass false iface links set = set_on iface links set

abbrev pub followed : Pass → Pass → Pass
followed here later =
    if here.goes_on
    then record {
      goes_on = later.goes_on;
      links = later.links;
      changes = here.changes ++ later.changes;
    }
    else here

unfoldable pub link_passes : Reports → Bytes → List Bytes → List Bytes → Pass
unfolding is_already_correct
link_passes reports dns_target links [] = record { goes_on = true; links = links; changes = [] }
link_passes reports dns_target links (iface ∷ targets) =
    let here =
      link_pass (is_already_correct (reports.dns_of iface) dns_target) iface links
        (reports.set_dns iface) in
    let later = link_passes reports dns_target here.links targets in followed here later

-- What a tick comes to: its result, the guard, and the changes that were made.
pub record Ticked : Type 0 where
  pub result : Outcome (Unit {0})
  pub guard : Guard
  pub changes : List Change

abbrev pub reverted_if : Bool → Bytes → List Change → List Change
reverted_if done iface changes = if done then reverted iface ∷ changes else changes

abbrev pub revert_all : (Bytes → Bool) → List Bytes → List Change
revert_all reverts [] = []
revert_all reverts (iface ∷ links) = reverted_if (reverts iface) iface (revert_all reverts links)

-- Also at the end of the process.
unfoldable pub revert : Guard → (Bytes → Bool) → Ticked
revert g reverts = record {
  result = ok tt;
  guard = record g { touched_links = [] };
  changes = revert_all reverts g.touched_links;
}

abbrev pub passed : Guard → Pass → Ticked
passed g pass = record {
  result = if pass.goes_on then ok tt else refuse;
  guard = record g { touched_links = pass.links };
  changes = pass.changes;
}

unfoldable pub reassert_via_resolvectl : Guard → Reports → Bytes → List Bytes → Ticked
unfolding link_passes
reassert_via_resolvectl g reports dns_target targets =
    if reports.status
    then passed g (link_passes reports dns_target g.touched_links targets)
    else record { result = refuse; guard = g; changes = [] }

abbrev pub unless_empty : Guard → Reports → Bytes → List Bytes → Ticked
unless_empty g reports dns_target [] = record { result = refuse; guard = g; changes = [] }
unless_empty g reports dns_target (iface ∷ targets) =
    reassert_via_resolvectl g reports dns_target (iface ∷ targets)

abbrev pub without_vpn : Bool → Guard → Reports → Ticked
without_vpn true g reports = revert g reports.reverts
without_vpn false g reports = record { result = ok tt; guard = g; changes = [] }

-- The at most two targets of a HashSet in one order or the other.
abbrev pub iterated : Bool → List Bytes → List Bytes
iterated false targets = targets
iterated true [] = []
iterated true (a ∷ []) = a ∷ []
iterated true (a ∷ b ∷ targets) = b ∷ a ∷ targets

abbrev pub with_vpn : Guard → Reports → Bytes → Option Bytes → Ticked
with_vpn g reports dns_target none =
    without_vpn g.is_vpn_active (record g { is_vpn_active = false }) reports
with_vpn g reports dns_target (some iface) =
    unless_empty (record g { is_vpn_active = true }) reports dns_target
      (iterated reports.other_order
        (add_target (get_default_route_iface reports.route_show) (iface ∷ [])))

abbrev pub detected : Guard → Reports → Bytes → Outcome (Option Bytes) → Ticked
detected g reports dns_target (ok vpn_iface) = with_vpn g reports dns_target vpn_iface
detected g reports dns_target _ = record { result = refuse; guard = g; changes = [] }

unfoldable pub tick : Guard → Reports → Bytes → Ticked
unfolding detect_vpn_interface get_default_route_iface revert reassert_via_resolvectl
tick g reports dns_target = detected g reports dns_target (detect_vpn_interface reports.link_show)
