-- ===== src/Netguard/Links.antt =====
-- The interfaces that the changes of a tick override, and those that the guard knows.
use dns_relay.Prelude.{
  ◌≡◌, refl, sym, ap, ◌∙◌, subst, Bool, true, false, Option, none, some, List, [], ◌∷◌, ◌++◌,
  if◌then◌else◌, inl, inr, Bool-cases,
}
use dns_relay.Prelude.Slices.{Bytes}
use dns_relay.Dns.Text.Affix.{eq_bytes, eq_bytes→eq, eq_bytes_self}
use dns_relay.Dns.Text.Spaces.{has}
use dns_relay.Cache.Lru.{Has}
use dns_relay.Netguard.{
  Change, overridden, reverted, Reports, Pass, touch, link_pass, set_on, followed, link_passes,
  revert_all, is_already_correct,
}

-- The interfaces of the system whose DNS is overridden.
abbrev pub removed : Bytes → List Bytes → List Bytes
removed iface [] = []
removed iface (link ∷ links) =
    let rest = removed iface links in if eq_bytes link iface then rest else link ∷ rest

abbrev pub change : Change → List Bytes → List Bytes
change (overridden iface) system = iface ∷ system
change (reverted iface) system = removed iface system

abbrev pub change_all : List Change → List Bytes → List Bytes
change_all [] system = system
change_all (c ∷ changes) system = change_all changes (change c system)

has→Has : (links : List Bytes) (iface : Bytes) → has links iface ≡ true → Has iface links
unfolding has
has→Has [] iface h = cc
has→Has (link ∷ links) iface h = elim (Bool-cases (eq_bytes link iface)) [
  | inl e ↦ inl (sym (eq_bytes→eq link iface e))
  | inr e ↦ inr (has→Has links iface (rw e at h))
]

touch-Has_self : (iface : Bytes) (links : List Bytes) → Has iface (touch iface links)
touch-Has_self iface links = elim (Bool-cases (has links iface)) [
  | inl e ↦ rw e (has→Has links iface e)
  | inr e ↦ rw e (inl refl)
]

touch-Has :
    (iface : Bytes) (links : List Bytes) (i : Bytes) → Has i links → Has i (touch iface links)
touch-Has iface links i m = elim (Bool-cases (has links iface)) [
  | inl e ↦ rw e m
  | inr e ↦ rw e (inr m)
]

change_all-append :
    (front back : List Change) (system : List Bytes)
    → change_all (front ++ back) system ≡ change_all back (change_all front system)
change_all-append [] back system = refl
change_all-append (c ∷ front) back system = change_all-append front back (change c system)

abbrev pub Within : List Bytes → List Bytes → Type 0
Within system links = (i : Bytes) → Has i system → Has i links

set_on-Within :
    (iface : Bytes) (links : List Bytes) (o : Option Bool) (system : List Bytes)
    → Within system links
    → Within (change_all (set_on iface links o).changes system) (set_on iface links o).links
set_on-Within iface links none system w i m = w i m
set_on-Within iface links (some true) system w i (inl e) =
    subst (λ x. Has x (touch iface links)) (sym e) (touch-Has_self iface links)
set_on-Within iface links (some true) system w i (inr m) = touch-Has iface links i (w i m)
set_on-Within iface links (some false) system w i m = w i m

link_pass-Within :
    (correct : Bool) (iface : Bytes) (links : List Bytes) (o : Option Bool) (system : List Bytes)
    → Within system links
    → Within
        (change_all (link_pass correct iface links o).changes system)
        (link_pass correct iface links o).links
link_pass-Within true iface links o system w i m = touch-Has iface links i (w i m)
link_pass-Within false iface links o system w i m = set_on-Within iface links o system w i m

followed-Within :
    (here later : Pass) (system : List Bytes)
    → Within (change_all here.changes system) here.links
    → Within (change_all later.changes (change_all here.changes system)) later.links
    → Within (change_all (followed here later).changes system) (followed here later).links
followed-Within here later system first second i = elim (Bool-cases here.goes_on) [
  | inl e ↦ rw (e, change_all-append here.changes later.changes system) (second i)
  | inr e ↦ rw e (first i)
]

pub link_passes-Within :
    (reports : Reports) (dns_target : Bytes) (targets links system : List Bytes)
    → Within system links
    → Within
        (change_all (link_passes reports dns_target links targets).changes system)
        (link_passes reports dns_target links targets).links
unfolding link_passes
link_passes-Within reports dns_target [] links system w = w
link_passes-Within reports dns_target (iface ∷ targets) links system w =
    let here =
      link_pass (is_already_correct (reports.dns_of iface) dns_target) iface links
        (reports.set_dns iface) in
    let first =
      link_pass-Within (is_already_correct (reports.dns_of iface) dns_target) iface links
        (reports.set_dns iface) system w in
    followed-Within here (link_passes reports dns_target here.links targets) system first (
      link_passes-Within reports dns_target targets here.links (change_all here.changes system)
        first)

removed-Has :
    (iface : Bytes) (system : List Bytes) (i : Bytes)
    → Has i (removed iface system)
    → Has i system × (eq_bytes i iface ≡ false)
removed-Has iface [] i m = absurd m
removed-Has iface (link ∷ links) i m = elim (Bool-cases (eq_bytes link iface)) [
  | inl e ↦ (let (later, differs) = removed-Has iface links i (rw e at m) in (inr later, differs))
  | inr e ↦ kept e (removed-Has iface links i) (rw e at m)
]
  where
    kept :
        eq_bytes link iface ≡ false
        → (Has i (removed iface links) → Has i links × (eq_bytes i iface ≡ false))
        → Has i (link ∷ removed iface links)
        → Has i (link ∷ links) × (eq_bytes i iface ≡ false)
    kept e below (inl same) = (inl same, ap (λ x. eq_bytes x iface) same ∙ e)
    kept e below (inr later) = (let (found, differs) = below later in (inr found, differs))

apart_all :
    (i link : Bytes) (links : List Bytes)
    → eq_bytes i link ≡ false
    → (Has i links → ⊥)
    → Has i (link ∷ links)
    → ⊥
apart_all i link links differs apart (inl same) =
    (let refuted = ap (eq_bytes i) same ∙ differs in let self = eq_bytes_self i in cc)
apart_all i link links differs apart (inr later) = apart later

-- What is left after the reverts was not among the links.
pub revert_all-Has :
    (reverts : Bytes → Bool) (links system : List Bytes) (i : Bytes)
    → ((x : Bytes) → reverts x ≡ true)
    → Has i (change_all (revert_all reverts links) system)
    → Has i system × (Has i links → ⊥)
revert_all-Has reverts [] system i works m = (m, λ none_of. absurd none_of)
revert_all-Has reverts (link ∷ links) system i works m =
    let (left, apart) =
      revert_all-Has reverts links (removed link system) i works (rw (works link) at m) in
    let (there, differs) = removed-Has link system i left in
    (there, λ found. apart_all i link links differs apart found)
