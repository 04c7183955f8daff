-- ===== src/Handler/Query/Ids.antt =====
-- The transaction ids of the answers to a query.
use dns_relay.Prelude.{
  ℕ, zero, suc, ◌+◌, ◌≤◌, ◌≡◌, refl, sym, ap, ◌∙◌, subst, false, List, [], ◌∷◌, ◌++◌, ltb, leb,
  length, set, take, Ensures, Ensures-bind, Settles, arith, Bool-cases, inl, inr,
}
use dns_relay.Prelude.Slices.{Bytes, slice, slice_lem}
use dns_relay.Dns.Ipv4.{Ipv4Addr}
use dns_relay.Dns.Respond.{
  set_flags, craft_nxdomain_response, craft_redirect_response, insert_answers, parse_all, is_nil,
  with_txid,
}

-- A packet that has the id `hi`, `lo`, unless it is too short for one: the stamp changes nothing.
abbrev pub IsStamped : ℕ → ℕ → Bytes → Type 0
IsStamped hi lo packet = with_txid packet hi lo ≡ packet

with_txid-cons : (a b hi lo : ℕ) (rest : Bytes) → with_txid (a ∷ b ∷ rest) hi lo ≡ hi ∷ lo ∷ rest
unfolding with_txid
with_txid-cons a b hi lo rest = elim (Bool-cases (leb 2 (length (a ∷ b ∷ rest)))) [
  | inl e ↦ rw e refl
  | inr e ↦ absurd (ground (arith, e))
]

with_txid-short :
    (packet : Bytes) (hi lo : ℕ) → leb 2 (length packet) ≡ false → with_txid packet hi lo ≡ packet
unfolding with_txid
with_txid-short packet hi lo e = rw e refl

pub with_txid-IsStamped : (packet : Bytes) (hi lo : ℕ) → IsStamped hi lo (with_txid packet hi lo)
with_txid-IsStamped [] hi lo =
    with_txid-short (with_txid [] hi lo) hi lo
      (ap (λ p. leb 2 (length p)) (with_txid-short [] hi lo refl))
with_txid-IsStamped (x ∷ []) hi lo =
    with_txid-short (with_txid (x ∷ []) hi lo) hi lo
      (ap (λ p. leb 2 (length p)) (with_txid-short (x ∷ []) hi lo refl))
with_txid-IsStamped (x ∷ y ∷ rest) hi lo =
    rw (with_txid-cons x y hi lo rest) (with_txid-cons hi lo hi lo rest)

-- The last stamp counts.
pub with_txid-with_txid :
    (packet : Bytes) (a b hi lo : ℕ)
    → with_txid (with_txid packet a b) hi lo ≡ with_txid packet hi lo
with_txid-with_txid [] a b hi lo = ap (λ p. with_txid p hi lo) (with_txid-short [] a b refl)
with_txid-with_txid (x ∷ []) a b hi lo =
    ap (λ p. with_txid p hi lo) (with_txid-short (x ∷ []) a b refl)
with_txid-with_txid (x ∷ y ∷ rest) a b hi lo =
    ap (λ p. with_txid p hi lo) (with_txid-cons x y a b rest)
    ∙ with_txid-cons a b hi lo rest
    ∙ sym (with_txid-cons x y hi lo rest)

slice-Settles :
    (buf : Bytes) (from to : ℕ) → from ≤ to → to ≤ length buf → Settles (slice buf from to)
slice-Settles buf from to p h = rw (slice_lem buf from to p h) tt

module _ (a b : ℕ) (rest : Bytes) where
  pub craft_nxdomain_response-IsStamped :
      Ensures (IsStamped a b) (craft_nxdomain_response (a ∷ b ∷ rest))
  unfolding craft_nxdomain_response
  craft_nxdomain_response-IsStamped = elim (Bool-cases (ltb (length (a ∷ b ∷ rest)) 12)) [
    | inl e ↦ rw e tt
    | inr e ↦ rw e (with_txid-cons a b a b (set (set rest 0 0x81) 1 0x83))
  ]

  take_two : (n : ℕ) (s : Bytes) → 2 ≤ n → (t : Bytes) × (take n (a ∷ b ∷ s) ≡ a ∷ b ∷ t)
  take_two zero s h = absurd (omega arith)
  take_two (suc zero) s h = absurd (omega arith)
  take_two (suc (suc n)) s h = (take n s, refl)

  spliced-IsStamped : (n : ℕ) (s tail : Bytes) → 2 ≤ n → IsStamped a b (take n (a ∷ b ∷ s) ++ tail)
  spliced-IsStamped n s tail h =
      let (t, e) = take_two n s h in
      subst (λ front. IsStamped a b (front ++ tail)) (sym e) (with_txid-cons a b a b (t ++ tail))

  insert_answers-IsStamped :
      (q : ℕ) (ips : List Ipv4Addr) → Ensures (IsStamped a b) (insert_answers (a ∷ b ∷ rest) q ips)
  unfolding insert_answers
  insert_answers-IsStamped q ips = elim (Bool-cases (ltb (length (a ∷ b ∷ rest)) 12)) [
    | inl e ↦ rw e tt
    | inr e ↦ rw e (elim (Bool-cases (ltb (length (set_flags (a ∷ b ∷ rest) 0x81 0x80)) (q + 4))) [
      | inl f ↦ rw f tt
      | inr f ↦
          let resp = set_flags (a ∷ b ∷ rest) 0x81 0x80 in
          rw f (
            Ensures-bind (λ _. Unit {0}) _ (slice resp q (q + 2)) _
              (slice-Settles resp q (q + 2) (omega arith) (ground (arith, f)))
              (λ qtype _ _.
                Ensures-bind (λ _. Unit {0}) _ (slice resp (q + 2) (q + 4)) _
                  (slice-Settles resp (q + 2) (q + 4) (omega arith) (ground (arith, f)))
                  (λ qclass _ _. elim (Bool-cases (is_nil ips)) [
                    | inl g ↦ rw g tt
                    | inr g ↦ rw g (spliced-IsStamped (q + 4) _ _ (omega arith))
                  ])))
    ])
  ]

  pub craft_redirect_response-IsStamped :
      (q : ℕ) (ips : List Bytes)
      → Ensures (IsStamped a b) (craft_redirect_response (a ∷ b ∷ rest) q ips)
  unfolding craft_redirect_response
  craft_redirect_response-IsStamped q ips = insert_answers-IsStamped q (parse_all ips)
