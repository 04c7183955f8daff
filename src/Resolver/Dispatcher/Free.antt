-- ===== src/Resolver/Dispatcher/Free.antt =====
-- The search for a free transaction id.
use dns_relay.Prelude.{
  ℕ, zero, suc, ◌+◌, ◌-◌, ◌%◌, ◌<◌, ◌≡◌, Option, none, some, Returns, Returns-bind, Option-cases,
  inl, inr, arith, subst,
}
use native.Mathlib.Decide.{ℕ_discrete}
use dns_relay.InFlight.Maps.{put_self}
use dns_relay.Resolver.Dispatcher.{PendingUdp, UdpDispatcher, next_of, free_id, register}

module _ {Addr : Type 0} (same_addr : (a b : Addr) → Dec (a ≡ b)) where
  -- An id that no request has, and the counter behind it.
  abbrev pub IsFree : (ℕ → Option (PendingUdp same_addr)) → ℕ × ℕ → Type 0
  IsFree pending (id, next) = (id < 65536) × (pending id ≡ none) × (next < 65536)

  free_id-distance :
      (pending : ℕ → Option (PendingUdp same_addr)) (fuel d id : ℕ)
      → d < fuel
      → id < 65536
      → pending ((id + d) % 65536) ≡ none
      → Returns (IsFree pending) (free_id same_addr fuel pending id)
  unfolding free_id
  free_id-distance pending zero d id enough bound free = elim enough [ ]
  free_id-distance pending (suc fuel) zero id enough bound free =
      let here : (id + 0) % 65536 ≡ id = omega arith in
      let open_id : pending id ≡ none = subst (λ i. pending i ≡ none) here free in
      rw open_id (bound, open_id, omega arith)
  free_id-distance pending (suc fuel) (suc d) id enough bound free =
      elim (Option-cases (pending id)) [
        | inl e ↦ rw e (bound, e, omega arith)
        | inr (entry, e) ↦
            let along : (id + suc d) % 65536 ≡ (next_of id + d) % 65536 = omega arith in
            rw e (
              free_id-distance pending fuel d (next_of id) (omega arith) (omega arith)
                (subst (λ i. pending i ≡ none) along free))
      ]

  -- As long as one of the 65536 transaction ids has no request, a new request gets an id that none
  -- has, after at most as many rounds as there are ids, wherever the counter stands and although it
  -- wraps around; the request is entered under that id with its upstream.
  pub register-IsFree :
      (s : UdpDispatcher same_addr) (upstream : Addr) (unused : ℕ)
      → s.next_id < 65536
      → unused < 65536
      → s.pending unused ≡ none
      → Returns
          (λ out.
            (out.0 < 65536)
            × (s.pending out.0 ≡ none)
            × (out.1.next_id < 65536)
            × (out.1.pending out.0 ≡ some (record { upstream = upstream; reply = s.requests })))
          (register same_addr s upstream)
  unfolding register
  register-IsFree s upstream unused bound small free =
      let d = (unused + 65536 - s.next_id) % 65536 in
      let there : unused ≡ (s.next_id + d) % 65536 = omega arith in
      Returns-bind (IsFree s.pending) _ (free_id same_addr 65536 s.pending s.next_id) _
        (free_id-distance s.pending 65536 d s.next_id (omega arith) bound
          (subst (λ i. s.pending i ≡ none) there free))
        (λ found _ (small_id, open_id, small_next).
          (small_id, open_id, small_next, put_self ℕ_discrete s.pending found.0 _))
