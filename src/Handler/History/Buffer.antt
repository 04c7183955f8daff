-- ===== src/Handler/History/Buffer.antt =====
-- The queue of the history buffer over time, with the steps of all who push and of the tasks that flush in
-- any order.
use dns_relay.Prelude.{
  ℕ, suc, ◌+◌, ◌≤◌, ◌<◌, ◌≡◌, refl, sym, ap, ◌∙◌, subst, Bool, true, false, List, [], ◌∷◌, ◌++◌,
  leb, length, length-append, ◌⊎◌, inl, inr, arith, Bool-cases,
}
use dns_relay.Prelude.Slices.{Bytes}
use dns_relay.Handler.History.{
  HistoryBuffer, HistoryBufferEntry, cap, is_nil, queued, flush_if_full, clear_flag, flush_again,
}

-- The buffer, the results of the pushes whose test of the queue is to come, and the number of the tasks
-- that have cleared the flag and are to look whether there are entries.
pub record Running : Type 0 where
  pub buffer : HistoryBuffer
  pub pushes : List Bool
  pub ending : ℕ

abbrev pub full : HistoryBuffer → Bool
full b = leb cap (length b.queue)

pub data Reachable : Running → Type 0 where
  fresh :
      (lines_count : ℕ) (matched_list : List Bytes)
      → Reachable (record {
        buffer = record {
          queue = [];
          flushing = false;
          dropped = 0;
          lines_count = lines_count;
          matched_list = matched_list;
        };
        pushes = [];
        ending = 0;
      })
  push_step :
      {s : Running} (entry : HistoryBufferEntry)
      → Reachable s
      → Reachable (record s {
        buffer = (queued s.buffer entry).1;
        pushes = (queued s.buffer entry).0 ∷ s.pushes;
      })
  test_step :
      {s : Running} (front back : List Bool) (stored : Bool)
      → Reachable s
      → s.pushes ≡ front ++ (stored ∷ back)
      → Reachable (record s { buffer = flush_if_full stored s.buffer; pushes = front ++ back })
  pop_step :
      {s : Running} (entry : HistoryBufferEntry) (queue : List HistoryBufferEntry)
      → Reachable s
      → s.buffer.queue ≡ entry ∷ queue
      → Reachable (record s { buffer = record s.buffer { queue = queue } })
  swap_step :
      {s : Running}
      → Reachable s
      → Reachable (record s { buffer = record s.buffer { dropped = 0 } })
  clear_step :
      {s : Running}
      → Reachable s
      → s.buffer.flushing ≡ true
      → Reachable (record s { buffer = clear_flag s.buffer; ending = s.ending + 1 })
  look_step :
      {s : Running} (n : ℕ)
      → Reachable s
      → s.ending ≡ suc n
      → Reachable (record s { buffer = flush_again s.buffer; ending = n })

-- At most a hundred entries; and if there are as many, a task flushes, or a test is to come.
pub record IsBuffer (s : Running) : Type 0 where
  pub bounded : length s.buffer.queue ≤ cap
  pub drains : full s.buffer ≡ true → (s.buffer.flushing ≡ true) ⊎ (0 < length s.pushes + s.ending)

queued-bounded :
    (b : HistoryBuffer) (entry : HistoryBufferEntry)
    → length b.queue ≤ cap
    → length (queued b entry).1.queue ≤ cap
queued-bounded b entry small = elim (Bool-cases (leb cap (length b.queue))) [
  | inl e ↦ rw e small
  | inr e ↦ rw e (ground (arith, e, length-append b.queue (entry ∷ [])))
]

-- A test on a full buffer leaves a task that flushes.
flush_if_full-full :
    (stored : Bool) (b : HistoryBuffer)
    → full (flush_if_full stored b) ≡ true
    → (flush_if_full stored b).flushing ≡ true
flush_if_full-full false b h = refl
flush_if_full-full true b h = elim (Bool-cases (leb cap (length b.queue))) [
  | inl e ↦ rw e refl
  | inr e ↦ (let refuted = rw (e, e) at h in cc)
]

flush_if_full-queue : (stored : Bool) (b : HistoryBuffer) → (flush_if_full stored b).queue ≡ b.queue
flush_if_full-queue false b = refl
flush_if_full-queue true b = elim (Bool-cases (leb cap (length b.queue))) [
  | inl e ↦ rw e refl
  | inr e ↦ rw e refl
]

flush_again-queue : (b : HistoryBuffer) → (flush_again b).queue ≡ b.queue
flush_again-queue b = elim (Bool-cases (is_nil b.queue)) [ inl e ↦ rw e refl | inr e ↦ rw e refl ]

flush_again-full :
    (b : HistoryBuffer) → full (flush_again b) ≡ true → (flush_again b).flushing ≡ true
flush_again-full b h = elim (Bool-cases (is_nil b.queue)) [
  | inl e ↦
      absurd (empty_full b.queue e (ap (λ q. leb cap (length q)) (sym (flush_again-queue b)) ∙ h))
  | inr e ↦ rw e refl
]
  where
    empty_full :
        (queue : List HistoryBufferEntry) → is_nil queue ≡ true → leb cap (length queue) ≡ true → ⊥
    empty_full [] e h = cc
    empty_full (entry ∷ queue) e h = cc

-- The buffer never holds more than a hundred entries, whatever the order of the steps of those who push and of
-- the tasks that flush. Whenever it is full, a task flushes, or the test of a push or of a task that ends
-- is still to come, which starts one.
pub Reachable-IsBuffer : (s : Running) → Reachable s → IsBuffer s
Reachable-IsBuffer s (fresh lines_count matched_list) = record {
  bounded = omega arith;
  drains = λ h. cc;
}
Reachable-IsBuffer s (push_step {s = before} entry r) = record {
  bounded = queued-bounded before.buffer entry (Reachable-IsBuffer before r).bounded;
  drains = λ h. inr (omega arith);
}
Reachable-IsBuffer s (test_step {s = before} front back stored r e) = record {
  bounded =
      subst (λ q. length q ≤ cap) (sym (flush_if_full-queue stored before.buffer))
        (Reachable-IsBuffer before r).bounded;
  drains = λ h. inl (flush_if_full-full stored before.buffer h);
}
Reachable-IsBuffer s (pop_step {s = before} entry queue r e) =
    let w = Reachable-IsBuffer before r in
    let small : length (entry ∷ queue) ≤ cap = subst (λ q. length q ≤ cap) e w.bounded in
    record { bounded = omega (arith, small); drains = λ h. absurd (ground (arith, small, h)) }
Reachable-IsBuffer s (swap_step {s = before} r) = record {
  bounded = (Reachable-IsBuffer before r).bounded;
  drains = (Reachable-IsBuffer before r).drains;
}
Reachable-IsBuffer s (clear_step {s = before} r e) = record {
  bounded = (Reachable-IsBuffer before r).bounded;
  drains = λ h. inr (omega arith);
}
Reachable-IsBuffer s (look_step {s = before} n r e) = record {
  bounded =
      subst (λ q. length q ≤ cap) (sym (flush_again-queue before.buffer))
        (Reachable-IsBuffer before r).bounded;
  drains = λ h. inl (flush_again-full before.buffer h);
}
