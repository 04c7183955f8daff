-- ===== src/Resolver/Dispatcher/Invariant.antt =====
-- Which packets a request may get, whatever the order of requests, replies and ends of requests.
use dns_relay.Prelude.{
  ℕ, ◌+◌, ◌*◌, ◌<◌, ◌≡◌, refl, sym, ap, ◌∙◌, subst, Option, none, some, [], ◌∷◌, ok, >>=-eq-ok,
  arith, inl, inr, Option-cases,
}
use dns_relay.Prelude.Slices.{Bytes}
use native.Mathlib.Decide.{ℕ_discrete}
use dns_relay.InFlight.{put, chosen}
use dns_relay.InFlight.Maps.{put_self, put_other, put_cases}
use dns_relay.Resolver.Dispatcher.{
  PendingUdp, UdpDispatcher, dispatched, dispatch_reply, send_reply, free_id, register, end_resolve,
}

same_id : {A : Type 0} {x y : ℕ × A} → some x ≡ some y → x.0 ≡ y.0
same_id {x = (a, u)} {y = (b, v)} e = cc

same_ok : {A : Type 0} {x y : A} → ok x ≡ ok y → x ≡ y
same_ok e = cc

module _ {Addr : Type 0} (same_addr : (a b : Addr) → Dec (a ≡ b)) where
  abbrev Udp : Type 0
  Udp = UdpDispatcher same_addr

  -- The id and the upstream with which each request was made.
  abbrev pub Asked : Type 0
  Asked = ℕ → Option (ℕ × Addr)

  -- A packet that starts with an id.
  pub record HasId (packet : Bytes) (id : ℕ) : Type 0 where
    pub hi : ℕ
    pub lo : ℕ
    pub rest : Bytes
    pub parts : packet ≡ hi ∷ lo ∷ rest
    pub number : hi * 256 + lo ≡ id

  -- A packet that answers a request.
  pub record Answers (asked : Asked) (request : ℕ) (packet : Bytes) (source : Addr) : Type 0 where
    pub id : ℕ
    pub asked_there : asked request ≡ some (id, source)
    pub has_id : HasId packet id

  pub record IsDispatcher (s : Udp) (asked : Asked) : Type 0 where
    pub waiting :
        (id : ℕ) (entry : PendingUdp same_addr)
        → s.pending id ≡ some entry
        → (asked entry.reply ≡ some (id, entry.upstream))
          × (s.sent entry.reply ≡ none)
          × (entry.reply < s.requests)
    pub answered :
        (request : ℕ) (packet : Bytes) (source : Addr)
        → s.sent request ≡ some (packet, source)
        → Answers asked request packet source × (request < s.requests)

  pub data Reachable : Udp → Asked → Type 0 where
    started :
        (next : ℕ)
        → Reachable
            (record { pending = λ id. none; next_id = next; sent = λ c. none; requests = 0 })
            (λ c. none)
    asks :
        {s s' : Udp} {asked : Asked} (id : ℕ) (upstream : Addr)
        → Reachable s asked
        → register same_addr s upstream ≡ ok (id, s')
        → Reachable s' (put ℕ_discrete asked s.requests (some (id, upstream)))
    hears :
        {s s' : Udp} {asked : Asked} (packet : Bytes) (source : Addr)
        → Reachable s asked
        → dispatch_reply same_addr s packet source ≡ s'
        → Reachable s' asked
    ends :
        {s s' : Udp} {asked : Asked} (id : ℕ)
        → Reachable s asked
        → end_resolve same_addr s id ≡ s'
        → Reachable s' asked

  module _ (s : Udp) (asked : Asked) (w : IsDispatcher s asked) where
    end_resolve-IsDispatcher : (id : ℕ) → IsDispatcher (end_resolve same_addr s id) asked
    unfolding end_resolve
    end_resolve-IsDispatcher id = record {
      waiting = λ i entry h. elim (put_cases ℕ_discrete s.pending id none i (some entry) h) [
        | inl (_, e) ↦ (let refuted = e in cc)
        | inr (_, e) ↦ w.waiting i entry e
      ];
      answered = w.answered;
    }

    abbrev Delivered : ℕ → Option (Bytes × Addr) → Type 0
    Delivered request none = Unit
    Delivered request (some (packet, source)) =
        Answers asked request packet source × (request < s.requests)

    send_reply-IsDispatcher :
        (hi lo : ℕ) (rest : Bytes) (entry : PendingUdp same_addr)
        → s.pending (hi * 256 + lo) ≡ some entry
        → IsDispatcher
            (send_reply same_addr s (hi * 256 + lo) entry (hi ∷ lo ∷ rest) entry.upstream)
            asked
    send_reply-IsDispatcher hi lo rest entry found =
        let (there, _, small) = w.waiting (hi * 256 + lo) entry found in
        let mine : Answers asked entry.reply (hi ∷ lo ∷ rest) entry.upstream = record {
          id = hi * 256 + lo;
          asked_there = there;
          has_id = record { hi = hi; lo = lo; rest = rest; parts = refl; number = refl };
        } in
        record {
          waiting = λ i other h.
              elim (put_cases ℕ_discrete s.pending (hi * 256 + lo) none i (some other) h) [
                | inl (_, e) ↦ (let refuted = e in cc)
                | inr (ne, e) ↦
                    let (asked_other, unsent, below) = w.waiting i other e in
                    (
                      asked_other,
                      put_other ℕ_discrete s.sent entry.reply
                            (some (hi ∷ lo ∷ rest, entry.upstream)) other.reply
                            (λ same_reply.
                              ne (same_id (sym there ∙ ap asked same_reply ∙ asked_other)))
                          ∙ unsent,
                      below,
                    )
              ];
          answered = λ request packet source h.
              elim (put_cases ℕ_discrete s.sent entry.reply (some (hi ∷ lo ∷ rest, entry.upstream))
                request (some (packet, source)) h) [
                  | inl (e, f) ↦ subst (Delivered request) f (
                      subst
                        (λ r. Answers asked r (hi ∷ lo ∷ rest) entry.upstream × (r < s.requests)) e
                        (mine, small))
                  | inr (_, e) ↦ w.answered request packet source e
                ];
        }

    dispatch_reply-IsDispatcher :
        (packet : Bytes) (source : Addr)
        → IsDispatcher (dispatch_reply same_addr s packet source) asked
    unfolding dispatch_reply
    dispatch_reply-IsDispatcher [] source = w
    dispatch_reply-IsDispatcher (b ∷ []) source = w
    dispatch_reply-IsDispatcher (hi ∷ lo ∷ rest) source = on (s.pending (hi * 256 + lo)) refl
      where
        from_upstream :
            (entry : PendingUdp same_addr) (d : Dec (entry.upstream ≡ source))
            → s.pending (hi * 256 + lo) ≡ some entry
            → IsDispatcher
                (chosen d (send_reply same_addr s (hi * 256 + lo) entry (hi ∷ lo ∷ rest) source) s)
                asked
        from_upstream entry (yes e) found =
            subst
              (λ from.
                IsDispatcher (send_reply same_addr s (hi * 256 + lo) entry (hi ∷ lo ∷ rest) from)
                  asked)
              e (send_reply-IsDispatcher hi lo rest entry found)
        from_upstream entry (no _) found = w

        on :
            (o : Option (PendingUdp same_addr))
            → s.pending (hi * 256 + lo) ≡ o
            → IsDispatcher (dispatched same_addr s (hi * 256 + lo) o (hi ∷ lo ∷ rest) source) asked
        on none e = w
        on (some entry) e = from_upstream entry (same_addr entry.upstream source) e

    -- A new request, whatever its id.
    asked_later :
        (id : ℕ) (upstream : Addr) (request : ℕ)
        → request < s.requests
        → put ℕ_discrete asked s.requests (some (id, upstream)) request ≡ asked request
    asked_later id upstream request below =
        put_other ℕ_discrete asked s.requests (some (id, upstream)) request (λ e. omega arith)

    unsent_yet : s.sent s.requests ≡ none
    unsent_yet = elim (Option-cases (s.sent s.requests)) [
      | inl e ↦ e
      | inr ((packet, source), e) ↦
          let (_, below) = w.answered s.requests packet source e in absurd (irrefl below)
    ]
      where
        irrefl : {n : ℕ} → n < n → ⊥
        irrefl h = omega arith

    abbrev Entered : ℕ → Addr → ℕ → Option (PendingUdp same_addr) → Type 0
    Entered id upstream i none = Unit
    Entered id upstream i (some entry) =
        (put ℕ_discrete asked s.requests (some (id, upstream)) entry.reply
          ≡ some (i, entry.upstream))
        × (s.sent entry.reply ≡ none)
        × (entry.reply < s.requests + 1)

    register-IsDispatcher :
        (id next : ℕ) (upstream : Addr)
        → IsDispatcher
            (record s {
              pending =
                  put ℕ_discrete s.pending id
                    (some (record { upstream = upstream; reply = s.requests }));
              next_id = next;
              requests = s.requests + 1;
            })
            (put ℕ_discrete asked s.requests (some (id, upstream)))
    register-IsDispatcher id next upstream = record {
      waiting = λ i entry h.
          elim (put_cases ℕ_discrete s.pending id
            (some (record { upstream = upstream; reply = s.requests })) i (some entry) h) [
              | inl (e, f) ↦ subst (Entered id upstream i) f (
                put_self ℕ_discrete asked s.requests (some (id, upstream))
                    ∙ ap (λ j. some (j, upstream)) e,
                unsent_yet,
                omega arith,
              )
              | inr (_, e) ↦
                  let (there, unsent, below) = w.waiting i entry e in
                  (asked_later id upstream entry.reply below ∙ there, unsent, omega arith)
            ];
      answered = λ request packet source h.
          let (mine, below) = w.answered request packet source h in
          (
            record {
              id = mine.id;
              asked_there = asked_later id upstream request below ∙ mine.asked_there;
              has_id = mine.has_id;
            },
            omega arith,
          );
    }

  registered-IsDispatcher :
      (s : Udp) (asked : Asked)
      → IsDispatcher s asked
      → (s' : Udp) (id : ℕ) (upstream : Addr) → register same_addr s upstream ≡ ok (id, s')
      → IsDispatcher s' (put ℕ_discrete asked s.requests (some (id, upstream)))
  unfolding register
  registered-IsDispatcher s asked w s' id upstream e =
      let ((i, next), _, through) = >>=-eq-ok (free_id same_addr 65536 s.pending s.next_id) _ e in
      let same = same_ok through in
      subst (λ out. IsDispatcher out.1 (put ℕ_discrete asked s.requests (some (out.0, upstream))))
        same (register-IsDispatcher s asked w i next upstream)

  -- A request gets a packet only from the address that it was sent to, and only one that starts with
  -- the transaction id that it was sent with; it gets one packet at most. This is so in every state
  -- that requests, packets from anywhere and ends of requests lead to, in any order.
  pub Reachable-IsDispatcher : (s : Udp) (asked : Asked) → Reachable s asked → IsDispatcher s asked
  Reachable-IsDispatcher s asked (started next) = record {
    waiting = λ id entry h. (let refuted = h in cc);
    answered = λ request packet source h. (let refuted = h in cc);
  }
  Reachable-IsDispatcher s' asked' (asks {s} {asked = asked} id upstream r e) =
      registered-IsDispatcher s asked (Reachable-IsDispatcher s asked r) s' id upstream e
  Reachable-IsDispatcher s' asked (hears {s} packet source r e) =
      subst (λ t. IsDispatcher t asked) e
        (dispatch_reply-IsDispatcher s asked (Reachable-IsDispatcher s asked r) packet source)
  Reachable-IsDispatcher s' asked (ends {s} id r e) =
      subst (λ t. IsDispatcher t asked) e
        (end_resolve-IsDispatcher s asked (Reachable-IsDispatcher s asked r) id)
