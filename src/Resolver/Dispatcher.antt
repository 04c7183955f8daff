-- ===== src/Resolver/Dispatcher.antt =====
-- The UDP dispatcher of dns_relay/src/resolver.rs: requests that wait for a reply are known by the
-- transaction id that they were sent with. A oneshot channel is known by the number of its request;
-- what was sent over it is the packet with the address that it came from. An address is a value of the
-- parameter `Addr`.
pub mod Free
pub mod Invariant
use dns_relay.Prelude.{
  ℕ, zero, suc, ◌+◌, ◌*◌, ◌/◌, ◌%◌, ◌≡◌, Bool, Option, none, some, [], ◌∷◌, ◌==◌, ltb,
  if◌then◌else◌, length, Outcome, ok, refuse, out_of_fuel, ◌>>=◌,
}
use dns_relay.Prelude.Slices.{Bytes}
use native.Mathlib.Decide.{ℕ_discrete}
use dns_relay.InFlight.{put, chosen}
use dns_relay.Dns.Respond.{with_txid}

-- `self.next_id.fetch_add(1, ..)`: the counter afterwards.
abbrev pub next_of : ℕ → ℕ
next_of id = (id + 1) % 65536

abbrev pub taken {ℓ κ} : {A : Type ℓ} {B : Type κ} → Option A → B → B → B
taken none free other = free
taken (some _) free other = other

module _ {Addr : Type 0} (same_addr : (a b : Addr) → Dec (a ≡ b)) where
  pub record PendingUdp : Type 0 where
    pub upstream : Addr
    pub reply : ℕ

  -- The map of the requests that wait, the counter of the ids, what the channels hold, and the number
  -- of the next request.
  pub record UdpDispatcher : Type 0 where
    pub pending : ℕ → Option PendingUdp
    pub next_id : ℕ
    pub sent : ℕ → Option (Bytes × Addr)
    pub requests : ℕ

  abbrev pub remove : UdpDispatcher → ℕ → UdpDispatcher
  remove s id = record s { pending = put ℕ_discrete s.pending id none }

  abbrev pub send_reply : UdpDispatcher → ℕ → PendingUdp → Bytes → Addr → UdpDispatcher
  send_reply s id entry packet source = record s {
    pending = put ℕ_discrete s.pending id none;
    sent = put ℕ_discrete s.sent entry.reply (some (packet, source));
  }

  abbrev pub dispatched : UdpDispatcher → ℕ → Option PendingUdp → Bytes → Addr → UdpDispatcher
  dispatched s id none packet source = s
  dispatched s id (some entry) packet source =
      chosen (same_addr entry.upstream source) (send_reply s id entry packet source) s

  unfoldable pub dispatch_reply : UdpDispatcher → Bytes → Addr → UdpDispatcher
  dispatch_reply s (hi ∷ lo ∷ rest) source =
      dispatched s (hi * 256 + lo) (s.pending (hi * 256 + lo)) (hi ∷ lo ∷ rest) source
  dispatch_reply s _ source = s

  -- `while pending.contains_key(&id)`: the id found, and the counter.
  unfoldable pub free_id : ℕ → (ℕ → Option PendingUdp) → ℕ → Outcome (ℕ × ℕ)
  free_id zero pending id = out_of_fuel
  free_id (suc fuel) pending id =
      let later = free_id fuel pending (next_of id) in
      taken (pending id) (ok (id, next_of id)) later

  -- One round for each transaction id.
  unfoldable pub register : UdpDispatcher → Addr → Outcome (ℕ × UdpDispatcher)
  unfolding free_id
  register s upstream = do
    (id, next) ← free_id 65536 s.pending s.next_id
    ok (
      id,
      record s {
        pending =
            put ℕ_discrete s.pending id (some (record { upstream = upstream; reply = s.requests }));
        next_id = next;
        requests = s.requests + 1;
      },
    )

  -- The request up to the wait for its reply: the query sent to the upstream and its id, or the error
  -- for a query without an id, at which the guard removes the entry.
  abbrev sent_query : Bytes → ℕ → UdpDispatcher → Outcome (Bytes × ℕ) × UdpDispatcher
  sent_query payload id s =
      if ltb (length payload) 2
      then (refuse, remove s id)
      else (ok (with_txid payload (id / 256) (id % 256), id), s)

  unfoldable pub begin_resolve :
      UdpDispatcher → Bytes → Addr → Outcome (Outcome (Bytes × ℕ) × UdpDispatcher)
  unfolding register with_txid
  begin_resolve s payload upstream = do
    (id, registered) ← register s upstream
    ok (sent_query payload id registered)

  -- The reply of a request, once there is one; its guard removes the id when the request ends, with
  -- the reply or without it.
  abbrev packet_of : Option (Bytes × Addr) → Option Bytes
  packet_of none = none
  packet_of (some (packet, source)) = some packet

  abbrev pub received : UdpDispatcher → ℕ → Option Bytes
  received s request = packet_of (s.sent request)

  unfoldable pub end_resolve : UdpDispatcher → ℕ → UdpDispatcher
  end_resolve s id = remove s id
