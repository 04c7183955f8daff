-- ===== src/Proxy/Forward.antt =====
-- The fallback over the targets of the proxy.
use dns_relay.Prelude.{
  ℕ, ◌%◌, ◌≡◌, refl, sym, ap, ◌∙◌, subst, Option, none, some, List, [], ◌∷◌, ◌++◌, length, take,
  drop, take-append-drop, Outcome, ok, refuse, panic, out_of_fuel, attempt, ◌>>=◌, Ensures-bind,
  Ensures-map, Settles, Returns, ◌⊎◌, inl, inr, >>=-eq-ok, ◌↔◌,
}
use dns_relay.Prelude.Slices.{Bytes}
use dns_relay.Cache.Lru.{Has}
use dns_relay.Obfs.{Aead, Draws, encode, decode}
use dns_relay.Obfs.RoundTrip.{IsOpened, decode-IsOpened}
use dns_relay.Proxy.{
  TransportMode, plain_udp, udp_obfs, ProxyStrategy, in_order, round_robin, ResolvedTarget,
  TargetPicker, rotated, ordered_by, try_order, send_to, first_reply, forward_query, send_plain,
  send_obfs, by_mode, received, key_of, resolve_targets, ProxyTarget, first_address,
}

Has-left : {A : Type 0} (xs ys : List A) (x : A) → Has x xs → Has x (xs ++ ys)
Has-left (y ∷ xs) ys x (inl e) = inl e
Has-left (y ∷ xs) ys x (inr m) = inr (Has-left xs ys x m)
Has-left [] ys x m = absurd m

Has-right : {A : Type 0} (xs ys : List A) (x : A) → Has x ys → Has x (xs ++ ys)
Has-right [] ys x m = m
Has-right (y ∷ xs) ys x m = inr (Has-right xs ys x m)

Has-cases : {A : Type 0} (xs ys : List A) (x : A) → Has x (xs ++ ys) → Has x xs ⊎ Has x ys
Has-cases [] ys x m = inr m
Has-cases (y ∷ xs) ys x (inl e) = inl (inl e)
Has-cases (y ∷ xs) ys x (inr m) = elim (Has-cases xs ys x m) [ inl l ↦ inl (inr l) | inr r ↦ inr r ]

Has-swap : {A : Type 0} (xs ys : List A) (x : A) → Has x (xs ++ ys) → Has x (ys ++ xs)
Has-swap xs ys x m = elim (Has-cases xs ys x m) [
  | inl l ↦ Has-right ys xs x l
  | inr r ↦ Has-left ys xs x r
]

same_ok : {A : Type 0} {x y : A} → ok x ≡ ok y → x ≡ y
same_ok e = cc

module _ (Key Addr : Type 0) where
  abbrev Target : Type 0
  Target = ResolvedTarget Key Addr

  abbrev pub Picker : Type 0
  Picker = TargetPicker Key Addr

  -- The targets in the order of an attempt are those of the picker.
  Has-rotated :
      (targets order : List Target) (cursor : ℕ) (x : Target)
      → rotated Key Addr targets cursor ≡ ok order
      → Has x order ↔ Has x targets
  Has-rotated [] order cursor x e = ((λ m. cc), (λ m. cc))
  Has-rotated (t ∷ ts) order cursor x e =
      let start = cursor % length (t ∷ ts) in
      let whole = take-append-drop start (t ∷ ts) in
      let same = same_ok e in
      (
        (λ m.
            subst (Has x) whole (
              Has-swap (drop start (t ∷ ts)) (take start (t ∷ ts)) x (subst (Has x) (sym same) m))),
        (λ m.
            subst (Has x) same (
              Has-swap (take start (t ∷ ts)) (drop start (t ∷ ts)) x
                (subst (Has x) (sym whole) m))),
      )

  -- A target that can be asked: one without obfuscation, or one with a key.
  abbrev pub IsKeyed : Target → Type 0
  IsKeyed target = (target.mode ≡ plain_udp) ⊎ ((k : Key) × (target.key ≡ some k))

  key_of-IsKeyed :
      (from_base64 : Bytes → Option Key) (name : Bytes) (addr : Addr) (mode : TransportMode)
      (shared : Option Bytes) (key : Option Key)
      → key_of Key Addr from_base64 mode shared ≡ ok key
      → IsKeyed (record { name = name; mode = mode; addr = addr; key = key })
  key_of-IsKeyed from_base64 name addr plain_udp shared key e = inl refl
  key_of-IsKeyed from_base64 name addr udp_obfs none key e = cc
  key_of-IsKeyed from_base64 name addr udp_obfs (some text) key e = read (from_base64 text) e
    where
      read :
          (o : Option Key)
          → elim o [ none ↦ refuse | some k ↦ ok (some k) ] ≡ ok key
          → (udp_obfs ≡ plain_udp) ⊎ ((k : Key) × (key ≡ some k))
      read none e = cc
      read (some k) e = inr (k, same_key e)
        where
          same_key : {A : Type 0} {x y : A} → ok x ≡ ok y → y ≡ x
          same_key e = cc

  module _ (aead : Aead Key) (draws : Addr → Draws) (exchange : Addr → Bytes → Option Bytes) where
    abbrev sends : Target → Bytes → Outcome Bytes
    sends target query = send_to Key Addr aead draws exchange target query

    received-Settles : (o : Option Bytes) → Settles (received Key Addr aead draws exchange o)
    received-Settles none = tt
    received-Settles (some reply) = tt

    send_obfs-Settles :
        (addr : Addr) (key : Key) (query : Bytes)
        → Settles (send_obfs Key Addr aead draws exchange addr key query)
    unfolding send_obfs
    send_obfs-Settles addr key query =
        Ensures-bind (λ _. Unit {0}) _
          (received Key Addr aead draws exchange
            (exchange addr (encode aead key (draws addr) query)))
          _ (received-Settles (exchange addr (encode aead key (draws addr) query)))
          (λ reply _ _.
            Ensures-map (IsOpened aead key reply) (λ _. Unit {0}) (decode aead key reply)
              (λ _ _. tt) (decode-IsOpened aead key reply))

    send_to-Settles :
        (target : Target) (query : Bytes) → IsKeyed target → Settles (sends target query)
    unfolding send_to send_plain
    send_to-Settles target query (inl e) = rw e (received-Settles (exchange target.addr query))
    send_to-Settles target query (inr (k, e)) = on target.mode
      where
        on :
            (mode : TransportMode)
            → Settles (by_mode Key Addr aead draws exchange mode target query)
        on plain_udp = received-Settles (exchange target.addr query)
        on udp_obfs = rw e (send_obfs-Settles target.addr k query)

    -- What comes of asking some targets: the reply of one of them, or none because each of them failed.
    abbrev pub Tried : List Target → Bytes → Outcome Bytes → Type 0
    Tried targets query (ok reply) =
        (target : Target) × Has target targets × (sends target query ≡ ok reply)
    Tried targets query refuse =
        (target : Target) → Has target targets → sends target query ≡ refuse
    Tried targets query panic = ⊥
    Tried targets query out_of_fuel = ⊥

    first_reply-Tried :
        (targets : List Target) (query : Bytes)
        → ((target : Target) → Has target targets → IsKeyed target)
        → Tried targets query (first_reply Key Addr aead draws exchange targets query)
    unfolding first_reply
    first_reply-Tried [] query keyed = λ target m. absurd m
    first_reply-Tried (t ∷ ts) query keyed =
        on (sends t query) refl (send_to-Settles t query (keyed t (inl refl)))
          (first_reply Key Addr aead draws exchange ts query)
          (first_reply-Tried ts query (λ target m. keyed target (inr m)))
      where
        more :
            (rest : Outcome Bytes)
            → sends t query ≡ refuse
            → Tried ts query rest
            → Tried (t ∷ ts) query rest
        more (ok reply) e (target, m, answers) = (target, inr m, answers)
        more refuse e failed = λ target m. either m
          where
            either : {target : Target} → Has target (t ∷ ts) → sends target query ≡ refuse
            either (inl same) = ap (λ x. sends x query) same ∙ e
            either {target} (inr m) = failed target m
        more panic e h = h
        more out_of_fuel e h = h

        on :
            (o : Outcome Bytes)
            → sends t query ≡ o
            → Settles o
            → (rest : Outcome Bytes) → Tried ts query rest
            → Tried (t ∷ ts) query (attempt o (λ reply. ok reply) rest)
        on (ok reply) e s rest h = (t, inl refl, e)
        on refuse e s rest h = more rest e h
        on panic e s rest h = absurd s
        on out_of_fuel e s rest h = absurd s

  resolve_targets-IsKeyed :
      (to_socket_addrs : Bytes → Option (List Addr)) (from_base64 : Bytes → Option Key)
      (conf : List (ProxyTarget Key Addr)) (targets : List Target) (x : Target)
      → resolve_targets Key Addr to_socket_addrs from_base64 conf ≡ ok targets
      → Has x targets
      → IsKeyed x
  unfolding resolve_targets
  resolve_targets-IsKeyed to_socket_addrs from_base64 [] targets x e m =
      absurd (subst (Has x) (sym (same_ok e)) m)
  resolve_targets-IsKeyed to_socket_addrs from_base64 (c ∷ conf) targets x e m =
      let (addr, _, e1) = >>=-eq-ok (first_address Key Addr (to_socket_addrs c.address)) _ e in
      let (key, keyed, e2) =
        >>=-eq-ok (key_of Key Addr from_base64 c.transport c.shared_key) _ e1 in
      let (others, rest, e3) =
        >>=-eq-ok (resolve_targets Key Addr to_socket_addrs from_base64 conf) _ e2 in
      elim (subst (Has x) (sym (same_ok e3)) m) [
        | inl same ↦
            subst IsKeyed (sym same)
              (key_of-IsKeyed from_base64 c.target_name addr c.transport c.shared_key key keyed)
        | inr later ↦ resolve_targets-IsKeyed to_socket_addrs from_base64 conf others x rest later
      ]

  module _ (aead : Aead Key) (draws : Addr → Draws) (exchange : Addr → Bytes → Option Bytes) where
    Tried-same :
        (front back : List Target) (query : Bytes) (result : Outcome Bytes)
        → ((x : Target) → Has x front ↔ Has x back)
        → Tried aead draws exchange front query result
        → Tried aead draws exchange back query result
    Tried-same front back query (ok reply) same (target, m, e) = (target, (same target).0 m, e)
    Tried-same front back query refuse same failed = λ target m. failed target ((same target).1 m)
    Tried-same front back query panic same h = h
    Tried-same front back query out_of_fuel same h = h

    ordered-Tried :
        (targets : List Target) (query : Bytes) (order : Outcome (List Target))
        → ((x : Target) → Has x targets → IsKeyed x)
        → Returns (λ out. (x : Target) → Has x out ↔ Has x targets) order
        → Tried aead draws exchange targets query
            (order >>= (λ out. first_reply Key Addr aead draws exchange out query))
    ordered-Tried targets query (ok out) keyed same =
        Tried-same out targets query (first_reply Key Addr aead draws exchange out query) same
          (first_reply-Tried aead draws exchange out query (λ x m. keyed x ((same x).0 m)))
    ordered-Tried targets query refuse keyed same = absurd same
    ordered-Tried targets query panic keyed same = absurd same
    ordered-Tried targets query out_of_fuel keyed same = absurd same

    -- The targets of a configuration that was accepted are all tried before a query fails, wherever the
    -- round robin starts: the result is the reply of one of them, or each of them has failed. The key
    -- that a target with obfuscation needs is there.
    pub forward_query-Tried :
        (to_socket_addrs : Bytes → Option (List Addr)) (from_base64 : Bytes → Option Key)
        (conf : List (ProxyTarget Key Addr)) (t : Target) (ts : List Target)
        (strategy : ProxyStrategy) (cursor : ℕ) (query : Bytes)
        → resolve_targets Key Addr to_socket_addrs from_base64 conf ≡ ok (t ∷ ts)
        → Tried aead draws exchange
            (t ∷ ts)
            query
            (forward_query Key Addr aead draws exchange
              (record { targets = t ∷ ts; strategy = strategy; cursor = cursor })
              query).0
    unfolding forward_query try_order
    forward_query-Tried to_socket_addrs from_base64 conf t ts strategy cursor query accepted =
        let keyed = λ (x : Target) (m : Has x (t ∷ ts)).
          resolve_targets-IsKeyed to_socket_addrs from_base64 conf (t ∷ ts) x accepted m in
        by_strategy strategy keyed
      where
        by_strategy :
            (s : ProxyStrategy)
            → ((x : Target) → Has x (t ∷ ts) → IsKeyed x)
            → Tried aead draws exchange (t ∷ ts) query (
                (ordered_by Key Addr s
                  (record { targets = t ∷ ts; strategy = s; cursor = cursor })).0
                >>= (λ out. first_reply Key Addr aead draws exchange out query))
        by_strategy in_order keyed = first_reply-Tried aead draws exchange (t ∷ ts) query keyed
        by_strategy round_robin keyed =
            ordered-Tried (t ∷ ts) query (rotated Key Addr (t ∷ ts) cursor) keyed (λ x.
              Has-rotated (t ∷ ts)
                (drop (cursor % length (t ∷ ts)) (t ∷ ts)
                  ++ take (cursor % length (t ∷ ts)) (t ∷ ts))
                cursor x refl)
