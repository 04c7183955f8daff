-- ===== src/Obfs/RoundTrip.antt =====
-- What a datagram decodes to, and how long it is.
use dns_relay.Prelude.{
  ℕ, zero, suc, ◌+◌, ◌-◌, ◌*◌, ◌/◌, ◌%◌, ◌≤◌, ◌<◌, ◌≡◌, refl, ap, ◌∙◌, sym, false, some, [], ◌∷◌,
  ◌++◌, arith, ltb, length, take, drop, length-append, take-append, drop-append, length-take,
  length-drop, ok, subst, Bool-cases, inl, inr, Ensures, Ensures-map, Option-cases,
  take-append-drop,
}
use dns_relay.Prelude.Slices.{Bytes, slice_lem, u16_at_lem, be16}
use dns_relay.Prelude.Seams.{slice-right}
use dns_relay.Obfs.{
  Aead, AeadLaws, Draws, nonce_len, len_prefix, tag_len, pad_len, random_padding, plaintext_of,
  encode, unwrap, decode,
}

length-random_padding : (draw : ℕ → ℕ) (n : ℕ) → length (random_padding draw n) ≡ n
length-random_padding draw zero = refl
length-random_padding draw (suc n) = ap suc (length-random_padding draw n)

length-plaintext_of :
    (d : Draws) (query : Bytes)
    → length (plaintext_of d query) ≡ len_prefix + length query + pad_len d
length-plaintext_of d query = omega (
  arith,
  length-append query (random_padding d.pad_byte (pad_len d)),
  length-random_padding d.pad_byte (pad_len d),
)

unwrap-framed :
    (a b : ℕ) (query pad : Bytes)
    → a * 256 + b ≡ length query
    → unwrap (a ∷ b ∷ (query ++ pad)) ≡ ok query
unfolding unwrap
unwrap-framed a b query pad e =
    let size = length-append query pad in
    ground (
      arith,
      u16_at_lem (a ∷ b ∷ (query ++ pad)) 0,
      slice-right (a ∷ b ∷ []) query pad 2 (2 + (a * 256 + b)),
    )

unwrap-plaintext_of :
    (d : Draws) (query : Bytes) → length query < 65536 → unwrap (plaintext_of d query) ≡ ok query
unwrap-plaintext_of d query h =
    unwrap-framed (length query % 65536 / 256 % 256) (length query % 65536 % 256) query
      (random_padding d.pad_byte (pad_len d)) (omega arith)

module _ {Key : Type 0} (aead : Aead Key) (laws : AeadLaws aead) where
  -- A datagram is 62 to 222 bytes longer than its query, by the draw for the padding alone.
  pub length-encode :
      (key : Key) (d : Draws) (query : Bytes)
      → length d.nonce ≡ nonce_len
      → (length query + 62 ≤ length (encode aead key d query))
        × (length (encode aead key d query) ≤ length query + 222)
        × (length (encode aead key d query) ≡ length query + 30 + pad_len d)
  unfolding encode
  length-encode key d query n =
      let outer = length-append d.nonce (aead.encrypt key d.nonce (plaintext_of d query)) in
      let inner = laws.length-encrypt key d.nonce (plaintext_of d query) in
      let whole = length-plaintext_of d query in (omega arith, omega arith, omega arith)

  -- What was encoded is decoded again, whatever the draws, for a query whose length a `u16` holds.
  pub decode-encode :
      (key : Key) (d : Draws) (query : Bytes)
      → length d.nonce ≡ nonce_len
      → length query < 65536
      → decode aead key (encode aead key d query) ≡ ok query
  unfolding decode encode
  decode-encode key d query n h =
      let sealed = aead.encrypt key d.nonce (plaintext_of d query) in
      let (low, _, _) = length-encode key d query n in
      let first : take nonce_len (d.nonce ++ sealed) ≡ d.nonce =
        subst (λ k. take k (d.nonce ++ sealed) ≡ d.nonce) n (take-append d.nonce sealed) in
      let second : drop nonce_len (d.nonce ++ sealed) ≡ sealed =
        subst (λ k. drop k (d.nonce ++ sealed) ≡ sealed) n (drop-append d.nonce sealed) in
      let opened = laws.decrypt-encrypt key d.nonce (plaintext_of d query) in
      let enough : ltb (length (d.nonce ++ sealed)) (nonce_len + tag_len + len_prefix) ≡ false =
        ground (arith, low) in
      rw (enough, first, second, opened) (unwrap-plaintext_of d query h)

-- A query and the authenticated plaintext that it was taken from.
pub record Framed (plaintext query : Bytes) : Type 0 where
  pub prefix : Bytes
  pub pad : Bytes
  pub parts : plaintext ≡ prefix ++ (query ++ pad)
  pub size : length prefix ≡ len_prefix
  pub counted : be16 plaintext 0 ≡ length query

cut-Framed :
    (plaintext : Bytes) (len : ℕ)
    → be16 plaintext 0 ≡ len
    → 2 + len ≤ length plaintext
    → Framed plaintext (take (2 + len - 2) (drop 2 plaintext))
cut-Framed plaintext len e h =
    let n : 2 + len - 2 ≡ len = omega arith in
    record {
      prefix = take 2 plaintext;
      pad = drop (2 + len - 2) (drop 2 plaintext);
      parts =
          sym (take-append-drop 2 plaintext)
          ∙ ap (◌++◌ (take 2 plaintext)) (sym (take-append-drop (2 + len - 2) (drop 2 plaintext)));
      size = omega (arith, length-take 2 plaintext);
      counted =
          omega (arith, length-take (2 + len - 2) (drop 2 plaintext), length-drop 2 plaintext);
    }

unwrap-Framed : (plaintext : Bytes) → Ensures (Framed plaintext) (unwrap plaintext)
unfolding unwrap
unwrap-Framed plaintext = elim (Bool-cases (ltb (length plaintext) 2)) [
  | inl short ↦ rw short tt
  | inr long ↦
      rw (long, u16_at_lem plaintext 0 (ground arith))
        (elim (Bool-cases (ltb (length plaintext) (2 + be16 plaintext 0))) [
          | inl lies ↦ rw lies tt
          | inr fits ↦
              rw (fits, slice_lem plaintext 2 (2 + be16 plaintext 0) (omega arith) (ground arith))
                (cut-Framed plaintext (be16 plaintext 0) refl (ground arith))
        ])
]

-- A query that a datagram is said to hold was framed in a plaintext that the cipher authenticated.
pub record IsOpened {Key : Type 0} (aead : Aead Key) (key : Key) (datagram query : Bytes)
    : Type 0 where
  pub plaintext : Bytes
  pub authentic :
      aead.decrypt key (take nonce_len datagram) (drop nonce_len datagram) ≡ some plaintext
  pub framed : Framed plaintext query

-- On every datagram `decode` returns, reading in bounds, and a query that it returns was framed by a
-- length prefix and padding in a plaintext that the cipher authenticated under the key.
pub decode-IsOpened :
    {Key : Type 0} (aead : Aead Key) (key : Key) (datagram : Bytes)
    → Ensures (IsOpened aead key datagram) (decode aead key datagram)
unfolding decode
decode-IsOpened aead key datagram = elim (Bool-cases (ltb (length datagram) 30)) [
  | inl short ↦ rw short tt
  | inr long ↦
      rw long
        (elim (Option-cases
          (aead.decrypt key (take nonce_len datagram) (drop nonce_len datagram))) [
            | inl forged ↦ rw forged tt
            | inr (plaintext, opened) ↦ rw opened (with_plaintext plaintext opened)
          ])
]
  where
    with_plaintext :
        (plaintext : Bytes)
        → aead.decrypt key (take nonce_len datagram) (drop nonce_len datagram) ≡ some plaintext
        → Ensures (IsOpened aead key datagram) (unwrap plaintext)
    with_plaintext plaintext opened =
        Ensures-map (Framed plaintext) (IsOpened aead key datagram) (unwrap plaintext)
          (λ query f. record { plaintext = plaintext; authentic = opened; framed = f })
          (unwrap-Framed plaintext)
