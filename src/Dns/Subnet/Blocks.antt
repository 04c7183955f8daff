-- ===== src/Dns/Subnet/Blocks.antt =====
-- Which addresses count as public, as a list of blocks.
use dns_relay.Prelude.{
  ℕ, ◌+◌, ◌*◌, ◌<◌, ◌≡◌, refl, bit_and, Bool, false, not, ◌||◌, ◌&&◌, List, [], ◌∷◌, any, leb, ◌==◌,
  arith, inl, inr, Bool-cases, ==→eq,
}
use dns_relay.Prelude.Bits.{high_bits, even_bits}
use dns_relay.Dns.Text.{between}
use dns_relay.Dns.Ipv4.{Ipv4Addr}
use dns_relay.Dns.Subnet.{is_public_ipv4}

-- An address as a number of 32 bits.
abbrev pub value : ℕ → ℕ → ℕ → ℕ → ℕ
value a b c d = ((a * 256 + b) * 256 + c) * 256 + d

-- A block of addresses: the first and the last.
abbrev pub special_blocks : List (ℕ × ℕ)
special_blocks =
    (value 0 0 0 0, value 0 255 255 255)
    ∷ (value 10 0 0 0, value 10 255 255 255)
    ∷ (value 100 64 0 0, value 100 127 255 255)
    ∷ (value 127 0 0 0, value 127 255 255 255)
    ∷ (value 169 254 0 0, value 169 254 255 255)
    ∷ (value 172 16 0 0, value 172 31 255 255)
    ∷ (value 192 0 0 0, value 192 0 255 255)
    ∷ (value 192 168 0 0, value 192 168 255 255)
    ∷ (value 198 18 0 0, value 198 19 255 255)
    ∷ (value 198 51 100 0, value 198 51 100 255)
    ∷ (value 203 0 113 0, value 203 0 113 255)
    ∷ (value 224 0 0 0, value 255 255 255 255)
    ∷ []

unfoldable pub is_special : Ipv4Addr → Bool
is_special ip = any (λ (lo, hi). between lo hi (value ip.a ip.b ip.c ip.d)) special_blocks

carrier_bits : (b : ℕ) → b < 256 → (bit_and b 0xC0 == 0x40) ≡ between 64 127 b
carrier_bits b h = rw (high_bits b h) (ground arith)

benchmark_bits : (b : ℕ) → b < 256 → (bit_and b 0xFE == 18) ≡ between 18 19 b
benchmark_bits b h = rw (even_bits b h) (ground arith)

-- Blocks of all addresses with the first byte `k`, with the second from `lo` to `hi`, and with the
-- third `m`.
module _ (a b c d : ℕ) (hb : b < 256) (hc : c < 256) (hd : d < 256) where
  first_block : (k : ℕ) → between (value k 0 0 0) (value k 255 255 255) (value a b c d) ≡ (a == k)
  first_block k = ground arith

  second_block :
      (k lo hi : ℕ)
      → lo < 256
      → hi < 256
      → between (value k lo 0 0) (value k hi 255 255) (value a b c d) ≡ (a == k && between lo hi b)
  second_block k lo hi p q = ground arith

  third_block :
      (k l m : ℕ)
      → l < 256
      → m < 256
      → between (value k l m 0) (value k l m 255) (value a b c d) ≡ (a == k && b == l && c == m)
  third_block k l m p q = ground arith

  last_block :
      a < 256 → between (value 224 0 0 0) (value 255 255 255 255) (value a b c d) ≡ leb 224 a
  last_block h = ground arith

  special_tests :
      a < 256
      → is_special (record { a = a; b = b; c = c; d = d }) ≡ (
          a == 0
          || (a == 10
              || (a == 100 && between 64 127 b
                  || (a == 127
                      || (a == 169 && between 254 254 b
                          || (a == 172 && between 16 31 b
                              || (a == 192 && between 0 0 b
                                  || (a == 192 && between 168 168 b
                                      || (a == 198 && between 18 19 b
                                          || (a == 198 && b == 51 && c == 100
                                              || (a == 203 && b == 0 && c == 113
                                                  || (leb 224 a || false))))))))))))
  unfolding is_special
  special_tests h =
      rw
        (
          first_block 0,
          first_block 10,
          second_block 100 64 127 (omega arith) (omega arith),
          first_block 127,
          second_block 169 254 254 (omega arith) (omega arith),
          second_block 172 16 31 (omega arith) (omega arith),
          second_block 192 0 0 (omega arith) (omega arith),
          second_block 192 168 168 (omega arith) (omega arith),
          second_block 198 18 19 (omega arith) (omega arith),
          third_block 198 51 100 (omega arith) (omega arith),
          third_block 203 0 113 (omega arith) (omega arith),
          last_block h,
        )
        refl

-- Among the addresses of four bytes, `is_public_ipv4` accepts those outside the special blocks.
pub is_public_ipv4-blocks :
    (ip : Ipv4Addr)
    → ip.a < 256
    → ip.b < 256
    → ip.c < 256
    → ip.d < 256
    → is_public_ipv4 ip ≡ not (is_special ip)
unfolding is_public_ipv4
is_public_ipv4-blocks ip a b c d =
    rw (special_tests ip.a ip.b ip.c ip.d b c d a, carrier_bits ip.b b, benchmark_bits ip.b b)
      (elim (Bool-cases (ip.a == 0)) [
        | inl e ↦ rw e (let first = ==→eq ip.a 0 e in ground arith)
        | inr e0 ↦ (elim (Bool-cases (ip.a == 10)) [
          | inl e ↦ rw e (let first = ==→eq ip.a 10 e in ground arith)
          | inr e10 ↦ (elim (Bool-cases (ip.a == 100)) [
            | inl e ↦ rw e (let first = ==→eq ip.a 100 e in ground arith)
            | inr e100 ↦ (elim (Bool-cases (ip.a == 127)) [
              | inl e ↦ rw e (let first = ==→eq ip.a 127 e in ground arith)
              | inr e127 ↦ (elim (Bool-cases (ip.a == 169)) [
                | inl e ↦ rw e (let first = ==→eq ip.a 169 e in ground arith)
                | inr e169 ↦ (elim (Bool-cases (ip.a == 172)) [
                  | inl e ↦ rw e (let first = ==→eq ip.a 172 e in ground arith)
                  | inr e172 ↦ (elim (Bool-cases (ip.a == 192)) [
                    | inl e ↦ rw e (let first = ==→eq ip.a 192 e in ground arith)
                    | inr e192 ↦ (elim (Bool-cases (ip.a == 198)) [
                      | inl e ↦ rw e (let first = ==→eq ip.a 198 e in ground arith)
                      | inr e198 ↦ (elim (Bool-cases (ip.a == 203)) [
                        | inl e ↦ rw e (let first = ==→eq ip.a 203 e in ground arith)
                        | inr e203 ↦ ground arith
                      ])
                    ])
                  ])
                ])
              ])
            ])
          ])
        ])
      ])
