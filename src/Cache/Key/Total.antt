-- ===== src/Cache/Key/Total.antt =====
-- The key of a query is read in bounds.
use dns_relay.Prelude.{
  ℕ, ◌+◌, ◌≤◌, false, arith, Option, ltb, length, ok, attempt, ◌>>=◌, Outcome, Ensures-bind,
  Settles, Settles-attempt, Settles-bind, Bool-cases, inl, inr,
}
use dns_relay.Prelude.Slices.{Bytes, at, at_lem, u16_at, u16_at_lem}
use dns_relay.Dns.Name.{parse_domain}
use dns_relay.Dns.Name.Total.{NameWithin, parse_domain-NameWithin}
use dns_relay.Dns.Edns.{Ipv4Subnet, find_opt_record}
use dns_relay.Dns.Edns.Total.{OptWithin, find_opt_record-OptWithin}
use dns_relay.Cache.Key.{CacheKey, cache_key_from_query_for_subnet}

read_all :
    (payload : Bytes) (e : ℕ)
    → 12 ≤ length payload
    → e + 4 ≤ length payload
    → (f : ℕ → ℕ → ℕ → ℕ → Outcome CacheKey) → ((a b c d : ℕ) → Settles (f a b c d))
    → Settles (
        u16_at payload e >>= λ a.
        u16_at payload (e + 2) >>= λ b. at payload 2 >>= λ c. at payload 3 >>= λ d. f a b c d)
read_all payload e long room f k =
    rw
      (
        u16_at_lem payload e (omega arith),
        u16_at_lem payload (e + 2) (omega arith),
        at_lem payload 2 (omega arith),
        at_lem payload 3 (omega arith),
      )
      (k _ _ _ _)

-- On every packet `cache_key_from_query_for_subnet` returns: it reads in bounds and its loops stop.
pub cache_key_from_query_for_subnet-Settles :
    (lower_wide : Bytes → Bytes) (payload : Bytes) (client_subnet : Option Ipv4Subnet)
    → Settles (cache_key_from_query_for_subnet lower_wide payload client_subnet)
unfolding cache_key_from_query_for_subnet
cache_key_from_query_for_subnet-Settles lower_wide payload client_subnet =
    elim (Bool-cases (ltb (length payload) 12)) [
      | inl short ↦ rw short tt
      | inr long ↦ rw long (
          Ensures-bind (NameWithin payload 12) _ (parse_domain lower_wide payload 12) _
            (parse_domain-NameWithin lower_wide payload 12)
            λ (name, e) q h. elim (Bool-cases (ltb (length payload) (e + 4))) [
              | inl cut ↦ rw cut tt
              | inr room ↦ rw room (
                  read_all payload e (ground arith) (ground arith) _ λ a b c d.
                    Settles-bind (attempt (find_opt_record payload) _ (ok false)) _
                      (Settles-attempt (OptWithin payload 12) (find_opt_record payload) _ (ok false)
                        (find_opt_record-OptWithin payload) (λ o w. tt) tt)
                      (λ flag. tt))
            ])
    ]
