-- ===== src/Handler/History/Total.antt =====
-- The code of dns_relay/src/handler.rs that tests a domain against the patterns and pushes it.
use dns_relay.Prelude.{
  ◌-◌, ◌<◌, Bool, true, false, ◌&&◌, Option, none, some, List, [], ◌∷◌, ltb, ltb→lt, if◌then◌else◌,
  length, Outcome, ok, ◌>>=◌, Returns, Returns-bind, arith, Bool-cases, inl, inr, &&→both, ◌==◌,
}
use dns_relay.Prelude.Slices.{Bytes, at, at_lem}
use dns_relay.Dns.Text.Affix.{eq_bytes, strip_prefix, ends_with}
use dns_relay.Handler.History.{
  HistoryBuffer, pushed, suffix_matches, domain_matches, any_matches, is_nil, push_many,
}

dotted-Returns :
    (domain suffix : Bytes)
    → length suffix < length domain
    → Returns (λ _. Unit {0}) (do b ← at domain (length domain - length suffix - 1); ok (b == b'.'))
dotted-Returns domain suffix h =
    rw (at_lem domain (length domain - length suffix - 1) (omega arith)) tt

domain_matches-Returns :
    (pattern domain : Bytes) → Returns (λ _. Unit {0}) (domain_matches pattern domain)
unfolding domain_matches
domain_matches-Returns pattern domain = on (strip_prefix (b'*' ∷ []) pattern)
  where
    on : (suffix : Option Bytes) → Returns (λ _. Unit {0}) (suffix_matches suffix pattern domain)
    on none = tt
    on (some suffix) = elim (Bool-cases (eq_bytes domain suffix)) [
      | inl e ↦ rw e tt
      | inr e ↦
          rw e (elim (Bool-cases (ltb (length suffix) (length domain) && ends_with domain suffix)) [
            | inl f ↦
                let (longer, _) =
                  &&→both (ltb (length suffix) (length domain)) (ends_with domain suffix) f in
                rw f (dotted-Returns domain suffix (ltb→lt (length suffix) (length domain) longer))
            | inr f ↦ rw f tt
          ])
    ]

any_matches-Returns :
    (patterns : List Bytes) (domain : Bytes) → Returns (λ _. Unit {0}) (any_matches patterns domain)
unfolding any_matches
any_matches-Returns [] domain = tt
any_matches-Returns (pattern ∷ patterns) domain =
    Returns-bind (λ _. Unit {0}) _ (domain_matches pattern domain) _
      (domain_matches-Returns pattern domain)
      (λ found _ _.
        chosen found (any_matches patterns domain) (any_matches-Returns patterns domain))
  where
    chosen :
        (found : Bool) (rest : Outcome Bool)
        → Returns (λ _. Unit {0}) rest
        → Returns (λ _. Unit {0}) (if found then ok true else rest)
    chosen true rest h = tt
    chosen false rest h = h

pub push_many-Returns :
    (b : HistoryBuffer) (domain : Bytes) (ips : List Bytes)
    → Returns (λ _. Unit {0}) (push_many b domain ips)
unfolding push_many
push_many-Returns b domain ips = elim (Bool-cases (is_nil ips)) [
  | inl e ↦ rw e tt
  | inr e ↦ rw e (elim (Bool-cases (is_nil b.matched_list)) [
    | inl f ↦ rw f tt
    | inr f ↦ rw f (
        Returns-bind (λ _. Unit {0}) _ (any_matches b.matched_list domain) _
          (any_matches-Returns b.matched_list domain) (λ found _ _. chosen found))
  ])
]
  where
    chosen :
        (found : Bool)
        → Returns (λ _. Unit {0}) (if found then ok (pushed b (domain, ips)) else ok b)
    chosen true = tt
    chosen false = tt
