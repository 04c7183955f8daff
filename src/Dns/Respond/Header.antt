-- ===== src/Dns/Respond/Header.antt =====
-- What the crafted answers change of the query: the flags, and nothing else.
use dns_relay.Prelude.{
  ℕ, ◌≤◌, ◌≡◌, ◌≢◌, ◌∙◌, arith, length, length-set, set, get_or, get_or-set_self, get_or-set_ne, ok,
}
use dns_relay.Prelude.Slices.{Bytes}
use dns_relay.Dns.Respond.{set_flags, craft_nxdomain_response, craft_servfail_response}

-- `resp` is `query` with other flags.
pub record Reflagged (query resp : Bytes) (hi lo : ℕ) : Type 0 where
  pub size : length resp ≡ length query
  pub high : get_or resp 2 0 ≡ hi
  pub low : get_or resp 3 0 ≡ lo
  pub others : (i : ℕ) → i ≢ 2 → i ≢ 3 → get_or resp i 0 ≡ get_or query i 0

pub set_flags-Reflagged :
    (query : Bytes) (hi lo : ℕ) → 12 ≤ length query → Reflagged query (set_flags query hi lo) hi lo
set_flags-Reflagged query hi lo h = record {
  size = length-set (set query 2 hi) 3 lo ∙ length-set query 2 hi;
  high =
      get_or-set_ne (set query 2 hi) 3 2 lo 0 (omega arith)
      ∙ get_or-set_self query 2 hi 0 (omega arith);
  low = get_or-set_self (set query 2 hi) 3 lo 0 (omega (arith, length-set query 2 hi));
  others = λ i a b.
      get_or-set_ne (set query 2 hi) 3 i lo 0 (λ e. b (omega arith))
      ∙ get_or-set_ne query 2 i hi 0 (λ e. a (omega arith));
}

-- A query with a header gets NXDOMAIN and SERVFAIL answers of its own length that differ from it in
-- the two bytes of the flags alone.
pub craft_errors :
    (query : Bytes)
    → 12 ≤ length query
    → ((resp : Bytes) × (craft_nxdomain_response query ≡ ok resp) × Reflagged query resp 0x81 0x83)
      × ((resp : Bytes) × (craft_servfail_response query ≡ ok resp)
          × Reflagged query resp 0x81 0x82)
unfolding craft_nxdomain_response craft_servfail_response
craft_errors query h = (
  (set_flags query 0x81 0x83, ground arith, set_flags-Reflagged query 0x81 0x83 h),
  (set_flags query 0x81 0x82, ground arith, set_flags-Reflagged query 0x81 0x82 h),
)
