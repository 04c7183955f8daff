-- ===== src/Dns/Query.antt =====
-- `build_lookup_query` of shared/src/dns.rs. The random transaction id is an argument.
pub mod Encoded
pub mod RoundTrip
use dns_relay.Prelude.{ℕ, ◌%◌, List, [], ◌∷◌, ◌++◌, length}
use dns_relay.Prelude.Slices.{Bytes, to_be16}
use dns_relay.Dns.Text.{trim_end_dots, split_dots}

-- The loop over the labels, and the root label behind them.
abbrev pub encode_labels : List Bytes → Bytes
encode_labels [] = 0 ∷ []
encode_labels (label ∷ labels) = (length label % 256) ∷ label ++ encode_labels labels

-- The flags and the four counts behind the id.
abbrev pub lookup_header : ℕ → Bytes
lookup_header txid =
    to_be16 txid ++ 0x01 ∷ 0x00 ∷ 0x00 ∷ 0x01 ∷ 0x00 ∷ 0x00 ∷ 0x00 ∷ 0x00 ∷ 0x00 ∷ 0x00 ∷ []

unfoldable pub build_lookup_query : ℕ → Bytes → Bytes
unfolding trim_end_dots split_dots
build_lookup_query txid domain =
    lookup_header txid
    ++ encode_labels (split_dots (trim_end_dots domain))
    ++ 0x00 ∷ 0x01 ∷ 0x00 ∷ 0x01 ∷ []
