-- ===== src/Samples/Rules.antt =====
-- A trie of three rules, and a datagram under a stand-in for the cipher.
use dns_relay.Prelude.{
  ℕ, ◌-◌, ◌≡◌, refl, ap, ◌∙◌, some, List, [], ◌∷◌, ◌++◌, arith, length, length-append, take,
  take-append, ok,
}
use dns_relay.Prelude.Slices.{Bytes, at, u16_at, slice}
use dns_relay.Dns.Text.{to_lowercase, trim_end_dots, split_dots}
use dns_relay.Dns.Text.Affix.{strip_prefix}
use dns_relay.Trie.{
  DomainTriePolicy, drop_query, redirect, new_trie, lookup_path, path_of, insert_with_policy,
}
use dns_relay.Trie.Rules.{insert_all}
use dns_relay.Obfs.{Aead, AeadLaws, Draws, encode, decode}
use dns_relay.Obfs.RoundTrip.{decode-encode}
use dns_relay.Samples.Wire.{same_text, google, probe}

abbrev any_com : Bytes
any_com = b'*' ∷ b'.' ∷ b'c' ∷ b'o' ∷ b'm' ∷ []

abbrev org : Bytes
org = b'o' ∷ b'r' ∷ b'g' ∷ []

abbrev rules : List (Bytes × DomainTriePolicy)
rules = (google, redirect (google ∷ [])) ∷ (org, drop_query) ∷ (any_com, drop_query) ∷ []

lookup_run :
    lookup_path (path_of same_text google) (insert_all same_text rules new_trie) ≡ drop_query
unfolding lookup_path insert_all insert_with_policy strip_prefix to_lowercase trim_end_dots
    split_dots
lookup_run = refl

-- A tag of sixteen zeros in place of encryption.
abbrev tag : Bytes
tag = 0 ∷ 0 ∷ 0 ∷ 0 ∷ 0 ∷ 0 ∷ 0 ∷ 0 ∷ 0 ∷ 0 ∷ 0 ∷ 0 ∷ 0 ∷ 0 ∷ 0 ∷ 0 ∷ []

abbrev pub plain : Aead Bytes
plain = record {
  encrypt = λ key nonce text. text ++ tag;
  decrypt = λ key nonce sealed. some (take (length sealed - 16) sealed);
}

untagged : (text : Bytes) (n : ℕ) → n ≡ length text → take n (text ++ tag) ≡ text
untagged text n e = ap (λ k. take k (text ++ tag)) e ∙ take-append text tag

pub plain-AeadLaws : AeadLaws plain
plain-AeadLaws = record {
  decrypt-encrypt = λ key nonce text.
      ap some (untagged text (length (text ++ tag) - 16) (omega (arith, length-append text tag)));
  length-encrypt = λ key nonce text. length-append text tag;
}

abbrev pub draws : Draws
draws = record {
  pad_draw = 5;
  pad_byte = λ i. 7;
  nonce = 1 ∷ 2 ∷ 3 ∷ 4 ∷ 5 ∷ 6 ∷ 7 ∷ 8 ∷ 9 ∷ 10 ∷ 11 ∷ 12 ∷ [];
}

decode_run : decode plain org (encode plain org draws probe) ≡ ok probe
unfolding decode encode u16_at at slice
decode_run = refl

decode-encode_example : decode plain org (encode plain org draws probe) ≡ ok probe
decode-encode_example = decode-encode plain plain-AeadLaws org draws probe refl (omega arith)
