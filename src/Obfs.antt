-- ===== src/Obfs.antt =====
-- shared/src/obfs.rs: the obfuscated datagrams between the relay and the resolver proxy. The cipher
-- of the crate chacha20poly1305 is the parameter `Aead`, and the random draws are arguments.
pub mod RoundTrip
use dns_relay.Prelude.{
  ℕ, zero, suc, ◌+◌, ◌-◌, ◌%◌, ◌≡◌, not, Option, none, some, List, [], ◌∷◌, ◌++◌, ltb, length, take,
  drop, Outcome, ok, refuse, guard, ◌>>=◌, ◌>>◌,
}
use dns_relay.Prelude.Slices.{Bytes, slice, u16_at, to_be16}

abbrev pub nonce_len : ℕ
nonce_len = 12

abbrev pub len_prefix : ℕ
len_prefix = 2

-- The Poly1305 tag that `encrypt` appends.
abbrev pub tag_len : ℕ
tag_len = 16

abbrev pub pad_min : ℕ
pad_min = 32

abbrev pub pad_max : ℕ
pad_max = 192

pub record Aead (Key : Type 0) : Type 0 where
  pub encrypt : Key → Bytes → Bytes → Bytes
  pub decrypt : Key → Bytes → Bytes → Option Bytes

-- What the documentation says of them.
pub record AeadLaws {Key : Type 0} (aead : Aead Key) : Type 0 where
  pub decrypt-encrypt :
      (key : Key) (nonce plaintext : Bytes)
      → aead.decrypt key nonce (aead.encrypt key nonce plaintext) ≡ some plaintext
  pub length-encrypt :
      (key : Key) (nonce plaintext : Bytes)
      → length (aead.encrypt key nonce plaintext) ≡ length plaintext + tag_len

-- The random draws of one call of `encode`: the one for the padding's length, the padding, and the
-- nonce of `nonce_len` bytes.
pub record Draws : Type 0 where
  pub pad_draw : ℕ
  pub pad_byte : ℕ → ℕ
  pub nonce : Bytes

abbrev pub random_padding : (ℕ → ℕ) → ℕ → Bytes
random_padding draw zero = []
random_padding draw (suc n) = draw n ∷ random_padding draw n

abbrev pub pad_len : Draws → ℕ
pad_len d = pad_min + d.pad_draw % (pad_max - pad_min + 1)

abbrev pub plaintext_of : Draws → Bytes → Bytes
plaintext_of d query =
    to_be16 (length query % 65536) ++ (query ++ random_padding d.pad_byte (pad_len d))

abbrev from_option {ℓ} : {A : Type ℓ} → Option A → Outcome A
from_option none = refuse
from_option (some a) = ok a

-- The query in a plaintext.
unfoldable pub unwrap : Bytes → Outcome Bytes
unwrap plaintext = do
  guard (not (ltb (length plaintext) len_prefix))
  len ← u16_at plaintext 0
  guard (not (ltb (length plaintext) (len_prefix + len)))
  slice plaintext len_prefix (len_prefix + len)

module _ {Key : Type 0} (aead : Aead Key) where
  unfoldable pub encode : Key → Draws → Bytes → Bytes
  encode key d query = d.nonce ++ aead.encrypt key d.nonce (plaintext_of d query)

  unfoldable pub decode : Key → Bytes → Outcome Bytes
  unfolding unwrap
  decode key datagram = do
    guard (not (ltb (length datagram) (nonce_len + tag_len + len_prefix)))
    plaintext ← from_option (aead.decrypt key (take nonce_len datagram) (drop nonce_len datagram))
    unwrap plaintext
