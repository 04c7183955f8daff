-- ===== src/Dns/Text/Spaces.antt =====
-- Characters, white space, lines and searches of Rust's strings, on their UTF-8 bytes.
use dns_relay.Prelude.{
  ℕ, Bool, true, false, ◌&&◌, ◌||◌, not, Option, none, some, List, [], ◌∷◌, ◌++◌, ◌==◌,
  if◌then◌else◌, any,
}
use dns_relay.Prelude.Slices.{Bytes}
use dns_relay.Dns.Text.{continues, between, push_first, is_empty}
use dns_relay.Dns.Text.Affix.{eq_bytes, strip_prefix}

abbrev starts_character : Bytes → Bool
starts_character [] = true
starts_character (b ∷ _) = not (continues b)

abbrev attach : ℕ → List Bytes → List Bytes
attach b [] = (b ∷ []) ∷ []
attach b (c ∷ cs) = if starts_character c then (b ∷ []) ∷ c ∷ cs else (b ∷ c) ∷ cs

-- `s.chars()`: a byte, and the continuation bytes behind it.
unfoldable pub chars : Bytes → List Bytes
chars [] = []
chars (b ∷ s) = attach b (chars s)

abbrev pub concat : List Bytes → Bytes
concat [] = []
concat (c ∷ cs) = c ++ concat cs

-- The characters of the property White_Space, as `char::is_whitespace` has them.
abbrev pub is_whitespace : Bytes → Bool
is_whitespace (b ∷ []) = between 9 13 b || b == 32
is_whitespace (b ∷ c ∷ []) = b == 0xC2 && (c == 0x85 || c == 0xA0)
is_whitespace (b ∷ c ∷ d ∷ []) =
    (b == 0xE1 && c == 0x9A && d == 0x80)
    || (b == 0xE2 && c == 0x80 && (between 0x80 0x8A d || d == 0xA8 || d == 0xA9 || d == 0xAF))
    || (b == 0xE2 && c == 0x81 && d == 0x9F)
    || (b == 0xE3 && c == 0x80 && d == 0x80)
is_whitespace _ = false

abbrev trim_start_chars : List Bytes → List Bytes
trim_start_chars [] = []
trim_start_chars (c ∷ cs) =
    let rest = trim_start_chars cs in if is_whitespace c then rest else c ∷ cs

abbrev no_chars : List Bytes → Bool
no_chars [] = true
no_chars (_ ∷ _) = false

abbrev trim_end_chars : List Bytes → List Bytes
trim_end_chars [] = []
trim_end_chars (c ∷ cs) =
    let rest = trim_end_chars cs in if is_whitespace c && no_chars rest then [] else c ∷ rest

-- `s.trim()`
unfoldable pub trim : Bytes → Bytes
unfolding chars
trim s = concat (trim_end_chars (trim_start_chars (chars s)))

abbrev push_chars : Bytes → List Bytes → List Bytes
push_chars c [] = c ∷ []
push_chars c (word ∷ words) = (c ++ word) ∷ words

-- The parts between white space, empty ones included.
abbrev parts : List Bytes → List Bytes
parts [] = [] ∷ []
parts (c ∷ cs) = let rest = parts cs in if is_whitespace c then [] ∷ rest else push_chars c rest

abbrev pub filled : List Bytes → List Bytes
filled [] = []
filled (part ∷ rest) = let later = filled rest in if is_empty part then later else part ∷ later

-- `s.split_whitespace()`
unfoldable pub split_whitespace : Bytes → List Bytes
unfolding chars
split_whitespace s = filled (parts (chars s))

abbrev starts_line : Bytes → Bool
starts_line [] = false
starts_line (b ∷ _) = b == 0x0A

-- `s.lines()`: a line ends with a line feed, or a carriage return and a line feed.
unfoldable pub lines : Bytes → List Bytes
lines [] = []
lines (b ∷ s) =
    let rest = lines s in
    if b == 0x0A then [] ∷ rest else if b == 0x0D && starts_line s then rest else push_first b rest

-- `s.trim_end_matches(b)` for a character of one byte.
unfoldable pub trim_end_byte : ℕ → Bytes → Bytes
trim_end_byte end [] = []
trim_end_byte end (b ∷ s) =
    let rest = trim_end_byte end s in if b == end && is_empty rest then [] else b ∷ rest

-- `s.split(p).next()` for characters of one byte: the part before the first of them.
unfoldable pub before_any : (ℕ → Bool) → Bytes → Bytes
before_any stops [] = []
before_any stops (b ∷ s) = let rest = before_any stops s in if stops b then [] else b ∷ rest

-- `s.split_once(b)`
abbrev pub before_pair : ℕ → Option (Bytes × Bytes) → Option (Bytes × Bytes)
before_pair b none = none
before_pair b (some (front, back)) = some (b ∷ front, back)

unfoldable pub split_once : ℕ → Bytes → Option (Bytes × Bytes)
split_once at_byte [] = none
split_once at_byte (b ∷ s) =
    let rest = split_once at_byte s in if b == at_byte then some ([], s) else before_pair b rest

-- `s.split(b)` for a character of one byte.
unfoldable pub split_byte : ℕ → Bytes → List Bytes
split_byte at_byte [] = [] ∷ []
split_byte at_byte (b ∷ s) =
    let rest = split_byte at_byte s in if b == at_byte then [] ∷ rest else push_first b rest

abbrev pub is_some {ℓ} : {A : Type ℓ} → Option A → Bool
is_some none = false
is_some (some _) = true

-- `s.starts_with(prefix)`
unfoldable pub starts_with : Bytes → Bytes → Bool
starts_with s prefix = is_some (strip_prefix prefix s)

-- `s.contains(needle)`
unfoldable pub contains : Bytes → Bytes → Bool
unfolding starts_with
contains [] needle = is_empty needle
contains (b ∷ s) needle = let rest = contains s needle in starts_with (b ∷ s) needle || rest

-- `set.contains(s)`, for a set of strings or a list of them.
unfoldable pub has : List Bytes → Bytes → Bool
has set s = any (λ t. eq_bytes t s) set
