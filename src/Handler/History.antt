-- ===== src/Handler/History.antt =====
-- The history buffer of dns_relay/src/handler.rs. What the file holds, if it can be read, is an argument
-- of the flush, and what is written is its result; a HashMap is a list of its entries, each key once, and
-- a HashSet a list of its elements. The flag `flushing` stands for the task that flushes. The
-- queue and the flag have no lock: Buffer takes their steps in every order.
pub mod Records
pub mod Buffer
pub mod Total
use dns_relay.Prelude.{
  ℕ, ◌+◌, ◌-◌, Bool, true, false, ◌&&◌, ◌||◌, not, Option, none, some, List, [], ◌∷◌, ◌++◌, ◌==◌,
  if◌then◌else◌, ltb, leb, length, take, drop, any, Outcome, ok, panic, ◌>>=◌,
}
use dns_relay.Prelude.Slices.{Bytes, at}
use dns_relay.Dns.Text.Affix.{eq_bytes, strip_prefix, ends_with}
use dns_relay.Dns.Text.Spaces.{lines, split_whitespace, has}

-- A domain and its addresses.
abbrev pub HistoryBufferEntry : Type 0
HistoryBufferEntry = Bytes × List Bytes

abbrev pub cap : ℕ
cap = 100

pub record HistoryBuffer : Type 0 where
  pub queue : List HistoryBufferEntry
  pub flushing : Bool
  pub dropped : ℕ
  pub lines_count : ℕ
  pub matched_list : List Bytes

-- A domain against the part of a pattern behind its star.
abbrev pub suffix_matches : Option Bytes → Bytes → Bytes → Outcome Bool
suffix_matches none pattern domain = ok (eq_bytes domain pattern)
suffix_matches (some suffix) pattern domain =
    let dotted = (do b ← at domain (length domain - length suffix - 1); ok (b == b'.')) in
    if eq_bytes domain suffix
    then ok true
    else if ltb (length suffix) (length domain) && ends_with domain suffix
    then dotted
    else ok false

unfoldable pub domain_matches : Bytes → Bytes → Outcome Bool
unfolding eq_bytes strip_prefix ends_with at
domain_matches pattern domain = suffix_matches (strip_prefix (b'*' ∷ []) pattern) pattern domain

-- `matched_list.iter().any(..)`
unfoldable pub any_matches : List Bytes → Bytes → Outcome Bool
unfolding domain_matches
any_matches [] domain = ok false
any_matches (pattern ∷ patterns) domain =
    let rest = any_matches patterns domain in
    do found ← domain_matches pattern domain; if found then ok true else rest

abbrev pub is_nil {ℓ} : {A : Type ℓ} → List A → Bool
is_nil [] = true
is_nil (_ ∷ _) = false

-- The task is started, unless one runs.
abbrev pub try_spawn_flush : HistoryBuffer → HistoryBuffer
try_spawn_flush b = record b { flushing = true }

-- `queue.push(entry)`, which fails on a full queue: whether the entry is in, and the buffer.
abbrev pub queued : HistoryBuffer → HistoryBufferEntry → Bool × HistoryBuffer
queued b entry =
    if leb cap (length b.queue)
    then (false, record b { dropped = b.dropped + 1 })
    else (true, record b { queue = b.queue ++ (entry ∷ []) })

-- What follows it: a flush, if the entry is not in or the queue is full then.
abbrev pub flush_if_full : Bool → HistoryBuffer → HistoryBuffer
flush_if_full false b = try_spawn_flush b
flush_if_full true b = if leb cap (length b.queue) then try_spawn_flush b else b

-- Both, when no other step comes between them.
abbrev pub pushed : HistoryBuffer → HistoryBufferEntry → HistoryBuffer
pushed b entry = flush_if_full (queued b entry).0 (queued b entry).1

unfoldable pub push_many : HistoryBuffer → Bytes → List Bytes → Outcome HistoryBuffer
unfolding any_matches
push_many b domain ips =
    if is_nil ips then ok b else if is_nil b.matched_list then ok (pushed b (domain, ips)) else (do
      found ← any_matches b.matched_list domain
      if found then ok (pushed b (domain, ips)) else ok b)

unfoldable pub push : HistoryBuffer → Bytes → Bytes → Outcome HistoryBuffer
unfolding push_many
push b domain ip = push_many b domain (ip ∷ [])

-- The batch of a flush: the whole queue; the count of those dropped starts again.
unfoldable pub take_batch : HistoryBuffer → List HistoryBufferEntry × HistoryBuffer
take_batch b = (b.queue, record b { queue = []; dropped = 0 })

-- The task behind its flush clears the flag, and then starts another one if there are entries.
abbrev pub clear_flag : HistoryBuffer → HistoryBuffer
clear_flag b = record b { flushing = false }

abbrev pub flush_again : HistoryBuffer → HistoryBuffer
flush_again b = if is_nil b.queue then b else try_spawn_flush b

-- `map.get(key)`, `map.insert(key, value)` and `map.remove(key)`.
abbrev pub Table : Type 0
Table = List (Bytes × List Bytes)

unfoldable pub get : Table → Bytes → Option (List Bytes)
unfolding eq_bytes
get [] key = none
get ((k, v) ∷ rest) key = let later = get rest key in if eq_bytes k key then some v else later

unfoldable pub insert : Table → Bytes → List Bytes → Table
unfolding eq_bytes
insert [] key value = (key, value) ∷ []
insert ((k, v) ∷ rest) key value =
    let later = insert rest key value in
    if eq_bytes k key then (k, value) ∷ rest else (k, v) ∷ later

unfoldable pub remove : Table → Bytes → Table
unfolding eq_bytes
remove [] key = []
remove ((k, v) ∷ rest) key =
    let later = remove rest key in if eq_bytes k key then rest else (k, v) ∷ later

-- What a flush works on: the addresses of each domain, the same as sets, and the domains in order.
pub record Tables : Type 0 where
  pub history : Table
  pub seen : Table
  pub order : List Bytes

abbrev pub loaded : Tables → List Bytes → Tables
loaded t [] = t
loaded t (domain ∷ ips) = record {
  history = insert t.history domain ips;
  seen = insert t.seen domain ips;
  order = t.order ++ (domain ∷ []);
}

-- The lines of the file, each a domain and its addresses.
unfoldable pub load : Tables → List Bytes → Tables
unfolding insert split_whitespace
load t [] = t
load t (line ∷ rest) = load (loaded t (split_whitespace line)) rest

-- `if seen_set.insert(ip.clone()) { existing.push(ip) }` for each address.
unfoldable pub add_ips : List Bytes → List Bytes → List Bytes → List Bytes × List Bytes
unfolding has
add_ips existing seen_set [] = (existing, seen_set)
add_ips existing seen_set (ip ∷ ips) =
    let known = add_ips existing seen_set ips in
    let fresh = add_ips (existing ++ (ip ∷ [])) (ip ∷ seen_set) ips in
    if has seen_set ip then known else fresh

abbrev pub or_empty : Option (List Bytes) → List Bytes
or_empty none = []
or_empty (some ips) = ips

abbrev pub ordered : Option (List Bytes) → List Bytes → Bytes → List Bytes
ordered none order domain = order ++ (domain ∷ [])
ordered (some _) order domain = order

unfoldable pub record_entry : Tables → Bytes → List Bytes → Tables
unfolding get insert add_ips
record_entry t domain ips =
    let added = add_ips (or_empty (get t.history domain)) (or_empty (get t.seen domain)) ips in
    record {
      history = insert t.history domain added.0;
      seen = insert t.seen domain added.1;
      order = ordered (get t.history domain) t.order domain;
    }

unfoldable pub record_batch : Tables → List HistoryBufferEntry → Tables
unfolding record_entry
record_batch t [] = t
record_batch t ((domain, ips) ∷ rest) = record_batch (record_entry t domain ips) rest

-- `for domain in order.drain(..excess)`
unfoldable pub forget : Table → List Bytes → Table
unfolding remove
forget table [] = table
forget table (domain ∷ rest) = forget (remove table domain) rest

abbrev pub drained : Tables → ℕ → Tables
drained t excess = record {
  history = forget t.history (take excess t.order);
  seen = forget t.seen (take excess t.order);
  order = drop excess t.order;
}

abbrev pub trimmed : Tables → ℕ → Tables
trimmed t lines_count =
    if ltb lines_count (length t.order) then drained t (length t.order - lines_count) else t

-- A line: the domain, and each address behind a space.
abbrev pub spaced : List Bytes → Bytes
spaced [] = 0x0A ∷ []
spaced (ip ∷ ips) = 0x20 ∷ (ip ++ spaced ips)

abbrev pub indexed : Option (List Bytes) → Outcome (List Bytes)
indexed none = panic
indexed (some ips) = ok ips

-- The lines that are written; `history[domain]` panics on a missing key.
unfoldable pub printed : Table → List Bytes → Outcome Bytes
unfolding get
printed history [] = ok []
printed history (domain ∷ rest) =
    let later = printed history rest in
    do ips ← indexed (get history domain); text ← later; ok (domain ++ (spaced ips ++ text))

abbrev pub loaded_from : Option Bytes → Tables
loaded_from none = record { history = []; seen = []; order = [] }
loaded_from (some content) = load (record { history = []; seen = []; order = [] }) (lines content)

-- What a flush writes for a batch, behind what the file had.
unfoldable pub flushed_content : Option Bytes → List HistoryBufferEntry → ℕ → Outcome Bytes
unfolding load lines record_batch forget printed
flushed_content content batch lines_count =
    let t = trimmed (record_batch (loaded_from content) batch) lines_count in
    printed t.history t.order

-- What a flush writes, if it writes: an empty batch leaves the file alone.
unfoldable pub flush : Option Bytes → List HistoryBufferEntry → ℕ → Outcome (Option Bytes)
unfolding flushed_content
flush content [] lines_count = ok none
flush content (entry ∷ batch) lines_count = do
  text ← flushed_content content (entry ∷ batch) lines_count
  ok (some text)
