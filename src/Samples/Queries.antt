-- ===== src/Samples/Queries.antt =====
-- Queries and the history of domains at concrete inputs.
use dns_relay.Prelude.{
  ◌≡◌, refl, true, false, none, some, [], ◌∷◌, ◌++◌, ok, panic, arith, Ensures, Returns,
}
use dns_relay.Prelude.Slices.{Bytes, at}
use dns_relay.Dns.Text.Affix.{eq_bytes, strip_prefix, ends_with}
use dns_relay.Dns.Text.Spaces.{has, lines, split_whitespace, chars}
use dns_relay.Dns.Ipv4.{Ipv4Addr, octets}
use dns_relay.Dns.Subnet.{v4}
use dns_relay.Cache.Lru.{Lru}
use dns_relay.Cache.Key.{CacheKey}
use dns_relay.Cache.Store.{CacheEntry}
use dns_relay.Trie.{new_trie, insert_drop}
use dns_relay.Handler.History.{
  HistoryBuffer, push_many, domain_matches, flush, flushed_content, load, record_batch,
  record_entry, insert, get, add_ips, forget, remove, printed,
}
use dns_relay.Handler.History.Buffer.{Running, IsBuffer, Reachable, Reachable-IsBuffer}
use dns_relay.Handler.Query.{Shared, enter_query, lead_query}
use dns_relay.Handler.Query.Enter.{Good, enter_query-Stamped}
use dns_relay.Handler.Query.Lead.{Shares, lead_query-Shares}
use dns_relay.Samples.Store.{bounded, key_test, same}
use dns_relay.Samples.Wire.{same_text, google, probe, reply}

abbrev cache : Lru CacheKey CacheEntry
cache = bounded key_test 2

abbrev shared : Shared same_text cache same octets
shared = record {
  cache = [];
  in_flight = record {
    entries = λ key. none;
    leaders = λ f. none;
    has_sent = λ f. false;
    receivers = λ f. 1;
    packets = λ f. none;
    next = 0;
  };
  history_buffer = none;
}

abbrev client : Ipv4Addr
client = record { a = 8; b = 8; c = 8; d = 8 }

enter_query-Stamped_example : Ensures (Good same_text cache same octets probe) (
    enter_query same_text cache same octets shared
      (insert_drop same_text google new_trie)
      none
      probe
      (v4 client)
      0)
enter_query-Stamped_example =
    enter_query-Stamped same_text cache same octets shared (insert_drop same_text google new_trie)
      none probe (v4 client) 0

abbrev key : CacheKey
key = record {
  name = google;
  qtype = 1;
  qclass = 1;
  query_flags = 1;
  dnssec_ok = false;
  client_subnet = none;
}

lead_query-Shares_example :
    Returns
      (Shares same_text cache same octets shared probe key 0 (some reply) 5)
      (lead_query same_text cache same octets shared google probe key 0 (some reply) 5)
lead_query-Shares_example =
    lead_query-Shares same_text cache same octets shared google probe key 0 (some reply) 5
      (omega arith)

abbrev line_a : Bytes
line_a = (b'a' ∷ b' ' ∷ b'1' ∷ []) ++ (10 ∷ [])

abbrev line_b : Bytes
line_b = (b'b' ∷ b' ' ∷ b'2' ∷ []) ++ (10 ∷ [])

-- The oldest domain goes, and a known address is not repeated.
flush_run :
    flushed_content
      (some (line_a ++ line_b))
      (((b'c' ∷ []), (b'3' ∷ []) ∷ []) ∷ ((b'b' ∷ []), (b'2' ∷ []) ∷ (b'4' ∷ []) ∷ []) ∷ [])
      2
    ≡ ok
        ((b'b' ∷ b' ' ∷ b'2' ∷ b' ' ∷ b'4' ∷ []) ++ (10 ∷ ((b'c' ∷ b' ' ∷ b'3' ∷ []) ++ (10 ∷ []))))
unfolding flushed_content lines load split_whitespace chars insert record_batch record_entry get
    add_ips has eq_bytes forget remove printed
flush_run = refl

-- A domain on two lines, of which the first goes: the second has no addresses then.
double_run :
    flushed_content (some (line_a ++ (line_a ++ line_b))) (((b'b' ∷ []), (b'2' ∷ []) ∷ []) ∷ []) 2
    ≡ panic
unfolding flushed_content lines load split_whitespace chars insert record_batch record_entry get
    add_ips has eq_bytes forget remove printed
double_run = refl

-- The pattern of the documentation, and one without the dot.
pattern_run :
    (domain_matches
        (b'*' ∷ b'.' ∷ b'x' ∷ b'.' ∷ b'o' ∷ b'r' ∷ b'g' ∷ [])
        (b'a' ∷ b'.' ∷ b'x' ∷ b'.' ∷ b'o' ∷ b'r' ∷ b'g' ∷ [])
      ≡ ok false)
    × (domain_matches
          (b'*' ∷ b'x' ∷ b'.' ∷ b'o' ∷ b'r' ∷ b'g' ∷ [])
          (b'a' ∷ b'.' ∷ b'x' ∷ b'.' ∷ b'o' ∷ b'r' ∷ b'g' ∷ [])
        ≡ ok true)
    × (domain_matches
          (b'*' ∷ b'x' ∷ b'.' ∷ b'o' ∷ b'r' ∷ b'g' ∷ [])
          (b'a' ∷ b'x' ∷ b'.' ∷ b'o' ∷ b'r' ∷ b'g' ∷ [])
        ≡ ok false)
unfolding domain_matches strip_prefix ends_with eq_bytes at
pattern_run = (refl, refl, refl)

abbrev empty_buffer : HistoryBuffer
empty_buffer = record {
  queue = [];
  flushing = false;
  dropped = 0;
  lines_count = 9;
  matched_list = [];
}

abbrev one_entry : HistoryBuffer
one_entry = record {
  queue = (google, ((b'1' ∷ []) ∷ [])) ∷ [];
  flushing = false;
  dropped = 0;
  lines_count = 9;
  matched_list = [];
}

push_run : push_many empty_buffer google ((b'1' ∷ []) ∷ []) ≡ ok one_entry
unfolding push_many
push_run = refl

-- An entry that is in, before and behind the test of the queue.
abbrev tested : Running
tested = record { buffer = one_entry; pushes = []; ending = 0 }

Reachable-IsBuffer_example : IsBuffer tested
Reachable-IsBuffer_example = Reachable-IsBuffer tested (
    Reachable.test_step [] [] true
      (Reachable.push_step (google, ((b'1' ∷ []) ∷ [])) (Reachable.fresh 9 [])) refl)

-- A flush without entries leaves the file alone.
no_batch_run : flush (some line_a) [] 2 ≡ ok none
unfolding flush
no_batch_run = refl
