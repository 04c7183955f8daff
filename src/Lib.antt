-- ===== src/Lib.antt =====
-- dns-relay is a DNS relay in Rust: a client's UDP query is received, checked against the drop and
-- redirect rules and the response cache, and otherwise resolved upstream, over obfuscated UDP or
-- over HTTPS. This library models the code of the crate `shared`, on which the binaries dns_relay
-- and resolver_proxy rest, the handling of queries and the resolvers of dns_relay, its relays and
-- configuration, the proxy, and the tool's change of a configuration, and proves what makes them
-- correct.
--
-- The parts, and the files of the repository they model:
--
--   Prelude      The vocabulary: Boolean tests, lists measured by machine numbers, big-endian reads
--                and writes. `Outcome` is the result of code that may return a value (`ok`), return
--                None or an error (`refuse`), panic on an index (`panic`), or, in the model alone, run
--                out of the rounds given to a loop (`out_of_fuel`). A read out of bounds is
--                `panic`, as the source's indexing is.
--   Dns          shared/src/dns.rs: one module for each family of its functions.
--     Text         the String operations that the parser uses, on UTF-8 bytes
--     Name         parse_domain and skip_name
--     Query        build_lookup_query
--     Ipv4         the addresses of std::net, as parse() reads them
--     Records      skip_rr, parse_a_records and response_has_only_unspecified_addresses
--     Ttl          response_cache_ttl, age_response_ttls and min_answer_ttl
--     Respond      craft_redirect_response, craft_nxdomain_response, craft_servfail_response,
--                  with_txid
--     Edns         find_opt_record, parse_options, set_ecs_ipv4_subnet, rebuild_with_new_opt
--     Subnet       the tests for a public IPv4 address, and set_ecs_option
--     Patterns     matches_domain_pattern
--   Cache        shared/src/cache.rs: keys, the response cache and the domain cache. The crate `lru`
--                is the parameter `Lru` of the section, an interface of operations and laws.
--   Obfs         shared/src/obfs.rs: encode and decode. The cipher is the parameter `Aead` with its laws.
--   Trie         shared/src/domain_trie.rs: insertion and lookup of rules, label globs (Glob), block lists
--                (Blocklist) and the trie of a configuration (Build). What a list file holds is a parameter.
--   InFlight     dns_relay/src/handler.rs: InFlightQueries, by which equal queries share one resolution.
--   Resolver     dns_relay/src/resolver.rs: the shared UDP socket and its transaction ids (Dispatcher),
--                the resolvers that failed (Failed), the choice among the healthy ones (Picker), the
--                race of two of them for a query (Race), the search for new ones (Discovery), and the
--                transport of a query (Upstream). Sorting is an interface with its laws.
--   Handler      dns_relay/src/handler.rs: the handling of a query between two waits (Query), and the
--                history of domains with its file (History).
--   Proxy        resolver_proxy/src/handler.rs: the targets and the handling of a query (Forward: the
--                fallback over the targets).
--   Config       dns_relay/src/conf.rs, dns_relay/src/client.rs and shared/src/lib.rs: the checks of a
--                configuration (Secure), the lists of redirects (Redirects), and a round of the reload
--                (Reload).
--   Relaying     dns_relay/src/relay.rs and dns_relay/src/client.rs: the envelopes of the relays,
--                the choice of one, the transport of a query, and the lookup of an address by the
--                library (Lookup).
--   Netguard     shared/src/netguard.rs: the Linux guard of the system's DNS. The output of commands is a
--                parameter, and the changes that they make are a trace.
--   Admin        dns_relay_admin/src/apply.rs: the change of a configuration with its rollback.
--   Samples      runs of the model on packets, and the theorems at concrete inputs.
--
-- Conventions. A byte is a natural number, and a Vec<u8> or &[u8] a list of them; a theorem that
-- needs the bytes to be below 256 says so. A usize does not wrap in the model: every offset the code
-- computes is at most the length of a packet plus 70,000. A u16 or u32 that the code adds to keeps its
-- wrap-around. A &mut [u8] is passed in and handed back, so `age_response_ttls` returns its packet
-- with its Boolean. A Mutex is not modelled: each function of the cache holds the lock from
-- its first to its last step, hence runs of them are sequences of whole steps. Code without such a
-- lock is a step for each atomic action: a leader's send and the removal of its entry (InFlight), and
-- the push, the test of the length, the flag and the next flush of the history buffer
-- (Handler/History/Buffer), which the tasks take in every order.
--
-- Loops. A `for` over a count is recursion on the count. parse_domain's `loop` is given as many rounds
-- as the code's own bound on pointers allows (129 passes over the packet), skip_name's one round for
-- each byte and one more: each round moves right or, in parse_domain, uses up a pointer.
--
-- Not modelled: sockets, timers and tasks; the panics of allocation; `to_lowercase` above U+007F,
-- which is the parameter `lower_wide` of the modules that use it; the network itself, HTTP and
-- QUIC; the backlog of the binary, the macOS backend of the network guard, the rest
-- of the administration tool and the desktop application.
pub mod Prelude
pub mod Dns
pub mod Cache
pub mod Obfs
pub mod InFlight
pub mod Trie
pub mod Resolver
pub mod Handler
pub mod Proxy
pub mod Config
pub mod Relaying
pub mod Netguard
pub mod Admin
mod Samples
