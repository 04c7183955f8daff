-- ===== src/Resolver.antt =====
-- dns_relay/src/resolver.rs: the shared UDP socket to the resolvers (Dispatcher), the choice of a
-- resolver (Picker), the race of two of them (Race), and the search for new ones (Discovery).
pub mod Dispatcher
pub mod Picker
pub mod Failed
pub mod Race
pub mod Discovery
pub mod Upstream
