-- ===== src/Handler.antt =====
-- dns_relay/src/handler.rs: the history of resolved domains, and the handling of a query.
pub mod History
pub mod Query
