-- ===== src/Dns.antt =====
-- shared/src/dns.rs: the wire format, from names to records, and what the relay does with a packet.
pub mod Text
pub mod Name
pub mod Query
pub mod Ipv4
pub mod Ipv6
pub mod Records
pub mod Ttl
pub mod Respond
pub mod Edns
pub mod Patterns
pub mod Subnet
