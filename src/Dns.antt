-- ===== src/Dns.antt =====
-- The Namecheap DNS features of the console: console/src/features/dns, the domain lookup of
-- console/src/hooks/dns.ts, and the bulk page of console/src/pages/Namecheap.
pub mod Hosts
pub mod Ttl
pub mod Bulk
pub mod Lookup
pub mod Commands
pub mod Detail
