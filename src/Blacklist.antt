-- ===== src/Blacklist.antt =====
-- app/blacklist.py: DNSBL lookups for sending IPs.
mod Tests
pub mod Zones
pub mod Address
pub mod Cache
pub mod Resolver
pub mod Check
