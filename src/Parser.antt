-- ===== src/Parser.antt =====
-- app/parser.py: DMARC aggregate reports from XML, gzip and zip payloads.
mod Tests
pub mod Element
pub mod Report
pub mod Payload
