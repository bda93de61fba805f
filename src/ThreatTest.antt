-- ===== src/ThreatTest.antt =====
-- app/threattest.py: the test mails of the threat-policy test, whose malware case is a ZIP file with
-- PKWARE's traditional encryption. Bytes are numbers; `& 0xFF` and its kind are remainders.
pub mod ZipCrypto
pub mod Bits
pub mod Format
pub mod RoundTrip
pub mod Cases
mod Tests
