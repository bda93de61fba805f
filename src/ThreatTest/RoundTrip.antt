-- ===== src/ThreatTest/RoundTrip.antt =====
-- app/threattest.py: the encrypted file and a reader of the format.
use dmarc_geeks.Common.{All, drop, take, ℕ, ◌+◌, ◌<◌}
use dmarc_geeks.ThreatTest.ZipCrypto.{Bytes}

abbrev pub AreBytes : Bytes → Type 0
AreBytes bs = All (λ b. b < 256) bs

-- The stored bytes of the entry: behind a local header of 30 bytes and the name.
abbrev pub stored : ℕ → ℕ → Bytes → Bytes
stored name_length size file = take size (drop (30 + name_length) file)
