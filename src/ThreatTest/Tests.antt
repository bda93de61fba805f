-- ===== src/ThreatTest/Tests.antt =====
-- Runs of app/threattest.py.
use dmarc_geeks.Common.{[], refl, ℕ, ◌∷◌, ◌≡◌}
use dmarc_geeks.ThreatTest.ZipCrypto.{Bytes, crc_table, entry}

-- Entries of the table of the CRC-32.
table_entries : (entry 1 crc_table ≡ 0x77073096) × (entry 255 crc_table ≡ 0x2D02EF8D)
unfolding crc_table entry
table_entries = (refl, refl)

abbrev noise : Bytes
noise = 1 ∷ 2 ∷ 3 ∷ 4 ∷ 5 ∷ 6 ∷ 7 ∷ 8 ∷ 9 ∷ 10 ∷ 11 ∷ []

abbrev checksum : Bytes → ℕ
checksum bs = 0x12345678
