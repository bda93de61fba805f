-- ===== src/ThreatTest/Format.antt =====
-- The traditional encryption of ZIP for a reader, after its format note (APPNOTE.TXT, 6.1), with the
-- CRC-32 by its polynomial in place of a table; and how the keys of app/threattest.py relate to it.
use Prim.Native.Nat.{bit_or, bit_xor}
use dmarc_geeks.Common.{
  Bool, List, [], ap, arith, false, if◌then◌else◌, length, length-append, refl, suc, sym, true,
  zero, ℕ, ◌%◌, ◌*◌, ◌++◌, ◌+◌, ◌/◌, ◌<◌, ◌==◌, ◌^◌, ◌∙◌, ◌∷◌, ◌≡◌, nat_eq, text_eq, int_eq,
  option_eq, pair_eq,
}
use dmarc_geeks.ThreatTest.ZipCrypto.{
  Bytes, ZipKeys, keys, update, update_all, init, stream, entry, entries_to, crc_table, rounds,
  crc_round,
}

-- The remainder of the polynomial 0x104C11DB7, with the bits in reverse order.
shift_bit : ℕ → ℕ
shift_bit c = if c % 2 == 1 then bit_xor 3988292384 (c / 2) else c / 2

shift_byte : ℕ → ℕ
unfolding shift_bit
shift_byte c =
    shift_bit (shift_bit (shift_bit (shift_bit (shift_bit (shift_bit (shift_bit (shift_bit c)))))))

-- `crc32(old_crc, char)`
unfoldable pub crc32_update : ℕ → ℕ → ℕ
unfolding shift_byte
crc32_update crc char = bit_xor (crc / 256) (shift_byte (bit_xor crc char % 256))

-- `update_keys(char)`
unfoldable pub update_keys : ZipKeys → ℕ → ZipKeys
unfolding crc32_update
update_keys k char =
    let key0 = crc32_update (k.k0) char in
    let key1 = ((k.k1 + key0 % 256) % 4294967296 * 134775813 + 1) % 4294967296 in
    keys key0 key1 (crc32_update (k.k2) (key1 / 16777216))

-- `decrypt_byte()`, with a temp of 16 bits.
unfoldable pub decrypt_byte : ZipKeys → ℕ
decrypt_byte k = let temp = bit_or (k.k2) 2 % 65536 in temp * bit_xor temp 1 / 256 % 256

-- The loop over the password.
unfoldable pub keys_of : ZipKeys → Bytes → ZipKeys
unfolding update_keys
keys_of k [] = k
keys_of k (char ∷ password) = keys_of (update_keys k char) password

unfoldable pub start_keys : ZipKeys
start_keys = keys 305419896 591751049 878082192

-- The loop over the encrypted bytes.
unfoldable pub decrypt : ZipKeys → Bytes → Bytes
unfolding decrypt_byte update_keys
decrypt k [] = []
decrypt k (c ∷ cs) = let p = bit_xor c (decrypt_byte k) in p ∷ decrypt (update_keys k p) cs

entry-append : (i : ℕ) (l m : List ℕ) → i < length l → entry i (l ++ m) ≡ entry i l
unfolding entry
entry-append i [] m h = absurd (omega arith)
entry-append zero (c ∷ l) m h = refl
entry-append (suc i) (c ∷ l) m h = entry-append i l m (omega arith)

entry_last : (l : List ℕ) (c : ℕ) → entry (length l) (l ++ c ∷ []) ≡ c
unfolding entry
entry_last [] c = refl
entry_last (d ∷ l) c = entry_last l c

length-entries_to : (n : ℕ) → length (entries_to n) ≡ n
unfolding entries_to
length-entries_to zero = refl
length-entries_to (suc n) =
    omega (arith, length-append (entries_to n) (rounds 8 n ∷ []), length-entries_to n)

-- Each entry of the table stands at its own index.
entry-entries_to : (n i : ℕ) → i < n → entry i (entries_to n) ≡ rounds 8 i
unfolding entries_to
entry-entries_to zero i h = absurd (omega arith)
entry-entries_to (suc n) i h = by_place (i == n) refl (entry-entries_to n i)
  where
    by_place :
        (b : Bool)
        → (i == n) ≡ b
        → (i < n → entry i (entries_to n) ≡ rounds 8 i)
        → entry i (entries_to (suc n)) ≡ rounds 8 i
    by_place true e ih =
        let same : i ≡ n = ground arith in
        rw same (
          ap (λ k. entry k (entries_to n ++ rounds 8 n ∷ [])) (sym (length-entries_to n))
          ∙ entry_last (entries_to n) (rounds 8 n))
    by_place false e ih =
        entry-append i (entries_to n) (rounds 8 n ∷ [])
          (omega (arith, length-entries_to n, below e))
        ∙ ih (below e)
      where
        below : (i == n) ≡ false → i < n
        below e = ground arith

rounds-shift_byte : (i : ℕ) → rounds 8 i ≡ shift_byte i
unfolding rounds crc_round shift_byte shift_bit
rounds-shift_byte i = refl

crc_table-crc32_update :
    (crc char : ℕ)
    → bit_xor (crc / 2 ^ 8) (entry (bit_xor crc char % 256) crc_table) ≡ crc32_update crc char
unfolding crc_table crc32_update
crc_table-crc32_update crc char = ap (bit_xor (crc / 256)) (
    entry-entries_to 256 (bit_xor crc char % 256) (omega arith)
    ∙ rounds-shift_byte (bit_xor crc char % 256))

pub update-update_keys : (k : ZipKeys) (b : ℕ) → update k b ≡ update_keys k b
unfolding update update_keys
update-update_keys k b =
    let key0 = crc32_update (k.k0) b in
    let key1 = ((k.k1 + key0 % 256) % 4294967296 * 134775813 + 1) % 4294967296 in
    rw (crc_table-crc32_update (k.k0) b, crc_table-crc32_update (k.k2) (key1 / 16777216)) refl

pub stream-decrypt_byte : (k : ZipKeys) → stream k ≡ decrypt_byte k
unfolding stream decrypt_byte
stream-decrypt_byte k = refl

update_all-keys_of : (k : ZipKeys) (bs : Bytes) → update_all k bs ≡ keys_of k bs
unfolding update_all keys_of
update_all-keys_of k [] = refl
update_all-keys_of k (b ∷ bs) =
    update_all-keys_of (update k b) bs ∙ ap (λ j. keys_of j bs) (update-update_keys k b)

pub init-keys_of : (password : Bytes) → init password ≡ keys_of start_keys password
unfolding init start_keys
init-keys_of password = update_all-keys_of _ password
