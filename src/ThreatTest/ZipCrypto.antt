-- ===== src/ThreatTest/ZipCrypto.antt =====
-- app/threattest.py: `_crc_table`, `_ZipKeys` and `encrypted_zip`.
use Prim.Native.Nat.{bit_or, bit_xor}
use dmarc_geeks.Common.{
  Bool, List, Option, [], if◌then◌else◌, length, none, some, suc, zero, ℕ, ◌%◌, ◌*◌, ◌++◌, ◌+◌, ◌/◌,
  ◌==◌, ◌^◌, ◌∷◌, nat_eq, text_eq, int_eq, option_eq, pair_eq,
}

abbrev pub Bytes : Type 0
Bytes = List ℕ

-- One of the eight rounds for an entry of the table.
unfoldable pub crc_round : ℕ → ℕ
crc_round c = if c % 2 == 1 then bit_xor 0xEDB88320 (c / 2) else c / 2

unfoldable pub rounds : ℕ → ℕ → ℕ
unfolding crc_round
rounds zero c = c
rounds (suc n) c = rounds n (crc_round c)

-- The entries of the numbers below `n`, in their order.
unfoldable pub entries_to : ℕ → List ℕ
unfolding rounds
entries_to zero = []
entries_to (suc n) = entries_to n ++ (rounds 8 n ∷ [])

unfoldable pub crc_table : List ℕ
unfolding entries_to
crc_table = entries_to 256

-- `tab[i]`; the indices of the source are below 256.
unfoldable pub entry : ℕ → List ℕ → ℕ
entry i [] = 0
entry zero (c ∷ cs) = c
entry (suc i) (c ∷ cs) = entry i cs

pub record ZipKeys : Type 0 where
  pub k0 : ℕ
  pub k1 : ℕ
  pub k2 : ℕ

abbrev pub keys : ℕ → ℕ → ℕ → ZipKeys
keys a b c = record { k0 = a; k1 = b; k2 = c }

unfoldable pub update : ZipKeys → ℕ → ZipKeys
unfolding entry crc_table
update k b =
    let k0 = bit_xor (k.k0 / 2 ^ 8) (entry (bit_xor (k.k0) b % 256) crc_table) in
    let k1 = ((k.k1 + k0 % 256) % 2 ^ 32 * 134775813 + 1) % 2 ^ 32 in
    let k2 = bit_xor (k.k2 / 2 ^ 8) (entry (bit_xor (k.k2) (k1 / 2 ^ 24) % 256) crc_table) in
    keys k0 k1 k2

unfoldable pub update_all : ZipKeys → Bytes → ZipKeys
unfolding update
update_all k [] = k
update_all k (b ∷ bs) = update_all (update k b) bs

unfoldable pub init : Bytes → ZipKeys
unfolding update_all
init password = update_all (keys 0x12345678 0x23456789 0x34567890) password

unfoldable pub stream : ZipKeys → ℕ
stream k = let t = bit_or (k.k2) 2 % 2 ^ 16 in t * bit_xor t 1 / 2 ^ 8 % 256

unfoldable pub encrypt : ZipKeys → Bytes → Bytes
unfolding stream update
encrypt k [] = []
encrypt k (p ∷ ps) = bit_xor p (stream k) ∷ encrypt (update k p) ps

-- `struct.pack` of "<H" and "<I".
unfoldable pub short : ℕ → Bytes
short n = n % 256 ∷ n / 256 % 256 ∷ []

unfoldable pub long : ℕ → Bytes
unfolding short
long n = short (n % 2 ^ 16) ++ short (n / 2 ^ 16)

shorts : List ℕ → Bytes
unfolding short
shorts [] = []
shorts (n ∷ ns) = short n ++ shorts ns

longs : List ℕ → Bytes
unfolding long
longs [] = []
longs (n ∷ ns) = long n ++ longs ns

-- The parts of the file: sizes `n` (encrypted) and `m`, of a name of `l` bytes.
unfoldable pub local_header : ℕ → ℕ → ℕ → ℕ → Bytes
unfolding long longs shorts
local_header crc n m l =
    long 0x04034B50
    ++ (shorts (20 ∷ 1 ∷ 0 ∷ 0 ∷ 0 ∷ []) ++ (longs (crc ∷ n ∷ m ∷ []) ++ shorts (l ∷ 0 ∷ [])))

unfoldable pub central_header : ℕ → ℕ → ℕ → ℕ → Bytes
unfolding long longs shorts
central_header crc n m l =
    long 0x02014B50
    ++ (shorts (20 ∷ 20 ∷ 1 ∷ 0 ∷ 0 ∷ 0 ∷ [])
        ++ (longs (crc ∷ n ∷ m ∷ []) ++ (shorts (l ∷ 0 ∷ 0 ∷ 0 ∷ 0 ∷ []) ++ longs (0 ∷ 0 ∷ []))))

unfoldable pub end_record : ℕ → ℕ → Bytes
unfolding long longs shorts
end_record central body =
    long 0x06054B50
    ++ (shorts (0 ∷ 0 ∷ 1 ∷ 1 ∷ []) ++ (longs (central ∷ body ∷ []) ++ shorts (0 ∷ [])))

-- `zlib.crc32` and `os.urandom(11)` are parameters.
module _ (crc32 : Bytes → ℕ) (noise : Bytes) where
  -- The 12 bytes before the data; the last one is the high byte of the CRC.
  unfoldable pub header : Bytes → Bytes
  header content = noise ++ ((crc32 content % 2 ^ 32 / 2 ^ 24) % 256 ∷ [])

  unfoldable pub encrypted : Bytes → Bytes → Bytes
  unfolding header encrypt init
  encrypted content password = encrypt (init password) (header content ++ content)

  -- The file before the self-test.
  unfoldable pub blob : Bytes → Bytes → Bytes → Bytes
  unfolding encrypted local_header central_header end_record
  blob name content password =
      let enc = encrypted content password in
      let crc = crc32 content % 2 ^ 32 in
      let body = (local_header crc (length enc) (length content) (length name) ++ name) ++ enc in
      let central = central_header crc (length enc) (length content) (length name) ++ name in
      body ++ (central ++ end_record (length central) (length body))

  -- `zip_read` is what zipfile reads: a file, a name and a password; `none` is the RuntimeError.
  unfoldable pub encrypted_zip :
      (Bytes → Bytes → Bytes → Bytes)
      → (Bytes → Bytes → Bool)
      → Bytes
      → Bytes
      → Bytes
      → Option Bytes
  unfolding blob
  encrypted_zip zip_read same name content password =
      let b = blob name content password in
      if same (zip_read b name password) content then some b else none
