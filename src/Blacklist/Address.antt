-- ===== src/Blacklist/Address.antt =====
-- `_reverse_ip` of app/blacklist.py. `ipaddress.ip_address` is read as its IPv4 rule: four decimal
-- octets of at most 255 without leading zeros. An IPv6 address and a text that is no address have
-- the same result, `None`.
use mathlib.Core.List.{reverse, reverse-reverse}
use dmarc_geeks.Common.{
  All-reverse, Bool, Bool-cases, Free, List, Option, Text, [], all, ap, arith, false, if◌then◌else◌,
  inl, inr, is_digit, is_empty, join, join-split, leb, length, none, not, some, split, split-Free,
  split-join, text, true, ℕ, ◌&&◌, ◌*◌, ◌+◌, ◌-◌, ◌==◌, ◌||◌, ◌∷◌, ◌≡◌, ◌≢◌, nat_eq, text_eq,
}

abbrev dot : ℕ
dot = b'.'

-- The value of a run of decimal digits, the most significant first.
decimal_from : ℕ → Text → ℕ
decimal_from acc [] = acc
decimal_from acc (c ∷ s) = decimal_from (acc * 10 + (c - 48)) s

unfoldable pub is_octet : Text → Bool
unfolding is_digit decimal_from
is_octet [] = false
is_octet (c ∷ s) =
    all is_digit (c ∷ s)
    && leb (length s) 2
    && (not (c == 48) || is_empty s)
    && leb (decimal_from 0 (c ∷ s)) 255

are_octets : List Text → Bool
unfolding is_octet
are_octets octets = length octets == 4 && all is_octet octets

unfoldable pub is_ipv4 : Text → Bool
unfolding are_octets
is_ipv4 ip = are_octets (split dot ip)

unfoldable pub reverse_ip : Text → Option Text
unfolding is_ipv4
reverse_ip ip = if is_ipv4 ip then some (join (text ".") (reverse (split dot ip))) else none

are_octets-reverse : (l : List Text) → are_octets l ≡ true → are_octets (reverse l) ≡ true
unfolding are_octets
are_octets-reverse (a ∷ b ∷ c ∷ d ∷ []) h = ground arith
are_octets-reverse [] h = ground arith
are_octets-reverse (a ∷ []) h = ground arith
are_octets-reverse (a ∷ b ∷ []) h = ground arith
are_octets-reverse (a ∷ b ∷ c ∷ []) h = ground arith
are_octets-reverse (a ∷ b ∷ c ∷ d ∷ e ∷ r) h = ground arith

reverse-ne-nil : (l : List Text) → are_octets l ≡ true → reverse l ≢ []
unfolding are_octets
reverse-ne-nil [] h = ground arith
reverse-ne-nil (a ∷ l) h = λ e. cc (reverse-reverse (a ∷ l), ap reverse e)

module _ (ip : Text) (valid : are_octets (split dot ip) ≡ true) where
  split-reverse : split dot (join (dot ∷ []) (reverse (split dot ip))) ≡ reverse (split dot ip)
  split-reverse =
      split-join dot (reverse (split dot ip)) (reverse-ne-nil (split dot ip) valid)
        (All-reverse (Free dot) (split dot ip) (split-Free dot ip))

  reverse_ip-join : reverse_ip (join (dot ∷ []) (reverse (split dot ip))) ≡ some ip
  unfolding reverse_ip
  reverse_ip-join =
      rw (split-reverse, are_octets-reverse (split dot ip) valid, reverse-reverse, join-split)

-- The reversed address of an IPv4 address is an IPv4 address, and reversing it once more gives
-- the address back.
pub reverse_ip-reverse_ip : (ip r : Text) → reverse_ip ip ≡ some r → reverse_ip r ≡ some ip
reverse_ip-reverse_ip ip r h = elim (Bool-cases (are_octets (split dot ip))) [
  | inl valid ↦ rw (← reversed valid) (reverse_ip-join ip valid)
  | inr bad ↦ absurd (none_of bad)
]
  where
    reversed : are_octets (split dot ip) ≡ true → join (dot ∷ []) (reverse (split dot ip)) ≡ r
    reversed valid = unfold reverse_ip in ground arith

    none_of : are_octets (split dot ip) ≡ false → ⊥
    none_of bad = unfold reverse_ip in ground arith
