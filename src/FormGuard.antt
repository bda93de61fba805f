-- ===== src/FormGuard.antt =====
-- app/form_guard.py: the time trap of the public forms. The signer of `itsdangerous` is the
-- parameter `unsign`.
mod Tests
use dmarc_geeks.Common.{
  Bool, Option, Text, [], arith, false, if◌then◌else◌, is_empty, leb, ltb, none, not, refl, some,
  split, strip, text, true, ℕ, ◌&&◌, ◌*◌, ◌∷◌, ◌≡◌,
}

-- What `unsign(token, max_age=…)` does: it returns, raises SignatureExpired, or BadSignature.
pub data Unsigned : Type 0 where
  valid : Unsigned
  expired : Unsigned
  bad : Unsigned

abbrev pub min_age : ℕ
min_age = 3

abbrev pub max_age : ℕ
max_age = 2 * 3600

module _ (unsign : Text → ℕ → Unsigned) where
  -- The second `try`.
  second_look : Unsigned → Bool
  second_look valid = false
  second_look expired = true
  second_look bad = false

  first_look : Text → Unsigned → Bool
  unfolding second_look
  first_look token valid = second_look (unsign token min_age)
  first_look token expired = false
  first_look token bad = false

  -- A missing token is the empty text.
  unfoldable pub token_ok : Text → Bool
  unfolding first_look
  token_ok token = if is_empty token then false else first_look token (unsign token max_age)

-- `client_ip`: the first entry of X-Forwarded-For, or the peer's address.
client_ip : Text → Option Text → Text
client_ip [] peer = elim peer [ none ↦ text "-" | some host ↦ host ]
client_ip (c ∷ xff) peer = elim (split b',' (c ∷ xff)) [ [] ↦ [] | a ∷ rest ↦ strip a ]

-- The documented behaviour of TimestampSigner: a token with a good signature has an age, and it
-- has expired exactly when the age is greater than the limit.
abbrev pub IsTimed : (Text → ℕ → Unsigned) → (Text → Option ℕ) → Type 0
IsTimed unsign age =
    (token : Text) (limit : ℕ)
    → unsign token limit
      ≡ elim (age token) [ none ↦ bad | some a ↦ if ltb limit a then expired else valid ]

-- A token that is older than three seconds and at most two hours old.
abbrev pub is_in_window : Option ℕ → Bool
is_in_window none = false
is_in_window (some a) = ltb min_age a && leb a max_age

-- A form token passes exactly if it is there, its signature is good, it is older than three
-- seconds and it is at most two hours old.
pub token_ok-is_in_window :
    (unsign : Text → ℕ → Unsigned) (age : Text → Option ℕ) (token : Text)
    → IsTimed unsign age
    → token_ok unsign token ≡ (not (is_empty token) && is_in_window (age token))
unfolding token_ok
token_ok-is_in_window unsign age token timed = by_age (age token) refl
  where
    by_age :
        (o : Option ℕ)
        → age token ≡ o
        → token_ok unsign token ≡ (not (is_empty token) && is_in_window o)
    by_age o e = ground (arith, timed token min_age, timed token max_age)
