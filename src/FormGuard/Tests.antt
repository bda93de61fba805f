-- ===== src/FormGuard/Tests.antt =====
-- Runs of the time trap of app/form_guard.py.
use dmarc_geeks.Common.{
  Option, Text, false, if◌then◌else◌, is_empty, length, ltb, not, refl, some, text, true, ℕ, ◌&&◌,
  ◌≡◌,
}
use dmarc_geeks.FormGuard.{Unsigned, valid, expired, token_ok, is_in_window, token_ok-is_in_window}

-- The token's length is its age.
abbrev age : Text → Option ℕ
age t = some (length t)

abbrev unsign : Text → ℕ → Unsigned
unsign t limit = if ltb limit (length t) then expired else valid

too_fast : token_ok unsign (text "abc") ≡ false
unfolding token_ok
too_fast = refl

in_time : token_ok unsign (text "abcd") ≡ true
unfolding token_ok
in_time = refl

token_ok-is_in_window_example :
    token_ok unsign (text "abcd")
    ≡ (not (is_empty (text "abcd")) && is_in_window (age (text "abcd")))
token_ok-is_in_window_example = token_ok-is_in_window unsign age (text "abcd") (λ t limit. refl)
