-- ===== src/EnvFile/Lines.antt =====
-- The text of app/env_file.py and its lines.
use dmarc_geeks.Common.{
  Bool, Bool-cases, List, Text, [], all, arith, false, inl, inr, not, refl, true, ℕ, ◌++◌, ◌∷◌, ◌≡◌,
}
use dmarc_geeks.EnvFile.{is_break, push_char, splitlines}

-- The text is one line: it holds no line boundary.
abbrev pub is_line : Text → Bool
is_line s = all (λ c. not (is_break c)) s

push_char-is_line :
    (c : ℕ) (ls : List Text)
    → is_break c ≡ false
    → all is_line ls ≡ true
    → all is_line (push_char c ls) ≡ true
unfolding push_char
push_char-is_line c [] h k = ground arith
push_char-is_line c (l ∷ ls) h k = ground arith

pub splitlines-is_line : (s : Text) → all is_line (splitlines s) ≡ true
unfolding splitlines
splitlines-is_line [] = refl
splitlines-is_line (c ∷ s) = elim (Bool-cases (is_break c)) [
  | inl b ↦ rw b (splitlines-is_line s)
  | inr n ↦ rw n (push_char-is_line c (splitlines s) n (splitlines-is_line s))
]

pub splitlines_one : (c : ℕ) (s : Text) → is_line (c ∷ s) ≡ true → splitlines (c ∷ s) ≡ (c ∷ s) ∷ []
unfolding splitlines
splitlines_one c [] h = elim (Bool-cases (is_break c)) [
  | inl b ↦ absurd (cc (rw b at h))
  | inr n ↦ rw n
]
splitlines_one c (d ∷ s) h = elim (Bool-cases (is_break c)) [
  | inl b ↦ absurd (cc (rw b at h))
  | inr n ↦ rw (n, splitlines_one d s (rw n at h))
]

abbrev newline : ℕ
newline = 10

pub splitlines-append :
    (l rest : Text) → is_line l ≡ true → splitlines (l ++ newline ∷ rest) ≡ l ∷ splitlines rest
unfolding splitlines is_break
splitlines-append [] rest h = ground arith
splitlines-append (c ∷ l) rest h = elim (Bool-cases (is_break c)) [
  | inl b ↦ absurd (cc (rw b at h))
  | inr n ↦ rw (n, splitlines-append l rest (rw n at h))
]
