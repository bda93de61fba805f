-- ===== src/RateLimit/Bound.antt =====
-- The bound on what a limiter of app/rate_limit.py grants.
use dmarc_geeks.Common.{
  Bool, Bool-cases, List, Option, Text, [], ap, arith, beq_refl, false, if◌then◌else◌, inl, inr,
  leb, lookup, lookup-put, none, put, refl, some, text_beq_iff, true, ℕ, ◌&&◌, ◌*◌, ◌+◌, ◌-◌, ◌==◌,
  ◌∙◌, ◌∷◌, ◌≡◌, ◌≤◌, nat_eq, text_eq,
}
use dmarc_geeks.RateLimit.{
  Bucket, Limiter, Buckets, bucket_of, refreshed, take_from, try_take, Call, granted,
}

-- The calls are in the order of their times, from `since` to `until`.
abbrev pub IsBetween : ℕ → ℕ → List Call → Type 0
IsBetween since until [] = since ≤ until
IsBetween since until (c ∷ cs) = (since ≤ c.at) × IsBetween (c.at) until cs

-- The bucket of a key was last used at `t` or before.
abbrev pub IsPast : ℕ → Option Bucket → Type 0
IsPast t none = Unit
IsPast t (some b) = b.last ≤ t

-- What the key has at the time `t`.
abbrev level : Limiter → ℕ → Option Bucket → ℕ
level l t o = refreshed l t (bucket_of l t o)

mul_elapsed : (a b c r : ℕ) → a ≤ b → b ≤ c → (c - a) * r ≡ (c - b) * r + (b - a) * r
mul_elapsed a b c r h k = ap (λ x. x * r) (omega (arith, h, k)) ∙ add_mul (c - b) (b - a) r
  where
    add_mul : (x y n : ℕ) → (x + y) * n ≡ x * n + y * n
    add_mul x y n = omega arith

level_later :
    (l : Limiter) (t now : ℕ) (o : Option Bucket)
    → t ≤ now
    → IsPast t o
    → level l now o ≤ level l t o + (now - t) * l.refill
unfolding refreshed bucket_of
level_later l t now none h p = omega arith
level_later l t now (some b) h p = omega (arith, mul_elapsed (b.last) t now (l.refill) p h)

level_fresh :
    (l : Limiter) (now tokens : ℕ)
    → level l now (some (record { tokens = tokens; last = now })) ≤ tokens
unfolding refreshed bucket_of
level_fresh l now tokens = ground arith

IsBetween-le : (since until : ℕ) (cs : List Call) → IsBetween since until cs → since ≤ until
IsBetween-le since until [] h = h
IsBetween-le since until (c ∷ cs) (h, hs) = omega (arith, h, IsBetween-le (c.at) until cs hs)

lookup-take_from :
    (l : Limiter) (now : ℕ) (key : Text) (cost tokens : ℕ) (bs : Buckets) (other : Text)
    → (key == other) ≡ false
    → lookup other (take_from l now key cost tokens bs).1 ≡ lookup other bs
unfolding take_from
lookup-take_from l now key cost tokens bs other h = elim (Bool-cases (leb cost tokens)) [
  | inl paid ↦ rw (paid, lookup-put, h) refl
  | inr refused ↦ rw (refused, lookup-put, h) refl
]

-- What the calls from a time on are granted is bounded by what the key has and the refill.
abbrev Bounded : Limiter → Text → ℕ → ℕ → List Call → Buckets → Type 0
Bounded l key until since cs bs =
    granted l key cs bs ≤ level l since (lookup key bs) + (until - since) * l.refill

module _ (l : Limiter) (key : Text) (until now : ℕ) (cs : List Call) where
  module _ (ih : (bs : Buckets) → IsPast now (lookup key bs) → Bounded l key until now cs bs) where
    granted_after_put :
        (left : ℕ) (bs : Buckets)
        → granted l key cs (put key (record { tokens = left; last = now }) bs)
          ≤ left + (until - now) * l.refill
    granted_after_put left bs = omega (arith, ih bs' past, low)
      where
        bs' : Buckets
        bs' = put key (record { tokens = left; last = now }) bs

        stored : lookup key bs' ≡ some (record { tokens = left; last = now })
        stored = rw (lookup-put, beq_refl key) refl

        past : IsPast now (lookup key bs')
        past = rw stored (omega arith)

        low : level l now (lookup key bs') ≤ left
        low = rw stored (level_fresh l now left)

    granted_own :
        (cost tokens : ℕ) (bs : Buckets)
        → let r = take_from l now key cost tokens bs in
          (if r.0 then cost + granted l key cs r.1 else granted l key cs r.1)
          ≤ tokens + (until - now) * l.refill
    unfolding take_from
    granted_own cost tokens bs = elim (Bool-cases (leb cost tokens)) [
      | inl paid ↦ rw paid (ground (arith, granted_after_put (tokens - cost) bs, paid))
      | inr refused ↦ rw refused (granted_after_put tokens bs)
    ]

try_take-take_from :
    (l : Limiter) (now : ℕ) (key : Text) (cost : ℕ) (bs : Buckets)
    → try_take l now key cost bs ≡ take_from l now key cost (level l now (lookup key bs)) bs
unfolding try_take
try_take-take_from l now key cost bs = refl

lookup-try_take :
    (l : Limiter) (now : ℕ) (key : Text) (cost : ℕ) (bs : Buckets) (other : Text)
    → (key == other) ≡ false
    → lookup other (try_take l now key cost bs).1 ≡ lookup other bs
lookup-try_take l now key cost bs other h =
    rw try_take-take_from (lookup-take_from l now key cost (level l now (lookup key bs)) bs other h)

IsPast-later : (t now : ℕ) (o : Option Bucket) → t ≤ now → IsPast t o → IsPast now o
IsPast-later t now none h p = tt
IsPast-later t now (some b) h p = omega (arith, h, p)

and_true : (b : Bool) → (b && true) ≡ b
and_true true = refl
and_true false = refl

and_false : (b : Bool) → (b && false) ≡ false
and_false true = refl
and_false false = refl

module _ (l : Limiter) (key : Text) (until : ℕ) where
  granted_le :
      (cs : List Call) (since : ℕ) (bs : Buckets)
      → IsBetween since until cs
      → IsPast since (lookup key bs)
      → Bounded l key until since cs bs
  unfolding granted
  granted_le [] since bs h p = omega arith
  granted_le (c ∷ cs) since bs (h, hs) p = elim (Bool-cases (c.key == key)) [
    | inl same ↦
        rw (same, (text_beq_iff (c.key) key).0 same, try_take-take_from, and_true)
          (omega (
            arith,
            granted_own l key until (c.at) cs (λ b q. granted_le cs (c.at) b hs q) (c.cost)
                (level l (c.at) (lookup key bs)) bs,
            level_later l since (c.at) (lookup key bs) h p,
            mul_elapsed since (c.at) until (l.refill) h (IsBetween-le (c.at) until cs hs),
          ))
    | inr other ↦
        rw (other, and_false)
          (omega (
            arith,
            granted_le cs (c.at) (try_take l (c.at) (c.key) (c.cost) bs).1 hs (
                rw (lookup-try_take l (c.at) (c.key) (c.cost) bs key other)
                  (IsPast-later since (c.at) (lookup key bs) h p)),
            ap (level l (c.at)) (lookup-try_take l (c.at) (c.key) (c.cost) bs key other),
            level_later l since (c.at) (lookup key bs) h p,
            mul_elapsed since (c.at) until (l.refill) h (IsBetween-le (c.at) until cs hs),
          ))
  ]

-- Whatever the calls, for whatever keys and costs, from one time to another: what a new limiter
-- grants one key in sum is at most the capacity and the refill of the time between.
pub granted_bounded :
    (l : Limiter) (key : Text) (since until : ℕ) (cs : List Call)
    → IsBetween since until cs
    → granted l key cs [] ≤ l.capacity + (until - since) * l.refill
unfolding lookup refreshed bucket_of
granted_bounded l key since until cs h = omega (arith, granted_le l key until cs since [] h tt)
