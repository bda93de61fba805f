-- ===== src/RateLimit.antt =====
-- app/rate_limit.py: token buckets. Amounts are whole numbers of a fraction of a token that makes
-- the refill of one second whole: 1/30 for `login_limiter`, 1/120 for `mail_limiter`. Times are
-- whole seconds of `time.monotonic()`. The calls run one by one,
-- in the order of the times that they read. The source reads the clock before it takes the lock;
-- threads that pass each other between the two are left out.
pub mod Bound
mod Tests
use dmarc_geeks.Common.{
  Bool, List, Option, Text, [], false, if◌then◌else◌, leb, lookup, min, none, put, some, true, ℕ,
  ◌&&◌, ◌*◌, ◌+◌, ◌-◌, ◌==◌, ◌∷◌, nat_eq, text_eq,
}

pub record Bucket : Type 0 where
  pub tokens : ℕ
  pub last : ℕ

-- `TokenBucket` without its buckets.
pub record Limiter : Type 0 where
  pub capacity : ℕ
  pub refill : ℕ

abbrev pub Buckets : Type 0
Buckets = List (Text × Bucket)

-- Ten attempts, and five mails.
abbrev pub login_limiter : Limiter
login_limiter = record { capacity = 300; refill = 1 }

abbrev pub mail_limiter : Limiter
mail_limiter = record { capacity = 600; refill = 1 }

-- `self._buckets[key]` of the defaultdict.
unfoldable pub bucket_of : Limiter → ℕ → Option Bucket → Bucket
bucket_of l now none = record { tokens = l.capacity; last = now }
bucket_of l now (some b) = b

-- The tokens of a bucket after the refill.
unfoldable pub refreshed : Limiter → ℕ → Bucket → ℕ
refreshed l now b = min l.capacity (b.tokens + (now - b.last) * l.refill)

unfoldable pub take_from : Limiter → ℕ → Text → ℕ → ℕ → Buckets → Bool × Buckets
take_from l now key cost tokens bs =
    if leb cost tokens
    then (true, put key (record { tokens = tokens - cost; last = now }) bs)
    else (false, put key (record { tokens = tokens; last = now }) bs)

-- `take`
unfoldable pub try_take : Limiter → ℕ → Text → ℕ → Buckets → Bool × Buckets
unfolding bucket_of refreshed take_from
try_take l now key cost bs =
    take_from l now key cost (refreshed l now (bucket_of l now (lookup key bs))) bs

-- One call: its time, its key and its cost.
pub record Call : Type 0 where
  pub at : ℕ
  pub key : Text
  pub cost : ℕ

-- What the calls for a key are granted, in sum.
unfoldable pub granted : Limiter → Text → List Call → Buckets → ℕ
unfolding try_take
granted l key [] bs = 0
granted l key (c ∷ cs) bs =
    let (ok, bs') = try_take l (c.at) (c.key) (c.cost) bs in
    let rest = granted l key cs bs' in if ok && c.key == key then c.cost + rest else rest
