-- ===== src/RateLimit/Tests.antt =====
-- Runs of the limiters of app/rate_limit.py.
use dmarc_geeks.Common.{put, nat_eq, text_eq}
use dmarc_geeks.Common.{text_beq}
use dmarc_geeks.Common.{lookup}
use dmarc_geeks.Common.{List, [], arith, refl, text, ◌*◌, ◌+◌, ◌-◌, ◌∷◌, ◌≡◌, ◌≤◌}
use dmarc_geeks.RateLimit.{Call, granted, Limiter}
use dmarc_geeks.RateLimit.Bound.{granted_bounded}

abbrev limiter : Limiter
limiter = record { capacity = 60; refill = 1 }

abbrev calls : List Call
calls =
    record { at = 0; key = text "a"; cost = 30 }
    ∷ record { at = 1; key = text "b"; cost = 30 }
    ∷ record { at = 2; key = text "a"; cost = 30 }
    ∷ record { at = 3; key = text "a"; cost = 30 }
    ∷ []

-- The last call finds three units.
granted_run : granted limiter (text "a") calls [] ≡ 60
unfolding granted lookup text_beq put
granted_run = refl

granted_bounded_example : granted limiter (text "a") calls [] ≤ 60 + (3 - 0) * 1
granted_bounded_example =
    granted_bounded limiter (text "a") 0 3 calls
      (omega arith, (omega arith, (omega arith, (omega arith, omega arith))))
