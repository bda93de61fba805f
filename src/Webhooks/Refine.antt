-- ===== src/Webhooks/Refine.antt =====
-- app/webhooks.py: `_deliver_with_retries` against the steps of one thread.
use mathlib.Core.Path.{subst}
use mathlib.Core.List.{append-nil, append_assoc}
use dmarc_geeks.Common.{
  Bool, Bool-cases, List, [], false, inl, inr, refl, suc, true, ℕ, ◌++◌, ◌∷◌, ◌≡◌,
}
use dmarc_geeks.Webhooks.{
  Webhook, Payload, Request, Reply, Attempt, Delivery, attempt, settle, retry, deliver_with_retries,
  retry_delays_s,
}
use dmarc_geeks.Webhooks.Threads.{
  Progress, System, system, thread, tries, wakes, moves, edits, Reach, here, next, trying, ended,
  after_attempt,
}

Reach-trans :
    {Edit : List Webhook → List Webhook → Type 0} {s t u : System}
    → Reach Edit s t
    → Reach Edit t u
    → Reach Edit s u
Reach-trans r here = r
Reach-trans r (next q st) = next (Reach-trans r q) st

-- A system of one thread.
abbrev pub alone : ℕ → Payload → List Webhook → Progress → List Request → System
alone i p ws g rs = system ws (thread i p g ∷ []) rs

module _ (Edit : List Webhook → List Webhook → Type 0) (reply : ℕ → Reply) (now : ℕ → ℕ)
    (others : ℕ → List Webhook → List Webhook)
    (edit : (n : ℕ) (ws : List Webhook) → Edit ws (others n ws)) (i : ℕ) (p : Payload) where
  -- One attempt, and what follows if it fails.
  from_attempt :
      (ds : List ℕ) (n : ℕ) (ws : List Webhook) (rs : List Request) (a : Attempt)
      → attempt (reply n) (now n) i p ws ≡ a
      → Reach Edit
          (alone i p ws (trying ds) rs)
          (alone i p (a.hooks) (after_attempt (a.done) ds) (rs ++ a.sent))
  from_attempt ds n ws rs a e = rw (← e) (next here (moves (tries [] [] i p ds (reply n) (now n))))

  -- An attempt with what follows it.
  settle-Reach :
      (ds : List ℕ) (n : ℕ) (ws : List Webhook) (rs : List Request) (a : Attempt) (rest : Delivery)
      → attempt (reply n) (now n) i p ws ≡ a
      → Reach Edit
          (alone i p (a.hooks) (after_attempt false ds) (rs ++ a.sent))
          (alone i p (rest.hooks) ended ((rs ++ a.sent) ++ rest.sent))
      → Reach Edit
          (alone i p ws (trying ds) rs)
          (alone i p ((settle a rest).hooks) ended (rs ++ (settle a rest).sent))
  unfolding settle after_attempt
  settle-Reach ds n ws rs a rest e r = elim (Bool-cases (a.done)) [
    | inl y ↦ rw y (until true y)
    | inr f ↦ rw f (
        Reach-trans (until false f) (
          subst
            (λ q.
              Reach Edit (alone i p (a.hooks) (after_attempt false ds) (rs ++ a.sent))
                (alone i p (rest.hooks) ended q))
            (append_assoc rs (a.sent) (rest.sent)) r))
  ]
    where
      until :
          (d : Bool)
          → a.done ≡ d
          → Reach Edit
              (alone i p ws (trying ds) rs)
              (alone i p (a.hooks) (after_attempt d ds) (rs ++ a.sent))
      until d y =
          subst
            (λ b.
              Reach Edit (alone i p ws (trying ds) rs)
                (alone i p (a.hooks) (after_attempt b ds) (rs ++ a.sent)))
            y (from_attempt ds n ws rs a e)

  -- What the loop does from a failed attempt on.
  retry-Reach :
      (ds : List ℕ) (n : ℕ) (ws : List Webhook) (rs : List Request)
      → Reach Edit (alone i p ws (after_attempt false ds) rs) (
          alone i p
            ((retry reply now others i p ds n ws).hooks)
            ended
            (rs ++ (retry reply now others i p ds n ws).sent))
  unfolding retry after_attempt
  retry-Reach [] n ws rs = rw (append-nil rs) here
  retry-Reach (d ∷ ds) n ws rs =
      Reach-trans (next (next here (edits (edit n ws))) (moves (wakes [] [] i p d ds)))
        (settle-Reach ds n (others n ws) rs _ _ refl (retry-Reach ds (suc n) _ (rs ++ _)))

  -- Each delivery is a run of the step relation from its start to the end of the thread, with the
  -- table and the requests that the code computes.
  pub deliver_with_retries-Reach :
      (ws : List Webhook)
      → Reach Edit (alone i p ws (trying retry_delays_s) []) (
          alone i p
            ((deliver_with_retries reply now others i p ws).hooks)
            ended
            ((deliver_with_retries reply now others i p ws).sent))
  unfolding deliver_with_retries
  deliver_with_retries-Reach ws =
      settle-Reach retry_delays_s 0 ws [] _ _ refl (retry-Reach retry_delays_s 1 _ _)
