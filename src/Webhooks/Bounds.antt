-- ===== src/Webhooks/Bounds.antt =====
-- app/webhooks.py: how many requests the threads send.
use dmarc_geeks.Common.{
  Bool, List, [], arith, false, if◌then◌else◌, inl, inr, length, refl, suc, sum_by, sum_by-append,
  true, ℕ, ◌++◌, ◌+◌, ◌∷◌, ◌≡◌, ◌≤◌,
}
use dmarc_geeks.Webhooks.{
  Webhook, Payload, Request, Reply, attempt, emit, retry_delays_s, request_of,
}
use dmarc_geeks.Webhooks.Attempts.{attempt-cases}
use dmarc_geeks.Webhooks.Threads.{
  Progress, trying, waiting, ended, Thread, System, system, thread, Moves, tries, wakes, Step,
  moves, emits, edits, Reach, here, next, started, after_attempt,
}

-- The attempts that a thread has left.
unfoldable pub attempts_left : Progress → ℕ
attempts_left (trying ds) = suc (length ds)
attempts_left (waiting d ds) = suc (length ds)
attempts_left ended = 0

after_attempt-left : (d : Bool) (ds : List ℕ) → attempts_left (after_attempt d ds) ≤ length ds
unfolding after_attempt attempts_left
after_attempt-left true ds = omega arith
after_attempt-left false [] = omega arith
after_attempt-left false (d ∷ ds) = omega arith

-- The requests to the webhooks that `p` selects, what their threads have left, and four for each of
-- their threads.
module _ (p : ℕ → Bool) where
  abbrev pub requests_to : List Request → ℕ
  requests_to rs = sum_by (λ r. if p (r.webhook) then 1 else 0) rs

  abbrev pub left_for : List Thread → ℕ
  left_for ts = sum_by (λ t. if p (t.webhook) then attempts_left (t.progress) else 0) ts

  abbrev pub four_each : List Thread → ℕ
  four_each ts = sum_by (λ t. if p (t.webhook) then 4 else 0) ts

  -- An attempt sends one request at most, and to its own webhook.
  attempt-requests :
      (reply : Reply) (now i : ℕ) (payload : Payload) (ws : List Webhook)
      → requests_to ((attempt reply now i payload ws).sent) ≤ (if p i then 1 else 0)
  unfolding request_of
  attempt-requests reply now i payload ws = elim (attempt-cases reply now i payload ws) [
    | inl e ↦ rw e (omega arith)
    | inr (w, f, h, on, e) ↦ rw (e, h) (omega arith)
  ]

  -- What was sent and what is left, for each thread four at most.
  abbrev pub IsBounded : System → Type 0
  IsBounded s = requests_to (s.sent) + left_for (s.threads) ≤ four_each (s.threads)

  started-left : (ts : List (ℕ × Payload)) → left_for (started ts) ≡ four_each (started ts)
  unfolding started retry_delays_s attempts_left
  started-left [] = refl
  started-left ((i, q) ∷ ts) = ground (arith, started-left ts)

  -- A thread between others.
  left_between :
      (before after : List Thread) (t : Thread)
      → left_for (before ++ t ∷ after)
        ≡ left_for before
          + (if p (t.webhook) then attempts_left (t.progress) else 0)
          + left_for after
  left_between before after t = omega (
    arith,
    sum_by-append (λ u. if p (u.webhook) then attempts_left (u.progress) else 0) before (t ∷ after),
  )

  four_between :
      (before after : List Thread) (t u : Thread)
      → t.webhook ≡ u.webhook
      → four_each (before ++ t ∷ after) ≡ four_each (before ++ u ∷ after)
  four_between before after t u e =
      let f = sum_by-append (λ v. if p (v.webhook) then 4 else 0) before in
      rw e (omega (arith, f (t ∷ after), f (u ∷ after)))

  Moves-IsBounded : {s t : System} → Moves s t → IsBounded s → IsBounded t
  unfolding attempts_left
  Moves-IsBounded (tries {ws} {rs} before after i q ds reply now) h =
      let a = attempt reply now i q ws in
      let new = thread i q (after_attempt (a.done) ds) in
      ground (
        arith,
        h,
        attempt-requests reply now i q ws,
        after_attempt-left (a.done) ds,
        sum_by-append (λ r. if p (r.webhook) then 1 else 0) rs (a.sent),
        left_between before after (thread i q (trying ds)),
        left_between before after new,
        four_between before after (thread i q (trying ds)) new refl,
      )
  Moves-IsBounded (wakes before after i q d ds) h = omega (
    arith,
    h,
    left_between before after (thread i q (waiting d ds)),
    left_between before after (thread i q (trying ds)),
    four_between before after (thread i q (waiting d ds)) (thread i q (trying ds)) refl,
  )

  Step-IsBounded :
      {Edit : List Webhook → List Webhook → Type 0} {s t : System}
      → Step Edit s t
      → IsBounded s
      → IsBounded t
  Step-IsBounded (moves m) h = Moves-IsBounded m h
  Step-IsBounded (emits {ws} {ts} {rs} tenant event body) h =
      let new = started (emit tenant event body ws) in
      omega (
        arith,
        h,
        started-left (emit tenant event body ws),
        sum_by-append (λ t. if p (t.webhook) then attempts_left (t.progress) else 0) ts new,
        sum_by-append (λ t. if p (t.webhook) then 4 else 0) ts new,
      )
  Step-IsBounded (edits e) h = h

-- Whatever the replies, the edits and the order of the threads: the requests to the webhooks that
-- `p` selects are at most four for each of their threads that an event started.
pub Reach-requests :
    (p : ℕ → Bool) (Edit : List Webhook → List Webhook → Type 0) (ws : List Webhook) (s : System)
    → Reach Edit (system ws [] []) s
    → requests_to p (s.sent) + left_for p (s.threads) ≤ four_each p (s.threads)
Reach-requests p Edit ws s here = omega arith
Reach-requests p Edit ws s (next r st) = Step-IsBounded p st (Reach-requests p Edit ws _ r)
