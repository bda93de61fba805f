-- ===== src/Webhooks/Threads.antt =====
-- app/webhooks.py: the delivery threads that run at the same time, as a step relation on the table
-- and the threads. A thread attempts, or waits before its next attempt; the users edit the table
-- meanwhile.
use dmarc_geeks.Common.{Bool, List, Text, [], false, suc, true, ℕ, ◌++◌, ◌∷◌}
use dmarc_geeks.Webhooks.{Webhook, Payload, Request, Reply, attempt, emit, retry_delays_s}

-- Where a thread is in `_deliver_with_retries`, with the delays that are left.
pub data Progress : Type 0 where
  trying : List ℕ → Progress
  waiting : ℕ → List ℕ → Progress
  ended : Progress

pub record Thread : Type 0 where
  pub webhook : ℕ
  pub payload : Payload
  pub progress : Progress

pub record System : Type 0 where
  pub hooks : List Webhook
  pub threads : List Thread
  pub sent : List Request

abbrev pub system : List Webhook → List Thread → List Request → System
system ws ts rs = record { hooks = ws; threads = ts; sent = rs }

abbrev pub thread : ℕ → Payload → Progress → Thread
thread i p g = record { webhook = i; payload = p; progress = g }

-- What follows an attempt: the end, or the wait before the next one.
unfoldable pub after_attempt : Bool → List ℕ → Progress
after_attempt true ds = ended
after_attempt false [] = ended
after_attempt false (d ∷ ds) = waiting d ds

-- A step of one of the threads.
pub data Moves : System → System → Type 0 where
  tries :
      {ws : List Webhook} {rs : List Request} (before after : List Thread) (i : ℕ) (p : Payload)
      (ds : List ℕ) (reply : Reply) (now : ℕ)
      → Moves (system ws (before ++ thread i p (trying ds) ∷ after) rs) (
          system
            ((attempt reply now i p ws).hooks)
            (before ++ thread i p (after_attempt ((attempt reply now i p ws).done) ds) ∷ after)
            (rs ++ (attempt reply now i p ws).sent))
  wakes :
      {ws : List Webhook} {rs : List Request} (before after : List Thread) (i : ℕ) (p : Payload)
      (d : ℕ) (ds : List ℕ)
      → Moves
          (system ws (before ++ thread i p (waiting d ds) ∷ after) rs)
          (system ws (before ++ thread i p (trying ds) ∷ after) rs)

-- The threads that `emit` adds.
unfoldable pub started : List (ℕ × Payload) → List Thread
unfolding retry_delays_s
started [] = []
started ((i, p) ∷ r) = thread i p (trying retry_delays_s) ∷ started r

-- A step of the system: a thread's, an event, or an edit of the table.
pub data Step (Edit : List Webhook → List Webhook → Type 0) : System → System → Type 0 where
  moves : {s t : System} → Moves s t → Step Edit s t
  emits :
      {ws : List Webhook} {ts : List Thread} {rs : List Request} (tenant : ℕ) (event body : Text)
      → Step Edit (system ws ts rs) (system ws (ts ++ started (emit tenant event body ws)) rs)
  edits :
      {ws vs : List Webhook} {ts : List Thread} {rs : List Request}
      → Edit ws vs
      → Step Edit (system ws ts rs) (system vs ts rs)

-- What a system reaches in some steps.
pub data Reach (Edit : List Webhook → List Webhook → Type 0) (s : System) : System → Type 0 where
  here : Reach Edit s s
  next : {t u : System} → Reach Edit s t → Step Edit t u → Reach Edit s u

-- A run of `n` steps of the threads.
pub data Run : ℕ → System → System → Type 0 where
  stop : {s : System} → Run 0 s s
  go : {n : ℕ} {s t u : System} → Moves s t → Run n t u → Run (suc n) s u
