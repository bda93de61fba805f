-- ===== src/Webhooks/Tests.antt =====
-- Runs of the deliveries of app/webhooks.py.
use dmarc_geeks.Common.{
  Bool, List, [], length, none, refl, suc, text, true, zero, ℕ, ◌*◌, ◌+◌, ◌==◌, ◌∷◌, ◌≡◌, ◌≤◌, ◌⊎◌,
  nat_eq, text_eq, int_eq, option_eq, pair_eq,
}
use dmarc_geeks.Webhooks.{
  Webhook, attempt, Payload, Request, Reply, response, broken, deliver_with_retries, gave_up, emit,
  hooks_of, retry_delays_s,
}
use dmarc_geeks.Webhooks.Threads.{
  System, after_attempt, system, thread, trying, ended, Moves, tries, Run, stop, go, started, moves,
  emits, Reach, here, next,
}
use dmarc_geeks.Webhooks.Bounds.{requests_to, left_for, four_each, Reach-requests}
use dmarc_geeks.Webhooks.Termination.{HasEnded, emit-ends}
use dmarc_geeks.Webhooks.Isolation.{Keeps, SentOwned, Reach-SentOwned}
use dmarc_geeks.Webhooks.Refine.{alone, deliver_with_retries-Reach, alone}

abbrev hook : ℕ → ℕ → Webhook
hook i tenant = record {
  id = i;
  tenant_id = tenant;
  url = text "https://h";
  events = text "report.imported";
  enabled = true;
  last_called_at = none;
  last_status = none;
  last_error = none;
}

abbrev table : List Webhook
table = hook 1 7 ∷ hook 2 8 ∷ []

abbrev news : Payload
news = record { event = text "report.imported"; tenant_id = 7; body = [] }

-- Fails twice, then answers 200.
abbrev third : ℕ → Reply
third zero = broken (text "timeout")
third (suc zero) = response 500
third (suc (suc n)) = response 200

abbrev same : ℕ → List Webhook → List Webhook
same n ws = ws

third_time : length ((deliver_with_retries third (λ n. n) same 1 news table).sent) ≡ 3
unfolding deliver_with_retries
third_time = refl

never : (deliver_with_retries (λ n. response 500) (λ n. n) same 1 news table).outcome ≡ gave_up
unfolding deliver_with_retries
never = refl

-- The column events is not read: an event that the hook does not name is sent too.
other_event : length (emit 7 (text "domain.deleted") [] table) ≡ 1
unfolding emit
other_event = refl

-- The event is emitted, and its first attempt succeeds.
abbrev first_request : List Request
first_request = record { webhook = 1; url = text "https://h"; payload = news } ∷ []

one_delivery :
    (Edit : List Webhook → List Webhook → Type 0)
    → Reach Edit (system table [] []) (
        system
          ((attempt (response 200) 5 1 news table).hooks)
          (thread 1 news ended ∷ [])
          first_request)
unfolding emit started attempt after_attempt
one_delivery Edit =
    next (next here (emits 7 (text "report.imported") []))
      (moves (tries [] [] 1 news retry_delays_s (response 200) 5))

abbrev is_first : ℕ → Bool
is_first i = i == 1

abbrev one_hook : List Webhook
one_hook = (attempt (response 200) 5 1 news table).hooks

Reach-requests_example :
    requests_to is_first first_request + left_for is_first (thread 1 news ended ∷ [])
    ≤ four_each is_first (thread 1 news ended ∷ [])
Reach-requests_example =
    Reach-requests is_first (λ ws vs. Unit) table
      (system one_hook (thread 1 news ended ∷ []) first_request) (one_delivery (λ ws vs. Unit))

abbrev owner : ℕ → ℕ
owner i = i + 6

Reach-SentOwned_example : SentOwned owner first_request
Reach-SentOwned_example =
    Reach-SentOwned owner table (system one_hook (thread 1 news ended ∷ []) first_request)
      (refl, (refl, tt)) (one_delivery (Keeps owner))

-- One step of the single thread that the event starts.
one_step :
    Run 1
      (system table (started (emit 7 (text "report.imported") [] table)) [])
      (system one_hook (thread 1 news ended ∷ []) first_request)
unfolding emit started attempt after_attempt
one_step = go (tries [] [] 1 news retry_delays_s (response 200) 5) stop

emit-ends_example :
    (1 ≤ 7 * length (hooks_of 7 table))
    × (HasEnded (thread 1 news ended ∷ [])
        ⊎ ((t : System) × Moves (system one_hook (thread 1 news ended ∷ []) first_request) t))
emit-ends_example =
    emit-ends table [] 7 (text "report.imported") [] 1
      (system one_hook (thread 1 news ended ∷ []) first_request) one_step

deliver_with_retries-Reach_example :
    Reach
      (λ ws vs. Unit)
      (alone 1 news table (trying retry_delays_s) [])
      (alone 1 news
        ((deliver_with_retries third (λ n. n) same 1 news table).hooks)
        ended
        ((deliver_with_retries third (λ n. n) same 1 news table).sent))
deliver_with_retries-Reach_example =
    deliver_with_retries-Reach (λ ws vs. Unit) third (λ n. n) same (λ n ws. tt) 1 news table
