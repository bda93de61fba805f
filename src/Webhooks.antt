-- ===== src/Webhooks.antt =====
-- app/webhooks.py: the delivery of an event to the webhooks of a tenant. The body and its signature
-- are left out; what the HTTP library does is a Reply. The requests that are sent are values: an
-- attempt returns them. An exception that leaves it ends the thread.
pub mod Threads
pub mod Attempts
pub mod Bounds
pub mod Termination
pub mod Isolation
pub mod Refine
mod Tests
use dmarc_geeks.Common.{
  Bool, List, Option, Text, [], false, filter, find, if◌then◌else◌, leb, ltb, map, none, not, show,
  some, suc, take, text, true, ℕ, ◌&&◌, ◌++◌, ◌==◌, ◌||◌, ◌∷◌, nat_eq, text_eq, int_eq, option_eq,
  pair_eq,
}

-- A row of the table webhooks, without its label and secret.
pub record Webhook : Type 0 where
  pub id : ℕ
  pub tenant_id : ℕ
  pub url : Text
  pub events : Text
  pub enabled : Bool
  pub last_called_at : Option ℕ
  pub last_status : Option ℕ
  pub last_error : Option Text

pub record Payload : Type 0 where
  pub event : Text
  pub tenant_id : ℕ
  pub body : Text

pub record Request : Type 0 where
  pub webhook : ℕ
  pub url : Text
  pub payload : Payload

-- What the HTTP library does: `Request` raises for an invalid URL, outside of the try, or `urlopen`
-- gives a response, raises HTTPError with its code, or raises another exception.
pub data Reply : Type 0 where
  response : ℕ → Reply
  http_error : ℕ → Reply
  broken : Text → Reply
  bad_url : Reply

-- `done` tells that no other attempt follows.
pub record Attempt : Type 0 where
  pub done : Bool
  pub hooks : List Webhook
  pub sent : List Request

unfoldable pub retry_delays_s : List ℕ
retry_delays_s = 60 ∷ 300 ∷ 900 ∷ []

is_success : ℕ → Bool
is_success status = leb 200 status && ltb status 300

unfoldable pub succeeds : Reply → Bool
unfolding is_success
succeeds (response status) = is_success status
succeeds (http_error code) = false
succeeds (broken e) = false
succeeds bad_url = false

unfoldable pub status_of : Reply → ℕ
status_of (response status) = status
status_of (http_error code) = code
status_of (broken e) = 0
status_of bad_url = 0

unfoldable pub error_of : Reply → Option Text
unfolding is_success show
error_of (response status) = if is_success status then none else some (text "HTTP " ++ show status)
error_of (http_error code) = some (take 1000 (text "HTTP " ++ show code))
error_of (broken e) = some (take 1000 e)
error_of bad_url = none

-- The row after a call at the time `now`.
unfoldable pub called : Reply → ℕ → Webhook → Webhook
unfolding status_of error_of
called reply now w = record w {
  last_called_at = some now;
  last_status = some (status_of reply);
  last_error = error_of reply;
}

-- The change of a row in the table.
unfoldable pub update : ℕ → (Webhook → Webhook) → List Webhook → List Webhook
update i f [] = []
update i f (w ∷ ws) = (if w.id == i then f w else w) ∷ update i f ws

-- `db.get(Webhook, webhook_id)`
unfoldable pub get_hook : ℕ → List Webhook → Option Webhook
get_hook i ws = find (λ w. w.id == i) ws

abbrev pub attempted : Bool → List Webhook → List Request → Attempt
attempted d ws rs = record { done = d; hooks = ws; sent = rs }

unfoldable pub request_of : Webhook → Payload → Request
request_of w p = record { webhook = w.id; url = w.url; payload = p }

unfoldable pub is_bad_url : Reply → Bool
is_bad_url bad_url = true
is_bad_url _ = false

-- Where the URL is bad, the exception rolls the session back and ends the thread.
unfoldable pub attempt : Reply → ℕ → ℕ → Payload → List Webhook → Attempt
unfolding get_hook update called succeeds request_of is_bad_url
attempt reply now i payload ws = elim (get_hook i ws) [
  | none ↦ attempted true ws []
  | some w ↦
      if not (w.enabled) || is_bad_url reply
      then attempted true ws []
      else attempted (succeeds reply) (update i (called reply now) ws) (request_of w payload ∷ [])
]

pub data Outcome : Type 0 where
  delivered : Outcome
  gave_up : Outcome

pub record Delivery : Type 0 where
  pub outcome : Outcome
  pub hooks : List Webhook
  pub sent : List Request

abbrev pub delivery : Outcome → List Webhook → List Request → Delivery
delivery o ws rs = record { outcome = o; hooks = ws; sent = rs }

-- The return after a successful attempt, or what follows a failed one.
unfoldable pub settle : Attempt → Delivery → Delivery
settle a rest =
    if a.done
    then delivery delivered (a.hooks) (a.sent)
    else delivery (rest.outcome) (rest.hooks) (a.sent ++ rest.sent)

-- The loop over the delays. `reply` and `now` are those of the attempts, in their order; `others`
-- is what other threads do to the table while this one waits.
module _ (reply : ℕ → Reply) (now : ℕ → ℕ) (others : ℕ → List Webhook → List Webhook)
    (webhook_id : ℕ) (payload : Payload) where
  unfoldable pub retry : List ℕ → ℕ → List Webhook → Delivery
  unfolding attempt settle
  retry [] n ws = delivery gave_up ws []
  retry (delay ∷ ds) n ws =
      let a = attempt (reply n) (now n) webhook_id payload (others n ws) in
      let rest = retry ds (suc n) (a.hooks) in settle a rest

  unfoldable pub deliver_with_retries : List Webhook → Delivery
  unfolding attempt retry retry_delays_s settle
  deliver_with_retries ws =
      let a = attempt (reply 0) (now 0) webhook_id payload ws in
      let rest = retry retry_delays_s 1 (a.hooks) in settle a rest

-- The webhooks that an event of the tenant is sent to.
unfoldable pub hooks_of : ℕ → List Webhook → List Webhook
hooks_of tenant ws = filter (λ w. w.tenant_id == tenant && w.enabled) ws

-- The threads that `emit` starts, each with its webhook and the payload.
unfoldable pub emit : ℕ → Text → Text → List Webhook → List (ℕ × Payload)
unfolding hooks_of
emit tenant event body ws =
    map (λ w. (w.id, record { event = event; tenant_id = tenant; body = body }))
      (hooks_of tenant ws)
