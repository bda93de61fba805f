-- ===== src/Webhooks/Isolation.antt =====
-- app/webhooks.py: the tenants of the webhooks that the requests go to.
use dmarc_geeks.Common.{
  All, All-append, Bool, List, Text, [], arith, false, inl, inr, refl, true, ℕ, ◌&&◌, ◌++◌, ◌==◌,
  ◌∷◌, ◌≡◌, nat_eq, text_eq, int_eq, option_eq, pair_eq,
}
use dmarc_geeks.Webhooks.{
  Webhook, Payload, Request, Reply, attempt, emit, hooks_of, request_of, update, called,
}
use dmarc_geeks.Webhooks.Attempts.{attempt-cases}
use dmarc_geeks.Webhooks.Threads.{
  after_attempt, waiting, Thread, System, system, thread, Moves, tries, wakes, Step, moves, emits,
  edits, Reach, here, next, started, trying,
}

-- `owner` is the tenant that an id belongs to, for all time: the table holds no other.
module _ (owner : ℕ → ℕ) where
  abbrev pub IsOwned : List Webhook → Type 0
  IsOwned ws = All (λ w. w.tenant_id ≡ owner (w.id)) ws

  -- An edit may do anything that keeps the owners.
  abbrev pub Keeps : List Webhook → List Webhook → Type 0
  Keeps ws vs = IsOwned vs

  abbrev pub ThreadsOwned : List Thread → Type 0
  ThreadsOwned ts = All (λ t. t.payload.tenant_id ≡ owner (t.webhook)) ts

  abbrev pub SentOwned : List Request → Type 0
  SentOwned rs = All (λ r. r.payload.tenant_id ≡ owner (r.webhook)) rs

  record IsIsolated (s : System) : Type 0 where
    hooks : IsOwned (s.hooks)
    threads : ThreadsOwned (s.threads)
    sent : SentOwned (s.sent)

  update-IsOwned :
      (i : ℕ) (reply : Reply) (now : ℕ) (ws : List Webhook)
      → IsOwned ws
      → IsOwned (update i (called reply now) ws)
  unfolding update called
  update-IsOwned i reply now [] h = tt
  update-IsOwned i reply now (w ∷ ws) (k, ks) =
      (ground (arith, k), update-IsOwned i reply now ws ks)

  started-Owned :
      (tenant : ℕ) (event body : Text) (ws : List Webhook)
      → IsOwned ws
      → ThreadsOwned (started (emit tenant event body ws))
  unfolding emit hooks_of started
  started-Owned tenant event body [] h = tt
  started-Owned tenant event body (w ∷ ws) (k, ks) =
      by_hook (w.tenant_id == tenant && w.enabled) refl (started-Owned tenant event body ws ks)
    where
      by_hook :
          (b : Bool)
          → (w.tenant_id == tenant && w.enabled) ≡ b
          → ThreadsOwned (started (emit tenant event body ws))
          → ThreadsOwned (started (emit tenant event body (w ∷ ws)))
      by_hook true e ih = rw e (ground (arith, e, k), ih)
      by_hook false e ih = rw e ih

  All-split :
      (before after : List Thread) (t : Thread)
      → ThreadsOwned (before ++ t ∷ after)
      → ThreadsOwned before × (t.payload.tenant_id ≡ owner (t.webhook)) × ThreadsOwned after
  All-split [] after t (h, k) = (tt, h, k)
  All-split (b ∷ before) after t (h, k) = let r = All-split before after t k in ((h, r.0), r.1, r.2)

  -- The thread at a place goes on with the same webhook and payload.
  goes_on :
      (before after : List Thread) (t u : Thread)
      → u.payload.tenant_id ≡ t.payload.tenant_id
      → u.webhook ≡ t.webhook
      → ThreadsOwned (before ++ t ∷ after)
      → ThreadsOwned (before ++ u ∷ after)
  goes_on before after t u e f h =
      let r = All-split before after t h in
      All-append _ before (u ∷ after) r.0 (ground (arith, e, f, r.1), r.2)

  attempt-Owned :
      (reply : Reply) (now i : ℕ) (q : Payload) (ws : List Webhook)
      → IsOwned ws
      → q.tenant_id ≡ owner i
      → IsOwned ((attempt reply now i q ws).hooks) × SentOwned ((attempt reply now i q ws).sent)
  unfolding request_of
  attempt-Owned reply now i q ws h k = elim (attempt-cases reply now i q ws) [
    | inl e ↦ rw e (h, tt)
    | inr (w, f, g, on, e) ↦ rw e (update-IsOwned i reply now ws h, (ground (arith, g, k), tt))
  ]

  Moves-IsIsolated : {s t : System} → Moves s t → IsIsolated s → IsIsolated t
  Moves-IsIsolated (tries {ws} {rs} before after i q ds reply now) h =
      let t = thread i q (trying ds) in
      let u = thread i q (after_attempt ((attempt reply now i q ws).done) ds) in
      let mine = (All-split before after t (h.threads)).1 in
      let a = attempt-Owned reply now i q ws (h.hooks) mine in
      record {
        hooks = a.0;
        threads = goes_on before after t u refl refl (h.threads);
        sent = All-append _ rs _ (h.sent) a.1;
      }
  Moves-IsIsolated (wakes before after i q d ds) h = record {
    hooks = h.hooks;
    threads =
        goes_on before after (thread i q (waiting d ds)) (thread i q (trying ds)) refl refl
          (h.threads);
    sent = h.sent;
  }

  Step-IsIsolated : {s t : System} → Step Keeps s t → IsIsolated s → IsIsolated t
  Step-IsIsolated (moves m) h = Moves-IsIsolated m h
  Step-IsIsolated (emits {ws} {ts} tenant event body) h = record {
    hooks = h.hooks;
    threads = All-append _ ts _ (h.threads) (started-Owned tenant event body ws (h.hooks));
    sent = h.sent;
  }
  Step-IsIsolated (edits e) h = record { hooks = e; threads = h.threads; sent = h.sent }

  Reach-IsIsolated : {s t : System} → IsIsolated s → Reach Keeps s t → IsIsolated t
  Reach-IsIsolated h here = h
  Reach-IsIsolated h (next r st) = Step-IsIsolated st (Reach-IsIsolated h r)

  -- If no id ever passes to another tenant, no request carries an event of one tenant to a webhook
  -- of another, whatever the users edit and however the threads interleave.
  pub Reach-SentOwned :
      (ws : List Webhook) (s : System)
      → IsOwned ws
      → Reach Keeps (system ws [] []) s
      → SentOwned (s.sent)
  Reach-SentOwned ws s h r =
      (Reach-IsIsolated (record { hooks = h; threads = tt; sent = tt }) r).sent
