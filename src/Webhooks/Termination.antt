-- ===== src/Webhooks/Termination.antt =====
-- app/webhooks.py: the number of steps of the delivery threads.
use mathlib.Core.Path.{subst}
use dmarc_geeks.Common.{
  All, Bool, List, Text, [], ap, arith, false, inl, inr, length, map, refl, suc, sum_by,
  sum_by-append, sym, true, ℕ, ◌*◌, ◌++◌, ◌+◌, ◌∷◌, ◌≡◌, ◌≤◌, ◌⊎◌,
}
use dmarc_geeks.Webhooks.{
  Webhook, Payload, Request, attempt, emit, retry_delays_s, hooks_of, response,
}
use dmarc_geeks.Webhooks.Threads.{
  Progress, trying, waiting, ended, Thread, System, system, thread, Moves, tries, wakes, Run, stop,
  go, started, after_attempt,
}

-- The steps that a thread has left at most.
unfoldable pub steps_left : Progress → ℕ
steps_left (trying ds) = suc (2 * length ds)
steps_left (waiting d ds) = 2 * suc (length ds)
steps_left ended = 0

abbrev pub all_left : List Thread → ℕ
all_left ts = sum_by (λ t. steps_left (t.progress)) ts

after_attempt-steps : (d : Bool) (ds : List ℕ) → steps_left (after_attempt d ds) ≤ 2 * length ds
unfolding after_attempt steps_left
after_attempt-steps true ds = omega arith
after_attempt-steps false [] = omega arith
after_attempt-steps false (d ∷ ds) = omega arith

all_between :
    (before after : List Thread) (t : Thread)
    → all_left (before ++ t ∷ after) ≡ all_left before + steps_left (t.progress) + all_left after
all_between before after t =
    omega (arith, sum_by-append (λ u. steps_left (u.progress)) before (t ∷ after))

Moves-steps : {s t : System} → Moves s t → suc (all_left (t.threads)) ≤ all_left (s.threads)
unfolding steps_left
Moves-steps (tries {ws} {rs} before after i q ds reply now) =
    let a = attempt reply now i q ws in
    omega (
      arith,
      after_attempt-steps (a.done) ds,
      all_between before after (thread i q (trying ds)),
      all_between before after (thread i q (after_attempt (a.done) ds)),
    )
Moves-steps (wakes before after i q d ds) = omega (
  arith,
  all_between before after (thread i q (waiting d ds)),
  all_between before after (thread i q (trying ds)),
)

Run-steps : {n : ℕ} {s t : System} → Run n s t → n + all_left (t.threads) ≤ all_left (s.threads)
Run-steps stop = omega arith
Run-steps (go m r) = omega (arith, Moves-steps m, Run-steps r)

abbrev pub HasEnded : List Thread → Type 0
HasEnded ts = All (λ t. t.progress ≡ ended) ts

-- A thread that has not ended, between others.
data Movable (ts : List Thread) : Type 0 where
  tries_at :
      (before after : List Thread) (i : ℕ) (p : Payload) (ds : List ℕ)
      → ts ≡ before ++ thread i p (trying ds) ∷ after
      → Movable ts
  waits_at :
      (before after : List Thread) (i : ℕ) (p : Payload) (d : ℕ) (ds : List ℕ)
      → ts ≡ before ++ thread i p (waiting d ds) ∷ after
      → Movable ts

end_or_move : (ts : List Thread) → HasEnded ts ⊎ Movable ts
end_or_move [] = inl tt
end_or_move (t ∷ ts) = by_progress (t.progress) refl (end_or_move ts)
  where
    behind : Movable ts → Movable (t ∷ ts)
    behind (tries_at before after i p ds e) =
        tries_at (t ∷ before) after i p ds (ap (λ us. t ∷ us) e)
    behind (waits_at before after i p d ds e) =
        waits_at (t ∷ before) after i p d ds (ap (λ us. t ∷ us) e)

    by_progress :
        (g : Progress)
        → t.progress ≡ g
        → HasEnded ts ⊎ Movable ts
        → HasEnded (t ∷ ts) ⊎ Movable (t ∷ ts)
    by_progress (trying ds) e r = inr (
        tries_at [] ts (t.webhook) (t.payload) ds
          (ap (λ g. thread (t.webhook) (t.payload) g ∷ ts) e))
    by_progress (waiting d ds) e r = inr (
        waits_at [] ts (t.webhook) (t.payload) d ds
          (ap (λ g. thread (t.webhook) (t.payload) g ∷ ts) e))
    by_progress ended e (inl h) = inl (e, h)
    by_progress ended e (inr m) = inr (behind m)

can_move : (s : System) → HasEnded (s.threads) ⊎ ((t : System) × Moves s t)
can_move s = elim (end_or_move (s.threads)) [ inl h ↦ inl h | inr m ↦ inr (move m) ]
  where
    move : Movable (s.threads) → (t : System) × Moves s t
    move (tries_at before after i p ds e) =
        subst (λ ts. (t : System) × Moves (system (s.hooks) ts (s.sent)) t) (sym e)
          (_, tries before after i p ds (response 200) 0)
    move (waits_at before after i p d ds e) =
        subst (λ ts. (t : System) × Moves (system (s.hooks) ts (s.sent)) t) (sym e)
          (_, wakes before after i p d ds)

started-steps : (ps : List (ℕ × Payload)) → all_left (started ps) ≡ 7 * length ps
unfolding started retry_delays_s steps_left
started-steps [] = refl
started-steps (p ∷ ps) = omega (arith, started-steps ps)

emit-length :
    (tenant : ℕ) (event body : Text) (ws : List Webhook)
    → length (emit tenant event body ws) ≡ length (hooks_of tenant ws)
unfolding emit
emit-length tenant event body ws = length-map (hooks_of tenant ws)
  where
    f : Webhook → ℕ × Payload
    f w = (w.id, record { event = event; tenant_id = tenant; body = body })

    length-map : (vs : List Webhook) → length (map f vs) ≡ length vs
    length-map [] = refl
    length-map (v ∷ vs) = omega (arith, length-map vs)

-- The threads of an event take at most seven steps for each enabled webhook of the tenant, in any
-- order and with any replies; a run that has not ended all of them can go on.
pub emit-ends :
    (ws : List Webhook) (rs : List Request) (tenant : ℕ) (event body : Text) (n : ℕ) (s : System)
    → Run n (system ws (started (emit tenant event body ws)) rs) s
    → (n ≤ 7 * length (hooks_of tenant ws)) × (HasEnded (s.threads) ⊎ ((t : System) × Moves s t))
emit-ends ws rs tenant event body n s r = (
  omega (
    arith,
    Run-steps r,
    started-steps (emit tenant event body ws),
    emit-length tenant event body ws,
  ),
  can_move s,
)
