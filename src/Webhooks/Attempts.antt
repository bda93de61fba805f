-- ===== src/Webhooks/Attempts.antt =====
-- app/webhooks.py: the two ways that `_attempt` goes.
use dmarc_geeks.Common.{
  Bool-cases, List, [], arith, find-any, inl, inr, refl, some, true, ℕ, ◌==◌, ◌∷◌, ◌≡◌, ◌⊎◌, nat_eq,
  text_eq, int_eq, option_eq, pair_eq,
}
use dmarc_geeks.Webhooks.{
  is_bad_url, Webhook, Payload, Reply, attempt, attempted, get_hook, request_of, update, called,
  succeeds,
}

module _ (reply : Reply) (now i : ℕ) (payload : Payload) (ws : List Webhook) where
  -- Nothing is sent and nothing changes, or an enabled webhook is called.
  pub attempt-cases :
      (attempt reply now i payload ws ≡ attempted true ws [])
      ⊎ ((w : Webhook) × (get_hook i ws ≡ some w)
          × (w.id ≡ i)
          × (w.enabled ≡ true)
          × (attempt reply now i payload ws
              ≡ attempted
                  (succeeds reply)
                  (update i (called reply now) ws)
                  (request_of w payload ∷ [])))
  unfolding attempt get_hook
  attempt-cases = elim (find-any (λ w. w.id == i) ws) [
    | inl (e, k) ↦ inl (rw (attempt, e) refl)
    | inr (w, e, k, j) ↦ elim (Bool-cases (w.enabled)) [
      | inl on ↦ elim (Bool-cases (is_bad_url reply)) [
        | inl bad ↦ inl (rw (attempt, e, on, bad) refl)
        | inr good ↦ inr (w, e, ground (arith, j), on, rw (attempt, e, on, good) refl)
      ]
      | inr off ↦ inl (rw (attempt, e, off) refl)
    ]
  ]
