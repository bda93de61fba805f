-- ===== src/BlacklistJob/Spacing.antt =====
-- The cooldown of app/blacklist_job.py.
use dmarc_geeks.BlacklistJob.Targets.{targets-IsDistinct, IsDistinct}
use dmarc_geeks.BlacklistJob.Domain.{check_all, Domain, zero_counts}
use dmarc_geeks.Common.{
  All, Bool, List, Option, Text, [], all, arith, false, ltb, none, not, refl, some, text_beq_iff,
  true, ℕ, ◌&&◌, ◌++◌, ◌+◌, ◌==◌, ◌||◌, ◌∷◌, ◌≡◌, ◌≢◌, nat_eq, text_eq,
}
use dmarc_geeks.BlacklistJob.{
  Event, Row, same_event, cooldown, is_some, Target, RdType, Answer, Hit, row_for, Dnsbl,
  recently_alerted, sent_event, run, Counts,
}

abbrev pub same_alerted : Option Event → Option Event → Bool
same_alerted (some e) (some f) = same_event e f
same_alerted _ _ = false

-- Two rows record one event for one (domain, ip).
abbrev pub same_alert : Row → Row → Bool
same_alert r o =
    r.domain_id == o.domain_id && r.ip == o.ip && same_alerted r.alerted_event o.alerted_event

-- The later alert came more than the cooldown after the earlier one.
abbrev pub is_later : Row → Row → Bool
is_later r o = elim r.alerted_at [
  | none ↦ false
  | some t ↦ elim o.alerted_at [ none ↦ false | some u ↦ ltb (u + cooldown) t ]
]

abbrev pub is_apart : Row → Row → Bool
is_apart r o = not (same_alert r o) || is_later r o

-- The event and the time of an alert are written together.
abbrev pub is_paired : Row → Bool
is_paired r = elim r.alerted_event [ none ↦ true | some e ↦ is_some r.alerted_at ]

-- The table, newest first: no two alerts of one kind for one (domain, ip) within the cooldown.
abbrev pub is_spaced : List Row → Bool
is_spaced [] = true
is_spaced (r ∷ db) = is_paired r && all (is_apart r) db && is_spaced db

all-is_apart_silent :
    (r : Row) (db : List Row) → r.alerted_event ≡ none → all (is_apart r) db ≡ true
all-is_apart_silent r [] h = refl
all-is_apart_silent r (o ∷ db) h = ground (arith, all-is_apart_silent r db h)

-- A row that passed the cooldown test is apart from every row of the table.
all-is_apart_quiet :
    (r : Row) (now : ℕ) (e : Event) (db : List Row)
    → r.alerted_event ≡ some e
    → r.alerted_at ≡ some now
    → recently_alerted now r.domain_id r.ip e db ≡ false
    → is_spaced db ≡ true
    → all (is_apart r) db ≡ true
unfolding recently_alerted
all-is_apart_quiet r now e [] he ht q s = refl
all-is_apart_quiet r now e (o ∷ db) he ht q s =
    ground (arith, all-is_apart_quiet r now e db, text_beq_iff r.ip o.ip, text_beq_iff o.ip r.ip)

sent_event-quiet :
    (now domain_id : ℕ) (ip : Text) (db : List Row) (o : Option Event) (e : Event)
    → sent_event now domain_id ip db o ≡ some e
    → recently_alerted now domain_id ip e db ≡ false
unfolding sent_event
sent_event-quiet now domain_id ip db none e h = cc
sent_event-quiet now domain_id ip db (some f) e h = ground arith

module _ (now domain_id : ℕ) (has_tenant : Bool) (threshold : ℕ) (db : List Row) where
  abbrev row : Target → List Hit → Row
  row t hits = row_for now domain_id has_tenant threshold t hits db

  row_for-is_apart :
      (t : Target) (hits : List Hit) → is_spaced db ≡ true → all (is_apart (row t hits)) db ≡ true
  unfolding row_for
  row_for-is_apart t hits spaced = by_sent (row t hits).alerted_event refl
    where
      by_sent :
          (o : Option Event)
          → (row t hits).alerted_event ≡ o
          → all (is_apart (row t hits)) db ≡ true
      by_sent none e = all-is_apart_silent (row t hits) db e
      by_sent (some f) e =
          all-is_apart_quiet (row t hits) now f db e (ground arith)
            (sent_event-quiet now domain_id t.ip db _ f e) spaced

  row_for-is_paired : (t : Target) (hits : List Hit) → is_paired (row t hits) ≡ true
  unfolding row_for
  row_for-is_paired t hits = ground arith

  -- Rows for targets with distinct IPs are apart whatever they hold.
  row_for-is_apart_ne :
      (t u : Target) (hits hits' : List Hit)
      → t.ip ≢ u.ip
      → is_apart (row t hits) (row u hits') ≡ true
  unfolding row_for
  row_for-is_apart_ne t u hits hits' h = ground (arith, text_beq_iff t.ip u.ip)

module _ (resolve : ℕ → Text → RdType → Answer) (dqs_key : Text) where
  module _ (now domain_id : ℕ) (has_tenant : Bool) (threshold : ℕ) (db : List Row) where
    abbrev added : List Target → Dnsbl → Counts → List Row
    added ts s c = (run resolve dqs_key now domain_id has_tenant threshold db ts s c).0

    added-is_apart :
        (t : Target) (hits : List Hit) (ts : List Target) (s : Dnsbl) (c : Counts)
        → is_spaced db ≡ true
        → All (λ u. t.ip ≢ u.ip) ts
        → all (is_apart (row now domain_id has_tenant threshold db t hits)) (added ts s c ++ db)
          ≡ true
    unfolding run
    added-is_apart t hits [] s c spaced h =
        row_for-is_apart now domain_id has_tenant threshold db t hits spaced
    added-is_apart t hits (u ∷ ts) s c spaced (p, h) =
        rw (row_for-is_apart_ne now domain_id has_tenant threshold db t u hits _ p)
          (added-is_apart t hits ts _ _ spaced h)

    added-is_spaced :
        (ts : List Target) (s : Dnsbl) (c : Counts)
        → is_spaced db ≡ true
        → IsDistinct ts
        → is_spaced (added ts s c ++ db) ≡ true
    unfolding run
    added-is_spaced [] s c spaced d = spaced
    added-is_spaced (t ∷ ts) s c spaced (p, d) = rw (
      row_for-is_paired now domain_id has_tenant threshold db t _,
      added-is_apart t _ ts _ _ spaced p,
      added-is_spaced ts _ _ spaced d,
    )

module _ (resolve : ℕ → Text → RdType → Answer) (dqs_key : Text) (setting : ℕ) where
  -- Whatever the checks, at whatever times, they keep the table spaced: two alerts of one kind for
  -- one (domain, ip) are more than six hours apart.
  pub check_all-is_spaced :
      (checks : List (ℕ × Domain × Dnsbl)) (db : List Row)
      → is_spaced db ≡ true
      → is_spaced (check_all resolve dqs_key setting checks db) ≡ true
  unfolding check_all
  check_all-is_spaced [] db h = h
  check_all-is_spaced ((now, d, s) ∷ rest) db h = check_all-is_spaced rest _ (
      added-is_spaced resolve dqs_key now d.id d.has_tenant _ db _ s zero_counts h
        (targets-IsDistinct d.mx_ips d.sender_ips))
