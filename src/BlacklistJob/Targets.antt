-- ===== src/BlacklistJob/Targets.antt =====
-- The IPs that app/blacklist_job.py checks for a domain: `_resolve_mx_ips`, `_top_sender_ips` and
-- the deduplication in `check_domain`.
use dmarc_geeks.Common.{
  All, All-imp, Bool-cases, List, Option, Text, [], arith, false, if◌then◌else◌, inl, inr, is_empty,
  leb, lookup, map, mem, none, put, some, take, text_beq_iff, true, ℕ, ◌++◌, ◌+◌, ◌==◌, ◌∷◌, ◌≡◌,
  ◌≢◌, nat_eq, text_eq,
}
use dmarc_geeks.BlacklistJob.{Target, mx, sender}

-- `seen.add(x); out.append(x)` for each `x` that is not yet in `seen`.
unfoldable pub unique : List Text → List Target → List Target
unique seen [] = []
unique seen (t ∷ ts) = elim (mem t.ip seen) [
  | true ↦ unique seen ts
  | false ↦ t ∷ unique (t.ip ∷ seen) ts
]

-- The two loops of `check_domain`, over the MX addresses first.
unfoldable pub targets : List Text → List Text → List Target
unfolding unique
targets mx_ips sender_ips = unique [] (
    map (λ ip. record { ip = ip; role = mx }) mx_ips
    ++ map (λ ip. record { ip = ip; role = sender }) sender_ips)

unique_texts : List Text → List Text → List Text
unique_texts seen [] = []
unique_texts seen (t ∷ ts) = elim (mem t seen) [
  | true ↦ unique_texts seen ts
  | false ↦ t ∷ unique_texts (t ∷ seen) ts
]

-- `getaddrinfo` of each MX host; a host with no name or no address is skipped.
module _ (getaddrinfo : Text → Option (List Text)) where
  addresses : List Text → List Text
  addresses [] = []
  addresses (host ∷ hosts) =
      let rest = addresses hosts in
      if is_empty host
      then rest
      else elim (getaddrinfo host) [ none ↦ rest | some ips ↦ ips ++ rest ]

  resolve_mx_ips : List Text → List Text
  unfolding addresses unique_texts
  resolve_mx_ips hosts = unique_texts [] (addresses hosts)

abbrev pub top_senders_to_check : ℕ
top_senders_to_check = 3

-- `counts[ip] += int(cnt or 1)` for each row with an ip.
count_senders : List (Text × ℕ) → List (Text × ℕ) → List (Text × ℕ)
count_senders [] counts = counts
count_senders ((ip, cnt) ∷ rows) counts =
    let n : ℕ = if cnt == 0 then 1 else cnt in
    let old : ℕ = elim (lookup ip counts) [ none ↦ 0 | some m ↦ m ] in
    count_senders rows (if is_empty ip then counts else put ip (old + n) counts)

-- `Counter.most_common`: a stable sort by count, the largest first.
insert_by_count : Text × ℕ → List (Text × ℕ) → List (Text × ℕ)
insert_by_count e [] = e ∷ []
insert_by_count e (f ∷ l) = if leb f.1 e.1 then e ∷ f ∷ l else f ∷ insert_by_count e l

most_common : List (Text × ℕ) → List (Text × ℕ)
unfolding insert_by_count
most_common [] = []
most_common (e ∷ l) = insert_by_count e (most_common l)

top_sender_ips : List (Text × ℕ) → List Text
unfolding count_senders most_common
top_sender_ips rows =
    map (λ e. e.0) (take top_senders_to_check (most_common (count_senders rows [])))

-- No two targets have one IP.
abbrev pub IsDistinct : List Target → Type 0
IsDistinct [] = Unit
IsDistinct (t ∷ ts) = All (λ u. t.ip ≢ u.ip) ts × IsDistinct ts

unseen-tail : (x y : Text) (seen : List Text) → mem x (y ∷ seen) ≡ false → mem x seen ≡ false
unfolding mem
unseen-tail x y seen h = ground arith

unique-unseen :
    (seen : List Text) (ts : List Target) → All (λ t. mem t.ip seen ≡ false) (unique seen ts)
unfolding unique
unique-unseen seen [] = tt
unique-unseen seen (t ∷ ts) = elim (Bool-cases (mem t.ip seen)) [
  | inl old ↦ rw (old, unique) (unique-unseen seen ts)
  | inr new ↦
      rw (new, unique)
        (
          new,
          All-imp (unique (t.ip ∷ seen) ts) (λ u. unseen-tail u.ip t.ip seen)
              (unique-unseen (t.ip ∷ seen) ts),
        )
]

unseen-ne : (t u : Target) (seen : List Text) → mem u.ip (t.ip ∷ seen) ≡ false → t.ip ≢ u.ip
unfolding mem
unseen-ne t u seen h = ground (arith, text_beq_iff u.ip t.ip)

unique-IsDistinct : (seen : List Text) (ts : List Target) → IsDistinct (unique seen ts)
unfolding unique
unique-IsDistinct seen [] = tt
unique-IsDistinct seen (t ∷ ts) = elim (Bool-cases (mem t.ip seen)) [
  | inl old ↦ rw (old, unique) (unique-IsDistinct seen ts)
  | inr new ↦
      rw (new, unique)
        (
          All-imp (unique (t.ip ∷ seen) ts) (λ u. unseen-ne t u seen)
              (unique-unseen (t.ip ∷ seen) ts),
          unique-IsDistinct (t.ip ∷ seen) ts,
        )
]

-- The addresses that `check_domain` checks are distinct, whatever its two lists hold.
pub targets-IsDistinct : (mx_ips sender_ips : List Text) → IsDistinct (targets mx_ips sender_ips)
unfolding targets
targets-IsDistinct mx_ips sender_ips = unique-IsDistinct [] _
