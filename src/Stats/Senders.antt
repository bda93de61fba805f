-- ===== src/Stats/Senders.antt =====
-- app/stats.py: `top_sources`, `sender_breakdown` and `sender_daily_stack`, without the colours of
-- the charts. The rate, a float of the source, is the parameter `rate`.
pub mod Laws
use dmarc_geeks.Common.{
  Bool, List, Option, Text, [], any, bump, drop, if◌then◌else◌, leb, length, lookup, ltb, map, mem,
  none, some, sorted, suc, sum_by, take, tally, text, text_leb, ℕ, ℤ, ◌&&◌, ◌++◌, ◌+◌, ◌==◌, ◌∷◌,
  nat_eq, text_eq, int_eq, option_eq,
}
use dmarc_geeks.Stats.{Row, Query, Volume, no_volume, add_volume, select, group_by, same_evals}
use dmarc_geeks.Stats.Labels.{sender_label, sender_color}

unfoldable pub same_source : Row → Row → Bool
unfolding same_evals
same_source a b = a.source_ip == b.source_ip && a.source_host == b.source_host && same_evals a b

-- A source of `top_sources` before its rate is known.
pub record Source : Type 0 where
  pub ip : Text
  pub host : Option Text
  pub volume : Volume

unfoldable pub new_source : Row → Source
new_source r = record { ip = r.source_ip; host = r.source_host; volume = no_volume }

-- `if host and not b["host"]: b["host"] = host`
better_host : Option Text → Option Text → Option Text
better_host (some (c ∷ h)) none = some (c ∷ h)
better_host (some (c ∷ h)) (some []) = some (c ∷ h)
better_host _ old = old

unfoldable pub add_source : Row → Source → Source
unfolding better_host add_volume
add_source r s = record {
  ip = s.ip;
  host = better_host (r.source_host) (s.host);
  volume = add_volume r (s.volume);
}

-- `reverse=True`: the larger total first, equal ones in their order.
abbrev pub larger {κ} : {V : Type κ} → (V → ℕ) → V → V → Bool
larger f a b = leb (f b) (f a)

unfoldable pub rate_or_zero : (ℕ → ℕ → ℕ) → Volume → ℕ
rate_or_zero rate v = if v.total == 0 then 0 else rate (v.pass) (v.total)

module _ (rate : ℕ → ℕ → ℕ) where
  -- Each source with its pass rate.
  unfoldable pub top_sources : Query → ℕ → List Row → List (Source × ℕ)
  unfolding select group_by same_source tally new_source add_source sorted rate_or_zero
  top_sources q limit rows =
      let by_ip =
        tally (λ r. r.source_ip) new_source add_source (group_by same_source (select q rows)) [] in
      map (λ b. (b.1, rate_or_zero rate (b.1.volume)))
        (take limit (sorted (larger (λ b. b.1.volume.total)) by_ip))

pub record Sender : Type 0 where
  pub label : Text
  pub volume : Volume
  pub pass_rate : ℕ
  pub color : Text

unfoldable pub by_label : List Row → List (Text × Volume)
unfolding tally sender_label add_volume
by_label rows =
    tally (λ r. sender_label (r.source_host) (r.source_ip)) (λ r. no_volume) add_volume rows []

-- The senders behind the first ones, in one.
unfoldable pub sum_of : List (Text × Volume) → Volume
sum_of rest = record {
  total = sum_by (λ b. b.1.total) rest;
  pass = sum_by (λ b. b.1.pass) rest;
  fail = sum_by (λ b. b.1.fail) rest;
}

unfoldable pub limited : ℕ → List (Text × Volume) → List (Text × Volume)
unfolding sum_of
limited limit bs =
    if ltb limit (length bs)
    then take limit bs ++ ((text "Andere", sum_of (drop limit bs)) ∷ [])
    else bs

unfoldable pub finish : (ℕ → ℕ → ℕ) → ℕ → List (Text × Volume) → List Sender
unfolding rate_or_zero sender_color
finish rate i [] = []
finish rate i ((l, v) ∷ bs) =
    record { label = l; volume = v; pass_rate = rate_or_zero rate v; color = sender_color l i }
    ∷ finish rate (suc i) bs

unfoldable pub sender_breakdown : (ℕ → ℕ → ℕ) → Query → ℕ → List Row → List Sender
unfolding select group_by same_source by_label sorted limited finish
sender_breakdown rate q limit rows = finish rate 0 (
    limited limit
      (sorted (larger (λ b. b.1.total)) (by_label (group_by same_source (select q rows)))))

-- A layer of the stacked chart: a label with its volume on each day.
pub record Layer : Type 0 where
  pub label : Text
  pub values : List ℕ

abbrev pub Totals : Type 0
Totals = List (Text × ℕ)

unfoldable pub at_label : Text → Totals → ℕ
unfolding lookup
at_label k m = elim (lookup k m) [ none ↦ 0 | some n ↦ n ]

unfoldable pub same_shipment : Row → Row → Bool
same_shipment a b =
    a.date_begin == b.date_begin && a.source_ip == b.source_ip && a.source_host == b.source_host

label_of : Row → Text
unfolding sender_label
label_of r = sender_label (r.source_host) (r.source_ip)

unfoldable pub sender_totals : List Row → Totals
unfolding tally label_of
sender_totals rows = tally label_of (λ r. 0) (λ r n. n + r.count) rows []

module _ (day_of : ℤ → Text) where
  unfoldable pub daily : List Row → List (Text × Totals)
  unfolding tally bump label_of
  daily rows =
      tally (λ r. day_of (r.date_begin)) (λ r. []) (λ r m. bump (label_of r) 0 (λ n. n + r.count) m)
        rows []

  -- What the day's other senders sent.
  unfoldable pub others_of : List Text → Totals → ℕ
  unfolding mem
  others_of top m = sum_by (λ p. if mem p.0 top then 0 else p.1) m

  unfoldable pub sender_daily_stack : Query → ℕ → List Row → List Text × List Layer
  unfolding select group_by same_shipment sender_totals daily sorted at_label others_of
  sender_daily_stack q top_n rows =
      let sel = group_by same_shipment (select q rows) in
      let top = map (λ p. p.0) (take top_n (sorted (larger (λ p. p.1)) (sender_totals sel))) in
      let days = sorted (λ a b. text_leb a.0 b.0) (daily sel) in
      let rest = map (λ d. others_of top d.1) days in
      let layers = map (λ l. record { label = l; values = map (λ d. at_label l d.1) days }) top in
      (
        map (λ d. d.0) days,
        if any (λ n. ltb 0 n) rest
            then layers ++ (record { label = text "Andere"; values = rest } ∷ [])
            else layers,
      )
