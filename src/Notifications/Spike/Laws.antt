-- ===== src/Notifications/Spike/Laws.antt =====
-- `check_spike` of app/notifications.py: when the mail is sent.
use dmarc_geeks.Common.{
  Bool, List, Option, Text, [], false, none, some, true, ℕ, ◌*◌, ◌+◌, ◌<◌, ◌≡◌, ◌≢◌, ◌≤◌, ◌⊎◌,
  nat_eq, text_eq, int_eq, option_eq, pair_eq,
}
use dmarc_geeks.Stats.{Row}
use dmarc_geeks.Stats.Sums.{volume, any_row, not_aligned}
use dmarc_geeks.Notifications.{TenantSettings}
use dmarc_geeks.Notifications.Spike.{SpikeMail, Rate}

-- The figures of a rate, from the single records.
record Figures (rows : List Row) (r : Rate) : Type 0 where
  total : r.total ≡ volume any_row rows
  fails : r.fails ≡ volume not_aligned rows

abbrev pub is_sent : Option SpikeMail → Bool
is_sent none = false
is_sent (some m) = true

-- The rate of a set of records that is not empty.
unfoldable pub exact : List Row → Rate
exact rows = record {
  total = volume any_row rows;
  fails = volume not_aligned rows;
  base = volume any_row rows;
}

-- A share of some messages.
pub record IsShare (r : Rate) : Type 0 where
  pub some_base : 1 ≤ r.base
  pub share : r.fails ≤ r.base

-- The float comparison of shares agrees with that of the fractions but for a thousandth of a point.
pub record IsClose (is_below : Rate → Rate → ℕ → Bool) : Type 0 where
  pub below :
      (cur prev : Rate) (threshold : ℕ)
      → IsShare cur
      → IsShare prev
      → is_below cur prev threshold ≡ true
      → 100000 * cur.fails * prev.base
        ≤ (1000 * threshold + 1) * cur.base * prev.base + 100000 * prev.fails * cur.base
  pub above :
      (cur prev : Rate) (threshold : ℕ)
      → IsShare cur
      → IsShare prev
      → is_below cur prev threshold ≡ false
      → 1000 * threshold * cur.base * prev.base + 100000 * prev.fails * cur.base
        ≤ 100000 * cur.fails * prev.base + cur.base * prev.base

module _ (s : TenantSettings) (to : List Text) (cur prev : Rate) where
  -- Why a mail is sent.
  pub record IsAlarming : Type 0 where
    pub enabled : s.spike_alert_enabled ≡ true
    pub addressed : to ≢ []
    pub cur_volume : s.spike_min_volume ≤ cur.total
    pub prev_volume : s.spike_min_volume ≤ prev.total
    pub rises :
        1000 * s.spike_threshold_pct * cur.base * prev.base + 100000 * prev.fails * cur.base
        ≤ 100000 * cur.fails * prev.base + cur.base * prev.base

  -- Why none is sent.
  pub data Calm : Type 0 where
    disabled : s.spike_alert_enabled ≡ false → Calm
    nobody : to ≡ [] → Calm
    few_now : cur.total < s.spike_min_volume → Calm
    few_before : prev.total < s.spike_min_volume → Calm
    steady :
        100000 * cur.fails * prev.base
          ≤ (1000 * s.spike_threshold_pct + 1) * cur.base * prev.base
            + 100000 * prev.fails * cur.base
        → Calm

  abbrev pub Decided : Option SpikeMail → Type 0
  Decided m = ((is_sent m ≡ true) × IsAlarming) ⊎ ((is_sent m ≡ false) × Calm)
