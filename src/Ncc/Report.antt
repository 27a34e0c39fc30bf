-- ===== src/Ncc/Report.antt =====
-- The statistics of a day (services/ncc-integration/report_generator.py), from what the queries give.
-- Figures that are not counts are in units of 1/10000.
use vox_guard.Base.{ℕ, ◌+◌, String, Option, none, some, List, [], ◌∷◌, str_eq, ◌==◌, if◌then◌else◌}

pub data Level : Type 0 where
  critical high medium low : Level

pub record SeverityCounts : Type 0 where
  pub critical : ℕ
  pub high : ℕ
  pub medium : ℕ
  pub low : ℕ

abbrev pub no_alerts : SeverityCounts
no_alerts = record { critical = 0; high = 0; medium = 0; low = 0 }

-- The key of the dictionary, if the text is one.
abbrev pub level_of : String → Option Level
level_of s =
    if str_eq s "critical"
    then some critical
    else if str_eq s "high"
    then some high
    else if str_eq s "medium"
    then some medium
    else if str_eq s "low"
    then some low
    else none

unfoldable pub set_count : Level → ℕ → SeverityCounts → SeverityCounts
set_count Level.critical n c = record c { critical = n }
set_count Level.high n c = record c { high = n }
set_count Level.medium n c = record c { medium = n }
set_count Level.low n c = record c { low = n }

-- `alerts_by_severity` and `total_alerts`
abbrev pub Counted : Type 0
Counted = SeverityCounts × ℕ

abbrev pub count_level : Option Level → ℕ → Counted → Counted
count_level none n (counts, total) = (counts, total)
count_level (some level) n (counts, total) = (set_count level n counts, total + n)

-- A row of the table of severities; null makes the report raise.
abbrev pub SeverityRow : Type 0
SeverityRow = Option String × ℕ

-- `lower` is `str.lower`.
module _ (lower : String → String) where
  unfoldable pub count_alerts : List SeverityRow → Counted → Option Counted
  count_alerts [] c = some c
  count_alerts ((none, n) ∷ rows) c = none
  count_alerts ((some s, n) ∷ rows) c = count_alerts rows (count_level (level_of (lower s)) n c)

-- What the other queries give; none is null.
pub record DayQueries : Type 0 where
  pub total_calls : Option ℕ
  pub alerts_rows : List SeverityRow
  pub calls_disconnected : Option ℕ
  pub patterns_blocked : Option ℕ
  pub p99_latency : Option ℕ
  pub avg_latency : Option ℕ

pub record Statistics : Type 0 where
  pub total_calls_processed : Option ℕ
  pub fraud_alerts_generated : ℕ
  pub alerts_by_severity : SeverityCounts
  pub calls_disconnected : ℕ
  pub patterns_blocked : ℕ
  pub detection_latency_p99_ms : ℕ
  pub detection_latency_avg_ms : ℕ
  pub system_uptime_percent : ℕ
  pub false_positive_rate_percent : ℕ

-- `value or default`, where 0 counts as nothing.
abbrev pub value_or : ℕ → Option ℕ → ℕ
value_or default none = default
value_or default (some v) = if v == 0 then default else v

abbrev pub day_statistics : DayQueries → Option Counted → Option Statistics
day_statistics q none = none
day_statistics q (some (counts, total)) = some (record {
  total_calls_processed = q.total_calls;
  fraud_alerts_generated = total;
  alerts_by_severity = counts;
  calls_disconnected = value_or 0 q.calls_disconnected;
  patterns_blocked = value_or 0 q.patterns_blocked;
  detection_latency_p99_ms = value_or 8000 q.p99_latency;
  detection_latency_avg_ms = value_or 4500 q.avg_latency;
  system_uptime_percent = 999980;
  false_positive_rate_percent = 2100;
})

-- `_query_daily_statistics`, without the rounding of the latencies; none is an exception.
unfoldable pub query_daily_statistics : (String → String) → DayQueries → Option Statistics
query_daily_statistics lower q = day_statistics q (count_alerts lower q.alerts_rows (no_alerts, 0))
