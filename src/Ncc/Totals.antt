-- ===== src/Ncc/Totals.antt =====
-- Whether the figures of a day agree (services/ncc-integration/report_generator.py).
use vox_guard.Base.{
  ℕ, ◌+◌, ◌≤◌, ◌≡◌, refl, String, Bool, true, false, Option, none, some, List, [], ◌∷◌, All, arith,
  ap, ◌∙◌,
}
use vox_guard.Ncc.Report.{
  Level, critical, high, medium, low, SeverityCounts, no_alerts, level_of, set_count, Counted,
  count_level, SeverityRow, count_alerts, DayQueries, Statistics, day_statistics,
  query_daily_statistics,
}

abbrev pub sum_of : SeverityCounts → ℕ
sum_of c = c.critical + c.high + c.medium + c.low

abbrev count_of : Level → SeverityCounts → ℕ
count_of Level.critical c = c.critical
count_of Level.high c = c.high
count_of Level.medium c = c.medium
count_of Level.low c = c.low

-- What a row adds to the total: its count, if its severity is known.
abbrev pub known_count : Option Level → ℕ → ℕ
known_count none n = 0
known_count (some level) n = n

abbrev pub same_level : Option Level → Option Level → Bool
same_level (some critical) (some critical) = true
same_level (some high) (some high) = true
same_level (some medium) (some medium) = true
same_level (some low) (some low) = true
same_level _ _ = false

set_count-le :
    (l : Level) (n total : ℕ) (c : SeverityCounts)
    → sum_of c ≤ total
    → sum_of (set_count l n c) ≤ total + n
unfolding set_count
set_count-le Level.critical n total c h = omega (arith, h)
set_count-le Level.high n total c h = omega (arith, h)
set_count-le Level.medium n total c h = omega (arith, h)
set_count-le Level.low n total c h = omega (arith, h)

set_count-other :
    (l m : Level) (n : ℕ) (c : SeverityCounts)
    → same_level (some l) (some m) ≡ false
    → count_of m (set_count l n c) ≡ count_of m c
unfolding set_count
set_count-other Level.critical Level.critical n c apart = absurd (ground (arith, apart))
set_count-other Level.critical Level.high n c apart = refl
set_count-other Level.critical Level.medium n c apart = refl
set_count-other Level.critical Level.low n c apart = refl
set_count-other Level.high Level.critical n c apart = refl
set_count-other Level.high Level.high n c apart = absurd (ground (arith, apart))
set_count-other Level.high Level.medium n c apart = refl
set_count-other Level.high Level.low n c apart = refl
set_count-other Level.medium Level.critical n c apart = refl
set_count-other Level.medium Level.high n c apart = refl
set_count-other Level.medium Level.medium n c apart = absurd (ground (arith, apart))
set_count-other Level.medium Level.low n c apart = refl
set_count-other Level.low Level.critical n c apart = refl
set_count-other Level.low Level.high n c apart = refl
set_count-other Level.low Level.medium n c apart = refl
set_count-other Level.low Level.low n c apart = absurd (ground (arith, apart))

set_count-equal :
    (l : Level) (n total : ℕ) (c : SeverityCounts)
    → count_of l c ≡ 0
    → sum_of c ≡ total
    → sum_of (set_count l n c) ≡ total + n
unfolding set_count
set_count-equal Level.critical n total c zero_at same = omega (arith, zero_at, same)
set_count-equal Level.high n total c zero_at same = omega (arith, zero_at, same)
set_count-equal Level.medium n total c zero_at same = omega (arith, zero_at, same)
set_count-equal Level.low n total c zero_at same = omega (arith, zero_at, same)

count_level-le :
    (l : Option Level) (n : ℕ) (c : Counted)
    → sum_of c.0 ≤ c.1
    → sum_of (count_level l n c).0 ≤ (count_level l n c).1
count_level-le none n (counts, total) h = h
count_level-le (some l) n (counts, total) h = set_count-le l n total counts h

module _ (lower : String → String) where
  abbrev pub level_in : SeverityRow → Option Level
  level_in (none, n) = none
  level_in (some s, n) = level_of (lower s)

  -- No two rows have the same severity but for the case of its letters.
  abbrev pub AreDistinct : List SeverityRow → Type 0
  AreDistinct [] = Unit
  AreDistinct (r ∷ rs) =
      All (λ (s : SeverityRow). same_level (level_in r) (level_in s) ≡ false) rs × AreDistinct rs

  abbrev ZeroAt : Option Level → SeverityCounts → Type 0
  ZeroAt none c = Unit
  ZeroAt (some l) c = count_of l c ≡ 0

  abbrev AreZero : List SeverityRow → SeverityCounts → Type 0
  AreZero rows c = All (λ (r : SeverityRow). ZeroAt (level_in r) c) rows

  count_level-ZeroAt :
      (l m : Option Level) (n : ℕ) (c : Counted)
      → same_level l m ≡ false
      → ZeroAt m c.0
      → ZeroAt m (count_level l n c).0
  count_level-ZeroAt none m n (c, t) apart zero_at = zero_at
  count_level-ZeroAt (some l) none n (c, t) apart zero_at = tt
  count_level-ZeroAt (some l) (some m) n (c, t) apart zero_at =
      set_count-other l m n c apart ∙ zero_at

  count_level-AreZero :
      (l : Option Level) (n : ℕ) (rows : List SeverityRow) (c : Counted)
      → All (λ (s : SeverityRow). same_level l (level_in s) ≡ false) rows
      → AreZero rows c.0
      → AreZero rows (count_level l n c).0
  count_level-AreZero l n [] c apart zeros = tt
  count_level-AreZero l n (r ∷ rows) c (apart, others) (zero_at, zeros) = (
    count_level-ZeroAt l (level_in r) n c apart zero_at,
    count_level-AreZero l n rows c others zeros,
  )

  count_level-equal :
      (l : Option Level) (n : ℕ) (c : Counted)
      → ZeroAt l c.0
      → sum_of c.0 ≡ c.1
      → sum_of (count_level l n c).0 ≡ (count_level l n c).1
  count_level-equal none n (c, t) zero_at same = same
  count_level-equal (some l) n (c, t) zero_at same = set_count-equal l n t c zero_at same

  abbrev pub is_given : SeverityRow → Bool
  is_given (none, n) = false
  is_given (some s, n) = true

  count_alerts-Adds :
      (rows : List SeverityRow) (c : Counted)
      → All (λ (r : SeverityRow). is_given r ≡ true) rows
      → sum_of c.0 ≤ c.1
      → (end : Counted) × (count_alerts lower rows c ≡ some end)
        × (sum_of end.0 ≤ end.1)
        × (AreDistinct rows → AreZero rows c.0 → sum_of c.0 ≡ c.1 → sum_of end.0 ≡ end.1)
  unfolding count_alerts
  count_alerts-Adds [] c given le = (c, refl, le, λ distinct zeros same. same)
  count_alerts-Adds ((none, n) ∷ rows) c (given, others) le = absurd (ground (arith, given))
  count_alerts-Adds ((some s, n) ∷ rows) c (given, others) le =
      let l = level_of (lower s) in
      let (end, ran, fits, equal) =
        count_alerts-Adds rows (count_level l n c) others (count_level-le l n c le) in
      (
        end,
        ran,
        fits,
        λ distinct zeros same.
            equal distinct.1 (count_level-AreZero l n rows c distinct.0 zeros.1)
              (count_level-equal l n c zeros.0 same),
      )

  all_zero : (rows : List SeverityRow) → AreZero rows no_alerts
  all_zero [] = tt
  all_zero (r ∷ rows) = (no_count (level_in r), all_zero rows)
    where
      no_count : (l : Option Level) → ZeroAt l no_alerts
      no_count none = tt
      no_count (some Level.critical) = refl
      no_count (some Level.high) = refl
      no_count (some Level.medium) = refl
      no_count (some Level.low) = refl

  -- If no severity is null, there is a report of the day, and the four counts of it add up to at most
  -- the total; they add up to the total if no two rows have severities that differ only in the case
  -- of their letters.
  pub query_daily_statistics-sum :
      (q : DayQueries)
      → All (λ (r : SeverityRow). is_given r ≡ true) q.alerts_rows
      → (s : Statistics) × (query_daily_statistics lower q ≡ some s)
        × (sum_of s.alerts_by_severity ≤ s.fraud_alerts_generated)
        × (AreDistinct q.alerts_rows → sum_of s.alerts_by_severity ≡ s.fraud_alerts_generated)
  unfolding query_daily_statistics
  query_daily_statistics-sum q given =
      let (end, ran, fits, equal) =
        count_alerts-Adds q.alerts_rows (no_alerts, 0) given (omega arith) in
      (_, ap (day_statistics q) ran, fits, λ distinct. equal distinct (all_zero q.alerts_rows) refl)
