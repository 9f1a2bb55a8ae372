-- ===== src/Jobs/Partition.antt =====
-- internal/jobs/partition.go: the partitions of usage_events that the job asks for.
use airelay.Base.{
  ℕ, ◌+◌, ◌-◌, ◌≤◌, ◌<◌, ◌≡◌, ◌≢◌, ◌↔◌, refl, sym, List, [], ◌∷◌, ◌++◌, Bytes, codes, ◌==◌, leb,
  Bool-cases, inl, inr, if◌then◌else◌, arith,
}
use airelay.Time.{Time, IsTime, days_in, format_day, two_digits, four_digits}
use airelay.Time.Calendar.{days_in-ge}
use airelay.Time.Format.{format_day-injective}

-- Midnight of the first of a month.
first_of : ℕ → ℕ → Time
first_of y m = record { year = y; month = m; day = 1; nanos = 0 }

-- The year and the month behind a month.
unfoldable pub month_after : ℕ → ℕ → ℕ × ℕ
month_after y m = if m == 12 then (y + 1, 1) else (y, m + 1)

-- t.AddDate(0, 1, 0): a day that the next month does not have runs into the month behind it.
unfoldable pub add_month : Time → Time
add_month t =
    let (y, m) = month_after t.year t.month in
    let (y', m') = month_after y m in
    if leb t.day (days_in y (m - 1))
    then record t { year = y; month = m }
    else record { year = y'; month = m'; day = t.day - days_in y (m - 1); nanos = t.nanos }

-- CREATE TABLE IF NOT EXISTS … PARTITION OF usage_events FOR VALUES FROM … TO …
pub record Partition : Type 0 where
  pub table_name : Bytes
  pub from : Bytes
  pub to : Bytes

-- partitionTableName(t)
unfoldable pub partition_table_name : Time → Bytes
partition_table_name t = codes "usage_events_" ++ (four_digits t.year ++ b'_' ∷ two_digits t.month)

-- The statement of ensurePartition.
unfoldable pub ensure_partition : Time → Partition
unfolding first_of
ensure_partition t =
    let (y, m) = month_after t.year t.month in
    record {
      table_name = partition_table_name t;
      from = format_day (first_of t.year t.month);
      to = format_day (first_of y m);
    }

-- RunPartition: its statements. An error is only printed.
unfoldable pub run_partition : Time → List Partition
run_partition now = ensure_partition now ∷ ensure_partition (add_month now) ∷ []

first_of-IsTime : (y m : ℕ) → y < 10000 → 1 ≤ m → m ≤ 12 → IsTime (first_of y m)
unfolding first_of
first_of-IsTime y m h k l =
    let enough = days_in-ge y (m - 1) (omega arith) in
    record {
      year_digits = h;
      month_pos = k;
      month_le = l;
      day_pos = omega arith;
      day_le = omega arith;
      nanos_lt = ground arith;
    }

-- A month is not the month behind it.
month_after_lem :
    (y m : ℕ)
    → 1 ≤ m
    → m ≤ 12
    → let (y', m') = month_after y m in (1 ≤ m') × (m' ≤ 12) × (y' ≤ y + 1) × (m' ≢ m)
unfolding month_after
month_after_lem y m h k = elim (Bool-cases (m == 12)) [
  | inl e ↦ rw e (omega arith, omega arith, omega arith, ground arith)
  | inr e ↦ rw e (omega arith, ground arith, omega arith, omega arith)
]

-- For a reading of the clock before the year 9998, the second partition begins where the first ends
-- exactly when the next month has the day of the reading.
pub run_partition_joins :
    (now : Time)
    → IsTime now
    → now.year < 9998
    → let (y, m) = month_after now.year now.month in
      ((ensure_partition now).to ≡ (ensure_partition (add_month now)).from)
      ↔ (now.day ≤ days_in y (m - 1))
unfolding ensure_partition add_month
run_partition_joins now h k =
    let (y, m) = month_after now.year now.month in
    let (y', m') = month_after y m in
    let (a, b, c, _) = month_after_lem now.year now.month h.month_pos h.month_le in
    let (a', b', c', d') = month_after_lem y m a b in
    elim (Bool-cases (leb now.day (days_in y (m - 1)))) [
      | inl e ↦ rw e (λ _. ground arith, λ _. refl)
      | inr e ↦ rw e (
        λ same.
            let t = first_of-IsTime y m (omega arith) a b in
            let s = first_of-IsTime y' m' (omega arith) a' b' in
            let (_, eq, _) = format_day-injective (first_of y m) (first_of y' m') t s same in
            absurd (d' (sym eq)),
        λ le. ground arith,
      )
    ]
