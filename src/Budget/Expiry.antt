-- ===== src/Budget/Expiry.antt =====
-- How long a spend counter lives, against the period that it counts.
use airelay.Base.{◌+◌, ◌*◌, ◌≤◌, ◌<◌, ◌≡◌, arith}
use airelay.Time.{Time, IsTime, date, instant, day_nanos}
use airelay.Time.Calendar.{date_offset, date-month_after}
use airelay.Budget.{daily, monthly, spend_key_ttl}

-- A daily counter that is written at `t` lives until midnight two days behind the start of its
-- day, so for more than one day and at most two.
pub daily_expiry :
    (t : Time)
    → IsTime t
    → (spend_key_ttl daily t + t.nanos ≡ 2 * day_nanos)
      × (day_nanos < spend_key_ttl daily t)
      × (spend_key_ttl daily t ≤ 2 * day_nanos)
unfolding spend_key_ttl instant
daily_expiry t h =
    let a = date_offset t.year t.month (t.day + 2) (omega arith) in
    let b = date_offset t.year t.month t.day h.day_pos in (omega arith, omega arith, omega arith)

-- A monthly counter lives until the start of the 5th of the next month, so four days longer than
-- what is left of its month.
pub monthly_expiry :
    (t : Time)
    → IsTime t
    → (instant t + spend_key_ttl monthly t ≡ date t.year (t.month + 1) 5)
      × (date t.year (t.month + 1) 1 + 4 * day_nanos ≡ date t.year (t.month + 1) 5)
      × (instant t < date t.year (t.month + 1) 1)
unfolding spend_key_ttl instant
monthly_expiry t h =
    let a = date_offset t.year t.month t.day h.day_pos in
    let b = date-month_after t.year t.month 5 h.month_pos h.month_le in
    let c = date-month_after t.year t.month 1 h.month_pos h.month_le in
    (omega arith, omega arith, omega arith)
