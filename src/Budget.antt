-- ===== src/Budget.antt =====
-- internal/budget/keys.go: the Redis key of a project's spend in a period, and its time to live.
pub mod Keys
pub mod Expiry
use airelay.Base.{ℕ, ◌+◌, ◌-◌, ◌*◌, Bytes, codes, ◌++◌, ◌∷◌, bytes_eq, if◌then◌else◌}
use airelay.Time.{Time, date, instant, format_day, format_month, hour}
use airelay.Uuid.{Uuid, UuidLib}

abbrev pub daily : Bytes
daily = codes "daily"

abbrev pub monthly : Bytes
monthly = codes "monthly"

module _ ⦃lib : UuidLib⦄ where
  -- fmt.Sprintf("spend:%s:…", projectID, …)
  unfoldable pub spend_key : Uuid → Bytes → Time → Bytes
  spend_key project period t =
      if bytes_eq period daily
      then codes "spend:" ++ (lib.to_string project ++ (codes ":daily:" ++ format_day t))
      else if bytes_eq period monthly
      then codes "spend:" ++ (lib.to_string project ++ (codes ":monthly:" ++ format_month t))
      else codes "spend:" ++ (lib.to_string project ++ b':' ∷ period)

-- The result counts nanoseconds. `end.Sub(u)` is never negative here: `Budget.Expiry`.
unfoldable pub spend_key_ttl : Bytes → Time → ℕ
spend_key_ttl period u =
    if bytes_eq period daily
    then date u.year u.month (u.day + 2) - instant u
    else if bytes_eq period monthly
    then date u.year (u.month + 1) 5 - instant u
    else 7 * 24 * hour
