-- ===== src/Tests/Sweep.antt =====
-- The theorem on the sweep of the spend counters, at a concrete input.
use airelay.Base.{
  ◌≡◌, refl, sym, false, Option, none, some, [], ◌∷◌, Bytes, codes, bytes_ne, ◌==◌, if◌then◌else◌,
  arith,
}
use airelay.Time.{format_day, format_month}
use airelay.Jobs.TtlSweep.{is_expired_spend_key}
use airelay.Jobs.TtlSweep.Scan.{Scanning, ScanLaws, run_ttl_sweep, run_ttl_sweep_ends}
use airelay.Tests.{noon, set}

abbrev Keyspace : Type 0
Keyspace = Bytes → Option Bytes

-- Two pages of one key each.
instance abbrev toy_scanning : Scanning Keyspace
toy_scanning = record {
  scan = λ cursor w. (
    some (
        if cursor == 0
        then (codes "spend:a:daily:2024-01-31" ∷ [], 1)
        else (codes "spend:a:daily:2024-01-30" ∷ [], 0)),
    w,
  );
  del = λ key w. set key none w;
}

toy_scanning-ScanLaws : ScanLaws toy_scanning
toy_scanning-ScanLaws = record {
  rounds = λ cursor. if cursor == 0 then 1 else 0;
  advances = λ cursor next keys w h. ground arith;
  value = λ key w. w key;
  value-scan = λ key cursor w. refl;
  value-del = λ key other w n. rw (bytes_ne key other (λ e. n (sym e))) refl;
}

run_ttl_sweep_ends_example :
    (w' : Keyspace) × (run_ttl_sweep 3 noon (λ k. some []) ≡ some w')
    × ((key : Bytes)
        → is_expired_spend_key key (format_day noon) (format_month noon) ≡ false
        → w' key ≡ some [])
unfolding toy_scanning-ScanLaws
run_ttl_sweep_ends_example =
    run_ttl_sweep_ends toy_scanning-ScanLaws noon 3 (λ k. some []) (omega arith)
