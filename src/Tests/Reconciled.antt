-- ===== src/Tests/Reconciled.antt =====
-- The theorem on whole runs of the reconciliation, at a concrete input.
use airelay.Base.{refl, some, Option, List, [], ◌∷◌, arith}
use airelay.Uuid.{Uuid}
use airelay.Proxy.Budgets.Quiet.{IsQuiet, IsSame}
use airelay.Jobs.Reconcile.{run_reconcile}
use airelay.Jobs.Reconcile.Corrects.Whole.{IsReconciled, run_reconcile-IsReconciled}
use airelay.Tests.{World, spent, noon, noon-IsTime, toy_backend, toy_uuid, toy_float}

IsSame-world : (w : World) → IsSame toy_backend w w
IsSame-world w = record { counters = λ k. refl; sums = λ p a. refl; budgets = λ p. refl }

pub toy_backend-IsQuiet : IsQuiet toy_backend noon
toy_backend-IsQuiet = record {
  same_day = λ w. (refl, refl, refl);
  now_reads = IsSame-world;
  ping_reads = IsSame-world;
  get_reads = λ k. IsSame-world;
  sum_reads = λ p a. IsSame-world;
  budgets_reads = λ p. IsSame-world;
  set_writes = λ k j v d w. refl;
  set_keeps_sums = λ k v d w p a. refl;
}

abbrev two_projects : World → Option (List Uuid) × World
two_projects w = (some (7 ∷ 8 ∷ []), w)

run_reconcile-IsReconciled_example :
    IsReconciled noon (7 ∷ 8 ∷ []) spent (run_reconcile two_projects spent)
run_reconcile-IsReconciled_example =
    run_reconcile-IsReconciled noon toy_backend-IsQuiet noon-IsTime two_projects (7 ∷ 8 ∷ []) spent
      refl (IsSame-world spent) (omega arith, (omega arith, tt)) ((refl, tt), (tt, tt))
