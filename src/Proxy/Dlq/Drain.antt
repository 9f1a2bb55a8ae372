-- ===== src/Proxy/Dlq/Drain.antt =====
-- The end of an outage: the retries bring every queued event into the table.
use airelay.Base.{ℕ, Bool, List, [], ◌∷◌}
use mathlib.Core.List.{Perm}
use mathlib.Core.List.Perm
use airelay.Proxy.Dlq.{Dlq, Action, wakes, merges, step}

-- Rounds of the retry goroutine, each with its failing writes.
unfoldable pub rounds : List (ℕ → Bool) → List Action
rounds [] = []
rounds (fails ∷ rest) = wakes ∷ merges fails ∷ rounds rest

-- A round with no Enqueue in flight.
abbrev one_round : (ℕ → Bool) → Dlq → Dlq
one_round fails d = step (step d wakes) (merges fails)
