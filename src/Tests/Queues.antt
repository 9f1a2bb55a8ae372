-- ===== src/Tests/Queues.antt =====
-- The theorems on the dead letter queue, the logger and the streams, at concrete inputs.
use airelay.Base.{
  map, drop, ◌-◌, ℕ, zero, suc, ◌+◌, ◌≡◌, refl, ap, Bool, true, none, List, [], ◌∷◌, ◌++◌, Bytes,
  codes, length, arith, inr,
}
use airelay.Models.{provider_openai, provider_google}
use airelay.Tokens.Google.{RejectsD}
use airelay.Proxy.Event.{UsageEvent}
use airelay.Proxy.Dlq.Round.{retry_round}
use airelay.Proxy.Dlq.{
  merges, sleeping, Dlq, dlq_cap, enqueue, flush_batch, merge, flushing, new_dlq, run, step,
  enqueues, wakes,
}
use airelay.Proxy.Dlq.Merge.{enqueue_all, merge_loses_new}
use airelay.Proxy.Stream.{stream_sse, scan_lines, scan_limit}
use airelay.Proxy.Stream.Transparent.{unlines, IsLine, stream_truncates}
use airelay.Proxy.Stream.Counts.{google_usage_lost}
use airelay.Tests.{event, toy_backend, toy_uuid, toy_json, letters, letters-Lacks, length-letters}

abbrev always : ℕ → Bool
always _ = true

abbrev in_flight : List UsageEvent → List UsageEvent → Dlq
in_flight batch es = record {
  queue = enqueue_all batch es;
  attempt = 0;
  phase = flushing batch;
  rows = [];
}

abbrev two : List UsageEvent
two = event ∷ event ∷ []

abbrev asleep : Dlq
asleep = record { queue = two; attempt = 0; phase = sleeping; rows = [] }

retry_round_example :
    let d' = run asleep (wakes ∷ (map enqueues (event ∷ []) ++ merges always ∷ [])) in
    (d'.queue
      ≡ (flush_batch always two).0
        ++ drop (length two + length (event ∷ []) - dlq_cap) (event ∷ []))
    × (d'.rows ≡ [] ++ (flush_batch always two).1)
    × (d'.phase ≡ sleeping)
retry_round_example =
    retry_round always (event ∷ []) asleep event (event ∷ []) refl refl (ground arith)

events : ℕ → List UsageEvent
events zero = []
events (suc n) = event ∷ events n

length-events : (n : ℕ) → length (events n) ≡ n
unfolding events
length-events zero = refl
length-events (suc n) = ap suc (length-events n)

merge_loses_new_example :
    (merge always (events dlq_cap) (in_flight (events dlq_cap) two)).queue
    ≡ (flush_batch always (events dlq_cap)).0
merge_loses_new_example =
    merge_loses_new always (events dlq_cap) two (in_flight (events dlq_cap) two)
      (length-events dlq_cap) refl

woken : (run new_dlq (enqueues event ∷ wakes ∷ [])).phase ≡ flushing (event ∷ [])
unfolding run step new_dlq enqueue
woken = refl

abbrev short_line : Bytes
short_line = codes "data: 1"

short_line-IsLine : IsLine short_line
short_line-IsLine = record { one_line = ground arith; short = ground arith; bare = refl }

stream_truncates_example :
    (stream_sse provider_openai
      (unlines (short_line ∷ []) ++ (letters scan_limit ++ 10 ∷ short_line))).out
    ≡ unlines (short_line ∷ [])
stream_truncates_example =
    stream_truncates provider_openai (short_line ∷ []) (letters scan_limit) short_line
      (short_line-IsLine, tt) (letters-Lacks scan_limit 10 (omega arith))
      (omega (arith, length-letters scan_limit))

toy_json-RejectsD : RejectsD toy_json
toy_json-RejectsD = record { google_rejects = λ s. refl }

google_usage_lost_example : (stream_sse provider_google short_line).last_usage ≡ none
unfolding scan_lines
google_usage_lost_example =
    google_usage_lost toy_json-RejectsD short_line (inr (codes "1", refl), tt)
