-- ===== src/Tests/Serving.antt =====
-- The theorem on the service over a sequence of events, at a concrete input.
use airelay.Base.{◌≡◌, refl, List, [], ◌∷◌, Bytes, codes, length}
use airelay.Proxy.Handler.{read}
use airelay.Proxy.Server.{
  Event, asks, asks_health, receives, ticks, awakes, merges, outside, new_server, run,
}
use airelay.Proxy.Server.Bounds.{IsBounded, new_server-IsBounded}
use airelay.Tests.{
  World, quiet, spent, chat, answering, toy_backend, toy_float, toy_uuid, toy_crypto, toy_json,
  toy_request_json, letters,
}

abbrev enc_key : Bytes
enc_key = letters 16

-- A request, a round of each goroutine, and another budget's state outside.
abbrev events : List (Event World)
events =
    asks chat (read (codes "{}"))
    ∷ receives
    ∷ ticks
    ∷ awakes
    ∷ outside (λ w. spent)
    ∷ merges
    ∷ asks_health
    ∷ []

replies_each : length (run ⦃http = answering⦄ enc_key events (new_server quiet)).0 ≡ 7
unfolding run
replies_each = refl

new_server-IsBounded_example :
    IsBounded (run ⦃http = answering⦄ enc_key events (new_server quiet)).1
new_server-IsBounded_example = new_server-IsBounded ⦃http = answering⦄ enc_key events quiet
