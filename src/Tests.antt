-- ===== src/Tests.antt =====
-- A small world to run the model in: a clock, a table and a Redis that hold what they are told, and
-- stand-ins for the packages that the program calls.
pub mod Keys
pub mod Budgets
pub mod Queues
pub mod Requests
pub mod Reconciled
pub mod Schedule
pub mod Seeded
pub mod Serving
pub mod Setup
pub mod Starts
pub mod Sweep
pub mod Api
use airelay.Base.{
  ℕ, zero, suc, ◌+◌, ◌-◌, ◌*◌, ◌/◌, ◌%◌, ◌≡◌, refl, ap, Bool, true, false, Option, none, some, List,
  [], ◌∷◌, ◌++◌, Bytes, codes, bytes_eq, ltb, leb, ◌==◌, Lacks, arith, if◌then◌else◌, length,
}
use airelay.Time.{Time, IsTime, days_in}
use airelay.Float.{Float64, FloatOps}
use airelay.Uuid.{Uuid, UuidLib}
use airelay.Encrypt.{CryptoLib, CryptoLaws}
use airelay.Models.{AiProvider, Budget, period_daily}
use airelay.Tokens.{JsonLib}
use airelay.Proxy.Event.{UsageEvent}
use airelay.Proxy.Backend.{
  Backend, Get, found, nil, failed, Ttl, negative, remaining, CredentialRow,
}
use airelay.Proxy.Budgets.{State}
use airelay.Proxy.Logger.{Logger}
use airelay.Proxy.Forward.{Header, HttpLib, Request, Response, Outgoing, authorization}
use airelay.Proxy.Handler.{Handler, RequestJson}

abbrev pub noon : Time
noon = record { year = 2024; month = 1; day = 31; nanos = 43200000000000 }

pub noon-IsTime : IsTime noon
unfolding days_in
noon-IsTime = record {
  year_digits = ground arith;
  month_pos = ground arith;
  month_le = ground arith;
  day_pos = ground arith;
  day_le = ground arith;
  nanos_lt = ground arith;
}

abbrev pub letters : ℕ → Bytes
letters zero = []
letters (suc n) = b'a' ∷ letters n

pub length-letters : (n : ℕ) → length (letters n) ≡ n
length-letters zero = refl
length-letters (suc n) = ap suc (length-letters n)

pub letters-Lacks : (n : ℕ) (b : ℕ) → (b'a' ≡ b → ⊥) → Lacks b (letters n)
letters-Lacks zero b h = tt
letters-Lacks (suc n) b h = (h, letters-Lacks n b h)

abbrev pub read_first : Bytes → Option Uuid
read_first [] = none
read_first (c ∷ _) = some (c - 128)

-- A text of 36 symbols, the first of which stands for the id.
instance abbrev pub toy_uuid : UuidLib
toy_uuid = record {
  to_string = λ u. (u + 128) ∷ letters 35;
  parse = read_first;
  length-to_string = λ u. refl;
  to_string-Lacks_colon = λ u. (omega arith, letters-Lacks 35 58 (omega arith));
  to_string-Lacks_bar = λ u. (omega arith, letters-Lacks 35 b'|' (omega arith));
  parse-to_string = λ u h. let e : u + 128 - 128 ≡ u = omega arith in ap some e;
}

abbrev pub project : Uuid
project = 7

abbrev pub four : Float64
four = 4

abbrev pub nine : Float64
nine = 9

-- Floats that are whole numbers.
instance abbrev pub toy_float : FloatOps
toy_float = record {
  literal = λ n d. n / d;
  add = λ a b. a + b;
  sub = λ a b. a - b;
  mul = λ a b. a * b;
  div = λ a b. a / b;
  neg = λ a. 0;
  lt = ltb;
  le = leb;
  eq = λ a b. a == b;
  format_4 = λ a. (b'0' + a % 10) ∷ [];
}

abbrev zeros : ℕ → Bytes
zeros zero = []
zeros (suc n) = 0 ∷ zeros n

abbrev pub zeros_32 : Bytes
zeros_32 = zeros 32

instance abbrev pub toy_crypto : CryptoLib
toy_crypto = record {
  sha256 = λ s. zeros_32;
  base64_encode = λ s. s;
  base64_decode = λ s. some s;
  seal = λ key nonce text. text;
  unseal = λ key nonce sealed. some sealed;
}

pub toy_crypto-CryptoLaws : CryptoLaws toy_crypto
toy_crypto-CryptoLaws = record {
  length-sha256 = λ s. refl;
  base64_decode-base64_encode = λ s. refl;
  unseal-seal = λ key nonce text. refl;
}

-- The time stands still; an INSERT and an INCRBYFLOAT take effect while `up`.
pub record World : Type 0 where
  pub up : Bool
  pub rows : List UsageEvent
  pub counters : Bytes → Get Float64
  pub texts : Bytes → Get Bytes

abbrev pub daily_budget : Budget
daily_budget = record {
  id = 1;
  project_id = 7;
  amount_usd = 5;
  period = period_daily;
  hard_limit = true;
  created_at = noon;
}

abbrev pub credential : CredentialRow
credential = record {
  api_key_id = 3;
  project_id = 7;
  provider = codes "openai";
  encrypted_key = letters 35;
}

abbrev pub plus : Get Float64 → Float64 → Float64
plus (found v) c = v + c
plus nil c = c
plus failed c = c

abbrev pub set {ℓ} : {A : Type ℓ} → Bytes → A → (Bytes → A) → Bytes → A
set key v f k = if bytes_eq k key then v else f k

abbrev pub insert : Bool → UsageEvent → World → Bool × World
insert true e w = (true, record w { rows = w.rows ++ e ∷ [] })
insert false e w = (false, w)

abbrev pub incr : Bool → Bytes → Float64 → World → Bool × World
incr true k c w = (true, record w { counters = set k (found (plus (w.counters k) c)) w.counters })
incr false k c w = (false, w)

instance abbrev pub toy_backend : Backend World
toy_backend = record {
  now = λ w. (noon, w);
  redis_ping = λ w. (w.up, w);
  redis_get_float = λ k w. (w.counters k, w);
  redis_set_float = λ k v ttl w. record w { counters = set k (found v) w.counters };
  redis_get_text = λ k w. (w.texts k, w);
  redis_set_text = λ k v ttl w. record w { texts = set k (found v) w.texts };
  redis_incr_by_float = λ k c w. incr w.up k c w;
  redis_ttl = λ k w. (some negative, w);
  redis_expire = λ k ttl w. w;
  db_budgets = λ p w. (some (daily_budget ∷ []), w);
  db_spend_since = λ p start w. (some 4, w);
  db_credential = λ hash provider w. (some credential, w);
  db_insert_event = λ e w. insert w.up e w;
  db_pricing = λ provider model w. (some (1, 2), w);
}

abbrev pub quiet : World
quiet = record { up = true; rows = []; counters = λ k. nil; texts = λ k. nil }

-- Every counter has reached the budget.
abbrev pub spent : World
spent = record { up = true; rows = []; counters = λ k. found 9; texts = λ k. nil }

abbrev pub down : World
down = record { up = false; rows = []; counters = λ k. failed; texts = λ k. failed }

abbrev pub fresh : World → State World
fresh w = record { world = w; cache = λ p. none }

instance abbrev pub toy_json : JsonLib
toy_json = record {
  openai_chunk = λ s. some (some (record { prompt_tokens = length s; completion_tokens = 1 }));
  anthropic_delta = λ s. none;
  anthropic_message_start = λ s. none;
  google_chunk = λ s. none;
}

instance abbrev pub toy_request_json : RequestJson
toy_request_json = record {
  model_of = λ s. codes "gpt-4o";
  metadata_of = λ s. none;
  error_body = λ m. m;
}

abbrev pub answer : Response
answer = record { status = 200; header = λ k. []; body = codes "hello" }

-- A provider that answers, and one that does not.
abbrev pub answering : HttpLib World
answering = record { valid_request = λ m u. true; do_request = λ o w. (some answer, w) }

abbrev pub silent_provider : HttpLib World
silent_provider = record { valid_request = λ m u. true; do_request = λ o w. (none, w) }

abbrev pub event : UsageEvent
event = record {
  project_id = 7;
  api_key_id = 3;
  provider = codes "openai";
  model = codes "gpt-4o";
  prompt_tokens = 2;
  completion_tokens = 1;
  cost_usd = some 3;
  duration_ms = 10;
  status_code = 200;
  metadata = none;
  fail_open = false;
}

abbrev pub logger_of : World → Logger World
logger_of w = record { ch = event ∷ []; batch = event ∷ []; dlq = event ∷ []; budgets = fresh w }

abbrev pub handler_of : World → Handler World
handler_of w = record { logger = logger_of w; pricing_cache = λ k. none }

abbrev pub chat : Request
chat = record {
  method = codes "POST";
  path = codes "/proxy/openai/v1/chat/completions";
  raw_query = [];
  header = λ k. if bytes_eq k authorization then codes "Bearer air_sk_1" ∷ [] else [];
}
