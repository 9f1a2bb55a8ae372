-- ===== src/Api/Http.antt =====
-- What the handlers of the management API get and give: the parts of a request that they read, and
-- api/response.go. A reply's JSON is a value; encoding/json, which prints it, and the decoding of
-- the bodies are parameters.
use airelay.Base.{ℕ, Bool, Option, none, some, Bytes, codes}
use airelay.Float.{Float64}
use airelay.Time.{Time}
use airelay.Uuid.{Uuid}
use airelay.Models.{UserPlan}

mutual
  pub data Json : Type 0 where
    null : Json
    flag : Bool → Json
    number : ℕ → Json
    real : Float64 → Json
    text : Bytes → Json
    instant_of : Time → Json
    object : Fields → Json
    array : Items → Json

  -- A map[string]any; the encoder prints its keys in order, whatever their order here.
  pub data Fields : Type 0 where
    end : Fields
    field : Bytes → Json → Fields → Fields

  pub data Items : Type 0 where
    nil : Items
    cons : Json → Items → Items

-- What a handler writes: the status, and a body with the type application/json or none.
pub record Reply : Type 0 where
  pub status : ℕ
  pub body : Option Json

-- writeJSON(w, status, v)
abbrev pub write_json : ℕ → Json → Reply
write_json status v = record { status = status; body = some v }

-- writeError(w, status, msg)
abbrev pub write_error : ℕ → Bytes → Reply
write_error status msg = write_json status (object (field (codes "error") (text msg) end))

-- w.WriteHeader(http.StatusNoContent)
abbrev pub no_content : Reply
no_content = record { status = 204; body = none }

-- The payload of a token.
pub record Claims : Type 0 where
  pub user_id : Uuid
  pub email : Bytes
  pub plan : UserPlan
  pub expires_at : ℕ  -- an instant
  pub issued_at : ℕ

pub record Request : Type 0 where
  -- r.Header.Get("Authorization")
  pub authorization : Bytes
  -- r.RemoteAddr
  pub remote_addr : Bytes
  -- ClaimsFromContext(r.Context())
  pub claims : Option Claims
  -- r.PathValue and r.URL.Query().Get, by name
  pub path_value : Bytes → Bytes
  pub query : Bytes → Bytes
  pub body : Bytes

-- json.NewDecoder(r.Body).Decode of the handlers' requests; `none` is an error, and a field that the
-- body does not have is empty.
pub record BodyJson : Type 0 where
  -- email and password
  pub login : Bytes → Option (Bytes × Bytes)
  pub name : Bytes → Option Bytes
  -- provider and key
  pub credential : Bytes → Option (Bytes × Bytes)
  -- amount_usd, period and hard_limit
  pub budget : Bytes → Option (Float64 × Bytes × Bool)
