-- ===== src/Proxy/Serve/Guards.antt =====
-- What the budgets of its project decide of a request.
use airelay.Base.{◌≡◌, refl, some, ◌++◌, Bytes, codes, ◌⊎◌, inl, inr, not, Bool-cases}
use airelay.Float.{FloatOps}
use airelay.Uuid.{UuidLib}
use airelay.Encrypt.{CryptoLib}
use airelay.Models.{AiProvider}
use airelay.Tokens.{JsonLib}
use airelay.Proxy.Backend.{Backend}
use airelay.Proxy.Auth.{KeyLookup}
use airelay.Proxy.Budgets.{check_budgets}
use airelay.Proxy.Budgets.Check.{IsOverLimit, check_budgets_blocked, redis_down-check_budgets}
use airelay.Proxy.Forward.{Request, HttpLib}
use airelay.Proxy.Handler.{
  Handler, Body, RequestJson, write_json, budgets_of, with_budgets, world_of,
}
use airelay.Proxy.Serve.{serve_checked, serve_read}

module _ {W : Type 0} ⦃be : Backend W⦄ ⦃fl : FloatOps⦄ ⦃lib : UuidLib⦄ ⦃crypto : CryptoLib⦄
    ⦃http : HttpLib W⦄ ⦃json : JsonLib⦄ ⦃rj : RequestJson⦄ where
  -- Either Redis answers, the budgets load and some counter that can be read has reached its hard
  -- limit: then the reply is 429 with the reason, it is the same whatever the provider would do, and
  -- the state is the one behind the check, with no event logged. Or that is not so: then the request
  -- goes on with its body, as one of an outage exactly if Redis does not answer.
  pub serve_checked_decides :
      (r : Request) (body : Body) (l : KeyLookup) (provider : AiProvider) (suffix : Bytes)
      (other : HttpLib W) (h : Handler W)
      → let (budget, s) = check_budgets l.project_id (budgets_of h) in
        let (reply, h') = serve_checked r body l provider suffix h in
        (IsOverLimit l.project_id (budgets_of h)
          × (reply.status ≡ some 429)
          × (reply.body ≡ rj.error_body (codes "budget exceeded: " ++ budget.reason))
          × (h' ≡ with_budgets h s)
          × (serve_checked ⦃http = other⦄ r body l provider suffix h ≡ (reply, h')))
        ⊎ ((¬ IsOverLimit l.project_id (budgets_of h))
            × ((reply, h')
                ≡ serve_read r l provider suffix
                    (not (be.redis_ping (world_of h)).0)
                    body
                    (with_budgets h s)))
  unfolding serve_checked write_json
  serve_checked_decides r body l provider suffix other h =
      let (budget, s) = check_budgets l.project_id (budgets_of h) in
      let decides = check_budgets_blocked l.project_id (budgets_of h) in
      elim (Bool-cases budget.blocked) [
        | inl e ↦ inl (decides.0 e, rw e refl, rw e refl, rw e refl, rw e refl)
        | inr e ↦ inr (
          λ over. let blocked = decides.1 over in cc,
          rw (e, redis_down-check_budgets l.project_id (budgets_of h)) refl,
        )
      ]
