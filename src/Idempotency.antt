-- ===== src/Idempotency.antt =====
-- src/payment/idempotency.service.ts, over the interface `Redis`. `JSON.stringify` and
-- `JSON.parse` are the interface `Json`, of which the code uses that a response is read back as it
-- was written and that its text is not empty. Each command is given its reading of the clock.
pub mod View
pub mod Plain
pub mod Exclusion
use payment_queue_system_bul.Prelude.{
  ℕ, ◌≡◌, ◌≢◌, Bool, true, false, not, List, [], ◌∷◌, ◌++◌, Option, none, some, Text, codes,
}
use payment_queue_system_bul.Types.{GatewayResponse, Thrown, error}
use payment_queue_system_bul.Effects.{Outcome, ok, throw}
use payment_queue_system_bul.Redis.{Redis, is_none}

-- `parse` returns `none` where `JSON.parse` throws a SyntaxError, whose message is `syntax_error`.
pub record Json : Type 0 where
  pub stringify : GatewayResponse → Text
  pub parse : Text → Option GatewayResponse
  pub syntax_error : Text → Text
  pub parse-stringify : (r : GatewayResponse) → parse (stringify r) ≡ some r
  pub stringify_nonempty : (r : GatewayResponse) → stringify r ≢ []

abbrev pub lock_ttl_sec : ℕ
lock_ttl_sec = 120

abbrev pub result_ttl_sec : ℕ
result_ttl_sec = 86_400

-- `idem:lock:${key}`
abbrev pub lock_key : Text → Text
lock_key key = codes "idem:lock:" ++ key

-- `idem:result:${key}`
abbrev pub result_key : Text → Text
result_key key = codes "idem:result:" ++ key

abbrev pub or_syntax_error : Json → Text → Option GatewayResponse → Outcome (Option GatewayResponse)
or_syntax_error json raw none = throw (error (json.syntax_error raw))
or_syntax_error json raw (some r) = ok (some r)

-- `raw ? JSON.parse(raw) : null`
abbrev pub decode : Json → Option Text → Outcome (Option GatewayResponse)
decode json none = ok none
decode json (some []) = ok none
decode json (some (c ∷ raw)) = or_syntax_error json (c ∷ raw) (json.parse (c ∷ raw))

module _ (redis : Redis) (json : Json) where
  open redis use {Store, get, set_ex, set_nx, del}

  unfoldable pub acquire_lock : ℕ → Text → Store → Store × Bool
  acquire_lock now key s = set_nx now (lock_key key) (codes "1") lock_ttl_sec s

  unfoldable pub release_lock : ℕ → Text → Store → Store
  release_lock now key s = del now (lock_key key) s

  unfoldable pub has_lock : ℕ → Text → Store → Bool
  has_lock now key s = not (is_none (get now (lock_key key) s))

  unfoldable pub get_result : ℕ → Text → Store → Outcome (Option GatewayResponse)
  get_result now key s = decode json (get now (result_key key) s)

  -- MULTI SET DEL EXEC: both commands, with nothing between them.
  unfoldable pub store_result : ℕ → Text → GatewayResponse → Store → Store
  store_result now key result s =
      del now (lock_key key) (set_ex now (result_key key) (json.stringify result) result_ttl_sec s)
