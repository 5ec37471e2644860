-- ===== src/Idempotency/Plain.antt =====
-- A plain encoding of responses, which shows that what is relied on of JSON can be had: each text
-- is written behind its length.
use payment_queue_system_bul.Prelude.{
  ℕ, ◌≡◌, ◌≢◌, refl, ap, Bool, true, false, [], ◌∷◌, ◌++◌, Option, none, some, Text, length, take,
  drop, take-append_self, drop-append_self, ◌==◌, not, arith,
}
use payment_queue_system_bul.Types.{GatewayResponse}
use payment_queue_system_bul.Idempotency.{Json}

put : Text → Text → Text
put t rest = length t ∷ (t ++ rest)

put_option : Option Text → Text → Text
unfolding put
put_option none rest = 0 ∷ rest
put_option (some t) rest = 1 ∷ put t rest

put_flag : Bool → ℕ
put_flag true = 1
put_flag false = 0

abbrev pub encode : GatewayResponse → Text
unfolding put put_option put_flag
encode r =
    put_flag r.success
    ∷ put r.transaction_id (put r.gateway_id (put_option r.raw_code (put_option r.message [])))

abbrev Reader : Type 0 → Type 0
Reader A = Text → Option (A × Text)

infixl 5 ◌>>=◌
abbrev ◌>>=◌ : {A B : Type 0} → Reader A → (A → Reader B) → Reader B
◌>>=◌ m f t = elim (m t) [ none ↦ none | some (a, rest) ↦ f a rest ]

get : Reader Text
get [] = none
get (n ∷ t) = some (take n t, drop n t)

get_flag : Reader Bool
get_flag [] = none
get_flag (n ∷ t) = some (not (n == 0), t)

present : Bool → Reader (Option Text)
unfolding get
present false t = some (none, t)
present true t = elim (get t) [ none ↦ none | some (a, rest) ↦ some (some a, rest) ]

get_option : Reader (Option Text)
unfolding get_flag present
get_option = do flag ← get_flag; present flag

response : Reader GatewayResponse
response = do
  success ← get_flag
  transaction_id ← get
  gateway_id ← get
  raw_code ← get_option
  message ← get_option
  λ rest. some (
    record {
      success = success;
      transaction_id = transaction_id;
      gateway_id = gateway_id;
      raw_code = raw_code;
      message = message;
    },
    rest,
  )

abbrev value_of : Option (GatewayResponse × Text) → Option GatewayResponse
value_of none = none
value_of (some (r, rest)) = some r

abbrev pub decode : Text → Option GatewayResponse
unfolding response get get_flag get_option
decode t = value_of (response t)

get-put : (t rest : Text) → get (put t rest) ≡ some (t, rest)
unfolding get put
get-put t rest = rw (take-append_self t rest, drop-append_self t rest)

get_option-put_option :
    (o : Option Text) (rest : Text) → get_option (put_option o rest) ≡ some (o, rest)
unfolding get_option put_option
get_option-put_option none rest = refl
get_option-put_option (some t) rest = rw (take-append_self t rest, drop-append_self t rest)

get_flag-put_flag : (b : Bool) (rest : Text) → get_flag (put_flag b ∷ rest) ≡ some (b, rest)
unfolding get_flag put_flag
get_flag-put_flag true rest = refl
get_flag-put_flag false rest = refl

response-put :
    (b : Bool) (tx gw : Text) (raw msg : Option Text)
    → response (put_flag b ∷ put tx (put gw (put_option raw (put_option msg []))))
      ≡ some (
        record { success = b; transaction_id = tx; gateway_id = gw; raw_code = raw; message = msg },
        [],
      )
unfolding response
response-put b tx gw raw msg =
    let options = put_option raw (put_option msg []) in
    ground (
      arith,
      get_flag-put_flag b (put tx (put gw options)),
      get-put tx (put gw options),
      get-put gw options,
      get_option-put_option raw (put_option msg []),
      get_option-put_option msg [],
    )

pub decode-encode : (r : GatewayResponse) → decode (encode r) ≡ some r
unfolding put put_option put_flag response get get_flag get_option
decode-encode r =
    ap value_of (response-put r.success r.transaction_id r.gateway_id r.raw_code r.message)

pub encode_nonempty : (r : GatewayResponse) → encode r ≢ []
unfolding put put_option put_flag
encode_nonempty r e = cc

abbrev pub plain : Json
plain = record {
  stringify = encode;
  parse = decode;
  syntax_error = λ raw. raw;
  parse-stringify = decode-encode;
  stringify_nonempty = encode_nonempty;
}
