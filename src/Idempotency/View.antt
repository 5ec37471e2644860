-- ===== src/Idempotency/View.antt =====
-- The service as a table of payments: for each key, whether it is locked and what result is known.
use payment_queue_system_bul.Prelude.{
  ℕ, ◌+◌, ◌*◌, ◌≤◌, ◌≡◌, ◌≢◌, refl, Bool, false, not, ◌&&◌, [], ◌∷◌, Option, none, some, arith,
  Text, codes, text_eq, ltb, if◌then◌else◌,
}
use payment_queue_system_bul.Types.{GatewayResponse}
use payment_queue_system_bul.Effects.{Outcome, ok}
use payment_queue_system_bul.Redis.{Redis}
use payment_queue_system_bul.Idempotency.{
  Json, lock_ttl_sec, result_ttl_sec, lock_key, result_key, decode, acquire_lock, release_lock,
  has_lock, get_result, store_result,
}

-- The keys of two payments, and a lock and a result, are never confused.
lock_key-eq : (k j : Text) → text_eq (lock_key k) (lock_key j) ≡ text_eq k j
unfolding text_eq
lock_key-eq k j = refl

result_key-eq : (k j : Text) → text_eq (result_key k) (result_key j) ≡ text_eq k j
unfolding text_eq
result_key-eq k j = refl

lock_key-ne-result_key : (k j : Text) → text_eq (lock_key k) (result_key j) ≡ false
unfolding text_eq
lock_key-ne-result_key k j = refl

result_key-ne-lock_key : (k j : Text) → text_eq (result_key k) (lock_key j) ≡ false
unfolding text_eq
result_key-ne-lock_key k j = refl

abbrev pub lock_ms : ℕ
lock_ms = lock_ttl_sec * 1000

abbrev result_ms : ℕ
result_ms = result_ttl_sec * 1000

module _ (redis : Redis) (json : Json) where
  open redis use {Store, get, get-set_ex, set_nx_reply, get-set_nx, get-del}

  -- At the time `t`: whether the key is locked and what result is known of it.
  abbrev pub Sees : ℕ → Text → Bool → Outcome (Option GatewayResponse) → Store → Type 0
  Sees t key locked result s =
      (has_lock redis json t key s ≡ locked) × (get_result redis json t key s ≡ result)

  decode-stringify : (r : GatewayResponse) → decode json (some (json.stringify r)) ≡ ok (some r)
  decode-stringify r = shown (json.stringify r) (json.stringify_nonempty r) (json.parse-stringify r)
    where
      shown :
          (raw : Text) → raw ≢ [] → json.parse raw ≡ some r → decode json (some raw) ≡ ok (some r)
      shown [] h e = absurd (h refl)
      shown (c ∷ raw) h e = rw e

  -- Seen at any time from the command on: the lock is granted exactly if nobody holds it; it is
  -- then held for 120 seconds. Locks of other keys, and all results, are what they were.
  pub acquire_lock-Sees :
      (now t : ℕ) (k j : Text) (s : Store)
      → now ≤ t
      → let (s', granted) = acquire_lock redis json now k s in
        (granted ≡ not (has_lock redis json now k s))
        × (has_lock redis json t j s'
            ≡ (if text_eq k j && granted then ltb t (now + lock_ms) else has_lock redis json t j s))
        × (get_result redis json t j s' ≡ get_result redis json t j s)
  unfolding acquire_lock has_lock get_result
  acquire_lock-Sees now t k j s h =
      let reply = set_nx_reply now (lock_key k) (codes "1") lock_ttl_sec s in
      (
        ground (arith, reply),
        ground (
          arith,
          reply,
          get-set_nx now t (lock_key k) (lock_key j) (codes "1") lock_ttl_sec s h,
          get-set_ex now t (lock_key k) (lock_key j) (codes "1") lock_ttl_sec s h,
          lock_key-eq k j,
        ),
        ground (
          arith,
          get-set_nx now t (lock_key k) (result_key j) (codes "1") lock_ttl_sec s h,
          get-set_ex now t (lock_key k) (result_key j) (codes "1") lock_ttl_sec s h,
          lock_key-ne-result_key k j,
        ),
      )

  -- Seen at any time from the command on: a release frees its own key alone, whoever held it, and
  -- leaves all results.
  pub release_lock-Sees :
      (now t : ℕ) (k j : Text) (s : Store)
      → now ≤ t
      → Sees t j
          (if text_eq k j then false else has_lock redis json t j s)
          (get_result redis json t j s)
          (release_lock redis json now k s)
  unfolding release_lock has_lock get_result
  release_lock-Sees now t k j s h = (
    ground (arith, get-del now t (lock_key k) (lock_key j) s h, lock_key-eq k j),
    ground (arith, get-del now t (lock_key k) (result_key j) s h, lock_key-ne-result_key k j),
  )

  -- Seen at any time from the command on: a stored result is read back for 24 hours, and frees its
  -- key at once; other keys are left.
  pub store_result-Sees :
      (now t : ℕ) (k j : Text) (r : GatewayResponse) (s : Store)
      → now ≤ t
      → Sees t j
          (if text_eq k j then false else has_lock redis json t j s)
          (if text_eq k j
            then ok (if ltb t (now + result_ms) then some r else none)
            else get_result redis json t j s)
          (store_result redis json now k r s)
  unfolding store_result has_lock get_result
  store_result-Sees now t k j r s h =
      let written = redis.set_ex now (result_key k) (json.stringify r) result_ttl_sec s in
      (
        ground (
          arith,
          get-del now t (lock_key k) (lock_key j) written h,
          get-set_ex now t (result_key k) (lock_key j) (json.stringify r) result_ttl_sec s h,
          lock_key-eq k j,
          result_key-ne-lock_key k j,
        ),
        ground (
          arith,
          get-del now t (lock_key k) (result_key j) written h,
          get-set_ex now t (result_key k) (result_key j) (json.stringify r) result_ttl_sec s h,
          lock_key-ne-result_key k j,
          result_key-eq k j,
          decode-stringify r,
        ),
      )
