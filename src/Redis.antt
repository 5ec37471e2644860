-- ===== src/Redis.antt =====
-- What the program relies on of the Redis client (the package ioredis): keys with an expiry time,
-- by the clock of the server. A reading of that clock, in milliseconds, is the first argument of
-- each command. Commands are taken to succeed: no lost connection is modelled.
pub mod Memory
use payment_queue_system_bul.Prelude.{
  ℕ, ◌+◌, ◌*◌, ◌≤◌, ◌≡◌, Bool, true, false, Option, none, some, Text, text_eq, ltb, if◌then◌else◌,
}

abbrev pub is_none {ℓ} : {A : Type ℓ} → Option A → Bool
is_none none = true
is_none (some a) = false

pub record Redis : Type 1 where
  pub Store : Type 0
  -- GET
  pub get : ℕ → Text → Store → Option Text
  -- SET key value EX seconds
  pub set_ex : ℕ → Text → Text → ℕ → Store → Store
  -- SET key value EX seconds NX: whether the reply is OK
  pub set_nx : ℕ → Text → Text → ℕ → Store → Store × Bool
  -- DEL
  pub del : ℕ → Text → Store → Store
  pub get-set_ex :
      (now t : ℕ) (k j v : Text) (seconds : ℕ) (s : Store)
      → now ≤ t
      → get t j (set_ex now k v seconds s) ≡ (
          if text_eq k j
          then (if ltb t (now + seconds * 1000) then some v else none)
          else get t j s)
  pub set_nx_reply :
      (now : ℕ) (k v : Text) (seconds : ℕ) (s : Store)
      → (set_nx now k v seconds s).1 ≡ is_none (get now k s)
  pub get-set_nx :
      (now t : ℕ) (k j v : Text) (seconds : ℕ) (s : Store)
      → now ≤ t
      → get t j (set_nx now k v seconds s).0
        ≡ (if is_none (get now k s) then get t j (set_ex now k v seconds s) else get t j s)
  pub get-del :
      (now t : ℕ) (k j : Text) (s : Store)
      → now ≤ t
      → get t j (del now k s) ≡ (if text_eq k j then none else get t j s)
