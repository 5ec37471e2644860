-- ===== src/Idempotency/Exclusion.antt =====
-- The lock of one payment over a history of commands.
use payment_queue_system_bul.Prelude.{
  ℕ, ◌+◌, ◌*◌, ◌≤◌, ◌<◌, ◌≡◌, refl, ap, ◌∙◌, Bool, true, false, not, ◌&&◌, List, [], ◌∷◌, Text,
  arith, text_eq, text_eq_refl, text_eq_sound, Bool-cases, inl, inr, ltb, lt→ltb, if◌then◌else◌,
  leb,
}
use payment_queue_system_bul.Types.{GatewayResponse}
use payment_queue_system_bul.Redis.{Redis}
use payment_queue_system_bul.Idempotency.{
  Json, lock_ttl_sec, acquire_lock, release_lock, has_lock, store_result,
}
use payment_queue_system_bul.Idempotency.View.{
  acquire_lock-Sees, release_lock-Sees, store_result-Sees,
}

-- The calls of the service that write, each with its reading of the clock.
pub data Command : Type 0 where
  acquires releases : (now : ℕ) (key : Text) → Command
  stores : (now : ℕ) (key : Text) (result : GatewayResponse) → Command

abbrev pub at : Command → ℕ
at (acquires now key) = now
at (releases now key) = now
at (stores now key result) = now

-- Whether the command gives the lock of the key back.
abbrev pub frees : Text → Command → Bool
frees k (acquires now key) = false
frees k (releases now key) = text_eq key k
frees k (stores now key result) = text_eq key k

-- The commands come in the order of the clock, from `from` on and before `until`, and none of them
-- gives the lock of the key back.
abbrev pub Holds : Text → ℕ → ℕ → List Command → Type 0
Holds k from until [] = Unit {0}
Holds k from until (c ∷ cs) =
    (from ≤ at c) × (at c < until) × (frees k c ≡ false) × Holds k (at c) until cs

abbrev pub last_of : ℕ → List Command → ℕ
last_of from [] = from
last_of from (c ∷ cs) = last_of (at c) cs

module _ (redis : Redis) (json : Json) where
  open redis use {Store}

  unfoldable pub apply : Command → Store → Store
  apply (acquires now key) s = (acquire_lock redis json now key s).0
  apply (releases now key) s = release_lock redis json now key s
  apply (stores now key result) s = store_result redis json now key result s

  unfoldable pub run : List Command → Store → Store
  unfolding apply
  run [] s = s
  run (c ∷ cs) s = run cs (apply c s)

  -- Whether the command takes the lock of the key.
  abbrev pub takes : Text → Command → Store → Bool
  takes k (acquires now key) s = text_eq key k && (acquire_lock redis json now key s).1
  takes k (releases now key) s = false
  takes k (stores now key result) s = false

  -- How often the lock of the key is granted.
  unfoldable pub grants : Text → List Command → Store → ℕ
  grants k [] s = 0
  grants k (c ∷ cs) s = (if takes k c s then 1 else 0) + grants k cs (apply c s)

  -- From a time on, the key is seen as locked until `until`.
  IsLocked : Text → ℕ → ℕ → Store → Type 0
  IsLocked k from until s = (t : ℕ) → from ≤ t → has_lock redis json t k s ≡ ltb t until

  acquire-refused :
      (now : ℕ) (key k : Text) (s : Store)
      → has_lock redis json now k s ≡ true
      → text_eq key k && (acquire_lock redis json now key s).1 ≡ false
  acquire-refused now key k s held = elim (Bool-cases (text_eq key k)) [
    | inl same ↦
        let e = text_eq_sound key k same in
        let reply = (acquire_lock-Sees redis json now now key key s (omega arith)).0 in
        rw (same, reply, e, held)
    | inr other ↦ rw other
  ]

  apply-IsLocked :
      (k : Text) (from until : ℕ) (c : Command) (s : Store)
      → IsLocked k from until s
      → from ≤ at c
      → at c < until
      → frees k c ≡ false
      → (takes k c s ≡ false) × IsLocked k (at c) until (apply c s)
  unfolding IsLocked apply
  apply-IsLocked k from until (acquires now key) s v le lt plain =
      let held : has_lock redis json now k s ≡ true = v now le ∙ lt→ltb now until lt in
      let refused : text_eq key k && (acquire_lock redis json now key s).1 ≡ false =
        acquire-refused now key k s held in
      (
        refused,
        λ t h. (acquire_lock-Sees redis json now t key k s h).1 ∙ ground (arith, refused, v t),
      )
  apply-IsLocked k from until (releases now key) s v le lt plain =
      (refl, λ t h. (release_lock-Sees redis json now t key k s h).0 ∙ ground (arith, plain, v t))
  apply-IsLocked k from until (stores now key result) s v le lt plain = (
    refl,
    λ t h. (store_result-Sees redis json now t key k result s h).0 ∙ ground (arith, plain, v t),
  )

  run-IsLocked :
      (k : Text) (from until : ℕ) (cs : List Command) (s : Store)
      → IsLocked k from until s
      → Holds k from until cs
      → (grants k cs s ≡ 0) × IsLocked k (last_of from cs) until (run cs s)
  unfolding run grants
  run-IsLocked k from until [] s v h = (refl, v)
  run-IsLocked k from until (c ∷ cs) s v h =
      let (refused, v') = apply-IsLocked k from until c s v h.0 h.1 h.2 in
      let (none_, later) = run-IsLocked k (at c) until cs (apply c s) v' h.3 in
      (rw (refused, none_), later)

  -- Once the lock of a payment is granted, it is granted to nobody else in the 120 seconds that
  -- follow, whatever locks are asked for, given back or replaced by results in that time, as long
  -- as the one of this payment is not given back and no result of it is stored; and from the end of
  -- that time on it is granted again. The clock does not step back.
  pub lock_exclusive :
      (k : Text) (t₀ : ℕ) (cs : List Command) (s : Store)
      → (acquire_lock redis json t₀ k s).1 ≡ true
      → Holds k t₀ (t₀ + lock_ttl_sec * 1000) cs
      → let s₀ = (acquire_lock redis json t₀ k s).0 in
        (grants k cs s₀ ≡ 0)
        × ((t : ℕ)
            → last_of t₀ cs ≤ t
            → (acquire_lock redis json t k (run cs s₀)).1 ≡ leb (t₀ + lock_ttl_sec * 1000) t)
  unfolding IsLocked
  lock_exclusive k t₀ cs s granted h =
      let s₀ = (acquire_lock redis json t₀ k s).0 in
      let until = t₀ + lock_ttl_sec * 1000 in
      let v : IsLocked k t₀ until s₀ = λ t later.
        (acquire_lock-Sees redis json t₀ t k k s later).1
        ∙ ground (arith, text_eq_refl k, granted) in
      let (none_, v') = run-IsLocked k t₀ until cs s₀ v h in
      (
        none_,
        λ t later.
            (acquire_lock-Sees redis json t t k k (run cs s₀) (omega arith)).0
            ∙ ap not (v' t later)
            ∙ ground arith,
      )
