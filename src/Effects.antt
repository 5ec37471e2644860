-- ===== src/Effects.antt =====
-- An async method: it changes the world and resolves, or throws. What was written before a throw
-- stays written, so the world comes back beside the error too.
use payment_queue_system_bul.Prelude.{◌≡◌, refl, ◌⊎◌, inl, inr}
use payment_queue_system_bul.Types.{Thrown}

pub data Outcome {ℓ} (A : Type ℓ) : Type ℓ where
  ok : A → Outcome A
  throw : Thrown → Outcome A

abbrev pub Action {ℓ} : Type ℓ → Type ℓ → Type ℓ
Action W A = W → Outcome A × W

module _ {ℓ} {W A : Type ℓ} where
  abbrev pub pure : A → Action W A
  pure a w = (ok a, w)

  abbrev pub raise : Thrown → Action W A
  raise e w = (throw e, w)

  abbrev pub gets : (W → A) → Action W A
  gets f w = (ok (f w), w)

module _ {ℓ} {W A B : Type ℓ} where
  abbrev pub continue : Outcome A → (A → Action W B) → Action W B
  continue (ok a) f w = f a w
  continue (throw e) f w = (throw e, w)

  infixl 5 ◌>>=◌ ◌>>◌
  abbrev pub ◌>>=◌ : Action W A → (A → Action W B) → Action W B
  ◌>>=◌ m f w = let (r, w') = m w in continue r f w'

  abbrev pub ◌>>◌ : Action W A → Action W B → Action W B
  m >> n = m >>= λ _. n

module _ {W : Type 0} where
  abbrev pub modify : (W → W) → Action W Unit
  modify f w = (ok tt, f w)

pub Outcome-cases {ℓ} :
    {A : Type ℓ} (r : Outcome A) → ((a : A) × (r ≡ ok a)) ⊎ ((e : Thrown) × (r ≡ throw e))
Outcome-cases (ok a) = inl (a, refl)
Outcome-cases (throw e) = inr (e, refl)

module _ {ℓ} {W : Type ℓ} (a b : Action W (Unit {ℓ})) where
  -- What both actions keep, whether or not the first throws.
  pub then-keeps {κ} :
      (P : W → Type κ)
      → ((w : W) → P w → P (a w).1)
      → ((w : W) → P w → P (b w).1)
      → (w : W) → P w
      → P ((a >> b) w).1
  then-keeps P f g w h = elim (Outcome-cases (a w).0) [
    | inl (_, e) ↦ rw e (g (a w).1 (f w h))
    | inr (err, e) ↦ rw e (f w h)
  ]

  pub then_ok : (w : W) → (a w).0 ≡ ok tt → (a >> b) w ≡ b (a w).1
  then_ok w e = rw e refl
