-- ===== src/Prelude/Numerals.antt =====
-- `Number.prototype.toString(base)` on natural numbers, for bases from 2 to 36.
use Prim.Native.Nat.{ℕ, zero, suc, ◌+◌, ◌-◌, ◌*◌, ◌/◌, ◌%◌, ◌≤◌, ◌<◌}
use mathlib.Core.Path.{◌≡◌, refl, sym, ap, ◌∙◌}
use mathlib.Core.Logic.{inl, inr}
use mathlib.Core.List.{[], ◌∷◌, ◌++◌}
use native.Mathlib.Nat.{div-add-mod', div-lt_self, mod-lt}
use native.Mathlib.Omega.{arith}
use payment_queue_system_bul.Prelude.Tests.{ltb, ltb→lt, Bool-cases, if◌then◌else◌}
use payment_queue_system_bul.Prelude.Texts.{Text}
use payment_queue_system_bul.Prelude.Lists.{All, All-append}

-- The digits 0 to 9, then the letters from a.
abbrev pub digit : ℕ → ℕ
digit d = if ltb d 10 then 48 + d else 87 + d

abbrev pub digit_value : ℕ → ℕ
digit_value c = if ltb c 58 then c - 48 else c - 87

-- One digit for each unit of fuel; `show_base` gives enough.
show_from : ℕ → ℕ → ℕ → Text
show_from zero base n = []
show_from (suc f) base n =
    let front = show_from f base (n / base) in
    if ltb n base then digit n ∷ [] else front ++ digit (n % base) ∷ []

unfoldable pub show_base : ℕ → ℕ → Text
unfolding show_from
show_base base n = show_from (suc n) base n

value_from : ℕ → ℕ → Text → ℕ
value_from base acc [] = acc
value_from base acc (c ∷ t) = value_from base (acc * base + digit_value c) t

-- The number that a text of digits stands for.
unfoldable pub value : ℕ → Text → ℕ
unfolding value_from
value base t = value_from base 0 t

value_from-append :
    (base acc : ℕ) (t : Text) (c : ℕ)
    → value_from base acc (t ++ c ∷ []) ≡ value_from base acc t * base + digit_value c
unfolding value_from
value_from-append base acc [] c = refl
value_from-append base acc (d ∷ t) c = value_from-append base (acc * base + digit_value d) t c

digit_value-digit : (d : ℕ) → d < 36 → digit_value (digit d) ≡ d
digit_value-digit d h = ground arith

show_from-value :
    (f base n : ℕ) → 2 ≤ base → base ≤ 36 → n < f → value_from base 0 (show_from f base n) ≡ n
unfolding show_from value_from
show_from-value zero base n two small h = absurd (omega arith)
show_from-value (suc f) base n two small h = elim (Bool-cases (ltb n base)) [
  | inl one_digit ↦
      rw one_digit (omega (arith, digit_value-digit n (ground (arith, ltb→lt n base one_digit))))
  | inr more ↦
      let below : n % base < base = mod-lt n (omega arith) in
      let positive : 0 < n = ground arith in
      let shorter : n / base < n = div-lt_self positive two in
      let ih = show_from-value f base (n / base) two small (omega (arith, shorter)) in
      rw
        (
          more,
          value_from-append base 0 (show_from f base (n / base)) (digit (n % base)),
          ih,
          digit_value-digit (n % base) (omega (arith, below)),
        )
        (div-add-mod' n base)
]

-- The digits are enough, and stand for the number.
pub value-show_base : (base n : ℕ) → 2 ≤ base → base ≤ 36 → value base (show_base base n) ≡ n
unfolding value show_base
value-show_base base n two small = show_from-value (suc n) base n two small (omega arith)

pub show_base_injective :
    (base m n : ℕ) → 2 ≤ base → base ≤ 36 → show_base base m ≡ show_base base n → m ≡ n
show_base_injective base m n two small e =
    sym (value-show_base base m two small) ∙ ap (value base) e ∙ value-show_base base n two small

show_from-All :
    (P : ℕ → Type 0) (f base n : ℕ)
    → 2 ≤ base
    → ((d : ℕ) → d < base → P (digit d))
    → All P (show_from f base n)
unfolding show_from
show_from-All P zero base n two digits = tt
show_from-All P (suc f) base n two digits = elim (Bool-cases (ltb n base)) [
  | inl one_digit ↦ rw one_digit (digits n (ltb→lt n base one_digit), tt)
  | inr more ↦ rw more (
      All-append P (show_from f base (n / base)) (digit (n % base) ∷ [])
        (show_from-All P f base (n / base) two digits)
        (digits (n % base) (mod-lt n (omega arith)), tt))
]

pub show_base-All :
    (P : ℕ → Type 0) (base n : ℕ)
    → 2 ≤ base
    → ((d : ℕ) → d < base → P (digit d))
    → All P (show_base base n)
unfolding show_base
show_base-All P base n = show_from-All P (suc n) base n
