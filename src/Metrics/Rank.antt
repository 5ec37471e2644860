-- ===== src/Metrics/Rank.antt =====
-- What a percentile of the window is, without sorting.
use native.Mathlib.Nat.{mul-le-mul_right}
use payment_queue_system_bul.Prelude.{
  ℕ, zero, suc, inl, inr, Bool-cases, ◌+◌, ◌-◌, ◌*◌, ◌/◌, ◌≤◌, ◌<◌, ◌≡◌, refl, subst, min, Bool,
  true, false, List, [], ◌∷◌, some, arith, if◌then◌else◌, length, get_elem?, All,
}
use payment_queue_system_bul.Prelude.Int.{ℤ, leb_ℤ, ltb_ℤ, leb_ℤ_refl, leb_ℤ_total, leb_ℤ_trans}
use payment_queue_system_bul.Metrics.Window.{LatencyWindow, insert_sorted, sort, percentile}

-- How many samples pass a test.
abbrev pub count_if : (ℤ → Bool) → List ℤ → ℕ
count_if q [] = 0
count_if q (x ∷ xs) = (if q x then 1 else 0) + count_if q xs

count_if-insert_sorted :
    (q : ℤ → Bool) (x : ℤ) (xs : List ℤ) → count_if q (insert_sorted x xs) ≡ count_if q (x ∷ xs)
unfolding insert_sorted
count_if-insert_sorted q x [] = refl
count_if-insert_sorted q x (y ∷ ys) = ground (arith, count_if-insert_sorted q x ys)

count_if-sort : (q : ℤ → Bool) (xs : List ℤ) → count_if q (sort xs) ≡ count_if q xs
unfolding sort
count_if-sort q [] = refl
count_if-sort q (x ∷ xs) = omega (arith, count_if-insert_sorted q x (sort xs), count_if-sort q xs)

length-insert_sorted : (x : ℤ) (xs : List ℤ) → length (insert_sorted x xs) ≡ suc (length xs)
unfolding insert_sorted
length-insert_sorted x [] = refl
length-insert_sorted x (y ∷ ys) = ground (arith, length-insert_sorted x ys)

length-sort : (xs : List ℤ) → length (sort xs) ≡ length xs
unfolding sort
length-sort [] = refl
length-sort (x ∷ xs) = omega (arith, length-insert_sorted x (sort xs), length-sort xs)

-- Every entry is at least `x`.
abbrev AllFrom : ℤ → List ℤ → Type 0
AllFrom x = All (λ y. leb_ℤ x y ≡ true)

abbrev IsSorted : List ℤ → Type 0
IsSorted [] = Unit
IsSorted (x ∷ xs) = AllFrom x xs × IsSorted xs

AllFrom-trans : (x y : ℤ) (zs : List ℤ) → leb_ℤ x y ≡ true → AllFrom y zs → AllFrom x zs
AllFrom-trans x y [] h a = tt
AllFrom-trans x y (z ∷ zs) h a = (leb_ℤ_trans x y z h a.0, AllFrom-trans x y zs h a.1)

AllFrom-insert_sorted :
    (x y : ℤ) (ys : List ℤ) → leb_ℤ x y ≡ true → AllFrom x ys → AllFrom x (insert_sorted y ys)
unfolding insert_sorted
AllFrom-insert_sorted x y [] h a = (h, tt)
AllFrom-insert_sorted x y (z ∷ zs) h a =
    elim (leb_ℤ y z) as (λ b. AllFrom x (if b then y ∷ z ∷ zs else z ∷ insert_sorted y zs)) [
      | true ↦ (h, a)
      | false ↦ (a.0, AllFrom-insert_sorted x y zs h a.1)
    ]

IsSorted-insert_sorted : (x : ℤ) (xs : List ℤ) → IsSorted xs → IsSorted (insert_sorted x xs)
unfolding insert_sorted
IsSorted-insert_sorted x [] s = (tt, tt)
IsSorted-insert_sorted x (y ∷ ys) s = elim (Bool-cases (leb_ℤ x y)) [
  | inl le ↦ rw le ((le, AllFrom-trans x y ys le s.0), s)
  | inr gt ↦
      rw gt (AllFrom-insert_sorted y x ys (leb_ℤ_total x y gt) s.0, IsSorted-insert_sorted x ys s.1)
]

IsSorted-sort : (xs : List ℤ) → IsSorted (sort xs)
unfolding sort
IsSorted-sort [] = tt
IsSorted-sort (x ∷ xs) = IsSorted-insert_sorted x (sort xs) (IsSorted-sort xs)

get_elem?-lt : (xs : List ℤ) (i : ℕ) → i < length xs → (x : ℤ) × (get_elem? xs i ≡ some x)
get_elem?-lt [] i h = absurd (omega arith)
get_elem?-lt (x ∷ xs) zero h = (x, refl)
get_elem?-lt (x ∷ xs) (suc i) h = get_elem?-lt xs i (omega arith)

AllFrom-get_elem? :
    (x y : ℤ) (xs : List ℤ) (i : ℕ) → AllFrom x xs → get_elem? xs i ≡ some y → leb_ℤ x y ≡ true
AllFrom-get_elem? x y [] i a e = cc
AllFrom-get_elem? x y (z ∷ zs) zero a e = ground (arith, a)
AllFrom-get_elem? x y (z ∷ zs) (suc i) a e = AllFrom-get_elem? x y zs i a.1 e

none_below : (x : ℤ) (xs : List ℤ) → AllFrom x xs → count_if (λ y. ltb_ℤ y x) xs ≡ 0
none_below x [] a = refl
none_below x (y ∷ ys) a = ground (arith, a.0, none_below x ys a.1)

-- The entry at an index of a sorted list has at most that many entries below it, and more than
-- that many up to it.
rank :
    (x : ℤ) (xs : List ℤ) (i : ℕ)
    → IsSorted xs
    → get_elem? xs i ≡ some x
    → (count_if (λ y. ltb_ℤ y x) xs ≤ i) × (i < count_if (λ y. leb_ℤ y x) xs)
rank x [] i s e = absurd (cc)
rank x (z ∷ zs) zero s e =
    let first : z ≡ x = cc in
    let from : AllFrom x zs = subst (λ y. AllFrom y zs) first s.0 in
    ground (arith, first, none_below x zs from, leb_ℤ_refl x)
rank x (z ∷ zs) (suc i) s e =
    let (below, upto) = rank x zs i s.1 e in
    let first = AllFrom-get_elem? z x zs i s.0 e in ground (arith, first, below, upto)

share_lt : (p n : ℕ) → 1 ≤ n → p < 100 → p * n / 100 < n
share_lt p n h k = omega (arith, mul-le-mul_right {m = p} {n = 99} n (omega arith))

-- On samples that are not empty, the p-th percentile for p below 100 is one of the samples; at
-- most p hundredths of the samples (rounded down) lie below it, and more than that are at most it.
pub percentile_rank :
    (p : ℕ) (w : LatencyWindow)
    → 1 ≤ length w.samples
    → p < 100
    → let v = percentile p w in
      (count_if (λ y. ltb_ℤ y v) w.samples ≤ p * length w.samples / 100)
      × (p * length w.samples / 100 < count_if (λ y. leb_ℤ y v) w.samples)
unfolding percentile
percentile_rank p w some_samples h =
    let i = p * length w.samples / 100 in
    let inside = share_lt p (length w.samples) some_samples h in
    let (v, at) = get_elem?-lt (sort w.samples) i (omega (arith, inside, length-sort w.samples)) in
    let (below, upto) = rank v (sort w.samples) i (IsSorted-sort w.samples) at in
    let value : percentile p w ≡ v =
      let clipped : min (length w.samples - 1) i ≡ i = omega arith in ground (arith, at, clipped) in
    rw
      (
        value,
        ← count_if-sort (λ y. ltb_ℤ y v) w.samples,
        ← count_if-sort (λ y. leb_ℤ y v) w.samples,
      )
      (below, upto)
