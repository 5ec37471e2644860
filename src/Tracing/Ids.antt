-- ===== src/Tracing/Ids.antt =====
-- Correlation ids made at different times.
use payment_queue_system_bul.Prelude.{
  ℕ, ◌≡◌, ◌≢◌, refl, ap, [], ◌∷◌, ◌++◌, Text, drop, arith, All, show_base, show_base-All,
  show_base_injective,
}
use payment_queue_system_bul.Tracing.{generate_correlation_id}

-- What stands before the first `_` of a text is fixed by the text.
cut_injective :
    (s t u v : Text) → All (λ c. c ≢ 95) s → All (λ c. c ≢ 95) t → s ++ 95 ∷ u ≡ t ++ 95 ∷ v → s ≡ t
cut_injective [] [] u v a b e = refl
cut_injective [] (y ∷ t) u v a b e = absurd (b.0 (cc))
cut_injective (x ∷ s) [] u v a b e = absurd (a.0 (cc))
cut_injective (x ∷ s) (y ∷ t) u v a b e = ground (arith, cut_injective s t u v a.1 b.1)

digits_plain : (n : ℕ) → All (λ c. c ≢ 95) (show_base 36 n)
digits_plain n = show_base-All (λ c. c ≢ 95) 36 n (omega arith) (λ d h e. ground arith)

-- Ids that are generated at different readings of the clock differ, whatever is drawn for them.
pub ids_differ :
    (now later : ℕ) (random random' : Text)
    → now ≢ later
    → generate_correlation_id now random ≢ generate_correlation_id later random'
unfolding generate_correlation_id
ids_differ now later random random' h e = h (
    show_base_injective 36 now later (omega arith) (omega arith) (
      cut_injective (show_base 36 now) (show_base 36 later) random random' (digits_plain now)
        (digits_plain later) (ap (drop 5) e)))
