-- ===== src/Metrics/History/Recent.antt =====
-- Pruning the front of a list of times, against dropping all old times.
use payment_queue_system_bul.Prelude.{
  ℕ, ◌+◌, ◌≤◌, ◌≡◌, refl, ◌∙◌, true, false, List, [], ◌∷◌, ◌++◌, arith, ltb, if◌then◌else◌, All,
}
use payment_queue_system_bul.Metrics.{prune}
use payment_queue_system_bul.Metrics.History.{last_or, recent, IsNondecreasing}

recent_kept :
    (now t : ℕ) (ts : List ℕ) → now ≤ t + 60_000 → All (λ u. t ≤ u) ts → recent now ts ≡ ts
recent_kept now t [] h a = refl
recent_kept now t (u ∷ us) h a = let rest = recent_kept now t us h a.1 in ground (arith, a.0, rest)

prune-recent : (now : ℕ) (ts : List ℕ) → IsNondecreasing ts → prune now ts ≡ recent now ts
unfolding prune
prune-recent now [] s = refl
prune-recent now (t ∷ ts) s =
    ground (arith, prune-recent now ts s.1, λ (h : now ≤ t + 60_000). recent_kept now t ts h s.0)

recent-recent : (a b : ℕ) (ts : List ℕ) → a ≤ b → recent b (recent a ts) ≡ recent b ts
recent-recent a b [] h = refl
recent-recent a b (t ∷ ts) h = ground (arith, recent-recent a b ts h)

recent-All :
    (now : ℕ) (t : ℕ) (ts : List ℕ) → All (λ u. t ≤ u) ts → All (λ u. t ≤ u) (recent now ts)
recent-All now t [] a = tt
recent-All now t (u ∷ us) a =
    elim (ltb (u + 60_000) now)
      as (λ b. All (λ v. t ≤ v) (if b then recent now us else u ∷ recent now us)) [
        | true ↦ recent-All now t us a.1
        | false ↦ (a.0, recent-All now t us a.1)
      ]

recent-IsNondecreasing :
    (now : ℕ) (ts : List ℕ) → IsNondecreasing ts → IsNondecreasing (recent now ts)
recent-IsNondecreasing now [] s = tt
recent-IsNondecreasing now (t ∷ ts) s =
    elim (ltb (t + 60_000) now)
      as (λ b. IsNondecreasing (if b then recent now ts else t ∷ recent now ts)) [
        | true ↦ recent-IsNondecreasing now ts s.1
        | false ↦ (recent-All now t ts s.0, recent-IsNondecreasing now ts s.1)
      ]

recent-append_last :
    (a t : ℕ) (ts : List ℕ) → a ≤ t → recent a (ts ++ t ∷ []) ≡ recent a ts ++ t ∷ []
recent-append_last a t [] h = ground arith
recent-append_last a t (u ∷ us) h = ground (arith, recent-append_last a t us h)

-- Pruning after each outcome leaves what lies within 60 s of the last one.
pub prune-append :
    (a t : ℕ) (ts : List ℕ)
    → a ≤ t
    → IsNondecreasing (ts ++ t ∷ [])
    → prune t (recent a ts ++ t ∷ []) ≡ recent t (ts ++ t ∷ [])
prune-append a t ts h s =
    rw (← recent-append_last a t ts h)
      (prune-recent t _ (recent-IsNondecreasing a _ s) ∙ recent-recent a t _ h)

pub last_or-le : (d t : ℕ) (ts : List ℕ) → d ≤ t → IsNondecreasing (ts ++ t ∷ []) → last_or d ts ≤ t
last_or-le d t [] h s = h
last_or-le d t (u ∷ us) h s = last_or-le u t us (front u us s.0) s.1
  where
    front : (u : ℕ) (us : List ℕ) → All (λ v. u ≤ v) (us ++ t ∷ []) → u ≤ t
    front u [] a = a.0
    front u (v ∷ vs) a = front u vs a.1
