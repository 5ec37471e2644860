-- ===== src/QueueManager/Names.antt =====
-- Which gateway and priority the name of a queue stands for.
use mathlib.Core.List.{append_cancel_left, append_cancel_right}
use payment_queue_system_bul.Prelude.{
  ℕ, ◌≡◌, refl, sym, ap, ◌∙◌, inl, inr, Bool, true, false, ◌&&◌, Bool-cases, [], ◌∷◌, ◌++◌, Text,
  codes, text_eq, text_eq_iff, arith, drop, ◌==◌, ◌||◌, ◌≢◌,
}
use payment_queue_system_bul.Types.{Priority, high, normal, low}
use payment_queue_system_bul.QueueManager.{priority_text, queue_name, dlq_name, scheduled_name}

abbrev last : Text → ℕ
last [] = 0
last (c ∷ []) = c
last (c ∷ d ∷ t) = last (d ∷ t)

last-append : (s : Text) (c : ℕ) (t : Text) → last (s ++ c ∷ t) ≡ last (c ∷ t)
last-append [] c t = refl
last-append (x ∷ []) c t = refl
last-append (x ∷ y ∷ s) c t = last-append (y ∷ s) c t

-- The last character tells the priority.
abbrev last_of : Priority → ℕ
last_of high = 104
last_of normal = 108
last_of low = 119

last-queue_name : (g : Text) (p : Priority) → last (queue_name g p) ≡ last_of p
unfolding queue_name
last-queue_name g high = last-append (codes "payments-" ++ g) 45 (codes "high")
last-queue_name g normal = last-append (codes "payments-" ++ g) 45 (codes "normal")
last-queue_name g low = last-append (codes "payments-" ++ g) 45 (codes "low")

abbrev pub same_priority : Priority → Priority → Bool
same_priority high high = true
same_priority normal normal = true
same_priority low low = true
same_priority _ _ = false

same_priority_refl : (p : Priority) → same_priority p p ≡ true
same_priority_refl high = refl
same_priority_refl normal = refl
same_priority_refl low = refl

pub same_priority_sound : (p q : Priority) → same_priority p q ≡ true → p ≡ q
same_priority_sound high high e = refl
same_priority_sound normal normal e = refl
same_priority_sound low low e = refl
same_priority_sound high normal e = cc
same_priority_sound high low e = cc
same_priority_sound normal high e = cc
same_priority_sound normal low e = cc
same_priority_sound low high e = cc
same_priority_sound low normal e = cc

last_of_sound : (p q : Priority) → last_of p ≡ last_of q → same_priority p q ≡ true
last_of_sound high high e = refl
last_of_sound normal normal e = refl
last_of_sound low low e = refl
last_of_sound high normal e = absurd (omega (arith, e))
last_of_sound high low e = absurd (omega (arith, e))
last_of_sound normal high e = absurd (omega (arith, e))
last_of_sound normal low e = absurd (omega (arith, e))
last_of_sound low high e = absurd (omega (arith, e))
last_of_sound low normal e = absurd (omega (arith, e))

priority_sound :
    (g h : Text) (p q : Priority) → queue_name g p ≡ queue_name h q → same_priority p q ≡ true
priority_sound g h p q e =
    last_of_sound p q (sym (last-queue_name g p) ∙ ap last e ∙ last-queue_name h q)

gateway_sound : (g h : Text) (p : Priority) → queue_name g p ≡ queue_name h p → g ≡ h
unfolding queue_name
gateway_sound g h p e =
    append_cancel_right g h (codes "-" ++ priority_text p)
      (append_cancel_left (codes "payments-") _ _ e)

-- Two gateways or two priorities never share a queue.
pub text_eq-queue_name :
    (g h : Text) (p q : Priority)
    → text_eq (queue_name g p) (queue_name h q) ≡ (text_eq g h && same_priority p q)
text_eq-queue_name g h p q = elim (Bool-cases (same_priority p q)) [
  | inr other ↦
      ground (arith, text_eq_iff (queue_name g p) (queue_name h q), priority_sound g h p q)
  | inl alike ↦
      let same = same_priority_sound p q alike in
      ground (
        arith,
        text_eq_iff (queue_name g p) (queue_name h q),
        text_eq_iff g h,
        gateway_sound g h p,
        same,
      )
]

has_dash : Text → Bool
has_dash [] = false
has_dash (c ∷ t) = c == 45 || has_dash t

has_dash-append : (s t : Text) → has_dash t ≡ true → has_dash (s ++ t) ≡ true
unfolding has_dash
has_dash-append [] t h = h
has_dash-append (c ∷ s) t h = ground (arith, has_dash-append s t h)

pub queue_name-scheduled : (g : Text) (p : Priority) → queue_name g p ≢ scheduled_name
unfolding queue_name has_dash
queue_name-scheduled g p e =
    let same : has_dash (g ++ (codes "-" ++ priority_text p)) ≡ false =
      ap (λ t. has_dash (drop 9 t)) e in
    ground (arith, has_dash-append g (codes "-" ++ priority_text p) refl)

pub queue_name-dlq : (g : Text) (p : Priority) → queue_name g p ≢ dlq_name
unfolding queue_name has_dash
queue_name-dlq g p e =
    let same : has_dash (g ++ (codes "-" ++ priority_text p)) ≡ false =
      ap (λ t. has_dash (drop 9 t)) e in
    ground (arith, has_dash-append g (codes "-" ++ priority_text p) refl)
