-- ===== src/Types/Classify/Meaning.antt =====
-- What the cascade of classifyFailure decides, against the words in a message.
use payment_queue_system_bul.Prelude.{
  ◌≡◌, refl, ◌↔◌, ◌⊎◌, inl, inr, ℕ, Bool, true, false, ◌||◌, List, ◌∷◌, ◌++◌, [], some, map, arith,
  Text, codes, Bool-cases, Option-cases, if◌then◌else◌,
}
use payment_queue_system_bul.Types.{
  FailureCategory, transient, rate_limited, permanent, Thrown, classified, error, value,
}
use payment_queue_system_bul.Types.Classify.Substring.{
  strip_prefix, strip_prefix_sound, strip_prefix-append, is_prefix, is_prefix_iff, Begins,
  BeginsAny, any_prefix, any_prefix_iff, search, search_iff, Somewhere, Somewhere-map,
}
use payment_queue_system_bul.Types.Classify.{
  to_lower, is_line_end, optional_then_limit, rate_limit_here, permanent_words, busy_words,
  transient_words, is_permanent, is_rate_limited, is_transient, classify_message, classify_failure,
}

-- One of the words occurs in the text.
abbrev pub Says : List Text → Text → Type 0
Says ws = Somewhere (BeginsAny ws)

-- At most one character that ends no line, and then "limit".
abbrev pub GapLimit : Text → Type 0
GapLimit rest =
    Begins (codes "limit") rest
    ⊎ ((c : ℕ) × (after : Text) × (rest ≡ c ∷ after)
        × (is_line_end c ≡ false)
        × Begins (codes "limit") after)

abbrev pub RateLimit : Text → Type 0
RateLimit s = (rest : Text) × (s ≡ codes "rate" ++ rest) × GapLimit rest

abbrev pub SaysBusy : Text → Type 0
SaysBusy = Somewhere (λ s. RateLimit s ⊎ BeginsAny busy_words s)

abbrev pub Verdict : Text → FailureCategory → Type 0
Verdict t permanent = Says permanent_words t
Verdict t rate_limited = (¬ Says permanent_words t) × SaysBusy t
Verdict t transient = (¬ Says permanent_words t) × (¬ SaysBusy t) × Says transient_words t
Verdict t FailureCategory.unknown =
    (¬ Says permanent_words t) × (¬ SaysBusy t) × (¬ Says transient_words t)

search-any_prefix_iff : (ws : List Text) (t : Text) → (search (any_prefix ws) t ≡ true) ↔ Says ws t
search-any_prefix_iff ws t = (
  λ h. Somewhere-map _ _ t (λ s. (any_prefix_iff ws s).0) ((search_iff _ t).0 h),
  λ h. (search_iff _ t).1 (Somewhere-map _ _ t (λ s. (any_prefix_iff ws s).1) h),
)

optional_then_limit_sound : (rest : Text) → optional_then_limit rest ≡ true → GapLimit rest
unfolding optional_then_limit
optional_then_limit_sound [] h = cc
optional_then_limit_sound (c ∷ s) h = elim (Bool-cases (is_prefix (codes "limit") (c ∷ s))) [
  | inl here ↦ inl ((is_prefix_iff (codes "limit") (c ∷ s)).0 here)
  | inr miss ↦ inr (c, s, refl, ground arith, (is_prefix_iff (codes "limit") s).0 (ground arith))
]

optional_then_limit_complete : (rest : Text) → GapLimit rest → optional_then_limit rest ≡ true
unfolding optional_then_limit
optional_then_limit_complete [] (inl (after, e)) = cc
optional_then_limit_complete [] (inr (c, after, e, line, b)) = cc
optional_then_limit_complete (c ∷ s) (inl b) =
    ground (arith, (is_prefix_iff (codes "limit") (c ∷ s)).1 b)
optional_then_limit_complete (c ∷ s) (inr (d, after, e, line, b)) =
    let found : is_prefix (codes "limit") after ≡ true =
      (is_prefix_iff (codes "limit") after).1 b in
    ground arith

rate_limit_here_sound : (s : Text) → rate_limit_here s ≡ true → RateLimit s
unfolding rate_limit_here
rate_limit_here_sound s h = elim (Option-cases (strip_prefix (codes "rate") s)) [
  | inl miss ↦ cc (rw miss at h)
  | inr (rest, e) ↦ (
    rest,
    strip_prefix_sound (codes "rate") s rest e,
    optional_then_limit_sound rest (rw (e, rate_limit_here) at h),
  )
]

rate_limit_here_complete : (s : Text) → RateLimit s → rate_limit_here s ≡ true
unfolding rate_limit_here
rate_limit_here_complete s (rest, e, gap) =
    let found : strip_prefix (codes "rate") s ≡ some rest =
      rw e (strip_prefix-append (codes "rate") rest) in
    rw (found, rate_limit_here) (optional_then_limit_complete rest gap)

is_permanent_iff : (t : Text) → (is_permanent t ≡ true) ↔ Says permanent_words t
unfolding is_permanent
is_permanent_iff t = search-any_prefix_iff permanent_words t

is_transient_iff : (t : Text) → (is_transient t ≡ true) ↔ Says transient_words t
unfolding is_transient
is_transient_iff t = search-any_prefix_iff transient_words t

busy_here_sound :
    (s : Text)
    → (rate_limit_here s || any_prefix busy_words s) ≡ true
    → RateLimit s ⊎ BeginsAny busy_words s
busy_here_sound s h = elim (Bool-cases (rate_limit_here s)) [
  | inl rate ↦ inl (rate_limit_here_sound s rate)
  | inr other ↦ inr ((any_prefix_iff busy_words s).0 (rw other at h))
]

busy_here_complete :
    (s : Text)
    → RateLimit s ⊎ BeginsAny busy_words s
    → (rate_limit_here s || any_prefix busy_words s) ≡ true
busy_here_complete s (inl r) = ground (arith, rate_limit_here_complete s r)
busy_here_complete s (inr b) = ground (arith, (any_prefix_iff busy_words s).1 b)

is_rate_limited_iff : (t : Text) → (is_rate_limited t ≡ true) ↔ SaysBusy t
unfolding is_rate_limited
is_rate_limited_iff t = (
  λ h. Somewhere-map _ _ t busy_here_sound ((search_iff _ t).0 h),
  λ h. (search_iff _ t).1 (Somewhere-map _ _ t busy_here_complete h),
)

refuted : (b : Bool) (P : Type 0) → (b ≡ true) ↔ P → b ≡ false → ¬ P
refuted b P e h p = cc (e.1 p)

classify_message-Verdict : (t : Text) → Verdict t (classify_message t)
unfolding classify_message
classify_message-Verdict t = elim (Bool-cases (is_permanent t)) [
  | inl p ↦ rw p ((is_permanent_iff t).0 p)
  | inr p ↦ rw p (rest p (refuted _ _ (is_permanent_iff t) p))
]
  where
    last :
        is_rate_limited t ≡ false
        → ¬ Says permanent_words t
        → Verdict t (if is_transient t then transient else FailureCategory.unknown)
    last q np = elim (Bool-cases (is_transient t)) [
      | inl r ↦ rw r (np, refuted _ _ (is_rate_limited_iff t) q, (is_transient_iff t).0 r)
      | inr r ↦ rw r (np, refuted _ _ (is_rate_limited_iff t) q, refuted _ _ (is_transient_iff t) r)
    ]

    rest :
        is_permanent t ≡ false
        → ¬ Says permanent_words t
        → Verdict t (
            if is_rate_limited t
            then rate_limited
            else if is_transient t
            then transient
            else FailureCategory.unknown)
    rest p np = elim (Bool-cases (is_rate_limited t)) [
      | inl q ↦ rw q (np, (is_rate_limited_iff t).0 q)
      | inr q ↦ rw q (last q np)
    ]

-- The text that is searched: `err.message` or `String(err)`, in lower case.
abbrev pub searched : Thrown → Text
searched (classified m c g) = map to_lower m
searched (error m) = map to_lower m
searched (value v) = map to_lower v

abbrev pub Classifies : Thrown → FailureCategory → Type 0
Classifies (classified m c g) category = category ≡ c
Classifies (error m) category = Verdict (map to_lower m) category
Classifies (value v) category = Verdict (map to_lower v) category

-- A ClassifiedError keeps its category, whatever its message says. Any other failure is permanent
-- if its lower-cased message holds one of the six permanent words, also where words of the other
-- two lists occur; else rate limited if the message holds "rate" and "limit" with at most one
-- character of the same line between them, "429" or "too many requests"; else transient if it
-- holds one of the eight transient words; and else unknown.
pub classify_failure-Classifies : (err : Thrown) → Classifies err (classify_failure err)
unfolding classify_failure
classify_failure-Classifies (classified m c g) = refl
classify_failure-Classifies (error m) = classify_message-Verdict (map to_lower m)
classify_failure-Classifies (value v) = classify_message-Verdict (map to_lower v)

-- The conditions of the four categories exclude one another.
pub Verdict-unique : (t : Text) (c d : FailureCategory) → Verdict t c → Verdict t d → c ≡ d
Verdict-unique t permanent permanent v w = refl
Verdict-unique t permanent rate_limited v w = absurd (w.0 v)
Verdict-unique t permanent transient v w = absurd (w.0 v)
Verdict-unique t permanent FailureCategory.unknown v w = absurd (w.0 v)
Verdict-unique t rate_limited permanent v w = absurd (v.0 w)
Verdict-unique t rate_limited rate_limited v w = refl
Verdict-unique t rate_limited transient v w = absurd (w.1 v.1)
Verdict-unique t rate_limited FailureCategory.unknown v w = absurd (w.1 v.1)
Verdict-unique t transient permanent v w = absurd (v.0 w)
Verdict-unique t transient rate_limited v w = absurd (v.1 w.1)
Verdict-unique t transient transient v w = refl
Verdict-unique t transient FailureCategory.unknown v w = absurd (w.2 v.2)
Verdict-unique t FailureCategory.unknown permanent v w = absurd (v.0 w)
Verdict-unique t FailureCategory.unknown rate_limited v w = absurd (v.1 w.1)
Verdict-unique t FailureCategory.unknown transient v w = absurd (v.2 w.2)
Verdict-unique t FailureCategory.unknown FailureCategory.unknown v w = refl
