-- ===== src/Types/Classify/Substring.antt =====
-- Unanchored search, as `RegExp.prototype.test` does it: a matcher that looks at the front of a
-- text is tried at each position.
use payment_queue_system_bul.Prelude.{
  ◌≡◌, refl, ◌↔◌, ◌⊎◌, inl, inr, Bool, true, false, ◌||◌, List, [], ◌∷◌, ◌++◌, Option, none, some,
  arith, ◌==◌, Text, Bool-cases, if◌then◌else◌,
}

-- What is left of the text behind the word, if it begins with the word.
unfoldable pub strip_prefix : Text → Text → Option Text
strip_prefix [] t = some t
strip_prefix (w ∷ ws) [] = none
strip_prefix (w ∷ ws) (c ∷ t) = if w == c then strip_prefix ws t else none

abbrev is_some : Option Text → Bool
is_some none = false
is_some (some t) = true

unfoldable pub is_prefix : Text → Text → Bool
unfolding strip_prefix
is_prefix w t = is_some (strip_prefix w t)

unfoldable pub any_prefix : List Text → Text → Bool
unfolding is_prefix
any_prefix [] t = false
any_prefix (w ∷ ws) t = is_prefix w t || any_prefix ws t

unfoldable pub search : (Text → Bool) → Text → Bool
search matcher [] = matcher []
search matcher (c ∷ t) = matcher (c ∷ t) || search matcher t

pub strip_prefix_sound : (w t rest : Text) → strip_prefix w t ≡ some rest → t ≡ w ++ rest
unfolding strip_prefix
strip_prefix_sound [] t rest h = ground arith
strip_prefix_sound (w ∷ ws) [] rest h = cc
strip_prefix_sound (w ∷ ws) (c ∷ t) rest h = ground (arith, strip_prefix_sound ws t rest)

pub strip_prefix-append : (w rest : Text) → strip_prefix w (w ++ rest) ≡ some rest
unfolding strip_prefix
strip_prefix-append [] rest = refl
strip_prefix-append (w ∷ ws) rest = ground (arith, strip_prefix-append ws rest)

-- The word stands at the front.
abbrev pub Begins : Text → Text → Type 0
Begins w t = (rest : Text) × (t ≡ w ++ rest)

pub is_prefix_iff : (w t : Text) → (is_prefix w t ≡ true) ↔ Begins w t
unfolding is_prefix
is_prefix_iff w t = (forward (strip_prefix w t) (λ rest. strip_prefix_sound w t rest), backward)
  where
    forward :
        (o : Option Text)
        → ((rest : Text) → o ≡ some rest → t ≡ w ++ rest)
        → is_some o ≡ true
        → Begins w t
    forward none sound h = cc
    forward (some rest) sound h = (rest, sound rest refl)

    backward : Begins w t → is_some (strip_prefix w t) ≡ true
    backward (rest, e) = rw (e, strip_prefix-append w rest)

-- One of the words stands at the front.
abbrev pub BeginsAny : List Text → Text → Type 0
BeginsAny [] t = ⊥
BeginsAny (w ∷ ws) t = Begins w t ⊎ BeginsAny ws t

pub any_prefix_iff : (ws : List Text) (t : Text) → (any_prefix ws t ≡ true) ↔ BeginsAny ws t
unfolding any_prefix
any_prefix_iff [] t = (λ h. cc, λ h. absurd h)
any_prefix_iff (w ∷ ws) t = (forward (any_prefix_iff ws t).0, backward (any_prefix_iff ws t).1)
  where
    forward :
        (any_prefix ws t ≡ true → BeginsAny ws t)
        → any_prefix (w ∷ ws) t ≡ true
        → BeginsAny (w ∷ ws) t
    forward later h = elim (Bool-cases (is_prefix w t)) [
      | inl here ↦ inl ((is_prefix_iff w t).0 here)
      | inr miss ↦ inr (later (ground arith))
    ]

    backward :
        (BeginsAny ws t → any_prefix ws t ≡ true)
        → BeginsAny (w ∷ ws) t
        → any_prefix (w ∷ ws) t ≡ true
    backward later (inl b) = ground (arith, (is_prefix_iff w t).1 b)
    backward later (inr b) = ground (arith, later b)

-- The text splits at a position whose rest satisfies the predicate.
abbrev pub Somewhere : (Text → Type 0) → Text → Type 0
Somewhere P t = (front : Text) × (rest : Text) × (t ≡ front ++ rest) × P rest

pub search_iff :
    (matcher : Text → Bool) (t : Text)
    → (search matcher t ≡ true) ↔ Somewhere (λ s. matcher s ≡ true) t
unfolding search
search_iff matcher [] = (λ h. ([], [], refl, h), back)
  where
    back : Somewhere (λ s. matcher s ≡ true) [] → matcher [] ≡ true
    back ([], [], e, h) = h
    back ([], x ∷ rest, e, h) = cc
    back (x ∷ front, rest, e, h) = cc
search_iff matcher (c ∷ t) = (forward (search_iff matcher t).0, back (search_iff matcher t).1)
  where
    forward :
        (search matcher t ≡ true → Somewhere (λ s. matcher s ≡ true) t)
        → (matcher (c ∷ t) || search matcher t) ≡ true
        → Somewhere (λ s. matcher s ≡ true) (c ∷ t)
    forward later h = elim (Bool-cases (matcher (c ∷ t))) [
      | inl here ↦ ([], c ∷ t, refl, here)
      | inr miss ↦ let (front, rest, e, m) = later (ground arith) in (c ∷ front, rest, cc, m)
    ]

    back :
        (Somewhere (λ s. matcher s ≡ true) t → search matcher t ≡ true)
        → Somewhere (λ s. matcher s ≡ true) (c ∷ t)
        → (matcher (c ∷ t) || search matcher t) ≡ true
    back later ([], rest, e, h) = let m : matcher (c ∷ t) ≡ true = rw e h in rw m
    back later (x ∷ front, rest, e, h) =
        let found : search matcher t ≡ true = later (front, rest, ground arith, h) in ground arith

pub Somewhere-map :
    (P Q : Text → Type 0) (t : Text) → ((s : Text) → P s → Q s) → Somewhere P t → Somewhere Q t
Somewhere-map P Q t f (front, rest, e, p) = (front, rest, e, f rest p)
