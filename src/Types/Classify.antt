-- ===== src/Types/Classify.antt =====
-- classifyFailure of src/types/payment.types.ts. The three regular expressions have no anchors:
-- each asks whether one of its words occurs in the lower-cased message. `rate.?limit` allows at
-- most one character, no line terminator, between its halves. Messages are taken to be ASCII,
-- which is what `to_lower` says of `toLowerCase`.
mod Substring
pub mod Meaning
use payment_queue_system_bul.Prelude.{
  ℕ, ◌+◌, Bool, true, false, not, ◌&&◌, ◌||◌, List, [], ◌∷◌, map, Option, none, some, leb, ◌==◌,
  Text, codes, if◌then◌else◌,
}
use payment_queue_system_bul.Types.{
  FailureCategory, transient, rate_limited, permanent, Thrown, classified, error, value,
}
use Substring.{strip_prefix, is_prefix, search, any_prefix}

-- `String.prototype.toLowerCase` on one ASCII code unit.
abbrev pub to_lower : ℕ → ℕ
to_lower c = if leb b'A' c && leb c b'Z' then c + 32 else c

abbrev pub is_line_end : ℕ → Bool
is_line_end c = c == 10 || c == 13 || c == 0x2028 || c == 0x2029

-- `/^.?limit/`
unfoldable pub optional_then_limit : Text → Bool
unfolding is_prefix
optional_then_limit [] = false
optional_then_limit (c ∷ s) =
    is_prefix (codes "limit") (c ∷ s) || not (is_line_end c) && is_prefix (codes "limit") s

-- `/^rate.?limit/`
unfoldable pub rate_limit_here : Text → Bool
unfolding optional_then_limit strip_prefix
rate_limit_here t = elim (strip_prefix (codes "rate") t) [
  | none ↦ false
  | some rest ↦ optional_then_limit rest
]

abbrev pub permanent_words : List Text
permanent_words =
    codes "declined"
    ∷ codes "insufficient_funds"
    ∷ codes "invalid_card"
    ∷ codes "fraud"
    ∷ codes "account_closed"
    ∷ codes "invalid_account"
    ∷ []

abbrev pub busy_words : List Text
busy_words = codes "429" ∷ codes "too many requests" ∷ []

abbrev pub transient_words : List Text
transient_words =
    codes "timeout"
    ∷ codes "etimedout"
    ∷ codes "econnreset"
    ∷ codes "econnrefused"
    ∷ codes "502"
    ∷ codes "503"
    ∷ codes "504"
    ∷ codes "network"
    ∷ []

-- `.test(message)` of the three expressions.
unfoldable pub is_permanent : Text → Bool
unfolding search any_prefix
is_permanent t = search (any_prefix permanent_words) t

unfoldable pub is_rate_limited : Text → Bool
unfolding search any_prefix rate_limit_here
is_rate_limited t = search (λ s. rate_limit_here s || any_prefix busy_words s) t

unfoldable pub is_transient : Text → Bool
unfolding search any_prefix
is_transient t = search (any_prefix transient_words) t

-- The cascade over the lower-cased message.
unfoldable pub classify_message : Text → FailureCategory
unfolding is_permanent is_rate_limited is_transient
classify_message t =
    if is_permanent t
    then permanent
    else if is_rate_limited t
    then rate_limited
    else if is_transient t
    then transient
    else FailureCategory.unknown

unfoldable pub classify_failure : Thrown → FailureCategory
unfolding classify_message
classify_failure (classified m c g) = c
classify_failure (error m) = classify_message (map to_lower m)
classify_failure (value v) = classify_message (map to_lower v)
