-- ===== src/Tracing.antt =====
-- src/tracing/tracing.ts. A span is OpenTelemetry's: the model keeps the list of the spans that
-- were ended, each as it was written. The span's own function does not write to its span, as in
-- `process`, the one caller. The digits of `Math.random().toString(36).slice(2, 10)` are an
-- argument.
use payment_queue_system_bul.Prelude.{
  ℕ, ◌≡◌, ◌≢◌, refl, ap, List, [], ◌∷◌, ◌++◌, Option, none, some, Text, codes, show_base, arith,
}
use payment_queue_system_bul.Types.{Thrown, message_of}
use payment_queue_system_bul.Effects.{Outcome, ok, throw, Action}
pub mod Ids

-- The status code and the message that goes with an error.
pub data SpanStatus : Type 0 where
  ok_status : SpanStatus
  error_status : (message : Option Text) → SpanStatus

pub record Span : Type 0 where
  pub name : Text
  pub attributes : List (Text × Text)
  pub exceptions : List Thrown
  pub status : SpanStatus

-- A world with the spans ended so far.
pub record Traced (W : Type 0) : Type 0 where
  pub world : W
  pub spans : List Span

-- The `setAttribute` calls: an attribute is set again under `correlation_id` only if the caller
-- names one so. The values are texts.
abbrev pub start_span : Text → Text → List (Text × Text) → Span
start_span name correlation_id attrs = record {
  name = name;
  attributes = (codes "correlation_id", correlation_id) ∷ attrs;
  exceptions = [];
  status = ok_status;
}

module _ {A : Type 0} where
  -- What the `try`, the `catch` and the `finally` write, from the result of the function.
  abbrev pub end_span : Outcome A → Span → Span
  end_span (ok _) span = record span { status = ok_status }
  end_span (throw err) span = record span {
    exceptions = span.exceptions ++ err ∷ [];
    status = error_status (message_of err);
  }

module _ {W A : Type 0} where
  unfoldable pub with_span : Text → Text → List (Text × Text) → Action W A → Action (Traced W) A
  with_span name correlation_id attrs fn t =
      let (result, world) = fn t.world in
      (
        result,
        record {
          world = world;
          spans = t.spans ++ end_span result (start_span name correlation_id attrs) ∷ [];
        },
      )

-- `corr_${Date.now().toString(36)}_${...}`
unfoldable pub generate_correlation_id : ℕ → Text → Text
generate_correlation_id now random = codes "corr_" ++ (show_base 36 now ++ (codes "_" ++ random))
