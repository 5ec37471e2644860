-- ===== src/Processor/Workers/Search.antt =====
-- Tasks by where they stand.
use payment_queue_system_bul.Prelude.{
  ℕ, ◌≤◌, ◌≡◌, refl, ap, ◌⊎◌, inl, inr, Bool, Bool-cases, true, false, ◌&&◌, List, [], ◌∷◌, ◌++◌,
  Text, length, text_eq, arith, All,
}
use payment_queue_system_bul.Processor.Awaits.{Pc, waiting, ended, is_running}
use payment_queue_system_bul.Processor.Awaits.Waits.{occurs, is_waiting, waits_as}
use payment_queue_system_bul.Processor.Workers.{Task, total}
use payment_queue_system_bul.Processor.Workers.Slots.{slot}

-- The tasks that wait under an id.
abbrev pub waiting_as : Text → Task → ℕ
waiting_as id task = waits_as id task.job task.pc

abbrev pub IsEnded : Pc → Type 0
IsEnded (ended _) = Unit
IsEnded _ = ⊥

-- A task that passes a test, with the tasks before and after it.
pub record Found (test : Task → Bool) (ts : List Task) : Type 0 where
  pub before : List Task
  pub task : Task
  pub after : List Task
  pub passes : test task ≡ true
  pub at : ts ≡ before ++ task ∷ after

pub find : (test : Task → Bool) (ts : List Task) → Found test ts ⊎ All (λ t. test t ≡ false) ts
find test [] = inr tt
find test (t ∷ ts) = elim (Bool-cases (test t)) [
  | inl h ↦ inl (record { before = []; task = t; after = ts; passes = h; at = refl })
  | inr h ↦ elim (find test ts) [
    | inr none_ ↦ inr (h, none_)
    | inl f ↦ inl (record {
      before = t ∷ f.before;
      task = f.task;
      after = f.after;
      passes = f.passes;
      at = ap (λ l. t ∷ l) f.at;
    })
  ]
]

abbrev pub runs : Task → Bool
runs task = is_running task.pc

abbrev pub waits : Task → Bool
waits task = is_waiting task.pc

abbrev pub waits_under : Text → Task → Bool
waits_under id task = is_waiting task.pc && text_eq task.job.id id

pub slot-zero : (ts : List Task) → All (λ t. runs t ≡ false) ts → total slot ts ≡ 0
slot-zero [] h = refl
slot-zero (t ∷ ts) h = ground (arith, h.0, slot-zero ts h.1)

pub waiting_as-zero :
    (id : Text) (ts : List Task)
    → All (λ t. waits_under id t ≡ false) ts
    → total (waiting_as id) ts ≡ 0
waiting_as-zero id [] h = refl
waiting_as-zero id (t ∷ ts) h = ground (arith, h.0, waiting_as-zero id ts h.1)

IsEnded-quiet : (p : Pc) → is_running p ≡ false → is_waiting p ≡ false → IsEnded p
IsEnded-quiet (ended r) h k = tt
IsEnded-quiet waiting h k = cc
IsEnded-quiet _ h k = cc

pub All-IsEnded :
    (ts : List Task)
    → All (λ t. runs t ≡ false) ts
    → All (λ t. waits t ≡ false) ts
    → All (λ t. IsEnded t.pc) ts
All-IsEnded [] h k = tt
All-IsEnded (t ∷ ts) h k = (IsEnded-quiet t.pc h.0 k.0, All-IsEnded ts h.1 k.1)

pub at_waiting : (p : Pc) → is_waiting p ≡ true → p ≡ waiting
at_waiting waiting h = refl
at_waiting _ h = cc

pub occurs-le-length : (id : Text) (xs : List Text) → occurs id xs ≤ length xs
occurs-le-length id [] = omega arith
occurs-le-length id (x ∷ xs) = ground (arith, occurs-le-length id xs)
