-- ===== src/Redis/Memory.antt =====
-- A server in memory, which shows that what is relied on of Redis can be had.
use payment_queue_system_bul.Prelude.{
  ℕ, ◌+◌, ◌*◌, ◌≤◌, ◌≡◌, Bool, true, false, Option, none, some, Text, text_eq, ltb, arith,
  if◌then◌else◌,
}
use payment_queue_system_bul.Redis.{Redis, is_none}

-- Each key has a value and the time at which it expires.
abbrev pub Cells : Type 0
Cells = Text → Option (Text × ℕ)

abbrev live : ℕ → Option (Text × ℕ) → Option Text
live now none = none
live now (some (v, until)) = if ltb now until then some v else none

abbrev get : ℕ → Text → Cells → Option Text
get now k s = live now (s k)

abbrev write : Text → Option (Text × ℕ) → Cells → Cells
write k cell s j = if text_eq k j then cell else s j

abbrev set_ex : ℕ → Text → Text → ℕ → Cells → Cells
set_ex now k v seconds = write k (some (v, now + seconds * 1000))

abbrev set_nx : ℕ → Text → Text → ℕ → Cells → Cells × Bool
set_nx now k v seconds s =
    if is_none (get now k s) then (set_ex now k v seconds s, true) else (s, false)

abbrev del : ℕ → Text → Cells → Cells
del now k = write k none

pub get-set_ex :
    (now t : ℕ) (k j v : Text) (seconds : ℕ) (s : Cells)
    → now ≤ t
    → get t j (set_ex now k v seconds s)
      ≡ (if text_eq k j then (if ltb t (now + seconds * 1000) then some v else none) else get t j s)
get-set_ex now t k j v seconds s h = ground arith

pub set_nx_reply :
    (now : ℕ) (k v : Text) (seconds : ℕ) (s : Cells)
    → (set_nx now k v seconds s).1 ≡ is_none (get now k s)
set_nx_reply now k v seconds s = ground arith

pub get-set_nx :
    (now t : ℕ) (k j v : Text) (seconds : ℕ) (s : Cells)
    → now ≤ t
    → get t j (set_nx now k v seconds s).0
      ≡ (if is_none (get now k s) then get t j (set_ex now k v seconds s) else get t j s)
get-set_nx now t k j v seconds s h = ground arith

pub get-del :
    (now t : ℕ) (k j : Text) (s : Cells)
    → now ≤ t
    → get t j (del now k s) ≡ (if text_eq k j then none else get t j s)
get-del now t k j s h = ground arith

abbrev pub memory : Redis
memory = record {
  Store = Cells;
  get = get;
  set_ex = set_ex;
  set_nx = set_nx;
  del = del;
  get-set_ex = get-set_ex;
  set_nx_reply = set_nx_reply;
  get-set_nx = get-set_nx;
  get-del = get-del;
}

abbrev pub no_cells : Cells
no_cells k = none
