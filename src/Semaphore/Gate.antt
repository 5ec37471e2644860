-- ===== src/Semaphore/Gate.antt =====
-- The semaphore with its callers: any interleaving of arrivals and ends. `holders` are the callers
-- that hold a slot; the two logs record arrivals and grants in their order.
use mathlib.Core.List.{append-nil, append_assoc}
use payment_queue_system_bul.Prelude.{
  ℕ, zero, suc, ◌≤◌, ◌≡◌, ◌⊎◌, refl, sym, ap, ◌∙◌, List, [], ◌∷◌, ◌++◌, Option, none, some, arith,
  length, length-append, shift, take, drop, if◌then◌else◌,
}
use payment_queue_system_bul.Semaphore.{GatewaySemaphore, new, acquire, release}

pub record Gate (W : Type 0) : Type 0 where
  pub sem : GatewaySemaphore W
  pub holders : List W
  pub arrived : List W
  pub granted : List W

module _ {W : Type 0} where
  abbrev pub empty : ℕ → Gate W
  empty max = record { sem = new max; holders = []; arrived = []; granted = [] }

  -- A caller calls `acquire`.
  unfoldable pub arrive : W → Gate W → Gate W
  unfolding acquire
  arrive w g =
      let (s, now) = acquire w g.sem in
      if now
      then record g {
        sem = s;
        holders = w ∷ g.holders;
        arrived = g.arrived ++ w ∷ [];
        granted = g.granted ++ w ∷ [];
      }
      else record g { sem = s; arrived = g.arrived ++ w ∷ [] }

  abbrev admit : Option W → Gate W → Gate W
  admit none g = g
  admit (some w) g = record g { holders = w ∷ g.holders; granted = g.granted ++ w ∷ [] }

  -- The holder between `front` and `back` releases.
  unfoldable pub leave : List W → List W → Gate W → Gate W
  unfolding release
  leave front back g =
      let (s, next) = release g.sem in admit next (record g { sem = s; holders = front ++ back })

  -- A caller arrives, or one of the holders leaves.
  pub data Step (g : Gate W) : Gate W → Type 0 where
    arrives : (w : W) {g' : Gate W} → g' ≡ arrive w g → Step g g'
    leaves :
        (front back : List W) (w : W) {g' : Gate W}
        → g.holders ≡ front ++ w ∷ back
        → g' ≡ leave front back g
        → Step g g'

  pub data Reach (g : Gate W) : Gate W → Type 0 where
    here : Reach g g
    next : {g' g'' : Gate W} → Reach g g' → Step g' g'' → Reach g g''

  -- The count is that of the holders and within the limit; a caller waits only while all slots
  -- are taken; and grants follow the order of arrival, with just the waiters still to come.
  pub record IsValid (max : ℕ) (g : Gate W) : Type 0 where
    pub limit : g.sem.max ≡ max
    pub counted : g.sem.in_flight ≡ length g.holders
    pub bounded : g.sem.in_flight ≤ max
    pub busy : (g.sem.waiters ≡ []) ⊎ (g.sem.in_flight ≡ max)
    pub fifo : g.granted ++ g.sem.waiters ≡ g.arrived

  arrive-IsValid : (max : ℕ) (w : W) (g : Gate W) → IsValid max g → IsValid max (arrive w g)
  unfolding arrive
  arrive-IsValid max w g v = ground (
    arith,
    append-nil g.granted,
    append-nil (g.granted ++ w ∷ []),
    append_assoc g.granted g.sem.waiters (w ∷ []),
  )

  leave_cases :
      (max : ℕ) (front back : List W) (w : W) (g : Gate W) (ws : List W)
      → g.sem.waiters ≡ ws
      → g.holders ≡ front ++ w ∷ back
      → IsValid max g
      → IsValid max (leave front back g)
  unfolding leave
  leave_cases max front back w g [] e h v =
      ground (arith, ap length h, length-append front (w ∷ back), length-append front back)
  leave_cases max front back w g (x ∷ ws) e h v = ground (
    arith,
    ap length h,
    length-append front (w ∷ back),
    length-append front back,
    append_assoc g.granted (x ∷ []) ws,
  )

  leave-IsValid :
      (max : ℕ) (front back : List W) (w : W) (g : Gate W)
      → g.holders ≡ front ++ w ∷ back
      → IsValid max g
      → IsValid max (leave front back g)
  unfolding leave
  leave-IsValid max front back w g h v = leave_cases max front back w g g.sem.waiters refl h v

  Step-IsValid : (max : ℕ) {g g' : Gate W} → Step g g' → IsValid max g → IsValid max g'
  Step-IsValid max {g} (arrives w e) v = rw e (arrive-IsValid max w g v)
  Step-IsValid max {g} (leaves front back w h e) v = rw e (leave-IsValid max front back w g h v)

  Reach-IsValid : (max : ℕ) {g g' : Gate W} → IsValid max g → Reach g g' → IsValid max g'
  Reach-IsValid max v here = v
  Reach-IsValid max v (next r s) = Step-IsValid max s (Reach-IsValid max v r)

  empty-IsValid : (max : ℕ) → IsValid max (empty max)
  empty-IsValid max = ground arith

  -- However arrivals and ends interleave on a new semaphore: never more than `max` callers hold a
  -- slot, the counter is their number, somebody waits only while all slots are taken, and the
  -- grants so far followed by the waiters are the arrivals in their order.
  pub Reach-empty-IsValid : (max : ℕ) {g : Gate W} → Reach (empty max) g → IsValid max g
  Reach-empty-IsValid max r = Reach-IsValid max (empty-IsValid max) r

  -- The first of the holders leaves, `n` times.
  pub serve : ℕ → Gate W → Gate W
  serve zero g = g
  serve (suc n) g = serve n (leave [] (shift g.holders) g)

  leave-waiters :
      (front back : List W) (x : W) (xs : List W) (g : Gate W)
      → g.sem.waiters ≡ x ∷ xs
      → ((leave front back g).granted ≡ g.granted ++ x ∷ [])
        × ((leave front back g).sem.waiters ≡ xs)
  unfolding leave
  leave-waiters front back x xs g e = (ground arith, ground arith)

  holders-shift : (hs : List W) → 1 ≤ length hs → (w : W) × (hs ≡ w ∷ shift hs)
  holders-shift [] h = absurd (omega arith)
  holders-shift (w ∷ hs) h = (w, refl)

  Reach-front : {g g' g'' : Gate W} → Step g g' → Reach g' g'' → Reach g g''
  Reach-front s here = next here s
  Reach-front s (next r t) = next (Reach-front s r) t

  serve-queue :
      (max n : ℕ) (xs : List W) (g : Gate W)
      → 1 ≤ max
      → IsValid max g
      → g.sem.waiters ≡ xs
      → n ≤ length xs
      → Reach g (serve n g)
        × ((serve n g).granted ≡ g.granted ++ take n xs)
        × ((serve n g).sem.waiters ≡ drop n xs)
  unfolding serve
  serve-queue max zero xs g m v e h = (here, sym (append-nil g.granted), e)
  serve-queue max (suc n) [] g m v e h = absurd (omega arith)
  serve-queue max (suc n) (x ∷ xs) g m v e h =
      let full : g.sem.in_flight ≡ max = ground arith in
      let (w, held) = holders-shift g.holders (omega (arith, v.counted)) in
      let step : Step g (leave [] (shift g.holders) g) = leaves [] (shift g.holders) w held refl in
      let (given, left) = leave-waiters [] (shift g.holders) x xs g e in
      let (r, gs, ws) =
        serve-queue max n xs (leave [] (shift g.holders) g) m (Step-IsValid max step v) left
          (omega arith) in
      (
        Reach-front step r,
        gs ∙ ap (λ l. l ++ take n xs) given ∙ append_assoc g.granted (x ∷ []) (take n xs),
        ws,
      )

  -- Nobody starves: in every state that can be reached with a limit of at least 1, `n` ends of
  -- holders can follow for any `n` up to the number of waiters, and they hand the slots to the
  -- first `n` waiters, in their order.
  pub waiters_served :
      (max n : ℕ) {g : Gate W}
      → 1 ≤ max
      → Reach (empty max) g
      → n ≤ length g.sem.waiters
      → Reach g (serve n g)
        × ((serve n g).granted ≡ g.granted ++ take n g.sem.waiters)
        × ((serve n g).sem.waiters ≡ drop n g.sem.waiters)
  waiters_served max n {g} m r h =
      serve-queue max n g.sem.waiters g m (Reach-empty-IsValid max r) refl h
