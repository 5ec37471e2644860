-- ===== src/QueueManager/Limiters.antt =====
-- What registering a gateway and attaching a worker do to the rate limiters, and when a worker is
-- accepted.
use payment_queue_system_bul.Prelude.{
  ℕ, ◌≡◌, ◌≢◌, refl, inl, inr, some, [], ◌∷◌, List, Option, none, Text, arith, lookup,
  lookup-insert, lookup-insert_self,
}
use payment_queue_system_bul.Types.{Priority, high, normal, low}
use payment_queue_system_bul.Effects.{ok, Outcome-cases}
use payment_queue_system_bul.TokenBucket as Bucket
use payment_queue_system_bul.TokenBucket.{TokenBucket}
use payment_queue_system_bul.QueueManager as QueueManager
use payment_queue_system_bul.QueueManager.{
  Bull, ManagedQueue, open_priorities, queue_name, attach_worker, attach_found, ensure_limiter,
  or_default_limit,
}
use payment_queue_system_bul.QueueManager.Registered.{Has, Opens, open_priorities-ok}

pub attach_worker-ok :
    (bull : Bull) (g : Text) (p : Priority) (c : ℕ) (m : QueueManager.QueueManager)
    → bull.new_worker (queue_name g p) c ≡ ok tt
    → Has (queue_name g p) m.queues
    → (attach_worker bull g p c m).0 ≡ ok tt
unfolding attach_worker attach_found Has
attach_worker-ok bull g p c m starts h = ground (arith, h, starts)

attach_found-limiters :
    (bull : Bull) (name : Text) (c : ℕ) (o : Option ManagedQueue) (m : QueueManager.QueueManager)
    → (attach_found bull name c o m).1.rate_limiters ≡ m.rate_limiters
unfolding attach_found
attach_found-limiters bull name c none m = refl
attach_found-limiters bull name c (some managed) m = elim (Outcome-cases (bull.new_worker name c)) [
  | inl (_, e) ↦ rw (e, attach_found) refl
  | inr (err, e) ↦ rw (e, attach_found) refl
]

pub attach_worker-limiters :
    (bull : Bull) (g : Text) (p : Priority) (c : ℕ) (m : QueueManager.QueueManager)
    → (attach_worker bull g p c m).1.rate_limiters ≡ m.rate_limiters
unfolding attach_worker
attach_worker-limiters bull g p c m = attach_found-limiters bull (queue_name g p) c _ m

ensure_limiter-found :
    (now : ℕ) (g : Text) (limit : ℕ × ℕ) (limiters : List (Text × TokenBucket))
    → lookup g (ensure_limiter now g limit limiters) ≢ none
unfolding ensure_limiter
ensure_limiter-found now g limit limiters e =
    let bucket = Bucket.new limit.0 limit.1 Bucket.default_min_capacity_fraction now in
    ground (arith, e, lookup-insert_self g bucket limiters)

ensure_limiter-kept :
    (now : ℕ) (g j : Text) (limit : ℕ × ℕ) (limiters : List (Text × TokenBucket))
    → lookup j limiters ≢ none
    → lookup j (ensure_limiter now g limit limiters) ≢ none
unfolding ensure_limiter
ensure_limiter-kept now g j limit limiters h e =
    let bucket = Bucket.new limit.0 limit.1 Bucket.default_min_capacity_fraction now in
    ground (arith, h, e, lookup-insert g j bucket limiters)

pub register_gateway-limiter :
    (bull : Bull) (now : ℕ) (g : Text) (limit : Option (ℕ × ℕ)) (m : QueueManager.QueueManager)
    → Opens bull g
    → lookup g (QueueManager.register_gateway bull now g limit m).1.rate_limiters ≢ none
unfolding QueueManager.register_gateway
register_gateway-limiter bull now g limit m opens =
    rw (open_priorities-ok bull g opens (high ∷ normal ∷ low ∷ []) m.queues)
      (ensure_limiter-found now g (or_default_limit limit) m.rate_limiters)

pub register_gateway-limiter_kept :
    (bull : Bull) (now : ℕ) (g j : Text) (limit : Option (ℕ × ℕ)) (m : QueueManager.QueueManager)
    → lookup j m.rate_limiters ≢ none
    → lookup j (QueueManager.register_gateway bull now g limit m).1.rate_limiters ≢ none
unfolding QueueManager.register_gateway
register_gateway-limiter_kept bull now g j limit m h =
    elim (Outcome-cases (open_priorities bull g (high ∷ normal ∷ low ∷ []) m.queues).0) [
      | inl (_, e) ↦ rw e (ensure_limiter-kept now g j (or_default_limit limit) m.rate_limiters h)
      | inr (err, e) ↦ rw e h
    ]
