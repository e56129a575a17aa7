-- ===== src/Quotas/Limits.antt =====
-- internal/quotas/bucket.go: what a bucket admits over a history.
use aqueduct.Base.{
  refl, ◌<◌, false, true, ◌≡◌, [], ◌==◌, arith, if◌then◌else◌, ◌+◌, ◌∷◌, List, ◌≤◌, ℕ,
}
use aqueduct.Quotas.{new_bucket, added_tokens, set_bucket_rate, refill, Bucket, take_token}

-- One atomic step of a bucket's life.
pub data Event : Type 0 where
  acquires ticks : Event
  sets_rate : ℕ → Event

-- The bucket after an event, and how many requests the event admitted.
unfoldable pub step : Bucket → Event → Bucket × ℕ
unfolding take_token refill set_bucket_rate
step b acquires = let (c, granted) = take_token b in (c, if granted then 1 else 0)
step b ticks = (refill b, 0)
step b (sets_rate rate) = (set_bucket_rate b rate, 0)

-- The bucket after a history, and how many requests were admitted.
unfoldable pub run : Bucket → List Event → Bucket × ℕ
unfolding step
run b [] = (b, 0)
run b (e ∷ es) = let (c, n) = step b e in let (d, m) = run c es in (d, n + m)

-- The tokens that the ticks of a history can add, by the rate in force at each.
unfoldable pub allowance : ℕ → List Event → ℕ
allowance rate [] = 0
allowance rate (acquires ∷ es) = allowance rate es
allowance rate (ticks ∷ es) = (if rate == 0 then 0 else added_tokens rate) + allowance rate es
allowance rate (sets_rate r ∷ es) = allowance r es

step-le :
    (b : Bucket) (e : Event) → b.tokens ≤ b.capacity → (step b e).0.tokens ≤ (step b e).0.capacity
unfolding step
step-le b acquires h = ground arith
step-le b ticks h = ground arith
step-le b (sets_rate r) h = h

refill_bounds :
    (b : Bucket)
    → b.tokens ≤ b.capacity
    → ((refill b).tokens ≤ b.capacity)
      × ((refill b).capacity ≡ b.capacity)
      × ((refill b).rate ≡ b.rate)
      × ((refill b).tokens ≤ b.tokens + (if b.rate == 0 then 0 else added_tokens b.rate))
unfolding refill
refill_bounds b h = ground arith

-- Without a refill loop the stock only falls.
run_idle :
    (b : Bucket) (es : List Event)
    → b.refilling ≡ false
    → (run b es).1 + (run b es).0.tokens ≤ b.tokens
unfolding run
run_idle b [] off = omega arith
run_idle b (acquires ∷ es) off = unfold step in ground (arith, run_idle (step b acquires).0 es)
run_idle b (ticks ∷ es) off = unfold step in ground (arith, run_idle (step b ticks).0 es)
run_idle b (sets_rate r ∷ es) off =
    unfold step in ground (arith, run_idle (step b (sets_rate r)).0 es)

-- The stock never passes the capacity, and the history admits no more than the stock that it starts
-- with and what its ticks add.
pub run_bounds :
    (b : Bucket) (es : List Event)
    → b.tokens ≤ b.capacity
    → ((run b es).0.tokens ≤ b.capacity)
      × ((run b es).1 + (run b es).0.tokens ≤ b.tokens + allowance b.rate es)
unfolding run allowance
run_bounds b [] h = omega arith
run_bounds b (acquires ∷ es) h = unfold step in ground (arith, run_bounds (step b acquires).0 es)
run_bounds b (ticks ∷ es) h = ground (arith, refill_bounds b h, run_bounds (refill b) es)
run_bounds b (sets_rate r ∷ es) h =
    unfold set_bucket_rate in ground (arith, run_bounds (set_bucket_rate b r) es h)

-- A bucket that was created with rate 0 has no refill loop, so no later rate revives it: over any
-- history of rate changes, ticks and requests it admits at most its capacity.
pub run-new_bucket_zero :
    (capacity : ℕ) (es : List Event) → (run (new_bucket 0 capacity) es).1 ≤ capacity
unfolding new_bucket
run-new_bucket_zero capacity es =
    omega (arith, run_idle (new_bucket 0 capacity) es (unfold new_bucket in refl))

-- A bucket with a refill loop and some capacity admits the first request after a tick.
pub take_token-refill :
    (b : Bucket)
    → b.refilling ≡ true
    → 0 < b.rate
    → 0 < b.capacity
    → (take_token (refill b)).1 ≡ true
unfolding take_token refill added_tokens
take_token-refill b on r c = ground arith
