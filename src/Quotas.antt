-- ===== src/Quotas.antt =====
-- internal/quotas/bucket.go. A compare-and-swap loop commits one update of the counter at a time,
-- so each call is one step. Token counts are native numbers: they start at the capacity, fall only
-- from above 0, and rise only to the capacity, and a negative capacity or rate acts as 0.
pub mod Limits
mod Tests
use aqueduct.Base.Bytes.{bytes_equal, Bytes}
use aqueduct.Base.{
  ◌-◌, false, ◌+◌, true, ◌||◌, Bool, [], ltb, none, not, some, ◌/◌, ◌==◌, ◌∷◌, List, Option,
  if◌then◌else◌, ℕ,
}

pub record Bucket : Type 0 where
  pub tokens : ℕ
  pub capacity : ℕ
  pub rate : ℕ
  -- Whether the refill goroutine runs: it is started at creation, for a positive rate only.
  pub refilling : Bool

unfoldable pub new_bucket : ℕ → ℕ → Bucket
new_bucket rate capacity = record {
  tokens = capacity;
  capacity = capacity;
  rate = rate;
  refilling = ltb 0 rate;
}

-- `int64(float64(rate) * 0.1)`, and at least 1. The product is cut to a whole number; the tenth of a
-- whole number below 2 ^ 50 is not rounded up past one.
unfoldable pub added_tokens : ℕ → ℕ
added_tokens rate = let added = rate / 10 in if added == 0 then 1 else added

-- One tick of the refill loop.
unfoldable pub refill : Bucket → Bucket
unfolding added_tokens
refill b =
    if not b.refilling || b.rate == 0
    then b
    else (let want = b.tokens + added_tokens b.rate in
        record b { tokens = if ltb b.capacity want then b.capacity else want })

unfoldable pub take_token : Bucket → Bucket × Bool
take_token b = if b.tokens == 0 then (b, false) else (record b { tokens = b.tokens - 1 }, true)

-- `none` is a nil bucket, which admits everything.
unfoldable pub try_acquire : Option Bucket → Option Bucket × Bool
unfolding take_token
try_acquire none = (none, true)
try_acquire (some b) = let (c, granted) = take_token b in (some c, granted)

unfoldable pub set_bucket_rate : Bucket → ℕ → Bucket
set_bucket_rate b rate = record b { rate = rate }

-- Client identifiers are their bytes. `none` is no default bucket.
pub record Manager : Type 0 where
  pub buckets : List (Bytes × Bucket)
  pub default_bucket : Option Bucket

unfoldable pub new_manager : ℕ → ℕ → Manager
unfolding new_bucket
new_manager rate burst = record {
  buckets = [];
  default_bucket = if ltb 0 rate then some (new_bucket rate burst) else none;
}

unfoldable pub find_bucket : List (Bytes × Bucket) → Bytes → Option Bucket
find_bucket [] client = none
find_bucket ((k, b) ∷ m) client = if bytes_equal k client then some b else find_bucket m client

unfoldable pub put_bucket : List (Bytes × Bucket) → Bytes → Bucket → List (Bytes × Bucket)
put_bucket [] client b = (client, b) ∷ []
put_bucket ((k, c) ∷ m) client b =
    if bytes_equal k client then (k, b) ∷ m else (k, c) ∷ put_bucket m client b

-- A client's own bucket, or else the default one, which all other clients share.
unfoldable pub admit : Manager → Bytes → Manager × Bool
unfolding try_acquire find_bucket put_bucket
admit m client = elim (find_bucket m.buckets client) [
  | some b ↦
      (let (c, granted) = take_token b in
        (record m { buckets = put_bucket m.buckets client c }, granted))
  | none ↦
      (let (d, granted) = try_acquire m.default_bucket in
        (record m { default_bucket = d }, granted))
]

abbrev pub burst_or : ℕ → ℕ → ℕ
burst_or rate burst = if burst == 0 then (if ltb 0 rate then rate else 1000) else burst

-- An existing bucket gets the new rate only.
unfoldable pub set_rate : Manager → Bytes → ℕ → ℕ → Manager
unfolding find_bucket put_bucket set_bucket_rate new_bucket
set_rate m client rate burst = elim (find_bucket m.buckets client) [
  | some old ↦ record m { buckets = put_bucket m.buckets client (set_bucket_rate old rate) }
  | none ↦ record m {
    buckets = put_bucket m.buckets client (new_bucket rate (burst_or rate burst));
  }
]
