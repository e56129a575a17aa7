-- ===== src/Cluster/Backoff.antt =====
-- internal/cluster/cluster.go, reconnectLoop and waitBackoffOrDone: the waits between the attempts to
-- reach a peer, in nanoseconds.
use aqueduct.Base.{
  ◌+◌, refl, some, zero, ◌*◌, get_elem?, ltb, suc, ◌⊎◌, All, [], arith, if◌then◌else◌, inl, ◌∷◌,
  ◌≡◌, ◌≤◌, List, ℕ,
}

abbrev pub initial_backoff : ℕ
initial_backoff = 250000000

abbrev pub max_backoff : ℕ
max_backoff = 30000000000

-- How an attempt ends: the dial fails, or a stream came and went, or the opening of one failed.
pub data Attempt : Type 0 where
  dial_failed stream_ended : Attempt

-- The backoff behind a wait.
unfoldable pub after_wait : ℕ → ℕ
after_wait backoff = if ltb backoff max_backoff then backoff * 2 else backoff

-- The backoff that an attempt waits for.
abbrev pub before_wait : ℕ → Attempt → ℕ
before_wait backoff dial_failed = backoff
before_wait backoff stream_ended = initial_backoff

-- The waits of `reconnectLoop`, one behind each attempt.
unfoldable pub reconnect_loop : ℕ → List Attempt → List ℕ
unfolding after_wait
reconnect_loop backoff [] = []
reconnect_loop backoff (a ∷ attempts) =
    before_wait backoff a ∷ reconnect_loop (after_wait (before_wait backoff a)) attempts

abbrev pub failures : ℕ → List Attempt
failures zero = []
failures (suc n) = dial_failed ∷ failures n

-- A backoff is one of the doublings of the first.
abbrev IsBackoff : ℕ → Type 0
IsBackoff b =
    (b ≡ 250000000)
    ⊎ ((b ≡ 500000000)
        ⊎ ((b ≡ 1000000000)
            ⊎ ((b ≡ 2000000000)
                ⊎ ((b ≡ 4000000000)
                    ⊎ ((b ≡ 8000000000) ⊎ ((b ≡ 16000000000) ⊎ (b ≡ 32000000000)))))))

after_wait-IsBackoff : (b : ℕ) → IsBackoff b → IsBackoff (after_wait b)
unfolding after_wait
after_wait-IsBackoff b h = ground arith

before_wait-IsBackoff : (b : ℕ) (a : Attempt) → IsBackoff b → IsBackoff (before_wait b a)
before_wait-IsBackoff b dial_failed h = h
before_wait-IsBackoff b stream_ended h = inl refl

abbrev pub IsWait : ℕ → Type 0
IsWait w = (initial_backoff ≤ w) × (w ≤ 32000000000)

waits_from :
    (b : ℕ) (attempts : List Attempt) → IsBackoff b → All IsWait (reconnect_loop b attempts)
unfolding reconnect_loop
waits_from b [] h = tt
waits_from b (a ∷ attempts) h =
    let w = before_wait-IsBackoff b a h in
    (
      ground arith,
      waits_from (after_wait (before_wait b a)) attempts (after_wait-IsBackoff (before_wait b a) w),
    )

-- Whatever attempts fail and succeed, every wait of the loop is at least 250 milliseconds and at most
-- 32 seconds, and eight failures in a row reach that: two seconds above maxBackoff.
pub reconnect_loop-waits :
    (attempts : List Attempt)
    → All IsWait (reconnect_loop initial_backoff attempts)
      × (get_elem? (reconnect_loop initial_backoff (failures 8)) 7
          ≡ some (max_backoff + 2000000000))
unfolding reconnect_loop after_wait
reconnect_loop-waits attempts = (waits_from initial_backoff attempts (inl refl), refl)
