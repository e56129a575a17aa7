-- ===== src/Broker/Writer/Accounts.antt =====
-- internal/broker/router.go, runSubscriberWriter: the references that the accumulator holds stay
-- accounted for on every way through a round, failed writes included.
use aqueduct.Broker.Queue.Balance.{next-release, release-Sound, one_if_refl, occurs-append, occurs}
use aqueduct.Broker.Refs.Balance.{count-release, one_if}
use aqueduct.Base.{
  inl, inr, leb, [], ◌&&◌, ◌<◌, ◌==◌, length, ltb, ◌∷◌, Bool-cases, arith, ◌+◌, List, Option, ◌≡◌,
  ℕ,
}
use aqueduct.Broker.Refs.{release, Refs}
use aqueduct.Base.Bytes.{Bytes}
use aqueduct.Broker.Router.Balance.{Balanced}
use aqueduct.Broker.Queue.{drain}
use aqueduct.Broker.Router.{Router}
use aqueduct.Broker.Writer.{flush, accumulate, append_and_flush, append_frame, Writer}

-- The writer's references beside those of others.
abbrev pub holding : Writer → (ℕ → ℕ) → ℕ → ℕ
holding w extra j = occurs w.pending j + extra j

abbrev pub with_counters : Router → Refs → Router
with_counters r refs = record r { refs = refs }

pub Balanced-same :
    (r : Router) (extra other : ℕ → ℕ)
    → ((j : ℕ) → extra j ≡ other j)
    → Balanced r extra
    → Balanced r other
Balanced-same r extra other e b = record {
  sound = b.sound;
  counts = λ j. omega (arith, b.counts j, e j);
  fresh = b.fresh;
}

pub release-Balanced :
    (r : Router) (m : ℕ) (extra : ℕ → ℕ)
    → Balanced r (λ j. one_if m j + extra j)
    → Balanced (with_counters r (release r.refs m)) extra
release-Balanced r m extra b =
    let pos : 0 < r.refs.count m = omega (arith, b.counts m, one_if_refl m) in
    let less = λ (j : ℕ). count-release r.refs m j (b.sound.tops m) pos in
    record {
      sound = release-Sound r.refs m b.sound pos;
      counts = λ j. omega (arith, less j, b.counts j);
      fresh = λ j n. omega (arith, less j, b.fresh j (omega (arith, n, next-release r.refs m)));
    }

drain-Balanced :
    (ms : List ℕ) (r : Router) (extra : ℕ → ℕ)
    → Balanced r (λ j. occurs ms j + extra j)
    → Balanced (with_counters r (drain ms r.refs)) extra
unfolding drain
drain-Balanced [] r extra b = Balanced-same r (λ j. 0 + extra j) extra (λ j. omega arith) b
drain-Balanced (m ∷ ms) r extra b = drain-Balanced ms (with_counters r (release r.refs m)) extra (
    release-Balanced r m (λ j. occurs ms j + extra j)
      (Balanced-same r (λ j. (one_if m j + occurs ms j) + extra j)
        (λ j. one_if m j + (occurs ms j + extra j)) (λ j. omega arith) b))

module _ (attempt : ℕ → Option ℕ) where
  pub flush-Balanced :
      (w : Writer) (r : Router) (extra : ℕ → ℕ)
      → Balanced r (holding w extra)
      → Balanced
          (with_counters r (flush attempt w r.refs).1)
          (holding (flush attempt w r.refs).0 extra)
  unfolding flush
  flush-Balanced w r extra b = elim (Bool-cases (length w.buf == 0)) [
    | inl nothing ↦ rw nothing b
    | inr there ↦ rw there (
        let after = drain-Balanced w.pending r extra b in
        Balanced-same (with_counters r (drain w.pending r.refs)) extra (λ j. 0 + extra j)
          (λ j. omega arith) after)
  ]

  append_and_flush-Balanced :
      (m : ℕ) (frame : Bytes) (w : Writer) (r : Router) (extra : ℕ → ℕ)
      → Balanced r (λ j. one_if m j + holding w extra j)
      → Balanced
          (with_counters r (append_and_flush attempt m frame (w, r.refs)).1)
          (holding (append_and_flush attempt m frame (w, r.refs)).0 extra)
  unfolding append_and_flush append_frame
  append_and_flush-Balanced m frame w r extra b =
      let w1 = append_frame w m frame in
      let b1 : Balanced r (holding w1 extra) =
        Balanced-same r (λ j. one_if m j + holding w extra j) (holding w1 extra)
          (λ j. omega (arith, occurs-append w.pending (m ∷ []) j)) b in
      elim (Bool-cases (leb w1.max_size (length w1.buf))) [
        | inl full ↦ rw full (flush-Balanced w1 r extra b1)
        | inr room ↦ rw room b1
      ]

  pub accumulate-Balanced :
      (m : ℕ) (frame : Bytes) (w : Writer) (r : Router) (extra : ℕ → ℕ)
      → Balanced r (λ j. one_if m j + holding w extra j)
      → Balanced
          (with_counters r (accumulate attempt m frame w r.refs).1)
          (holding (accumulate attempt m frame w r.refs).0 extra)
  unfolding accumulate
  accumulate-Balanced m frame w r extra b =
      elim (Bool-cases (ltb 0 (length w.buf) && ltb w.max_size (length w.buf + length frame))) [
        | inr room ↦ rw room (append_and_flush-Balanced m frame w r extra b)
        | inl full ↦
            let f = flush attempt w r.refs in
            let mine = λ (j : ℕ). one_if m j + extra j in
            let r1 = with_counters r f.1 in
            let b1 : Balanced r1 (λ j. one_if m j + holding f.0 extra j) =
              Balanced-same r1 (holding f.0 mine) (λ j. one_if m j + holding f.0 extra j)
                (λ j. omega arith)
                (flush-Balanced w r mine (
                  Balanced-same r (λ j. one_if m j + holding w extra j) (holding w mine)
                    (λ j. omega arith) b)) in
            rw full (elim (Bool-cases f.2) [
              | inl failure ↦ rw failure (release-Balanced r1 m (holding f.0 extra) b1)
              | inr fine ↦ rw fine (append_and_flush-Balanced m frame f.0 r1 extra b1)
            ])
      ]
