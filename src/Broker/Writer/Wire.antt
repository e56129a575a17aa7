-- ===== src/Broker/Writer/Wire.antt =====
-- internal/broker/router.go, batchAccumulator: coalescing neither loses, repeats nor reorders bytes.
use aqueduct.Base.{
  ==_iff, ◌+◌, take-append-drop, ◌&&◌, ltb, take, ap, drop, refl, true, inr, some, ◌==◌, ◌∙◌,
  append-nil, append_assoc, inl, leb, length, Bool, Bool-cases, sym, ◌⊎◌, [], false, none, ◌≡◌,
  Option, ◌++◌, ℕ,
}
use aqueduct.Base.Buffers.{empty_of_length}
use aqueduct.Broker.Writer.{
  after_flush, going_of, accepted_bytes, is_some, goes_on, flush, accumulate, append_and_flush,
  append_frame, Writer, Going,
}
use aqueduct.Broker.Refs.{Refs}
use aqueduct.Base.Bytes.{Bytes}

-- What was handed to the stream, and what waits in the accumulator.
abbrev pub sent : Writer → Bytes
sent w = w.wire ++ w.buf

module _ (attempt : ℕ → Option ℕ) where
  -- The bytes behind `before` that have left or wait to; `missing` is what a failed write lost.
  pub record Sends (before : Bytes) (after : Writer) (lossless : Type 0) : Type 0 where
    pub missing : Bytes
    pub stream : sent after ++ missing ≡ before
    pub whole : lossless → missing ≡ []

  abbrev pub Succeeds : Type 0
  Succeeds = (n : ℕ) → attempt n ≡ none

  abbrev pub Lossless : Going → Type 0
  Lossless g = (g ≡ goes_on) ⊎ Succeeds

  accepted_part :
      (out : Option ℕ) (wire buf : Bytes)
      → (lost : Bytes) × ((wire ++ accepted_bytes out buf) ++ lost ≡ wire ++ buf)
        × ((is_some out ≡ false) ⊎ (out ≡ none) → lost ≡ [])
  accepted_part none wire buf = ([], append-nil (wire ++ buf), λ e. refl)
  accepted_part (some k) wire buf = (
    drop k buf,
    append_assoc wire (take k buf) (drop k buf) ∙ ap (λ x. wire ++ x) (take-append-drop k buf),
    λ e. elim e [ inl f ↦ absurd (cc f) | inr f ↦ absurd (cc f) ],
  )

  fine_or_none :
      (n : ℕ)
      → (is_some (attempt n) ≡ false) ⊎ Succeeds
      → (is_some (attempt n) ≡ false) ⊎ (attempt n ≡ none)
  fine_or_none n (inl e) = inl e
  fine_or_none n (inr all) = inr (all n)

  pub flush-Sends :
      (w : Writer) (refs : Refs)
      → Sends (sent w) (flush attempt w refs).0 (((flush attempt w refs).2 ≡ false) ⊎ Succeeds)
  unfolding flush
  flush-Sends w refs = elim (Bool-cases (length w.buf == 0)) [
    | inl nothing ↦
        rw nothing (record { missing = []; stream = append-nil (sent w); whole = λ e. refl })
    | inr there ↦ rw there (
        let part = accepted_part (attempt w.writes) w.wire w.buf in
        record {
          missing = part.0;
          stream =
              ap (λ x. x ++ part.0) (append-nil (w.wire ++ accepted_bytes (attempt w.writes) w.buf))
              ∙ part.1;
          whole = λ e. part.2 (fine_or_none w.writes e);
        })
  ]

  flush-succeeds : (w : Writer) (refs : Refs) → Succeeds → (flush attempt w refs).2 ≡ false
  unfolding flush
  flush-succeeds w refs all = elim (Bool-cases (length w.buf == 0)) [
    | inl nothing ↦ rw nothing refl
    | inr there ↦ rw (there, all w.writes) refl
  ]

  pub flush-buf : (w : Writer) (refs : Refs) → (flush attempt w refs).0.buf ≡ []
  unfolding flush
  flush-buf w refs = elim (Bool-cases (length w.buf == 0)) [
    | inl nothing ↦ rw nothing (empty_of_length w.buf ((==_iff (length w.buf) 0).0 nothing))
    | inr there ↦ rw there refl
  ]

  append_frame-sent :
      (w : Writer) (m : ℕ) (frame : Bytes) → sent (append_frame w m frame) ≡ sent w ++ frame
  unfolding append_frame
  append_frame-sent w m frame = sym (append_assoc w.wire w.buf frame)

  pub going_false : (failure : Bool) → Lossless (going_of failure) → (failure ≡ false) ⊎ Succeeds
  going_false true (inl e) = absurd (cc e)
  going_false false (inl e) = inl refl
  going_false true (inr all) = inr all
  going_false false (inr all) = inr all

  append_and_flush-Sends :
      (m : ℕ) (frame : Bytes) (w : Writer) (refs : Refs)
      → Sends
          (sent w ++ frame)
          (append_and_flush attempt m frame (w, refs)).0
          (Lossless (append_and_flush attempt m frame (w, refs)).2)
  unfolding append_and_flush
  append_and_flush-Sends m frame w refs =
      let w1 = append_frame w m frame in
      let f = flush-Sends w1 refs in
      elim (Bool-cases (leb w1.max_size (length w1.buf))) [
        | inl full ↦ rw full (record {
          missing = f.missing;
          stream = f.stream ∙ append_frame-sent w m frame;
          whole = λ e. f.whole (going_false (flush attempt w1 refs).2 e);
        })
        | inr room ↦ rw room (record {
          missing = [];
          stream = append-nil (sent w1) ∙ append_frame-sent w m frame;
          whole = λ e. refl;
        })
      ]

  -- The bytes that a writer has handed over or still holds are those before, followed by the frame,
  -- up to what a failed write lost; nothing is missing where the loop goes on, or where every write
  -- succeeds.
  pub accumulate-Sends :
      (m : ℕ) (frame : Bytes) (w : Writer) (refs : Refs)
      → Sends
          (sent w ++ frame)
          (accumulate attempt m frame w refs).0
          (Lossless (accumulate attempt m frame w refs).2)
  unfolding accumulate
  accumulate-Sends m frame w refs =
      elim (Bool-cases (ltb 0 (length w.buf) && ltb w.max_size (length w.buf + length frame))) [
        | inr room ↦ rw room (append_and_flush-Sends m frame w refs)
        | inl full ↦
            let f = flush attempt w refs in
            rw full (flushed f (flush-Sends w refs) (λ all. flush-succeeds w refs all))
      ]
    where
      flushed :
          (f : Writer × Refs × Bool)
          → Sends (sent w) f.0 ((f.2 ≡ false) ⊎ Succeeds)
          → (Succeeds → f.2 ≡ false)
          → Sends
              (sent w ++ frame)
              (after_flush attempt m frame f).0
              (Lossless (after_flush attempt m frame f).2)
      flushed (w1, refs1, true) s fine = record {
        missing = s.missing ++ frame;
        stream = sym (append_assoc (sent w1) s.missing frame) ∙ ap (λ x. x ++ frame) s.stream;
        whole = λ e. elim e [ inl g ↦ absurd (cc g) | inr all ↦ absurd (cc (fine all)) ];
      }
      flushed (w1, refs1, false) s fine =
          let kept : sent w1 ≡ sent w =
            sym (append-nil (sent w1))
            ∙ (ap (λ x. sent w1 ++ x) (sym (s.whole (inl refl))) ∙ s.stream) in
          let next = append_and_flush-Sends m frame w1 refs1 in
          record {
            missing = next.missing;
            stream = next.stream ∙ ap (λ x. x ++ frame) kept;
            whole = next.whole;
          }
