-- ===== src/Aal/Rotate.antt =====
-- internal/aal/aal.go, Rotate: the log is replayed into a second file, which takes its place.
use aqueduct.Aal.Replay.{exhausted, faulted, failed, finished, DecodeEnd, Replayed, replay}
use aqueduct.Aal.Delivery.{replayed, replay-deliver, IsReader}
use aqueduct.Aal.RoundTrip.{
  deliver-items_of, items_of-IsItem, file-all_appended, items_of, all_appended, IsPool,
  handle_frames,
}
use aqueduct.Base.{
  ◌++◌, ap, ◌∙◌, arith, refl, ◌+◌, ◌≤◌, ◌<◌, ◌∷◌, [], ◌≡◌, All, List, fault, true, err, ◌>>=◌,
  false, ltb, length, ◌||◌, ok, ◌==◌, Bool, if◌then◌else◌, Option, Outcome, ℕ,
}
use aqueduct.Aal.Write.{write_frame-appended, appended, Fits}
use aqueduct.Aal.Reads.{log_of}
use aqueduct.Aal.{Aead, Log, write_frame}
use aqueduct.Base.Bytes.{Bytes}

-- The handler of the replay. A panic while writing ends it.
unfoldable pub rotate_handler : (ℕ → Bytes) → Bytes → Outcome ⊥ Log → Outcome ⊥ Log × Bool
unfolding write_frame
rotate_handler pool frame (ok l) = elim (write_frame l (pool (length l.file)) frame) [
  | ok l' ↦ (ok l', false)
  | err e ↦ absurd e
  | fault ↦ (fault, true)
]
rotate_handler pool frame (err e) = absurd e
rotate_handler pool frame fault = (fault, true)

-- The second file takes the place of the first one where the replay has ended; a replay that does
-- not end is a fault too.
unfoldable pub finish_rotate : Log → Outcome ⊥ Log → DecodeEnd → Outcome ⊥ Log
finish_rotate l result finished = do tmp ← result; ok (record l { file = tmp.file })
finish_rotate l result failed = do tmp ← result; ok l
finish_rotate l result faulted = fault
finish_rotate l result exhausted = fault

-- `key` opens the old records, and `fresh` is the log that OpenEncrypted gives for the same key on
-- the temporary path. The log keeps its own cipher, prefix and nonce.
unfoldable pub rotate : (ℕ → ℕ → ℕ) → (ℕ → Bytes) → Option Aead → Log → ℕ → Log → Outcome ⊥ Log
unfolding rotate_handler replay finish_rotate
rotate amount pool key fresh max_size l =
    if max_size == 0 || ltb (length l.file) max_size
    then ok l
    else (let r = replay key (rotate_handler pool) amount l.file (ok fresh) in
        finish_rotate l r.result r.stopped)

rotate_handler-frames :
    (pool : ℕ → Bytes) (fs : List Bytes) (count : ℕ) (l : Log)
    → IsPool pool
    → All (Fits l) fs
    → handle_frames (rotate_handler pool) fs count (ok l)
      ≡ (count + length fs, ok (all_appended l fs), finished)
unfolding handle_frames rotate_handler
rotate_handler-frames pool [] count l sizes fits = ap (λ (n : ℕ). (n, ok l, finished)) (omega arith)
rotate_handler-frames pool (f ∷ fs) count l sizes fits =
    let wrote : rotate_handler pool f (ok l) ≡ (ok (appended l f), false) =
      rw
        (
          write_frame-appended l (pool (length l.file)) f (sizes (length l.file)) fits.0,
          rotate_handler,
        )
        refl in
    rw (wrote, handle_frames)
      (rotate_handler-frames pool fs (count + 1) (appended l f) sizes fits.1
        ∙ ap (λ (n : ℕ). (n, ok (all_appended (appended l f) fs), finished)) (omega arith))

-- Rotating a log that was empty before frames of 1 to 65,504 bytes were appended to it and that has
-- reached a positive size, under the key that wrote it and into an empty temporary file, keeps these
-- frames: the new file holds the same frames in the same order, each written anew under the new
-- prefix, and nothing else. The cipher, if there is one, opens what it sealed and adds 16 bytes, the
-- prefixes have four, the pooled buffers have their size, and reads take something where something is
-- left.
pub rotate-all_appended :
    (amount : ℕ → ℕ → ℕ) (pool : ℕ → Bytes) (l fresh : Log) (fs : List Bytes) (max_size : ℕ)
    → IsReader amount
    → IsPool pool
    → All (Fits l) fs
    → All (Fits fresh) fs
    → l.file ≡ []
    → fresh.file ≡ []
    → 0 < max_size
    → max_size ≤ length (all_appended l fs).file
    → rotate amount pool l.aead fresh max_size (all_appended l fs)
      ≡ ok (record (all_appended l fs) { file = log_of (items_of fresh fs) })
unfolding rotate finish_rotate
rotate-all_appended amount pool l fresh fs max_size reader sizes fits fits' empty empty' pos large =
    let old = all_appended l fs in
    let due : (max_size == 0 || ltb (length old.file) max_size) ≡ false = ground arith in
    let file : old.file ≡ log_of (items_of l fs) =
      file-all_appended l fs ∙ ap (λ b. b ++ log_of (items_of l fs)) empty in
    let handler = rotate_handler pool in
    let walk : replay l.aead handler amount old.file (ok fresh)
        ≡ replayed l.aead handler amount (0 + length fs, ok (all_appended fresh fs), finished) =
      ap (λ b. replay l.aead handler amount b (ok fresh)) file
      ∙ replay-deliver l.aead handler amount reader (items_of l fs) (ok fresh)
          (items_of-IsItem l fs fits)
      ∙ ap (replayed l.aead handler amount) (
          deliver-items_of handler l.aead l fs 0 (ok fresh)
          ∙ rotate_handler-frames pool fs 0 fresh sizes fits') in
    let new : (all_appended fresh fs).file ≡ log_of (items_of fresh fs) =
      file-all_appended fresh fs ∙ ap (λ b. b ++ log_of (items_of fresh fs)) empty' in
    rw (due, rotate)
      (ap (λ (x : Replayed l.aead handler). finish_rotate old x.result x.stopped) walk
        ∙ rw (new, finish_rotate) refl)
