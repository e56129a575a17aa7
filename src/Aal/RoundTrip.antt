-- ===== src/Aal/RoundTrip.antt =====
-- internal/aal/aal.go: WriteFrame and Replay together.
use aqueduct.Aal.Reads.{record_bytes, IsItem, log_of, Item}
use aqueduct.Aal.Delivery.{replay-deliver, replayed, IsReader}
use aqueduct.Base.{
  ap, append_assoc, ◌∙◌, append-nil, if◌then◌else◌, refl, sym, ◌+◌, ◌>>=◌, Option, [], ok, ◌++◌,
  All, Outcome, ◌∷◌, ◌≡◌, Bool, List, length, ℕ,
}
use aqueduct.Aal.Replay.{failed, replay, finished, DecodeEnd}
use aqueduct.Aal.{write_frame, Aead, pool_buffer_size, Log}
use aqueduct.Aal.Write.{
  item_of-IsItem, plain-item_of, write_frame-appended, Fits, appended, item_of,
}
use aqueduct.Aal.Stream.{deliver}
use aqueduct.Base.Bytes.{Bytes}

-- Frames written one after the other; `pool` gives the buffer of each write.
unfoldable pub write_all : (ℕ → Bytes) → Log → List Bytes → Outcome ⊥ Log
write_all pool l [] = ok l
write_all pool l (f ∷ fs) = do l' ← write_frame l (pool (length fs)) f; write_all pool l' fs

abbrev pub items_of : Log → List Bytes → List Item
items_of l [] = []
items_of l (f ∷ fs) = item_of l f ∷ items_of (appended l f) fs

abbrev pub all_appended : Log → List Bytes → Log
all_appended l [] = l
all_appended l (f ∷ fs) = all_appended (appended l f) fs

abbrev pub IsPool : (ℕ → Bytes) → Type 0
IsPool pool = (k : ℕ) → length (pool k) ≡ pool_buffer_size

pub write_all-appended :
    (pool : ℕ → Bytes) (l : Log) (fs : List Bytes)
    → IsPool pool
    → All (Fits l) fs
    → write_all pool l fs ≡ ok (all_appended l fs)
unfolding write_all
write_all-appended pool l [] sizes fits = refl
write_all-appended pool l (f ∷ fs) sizes fits =
    rw (write_frame-appended l (pool (length fs)) f (sizes (length fs)) fits.0, ◌>>=◌)
      (write_all-appended pool (appended l f) fs sizes fits.1)

pub file-all_appended :
    (l : Log) (fs : List Bytes) → (all_appended l fs).file ≡ l.file ++ log_of (items_of l fs)
file-all_appended l [] = sym (append-nil l.file)
file-all_appended l (f ∷ fs) =
    file-all_appended (appended l f) fs
    ∙ append_assoc l.file (record_bytes (item_of l f).body) (log_of (items_of (appended l f) fs))

pub items_of-IsItem :
    (l : Log) (fs : List Bytes) → All (Fits l) fs → All (IsItem l.aead) (items_of l fs)
items_of-IsItem l [] fits = tt
items_of-IsItem l (f ∷ fs) fits =
    (item_of-IsItem l f fits.0, items_of-IsItem (appended l f) fs fits.1)

module _ {S : Type 0} (handler : Bytes → S → S × Bool) where
  -- The handler on each frame in turn, until it returns an error.
  unfoldable pub handle_frames : List Bytes → ℕ → S → ℕ × S × DecodeEnd
  handle_frames [] count s = (count, s, finished)
  handle_frames (f ∷ fs) count s =
      let rest = handle_frames fs (count + 1) (handler f s).0 in
      if (handler f s).1 then (count, (handler f s).0, failed) else rest

  pub deliver-items_of :
      (aead : Option Aead) (l : Log) (fs : List Bytes) (count : ℕ) (s : S)
      → deliver aead handler (items_of l fs) count s ≡ handle_frames fs count s
  unfolding deliver handle_frames
  deliver-items_of aead l [] count s = refl
  deliver-items_of aead l (f ∷ fs) count s =
      rw (plain-item_of l f, deliver)
        (rw (deliver-items_of aead (appended l f) fs (count + 1) (handler f s).0) refl)

  -- Frames written to an empty log and replayed under the same key come back in order, byte for
  -- byte, until the handler returns an error, and the replay ends by itself: for frames of 1 to
  -- 65,504 bytes, unsealed or under a cipher that opens what it sealed and adds 16 bytes, a nonce
  -- prefix of four bytes, pooled buffers of their size with any content, and reads of any lengths
  -- that take something where something is left.
  pub replay-write_all :
      (amount : ℕ → ℕ → ℕ) (pool : ℕ → Bytes) (l : Log) (fs : List Bytes) (s : S)
      → IsReader amount
      → IsPool pool
      → l.file ≡ []
      → All (Fits l) fs
      → (write_all pool l fs >>= λ l'. ok (replay l.aead handler amount l'.file s))
        ≡ ok (replayed l.aead handler amount (handle_frames fs 0 s))
  replay-write_all amount pool l fs s reader sizes empty fits =
      let file : (all_appended l fs).file ≡ log_of (items_of l fs) =
        file-all_appended l fs ∙ ap (λ b. b ++ log_of (items_of l fs)) empty in
      rw (write_all-appended pool l fs sizes fits, ◌>>=◌)
        (rw file (
          ap ok (
            replay-deliver l.aead handler amount reader (items_of l fs) s
              (items_of-IsItem l fs fits)
            ∙ ap (replayed l.aead handler amount) (deliver-items_of l.aead l fs 0 s))))
