-- ===== src/Aal/Tests.antt =====
-- Examples of the log: a toy cipher, two frames, and a reader that takes what fits.
use aqueduct.Aal.RoundTrip.{
  replay-write_all, handle_frames, items_of, all_appended, IsPool, write_all,
}
use aqueduct.Aal.Rotate.{rotate-all_appended, rotate}
use aqueduct.Aal.Stall.{replay_loop-stalls}
use aqueduct.Aal.Reads.{log_of}
use aqueduct.Base.{
  subst, take-append_eq, zero, ◌-◌, ap, false, ltb, refl, suc, take, ◌≡◌, Bool, [], arith,
  if◌then◌else◌, length, length-append, none, some, ◌++◌, ◌>>=◌, ◌∷◌, All, List, ℕ, ok,
}
use aqueduct.Aal.Replay.{exhausted, decode_replay_chunk, replay, replay_loop}
use aqueduct.Aal.Delivery.{replayed, IsReader}
use aqueduct.Aal.Chunks.{decode_replay_chunk-Ends, Ends}
use aqueduct.Base.Bytes.{put_le32, Bytes}
use aqueduct.Aal.Write.{Fits, IsAead}
use aqueduct.Aal.{pool_buffer_size, Aead, Log}

abbrev zeros : ℕ → Bytes
zeros zero = []
zeros (suc n) = 0 ∷ zeros n

length-zeros : (n : ℕ) → length (zeros n) ≡ n
length-zeros zero = refl
length-zeros (suc n) = omega (arith, length-zeros n)

-- The text with a tag of sixteen bytes.
abbrev toy_cipher : Aead
toy_cipher = record {
  seal = λ nonce plain. plain ++ zeros 16;
  open_sealed = λ nonce sealed. some (take (length sealed - 16) sealed);
}

toy_cipher-IsAead : IsAead toy_cipher
toy_cipher-IsAead = record {
  grows = λ nonce plain. length-append plain (zeros 16);
  opens = λ nonce plain. ap some (
      take-append_eq (length (plain ++ zeros 16) - 16) plain (zeros 16)
        (omega (arith, length-append plain (zeros 16))));
}

abbrev greedy : ℕ → ℕ → ℕ
greedy space left = if ltb space left then space else left

greedy-IsReader : IsReader greedy
greedy-IsReader = record {
  fits = λ space left. ground arith;
  exists_there = λ space left. ground arith;
  moves = λ space left p q. ground (arith, p, q);
}

abbrev pool : ℕ → Bytes
pool k = zeros pool_buffer_size

pool-IsPool : IsPool pool
pool-IsPool k = length-zeros pool_buffer_size

abbrev sealing : Log
sealing = record { aead = some toy_cipher; prefix = 1 ∷ 2 ∷ 3 ∷ 4 ∷ []; nonce = 0; file = [] }

abbrev plain_log : Log
plain_log = record { aead = none; prefix = 0 ∷ 0 ∷ 0 ∷ 0 ∷ []; nonce = 0; file = [] }

abbrev frames : List Bytes
frames = (31 ∷ 1 ∷ []) ∷ (31 ∷ 5 ∷ 7 ∷ []) ∷ []

abbrev collect : Bytes → List Bytes → List Bytes × Bool
collect frame seen = (seen ++ frame ∷ [], false)

same_cipher : (a : Aead) → some toy_cipher ≡ some a → IsAead a
same_cipher a e = let same : toy_cipher ≡ a = cc e in subst (λ c. IsAead c) same toy_cipher-IsAead

no_cipher : (a : Aead) → none ≡ some a → IsAead a
no_cipher a e = absurd (cc (e))

sealing-Fits : All (Fits sealing) frames
sealing-Fits = (
  (omega arith, omega arith, refl, same_cipher),
  ((omega arith, omega arith, refl, same_cipher), tt),
)

plain_log-Fits : All (Fits plain_log) frames
plain_log-Fits =
    ((omega arith, omega arith, refl, no_cipher), ((omega arith, omega arith, refl, no_cipher), tt))

replay-write_all_example :
    (write_all pool sealing frames >>= λ l. ok (replay sealing.aead collect greedy l.file []))
    ≡ ok (replayed sealing.aead collect greedy (handle_frames collect frames 0 []))
replay-write_all_example =
    replay-write_all collect greedy pool sealing frames [] greedy-IsReader pool-IsPool refl
      sealing-Fits

rotate-all_appended_example :
    rotate greedy pool none plain_log 5 (all_appended plain_log frames)
    ≡ ok (record (all_appended plain_log frames) { file = log_of (items_of plain_log frames) })
rotate-all_appended_example =
    rotate-all_appended greedy pool plain_log plain_log frames 5 greedy-IsReader pool-IsPool
      plain_log-Fits plain_log-Fits refl refl (omega arith) (unfold put_le32 in omega arith)

-- A record of 65,533 bytes.
replay_loop-stalls_example :
    replay_loop none collect greedy 9 (put_le32 65533 ++ zeros 65532) (0 ∷ []) 3 []
    ≡ record { total = 3; result = []; stopped = exhausted }
replay_loop-stalls_example =
    replay_loop-stalls none collect greedy 9 65533 (zeros 65532) (0 ∷ []) 3 [] greedy-IsReader
      (length-zeros 65532) (omega arith) (omega arith)

decode_replay_chunk-Ends_example :
    Ends (9 ∷ 9 ∷ 9 ∷ 9 ∷ 31 ∷ []) (decode_replay_chunk none collect (9 ∷ 9 ∷ 9 ∷ 9 ∷ 31 ∷ []) 0 [])
decode_replay_chunk-Ends_example =
    decode_replay_chunk-Ends none collect (9 ∷ 9 ∷ 9 ∷ 9 ∷ 31 ∷ []) 0 []
