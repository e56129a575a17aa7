-- ===== src/Transport/Unchecked.antt =====
-- internal/transport/broker.go, permissionForFrame and the log's test: they read the raw command
-- byte, the router's dispatch reads the opcode.
use aqueduct.Protocol.Command.{
  is_forwarded-div, has_extensions_bit-div, is_forwarded, has_extensions_bit,
}
use aqueduct.Base.{refl, arith, inr, Option-cases, inl, false, ◌≤◌, ◌⊎◌, true, ◌≡◌, ◌<◌, ℕ, ok}
use aqueduct.Protocol.Frame.{Frame}
use aqueduct.Transport.{Session, Broker, permission_for_frame, log_frame, refused}
use aqueduct.Base.Bytes.{Bytes}

marked :
    (cmd : ℕ) → cmd < 256 → ((has_extensions_bit cmd ≡ true) ⊎ (is_forwarded cmd ≡ true)) → 64 ≤ cmd
marked cmd small (inl e) = ground (arith, has_extensions_bit-div cmd small, e)
marked cmd small (inr e) = ground (arith, is_forwarded-div cmd small, e)

-- A frame with the extension bit or the forwarded bit in its command byte is neither refused nor
-- logged, under any engine, for any client and topic.
pub marked_frame_passes :
    (b : Broker) (client bytes : Bytes) (s : Session) (f : Frame)
    → f.command < 256
    → ((has_extensions_bit f.command ≡ true) ⊎ (is_forwarded f.command ≡ true))
    → (refused b client f ≡ false) × (log_frame b s f bytes ≡ ok s)
unfolding refused log_frame permission_for_frame
marked_frame_passes b client bytes s f small mark =
    let large = marked f.command small mark in
    (
      elim (Option-cases b.authz) [
        | inl e ↦ rw (e, refused) refl
        | inr (engine, e) ↦ rw (e, refused) (ground (arith, large))
      ],
      ground (arith, large),
    )
