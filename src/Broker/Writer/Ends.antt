-- ===== src/Broker/Writer/Ends.antt =====
-- internal/broker/router.go, runSubscriberWriter from its start to its deferred calls.
use aqueduct.Base.{[], ◌∷◌, refl, ◌∙◌, ◌+◌, ap, arith, ◌<◌, [], ◌≡◌, ℕ}
use aqueduct.Broker.Queue.Balance.{occurs}
use aqueduct.Broker.Writer.{panics, returns, goes_on, Going, new_writer}
use aqueduct.Broker.Writer.Rounds.{
  next_rounds, Settings, Running, Moments, run_rounds, writer_round, finish, run_subscriber_writer,
}
use aqueduct.Broker.Writer.Nacks.{NackCounters}
use aqueduct.Broker.Router.{Router}
use aqueduct.Broker.Router.Balance.{Balanced}
use aqueduct.Broker.Writer.Accounts.{holding, Balanced-same}
use aqueduct.Broker.Writer.Balance.{writer_round-Balanced, finish-Balanced}
use aqueduct.Broker.Writer.Bounds.{IsTidy, writer_round-IsTidy, flush-pending}

module _ (c : Settings) (extra : ℕ → ℕ) where
  -- Between two rounds.
  abbrev IsKept : Running → Type 0
  IsKept s = Balanced s.router (holding s.writer extra) × IsTidy s.writer

  next_rounds-IsKept :
      (es : Moments) (after : Running × Going)
      → IsKept after.0
      → ((s : Running) → IsKept s → IsKept (run_rounds c es s).0)
      → IsKept (next_rounds after (run_rounds c es)).0
  next_rounds-IsKept es (s, goes_on) k rest = rest s k
  next_rounds-IsKept es (s, returns) k rest = k
  next_rounds-IsKept es (s, panics) k rest = k

  run_rounds-IsKept : (es : Moments) (s : Running) → IsKept s → IsKept (run_rounds c es s).0
  unfolding run_rounds
  run_rounds-IsKept [] s k = k
  run_rounds-IsKept ((o, e) ∷ es) s k =
      next_rounds-IsKept es (writer_round c o s e)
        (writer_round-Balanced c extra o s e k.0, writer_round-IsTidy c o s e k.1)
        (run_rounds-IsKept es)

  finish-pending : (s : Running) → IsTidy s.writer → (finish c s).writer.pending ≡ []
  unfolding finish
  finish-pending s t = flush-pending c.attempt s.writer s.router.refs t

-- A writer that ended holds nothing: from a balanced router, whatever its rounds met, whichever of
-- its writes failed and wherever it stopped, every counter is again the number of queue entries and
-- of the other holders' references, none was taken below 0, and the accumulator is without
-- references. The batch size is at least 1.
pub run_subscriber_writer-Balanced :
    (c : Settings) (extra : ℕ → ℕ) (es : Moments) (r : Router) (counters : NackCounters)
    → 0 < c.batch_size
    → Balanced r extra
    → Balanced (run_subscriber_writer c es r counters).router extra
      × ((run_subscriber_writer c es r counters).writer.pending ≡ [])
unfolding run_subscriber_writer new_writer
run_subscriber_writer-Balanced c extra es r counters h b =
    let s : Running = record {
      router = r;
      counters = counters;
      writer = new_writer c.batch_size;
    } in
    let start : IsKept c extra s = (
      Balanced-same r extra (holding s.writer extra) (λ j. omega arith) b,
      record { settled = λ e. refl; room = h; bounded = omega arith },
    ) in
    let last = run_rounds-IsKept c extra es s start in
    let t = (run_rounds c es s).0 in
    let nothing = finish-pending c extra t last.1 in
    let b1 = finish-Balanced c t extra last.0 in
    (
      Balanced-same (finish c t).router (holding (finish c t).writer extra) extra
          (λ j. ap (λ p. occurs p j + extra j) nothing ∙ omega arith) b1,
      nothing,
    )
