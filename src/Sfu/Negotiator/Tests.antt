-- ===== src/Sfu/Negotiator/Tests.antt =====
-- The refinements, at a run in which a negotiation is asked for twice.
use kwmbridge.Base.{ℕ, Bool, ◌≡◌, refl, true, false, none, some, List, [], ◌∷◌, arith, codes}
use kwmbridge.Sfu.Types.{Message}
use kwmbridge.Sfu.Samples.{world, live}
use kwmbridge.Sfu.Connection.{new_connection}
use kwmbridge.Sfu.Connection.Queue.{Working}
use kwmbridge.Sfu.P2p.{P2pRecord, new_record}
use kwmbridge.Sfu.Negotiator.{Operation, ask, settle, stabilise, phases, run}
use kwmbridge.Sfu.Negotiator.Connections
use kwmbridge.Sfu.Negotiator.Connections.{
  connection_phase, connection_negotiator, connection_refines,
}
use kwmbridge.Sfu.Negotiator.P2pRecords
use kwmbridge.Sfu.Negotiator.P2pRecords.{record_phase, record_negotiator, record_refines}

abbrev twice : List Operation
twice = ask ∷ settle ∷ ask ∷ settle ∷ stabilise ∷ []

works : Working world
works = ((λ m. refl), (λ pc e. ground arith), (λ pc sdp. refl))

live-IsLive : Connections.IsLive live
unfolding new_connection
live-IsLive = (refl, refl)

connection_refines_example :
    connection_phase (run (connection_negotiator world false works refl) twice live)
    ≡ phases twice (connection_phase live)
connection_refines_example = connection_refines world false twice live works refl live-IsLive

abbrev sends : ℕ → Message → Bool
sends _ _ = true

abbrev stream : P2pRecord
stream = record (new_record false false 1 (some 3) (codes "s") (codes "t") none) { pc = some 5 }

stream-IsLive : P2pRecords.IsLive stream
unfolding new_record
stream-IsLive = (refl, refl, refl)

stream_works : P2pRecords.Working world sends false
stream_works = ((λ channel m. refl), (λ pc e. ground arith), (λ pc sdp. refl))

record_refines_example :
    record_phase (run (record_negotiator world sends false stream_works refl) twice stream)
    ≡ phases twice (record_phase stream)
record_refines_example =
    record_refines world sends false twice stream stream_works refl stream-IsLive
