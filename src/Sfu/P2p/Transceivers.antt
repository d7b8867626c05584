-- ===== src/Sfu/P2p/Transceivers.antt =====
-- p2precord.go: answers, and the transceivers that are added or asked for.
use kwmbridge.Base.{
  ℕ, Bool, not, Option, none, some, List, [], ◌∷◌, if◌then◌else◌, is_some, lookup, insert, ℕ_key,
}
use kwmbridge.Utils.Sdp.{local_sdp_transform}
use kwmbridge.Sfu.Types.{
  Track, Kind, Direction, Message, answer, transceiver_request, ok, err, answer_failed,
  local_failed, transceiver_failed, nil_pointer, Outside, experiment_add_transceiver,
}
use kwmbridge.Sfu.Steps.{after, ◌>>=◌, ◌>>◌, return, answer_or, check, ignore_error}
use kwmbridge.Sfu.Connection.Transceivers.{flip_init}
use kwmbridge.Sfu.P2p.{M, message, send, reset, negotiation_needed}

module _ (w : Outside) (send_text : ℕ → Message → Bool) where
  -- addTransceiver for the side that starts the connection.
  unfoldable pub add_own_transceiver : Kind → Option Direction → M (Unit {0})
  add_own_transceiver kind init c = elim c.pc [
    | none ↦ (err nil_pointer, c)
    | some pc ↦
        if w.add_transceiver_from_kind pc kind init
        then (ok tt, negotiation_needed c)
        else (err transceiver_failed, reset c)
  ]

  unfoldable pub add_transceiver : Kind → Option Direction → M (Unit {0})
  add_transceiver kind init c =
      if c.initiator
      then add_own_transceiver kind init c
      else if not experiment_add_transceiver
      then (ok tt, c)
      else send send_text (message (transceiver_request kind (flip_init init)) c) c

  unfoldable pub request_missing_transceiver : Track → Direction → M (Unit {0})
  request_missing_transceiver t direction c =
      if is_some (lookup t.ssrc c.requested_transceivers)
      then (ok tt, c)
      else add_transceiver t.kind (some direction)
          (record c { requested_transceivers = insert t.ssrc tt c.requested_transceivers })

  -- The loop of requestMissingTransceivers, over the transceivers that it is given.
  unfoldable pub request_each : List (Option Track × Direction) → M (Unit {0})
  request_each [] c = (ok tt, c)
  request_each ((none, _) ∷ rest) c = request_each rest c
  request_each ((some t, direction) ∷ rest) c =
      after (request_missing_transceiver t direction c) (λ _. request_each rest)

  unfoldable pub request_missing_transceivers : M (Unit {0})
  request_missing_transceivers c = elim c.pc [
    | none ↦ (err nil_pointer, c)
    | some pc ↦ request_each (w.transceivers pc) c
  ]

  -- createAnswer. Its wait for the end of the ICE gathering is left out. Failures of what follows
  -- the answer are only logged.
  unfoldable pub create_answer : M (Unit {0})
  create_answer c = elim c.pc [
    | none ↦ (err nil_pointer, c)
    | some pc ↦
        (do
          sdp ← answer_or answer_failed (w.create_answer pc)
          let sdp' = local_sdp_transform sdp
          check local_failed (w.set_local_description pc sdp')
          ignore_error (send send_text (message (answer sdp') c))
          (if c.initiator then return tt else ignore_error request_missing_transceivers))
          c
  ]
