-- ===== src/Sfu/Connection/Transceivers.antt =====
-- connectionrecord.go: answers, and the transceivers that are added or asked for.
use kwmbridge.Base.{
  Bool, not, ◌&&◌, ◌||◌, Option, none, some, List, [], ◌∷◌, if◌then◌else◌, is_some, lookup, insert,
  ℕ_key,
}
use kwmbridge.Utils.Sdp.{local_sdp_transform}
use kwmbridge.Sfu.Types.{
  Track, Kind, Direction, unknown, sendrecv, sendonly, recvonly, inactive, answer,
  transceiver_request, ok, err, answer_failed, local_failed, transceiver_failed, nil_pointer,
  Outside, experiment_add_transceiver, experiment_always_add_transceiver_to_sender,
}
use kwmbridge.Sfu.Connection.{
  M, after, ◌>>=◌, ◌>>◌, return, answer_or, check, ignore_error, reset, negotiation_needed,
}
use kwmbridge.Sfu.Connection.Negotiation.{message, send}

-- The direction that the other side is asked for; one that the `switch` does not name leaves the
-- zero value.
unfoldable pub flip : Direction → Direction
flip sendonly = recvonly
flip recvonly = sendonly
flip sendrecv = sendrecv
flip unknown = unknown
flip inactive = unknown

abbrev pub flip_init : Option Direction → Option Direction
flip_init none = none
flip_init (some d) = some (flip d)

module _ (w : Outside) where
  -- addTransceiver for the side that starts the connection.
  unfoldable pub add_own_transceiver : Kind → Option Direction → M (Unit {0})
  add_own_transceiver kind init c = elim c.pc [
    | none ↦ (err nil_pointer, c)
    | some pc ↦
        if w.add_transceiver_from_kind pc kind init
        then (ok tt, negotiation_needed c)
        else (err transceiver_failed, reset w.ws_done c)
  ]

  unfoldable pub add_transceiver : Kind → Option Direction → M (Unit {0})
  add_transceiver kind init c =
      if c.initiator
      then add_own_transceiver kind init c
      else if not experiment_add_transceiver
      then (ok tt, c)
      else send w (message w (transceiver_request kind (flip_init init)) c) c

  unfoldable pub request_missing_transceiver : Track → Direction → M (Unit {0})
  request_missing_transceiver t direction c =
      if is_some (lookup t.ssrc c.requested_transceivers)
      then (ok tt, c)
      else add_transceiver t.kind (some direction)
          (record c { requested_transceivers = insert t.ssrc tt c.requested_transceivers })

  -- The loop of requestMissingTransceivers, over the transceivers that it is given.
  unfoldable pub request_each : List (Option Track × Direction) → M (Unit {0})
  request_each [] c = (ok tt, c)
  request_each ((none, _) ∷ rest) c = request_each rest c
  request_each ((some t, direction) ∷ rest) c =
      after (request_missing_transceiver t direction c) (λ _. request_each rest)

  unfoldable pub request_missing_transceivers : M (Unit {0})
  request_missing_transceivers c = elim c.pc [
    | none ↦ (err nil_pointer, c)
    | some pc ↦ request_each (w.transceivers pc) c
  ]

  -- The end of createAnswer.
  unfoldable pub after_answer : Bool → Bool → M (Unit {0})
  after_answer initiator pipeline =
      if not initiator && (not pipeline || not experiment_always_add_transceiver_to_sender)
      then ignore_error request_missing_transceivers
      else return tt

  -- createAnswer. Its wait for the end of the ICE gathering is left out. Failures of what follows
  -- the answer are only logged.
  unfoldable pub create_answer : M (Unit {0})
  create_answer c = elim c.pc [
    | none ↦ (err nil_pointer, c)
    | some pc ↦
        (do
          sdp ← answer_or answer_failed (w.create_answer pc)
          let sdp' = local_sdp_transform sdp
          check local_failed (w.set_local_description pc sdp')
          ignore_error (send w (message w (answer sdp') c))
          after_answer c.initiator c.pipeline)
          c
  ]
