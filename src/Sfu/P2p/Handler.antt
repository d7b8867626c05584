-- ===== src/Sfu/P2p/Handler.antt =====
-- p2precord.go: handleWebRTCSignalMessage, the parts of a message that carry a candidate, a
-- description or a request for a transceiver, and the whole handler.
use kwmbridge.Base.{
  ℕ, Bool, true, false, not, ◌&&◌, none, some, List, [], ◌∷◌, ◌++◌, if◌then◌else◌, Text, is_empty,
  is_some,
}
use kwmbridge.Utils.Sdp.{remote_sdp_transform}
use kwmbridge.Sfu.Types.{
  audio, video, Message, Outcome, ok, err, parse_failed, populate_failed, candidate_failed,
  remote_failed, nil_pointer, Outside,
}
use kwmbridge.Sfu.Connection.Signal.{SdpType, type_offer, Signal, Remote, next, ended, outcome_of}
use kwmbridge.Sfu.P2p.{P2pRecord, negotiation_needed}
use kwmbridge.Sfu.P2p.Transceivers.{add_transceiver, create_answer}
use kwmbridge.Sfu.P2p.Peer.{Source}
use kwmbridge.Sfu.P2p.Signal.{
  Turn, Stage, then_stage, lock, bind_remote, reset_with, renew, renegotiate_stage, noop_stage,
  add_pending, finish, note_codecs,
}

module _ (w : Outside) (send_text : ℕ → Message → Bool) (source_of : ℕ → Source) (r : Remote)
    (others : ℕ → P2pRecord → P2pRecord) where
  -- `unlock`, for the time with the number `k`.
  abbrev pub unlock : ℕ → Turn → Turn
  unlock k t = record t { conn = others k t.conn }

  -- A candidate that waits for the remote description.
  abbrev pub wait_for : Text → Stage
  wait_for candidate t = (
    next,
    record t {
      conn = record t.conn { pending_candidates = t.conn.pending_candidates ++ (candidate ∷ []) };
    },
  )

  abbrev pub take_candidate : Text → Stage
  take_candidate candidate t = elim t.pc [
    | none ↦ wait_for candidate t
    | some pc ↦
        if r.has_remote_description pc
        then (if r.add_ice_candidate pc candidate
            then (next, t)
            else reset_with w send_text source_of candidate_failed t)
        else wait_for candidate t
  ]

  -- The part for `signal.Candidate`.
  unfoldable pub candidate_stage : Signal → Stage
  candidate_stage s t =
      if is_empty s.candidate then (next, t) else elim (r.candidate_of s.candidate) [
        | none ↦ (ended (err parse_failed), t)
        | some candidate ↦ if is_empty candidate then (next, t) else take_candidate candidate t
      ]

  -- `unlock` as a part that goes on.
  abbrev pub release : ℕ → Stage
  release k t = (next, unlock k t)

  abbrev pub set_media : ℕ → Stage
  set_media media t = release 1 (record t {
    conn = record (note_codecs w send_text source_of media audio t.conn) {
      webrtc_media = some media;
    };
  })

  -- The media engine that is made of the description that the other side offers.
  unfoldable pub media_stage : Bool → SdpType → Text → Stage
  media_stage initiator type sdp t =
      if initiator then (next, t) else elim (r.populate_from_sdp type sdp) [
        | none ↦ reset_with w send_text source_of populate_failed t
        | some media ↦
            then_stage
              (lock (record t { conn = note_codecs w send_text source_of media video t.conn }))
              (set_media media)
      ]

  -- The peer connection that is made where there is none.
  unfoldable pub peer_stage : Bool → Stage
  peer_stage initiator t = elim t.pc [
    | some _ ↦ (next, t)
    | none ↦
        let t' = if initiator then record t { conn = negotiation_needed t.conn } else t in
        then_stage (then_stage (lock t') (renew w send_text source_of [])) (release 2)
  ]

  -- Whether all candidates are taken, which are given to the peer connection in order.
  unfoldable pub add_candidates : ℕ → List Text → Bool
  add_candidates pc [] = true
  add_candidates pc (c ∷ rest) =
      let others_taken = add_candidates pc rest in
      if r.add_ice_candidate pc c then others_taken else false

  abbrev pub answer_offer : SdpType → Stage
  answer_offer type_offer t =
      let c = add_pending w send_text source_of t.conn.pending t.conn in
      elim (create_answer w send_text c).0 [
        | err e ↦
            reset_with w send_text source_of e (record t { conn = (create_answer w send_text c).1 })
        | ok _ ↦ (next, record t { conn = (create_answer w send_text c).1 })
      ]
  answer_offer _ t = (next, t)

  abbrev pub take_candidates : ℕ → Stage
  take_candidates pc t =
      if add_candidates pc t.conn.pending_candidates
      then (next, record t { conn = record t.conn { pending_candidates = [] } })
      else reset_with w send_text source_of candidate_failed t

  -- The description is set, and an offer is answered.
  unfoldable pub remote_stage : SdpType → Text → Stage
  remote_stage type sdp t = elim t.pc [
    | none ↦ (ended (err nil_pointer), t)
    | some pc ↦
        if r.set_remote_description pc type sdp
        then then_stage (then_stage (then_stage (lock t) (take_candidates pc)) (answer_offer type))
            (release 3)
        else reset_with w send_text source_of remote_failed t
  ]

  -- A description that was parsed. Without a peer connection, the side that starts connections
  -- ignores it.
  unfoldable pub description_stage : Bool → SdpType → Text → Stage
  description_stage initiator type sdp t = then_stage (media_stage initiator type sdp t) (λ u.
      then_stage (peer_stage initiator u)
        (λ v. if initiator && not (is_some u.pc) then (next, v) else remote_stage type sdp v))

  -- The part for `signal.SDP`.
  unfoldable pub sdp_stage : Signal → Stage
  sdp_stage s t = if is_empty s.sdp then (next, t) else elim (r.sdp_type_of s.sdp_type) [
    | none ↦ (ended (err parse_failed), unlock 0 t)
    | some type ↦ elim (r.string_of s.sdp) [
      | none ↦ (ended (err parse_failed), unlock 0 t)
      | some sdp ↦ description_stage t.conn.initiator type (remote_sdp_transform sdp) (unlock 0 t)
    ]
  ]

  abbrev pub add_requested : Text → Stage
  add_requested kind t = elim (add_transceiver w send_text (r.codec_type kind) none t.conn).0 [
    | err e ↦ (
      ended (err e),
      record t { conn = (add_transceiver w send_text (r.codec_type kind) none t.conn).1 },
    )
    | ok _ ↦
        (next, record t { conn = (add_transceiver w send_text (r.codec_type kind) none t.conn).1 })
  ]

  -- The part for `signal.TransceiverRequest`; what it parses is `signal.SDP`.
  unfoldable pub transceiver_stage : Signal → Stage
  transceiver_stage s t =
      if is_empty s.transceiver_request
      then (next, t)
      else if t.conn.initiator
      then (elim (r.request_of s.sdp) [
        | none ↦ (ended (err parse_failed), t)
        | some kind ↦ add_requested kind t
      ])
      else (next, t)

  -- The parts of the handler behind the parsing of the message's data.
  unfoldable pub signal_stages : Text → Signal → Stage
  signal_stages pcid s t = then_stage (renegotiate_stage w send_text source_of pcid s t) (λ t1.
      then_stage (noop_stage s t1) (λ t2.
        then_stage (candidate_stage s t2)
          (λ t3. then_stage (sdp_stage s t3) (transceiver_stage s))))

  -- The result and the record. `pick` is the choice of maybeNegotiateAndUnlock.
  unfoldable pub handle_signal : Bool → Text → Text → P2pRecord → Outcome (Unit {0}) × P2pRecord
  handle_signal pick pcid raw c =
      let t : Turn = record { conn = bind_remote pcid c; pc = c.pc } in
      elim (r.signal_of raw) [
        | none ↦ (err parse_failed, finish w send_text source_of pick t)
        | some s ↦
            let p = signal_stages pcid s t in
            (outcome_of p.0, finish w send_text source_of pick p.1)
      ]
