-- ===== src/Sfu/P2p/Stages.antt =====
-- p2precord.go: the stages that handle a signal to a record without a data channel, and what they
-- make it send.
use kwmbridge.Base.{
  ℕ, ◌≡◌, sym, subst, ◌∙◌, inl, inr, Bool, true, false, some, List, [], ◌∷◌, if◌then◌else◌, arith,
  Text, Option-cases, ℕ_key,
}
use kwmbridge.Sfu.Types.{audio, video, TrackRecord, Message, Effect, Outcome, ok, err, Outside}
use kwmbridge.Sfu.Connection.Signal.{
  Signal, Remote, SdpType, type_offer, type_pranswer, type_answer, type_rollback, Progress, next,
  ended,
}
use kwmbridge.Sfu.P2p.{P2pRecord, negotiation_needed}
use kwmbridge.Sfu.P2p.Transceivers.{create_answer}
use kwmbridge.Sfu.P2p.Tracks.{add_track}
use kwmbridge.Sfu.P2p.Peer.{Source, create_peer_connection}
use kwmbridge.Sfu.P2p.Signal.{
  Turn, Stage, then_stage, lock, bind_remote, renew, renegotiate_stage, settle, add_pending,
  note_codecs,
}
use kwmbridge.Sfu.P2p.Handler.{
  release, set_media, candidate_stage, media_stage, peer_stage, answer_offer, take_candidates,
}
use kwmbridge.Sfu.P2p.Silence.{
  Silent, reset-Silent, clear_peer_connection-Silent, create_answer-Silent, add_track-Silent,
  create_peer_connection-Silent,
}

pub then_stage-Silent :
    (l : List Effect) (p : Progress × Turn) (k : Stage)
    → Silent l p.1.conn
    → ((t : Turn) → Silent l t.conn → Silent l (k t).1.conn)
    → Silent l (then_stage p k).1.conn
then_stage-Silent l (next, t) k h step = step t h
then_stage-Silent l (ended o, t) k h step = h

pub lock-Silent : (l : List Effect) (t : Turn) → Silent l t.conn → Silent l (lock t).1.conn
lock-Silent l t h = ground (arith, h)

pub bind_remote-Silent :
    (l : List Effect) (pcid : Text) (c : P2pRecord) → Silent l c → Silent l (bind_remote pcid c)
unfolding bind_remote
bind_remote-Silent l pcid c (same, mute) =
    ground (arith, same, mute, clear_peer_connection-Silent c mute)

settle-Silent :
    (l : List Effect) (ssrc : ℕ) (p : Outcome Bool × P2pRecord)
    → Silent l p.1
    → Silent l (settle ssrc p)
unfolding settle negotiation_needed
settle-Silent l ssrc (err e, c) h = h
settle-Silent l ssrc (ok true, c) h = ground (arith, h)
settle-Silent l ssrc (ok false, c) h = h

module _ (w : Outside) (send_text : ℕ → Message → Bool) (source_of : ℕ → Source) where
  add_pending-Silent :
      (l : List Effect) (pending : List (ℕ × TrackRecord)) (c : P2pRecord)
      → Silent l c
      → Silent l (add_pending w send_text source_of pending c)
  unfolding add_pending
  add_pending-Silent l [] c h = h
  add_pending-Silent l ((ssrc, r) ∷ rest) c (same, mute) =
      let p = add_track w send_text r c in
      let (same', mute') = add_track-Silent w send_text r c mute in
      add_pending-Silent l rest (settle ssrc p) (settle-Silent l ssrc p (same' ∙ same, mute'))

  renew-Silent :
      (l : List Effect) (rpcid : Text) (t : Turn)
      → Silent l t.conn
      → Silent l (renew w send_text source_of rpcid t).1.conn
  renew-Silent l rpcid t (same, mute) =
      let p = create_peer_connection w send_text source_of rpcid t.conn in
      let (same', mute') = create_peer_connection-Silent w send_text source_of rpcid t.conn mute in
      ground (arith, same, same', mute', reset-Silent p.1)

  pub renegotiate_stage-Silent :
      (l : List Effect) (pcid : Text) (s : Signal) (t : Turn)
      → Silent l t.conn
      → Silent l (renegotiate_stage w send_text source_of pcid s t).1.conn
  unfolding renegotiate_stage negotiation_needed
  renegotiate_stage-Silent l pcid s t h = ground (arith, h, renew-Silent l pcid t h)

  module _ (r : Remote) (others : ℕ → P2pRecord → P2pRecord)
      (quiet : (k : ℕ) (l : List Effect) (c : P2pRecord) → Silent l c → Silent l (others k c)) where
    pub candidate_stage-Silent :
        (l : List Effect) (s : Signal) (t : Turn)
        → Silent l t.conn
        → Silent l (candidate_stage w send_text source_of r others s t).1.conn
    unfolding candidate_stage
    candidate_stage-Silent l s t h = elim (Option-cases (r.candidate_of s.candidate)) [
      | inl bad ↦ ground (arith, h)
      | inr (candidate, parsed) ↦ elim (Option-cases t.pc) [
        | inl free ↦ ground (arith, h)
        | inr (pc, has) ↦ ground (arith, h, reset-Silent t.conn)
      ]
    ]

    pub media_stage-Silent :
        (l : List Effect) (initiator : Bool) (type : SdpType) (sdp : Text) (t : Turn)
        → Silent l t.conn
        → Silent l (media_stage w send_text source_of r others initiator type sdp t).1.conn
    unfolding media_stage
    media_stage-Silent l true type sdp t h = h
    media_stage-Silent l false type sdp t h = elim (Option-cases (r.populate_from_sdp type sdp)) [
      | inl bad ↦ ground (arith, h, reset-Silent t.conn)
      | inr (media, made) ↦
          let t' = record t { conn = note_codecs w send_text source_of media video t.conn } in
          let e : media_stage w send_text source_of r others false type sdp t
              ≡ then_stage (lock t') (set_media w send_text source_of r others media) =
            ground arith in
          subst (λ p. Silent l p.1.conn) (sym e)
            (then_stage-Silent l (lock t') (set_media w send_text source_of r others media)
              (lock-Silent l t' h)
              (λ u h'.
                quiet 1 l
                  (record (note_codecs w send_text source_of media audio u.conn) {
                    webrtc_media = some media;
                  })
                  h'))
    ]

    pub peer_stage-Silent :
        (l : List Effect) (initiator : Bool) (t : Turn)
        → Silent l t.conn
        → Silent l (peer_stage w send_text source_of r others initiator t).1.conn
    unfolding peer_stage negotiation_needed
    peer_stage-Silent l initiator t h = elim (Option-cases t.pc) [
      | inr (pc, has) ↦ ground (arith, h)
      | inl free ↦
          let t' = if initiator then record t { conn = negotiation_needed t.conn } else t in
          let made = then_stage (lock t') (renew w send_text source_of []) in
          let e : peer_stage w send_text source_of r others initiator t
              ≡ then_stage made (release w send_text source_of r others 2) =
            ground arith in
          let started : Silent l t'.conn = ground (arith, h) in
          subst (λ p. Silent l p.1.conn) (sym e)
            (then_stage-Silent l made (release w send_text source_of r others 2)
              (then_stage-Silent l (lock t') (renew w send_text source_of [])
                (lock-Silent l t' started) (renew-Silent l []))
              (λ u. quiet 2 l u.conn))
    ]

    pub answer_offer-Silent :
        (l : List Effect) (type : SdpType) (t : Turn)
        → Silent l t.conn
        → Silent l (answer_offer w send_text source_of r others type t).1.conn
    answer_offer-Silent l type_offer t h =
        let c = add_pending w send_text source_of t.conn.pending t.conn in
        let (same, mute) = add_pending-Silent l t.conn.pending t.conn h in
        let p = create_answer w send_text c in
        let (same', mute') = create_answer-Silent w send_text c mute in
        ground (arith, same, same', mute', reset-Silent p.1)
    answer_offer-Silent l type_pranswer t h = h
    answer_offer-Silent l type_answer t h = h
    answer_offer-Silent l type_rollback t h = h

    pub take_candidates-Silent :
        (l : List Effect) (pc : ℕ) (t : Turn)
        → Silent l t.conn
        → Silent l (take_candidates w send_text source_of r others pc t).1.conn
    take_candidates-Silent l pc t h = ground (arith, h, reset-Silent t.conn)
