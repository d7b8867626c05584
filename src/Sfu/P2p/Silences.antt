-- ===== src/Sfu/P2p/Silences.antt =====
-- p2precord.go: the signals to a record without a data channel, and what they make it send.
use kwmbridge.Base.{
  ℕ, ◌≡◌, sym, subst, inl, inr, Bool, true, false, not, ◌&&◌, none, List, if◌then◌else◌, arith,
  Text, Bool-cases, Option-cases, is_some, ℕ_key,
}
use kwmbridge.Sfu.Types.{Message, Effect, Outside}
use kwmbridge.Utils.Sdp.{remote_sdp_transform}
use kwmbridge.Sfu.Connection.Signal.{Signal, Remote, SdpType, next}
use kwmbridge.Sfu.P2p.{P2pRecord, reset}
use kwmbridge.Sfu.P2p.Peer.{Source}
use kwmbridge.Sfu.P2p.Signal.{
  Turn, then_stage, lock, bind_remote, renegotiate_stage, finish, noop_stage,
}
use kwmbridge.Sfu.P2p.Handler.{
  release, unlock, candidate_stage, media_stage, peer_stage, answer_offer, take_candidates,
  remote_stage, description_stage, sdp_stage, transceiver_stage, signal_stages, handle_signal,
}
use kwmbridge.Sfu.P2p.Silence.{Silent, reset-Silent, maybe_negotiate-Silent, add_transceiver-Silent}
use kwmbridge.Sfu.P2p.Stages.{
  then_stage-Silent, lock-Silent, bind_remote-Silent, renegotiate_stage-Silent,
  candidate_stage-Silent, media_stage-Silent, peer_stage-Silent, answer_offer-Silent,
  take_candidates-Silent,
}

module _ (w : Outside) (send_text : ℕ → Message → Bool) (source_of : ℕ → Source) where
  module _ (r : Remote) (others : ℕ → P2pRecord → P2pRecord)
      (quiet : (k : ℕ) (l : List Effect) (c : P2pRecord) → Silent l c → Silent l (others k c)) where
    transceiver_stage-Silent :
        (l : List Effect) (s : Signal) (t : Turn)
        → Silent l t.conn
        → Silent l (transceiver_stage w send_text source_of r others s t).1.conn
    unfolding transceiver_stage
    transceiver_stage-Silent l s t (same, mute) = elim (Option-cases (r.request_of s.sdp)) [
      | inl bad ↦ ground (arith, same, mute)
      | inr (kind, parsed) ↦ ground (
        arith,
        same,
        mute,
        add_transceiver-Silent w send_text (r.codec_type kind) none t.conn mute,
      )
    ]

    remote_stage-Silent :
        (l : List Effect) (type : SdpType) (sdp : Text) (t : Turn)
        → Silent l t.conn
        → Silent l (remote_stage w send_text source_of r others type sdp t).1.conn
    unfolding remote_stage
    remote_stage-Silent l type sdp t h = elim (Option-cases t.pc) [
      | inl free ↦ ground (arith, h)
      | inr (pc, has) ↦ elim (Bool-cases (r.set_remote_description pc type sdp)) [
        | inr refused ↦ ground (arith, h, reset-Silent t.conn)
        | inl set ↦
            let taken = then_stage (lock t) (take_candidates w send_text source_of r others pc) in
            let answered = then_stage taken (answer_offer w send_text source_of r others type) in
            let e : remote_stage w send_text source_of r others type sdp t
                ≡ then_stage answered (release w send_text source_of r others 3) =
              ground arith in
            subst (λ p. Silent l p.1.conn) (sym e)
              (then_stage-Silent l answered (release w send_text source_of r others 3)
                (then_stage-Silent l taken (answer_offer w send_text source_of r others type)
                  (then_stage-Silent l (lock t) (take_candidates w send_text source_of r others pc)
                    (lock-Silent l t h)
                    (take_candidates-Silent w send_text source_of r others quiet l pc))
                  (answer_offer-Silent w send_text source_of r others quiet l type))
                (λ u. quiet 3 l u.conn))
      ]
    ]

    described-Silent :
        (l : List Effect) (ignored : Bool) (type : SdpType) (sdp : Text) (t : Turn)
        → Silent l t.conn
        → Silent l
            (if ignored
              then (next, t)
              else remote_stage w send_text source_of r others type sdp t).1.conn
    described-Silent l true type sdp t h = h
    described-Silent l false type sdp t h = remote_stage-Silent l type sdp t h

    description_stage-Silent :
        (l : List Effect) (initiator : Bool) (type : SdpType) (sdp : Text) (t : Turn)
        → Silent l t.conn
        → Silent l (description_stage w send_text source_of r others initiator type sdp t).1.conn
    unfolding description_stage
    description_stage-Silent l initiator type sdp t h =
        then_stage-Silent l (media_stage w send_text source_of r others initiator type sdp t) _
          (media_stage-Silent w send_text source_of r others quiet l initiator type sdp t h)
          (λ u hu.
            then_stage-Silent l (peer_stage w send_text source_of r others initiator u) _
              (peer_stage-Silent w send_text source_of r others quiet l initiator u hu)
              (λ v. described-Silent l (initiator && not (is_some u.pc)) type sdp v))

    sdp_stage-Silent :
        (l : List Effect) (s : Signal) (t : Turn)
        → Silent l t.conn
        → Silent l (sdp_stage w send_text source_of r others s t).1.conn
    unfolding sdp_stage
    sdp_stage-Silent l s t h = elim (Option-cases (r.sdp_type_of s.sdp_type)) [
      | inl bad ↦ ground (arith, h, quiet 0 l t.conn h)
      | inr (type, typed) ↦ elim (Option-cases (r.string_of s.sdp)) [
        | inl bad ↦ ground (arith, h, quiet 0 l t.conn h)
        | inr (sdp, parsed) ↦
            let t' = unlock w send_text source_of r others 0 t in
            ground (
              arith,
              h,
              description_stage-Silent l t.conn.initiator type (remote_sdp_transform sdp) t'
                  (quiet 0 l t.conn h),
            )
      ]
    ]

    noop_stage-Silent :
        (l : List Effect) (s : Signal) (t : Turn)
        → Silent l t.conn
        → Silent l (noop_stage s t).1.conn
    noop_stage-Silent l s t h = ground (arith, h)

    signal_stages-Silent :
        (l : List Effect) (pcid : Text) (s : Signal) (t : Turn)
        → Silent l t.conn
        → Silent l (signal_stages w send_text source_of r others pcid s t).1.conn
    unfolding signal_stages
    signal_stages-Silent l pcid s t h =
        then_stage-Silent l (renegotiate_stage w send_text source_of pcid s t) _
          (renegotiate_stage-Silent w send_text source_of l pcid s t h)
          (λ t1 h1. then_stage-Silent l (noop_stage s t1) _ (noop_stage-Silent l s t1 h1) (λ t2 h2.
            then_stage-Silent l (candidate_stage w send_text source_of r others s t2) _
              (candidate_stage-Silent w send_text source_of r others quiet l s t2 h2)
              (λ t3 h3.
                then_stage-Silent l (sdp_stage w send_text source_of r others s t3) _
                  (sdp_stage-Silent l s t3 h3) (transceiver_stage-Silent l s))))

    finish-Silent :
        (l : List Effect) (pick : Bool) (t : Turn)
        → Silent l t.conn
        → Silent l (finish w send_text source_of pick t)
    finish-Silent l pick t (same, mute) =
        ground (arith, same, mute, maybe_negotiate-Silent w send_text pick t.conn mute)

    -- A record that was reset sends nothing in answer to any signal: not an answer, an offer or a
    -- request, whatever the handler does, since the reset took its data channel and nothing gives it
    -- one again. This is where what happens to the record while it is unlocked sends nothing.
    pub handle_signal-reset :
        (pick : Bool) (pcid raw : Text) (c : P2pRecord)
        → Silent c.log (handle_signal w send_text source_of r others pick pcid raw (reset c)).1
    unfolding handle_signal
    handle_signal-reset pick pcid raw c =
        let c' = bind_remote pcid (reset c) in
        let bound = bind_remote-Silent c.log pcid (reset c) (reset-Silent c) in
        let t : Turn = record { conn = c'; pc = (reset c).pc } in
        elim (Option-cases (r.signal_of raw)) [
          | inl bad ↦ ground (arith, finish-Silent c.log pick t bound)
          | inr (s, parsed) ↦
              let p = signal_stages w send_text source_of r others pcid s t in
              ground
                (arith, finish-Silent c.log pick p.1 (signal_stages-Silent c.log pcid s t bound))
        ]
