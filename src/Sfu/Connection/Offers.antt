-- ===== src/Sfu/Connection/Offers.antt =====
-- channel.go: what becomes of an offer to the side that does not start a connection.
use kwmbridge.Base.{
  ℕ, suc, ◌∙◌, ◌≡◌, refl, Bool, true, false, some, [], arith, ==_iff, Text, text_eq_iff, is_empty,
  ℕ_key,
}
use kwmbridge.Utils.Sdp.{remote_sdp_transform}
use kwmbridge.Sfu.Types.{audio, video, ok, Outside}
use kwmbridge.Sfu.Connection.{Connection}
use kwmbridge.Sfu.Connection.Transceivers.{create_answer}
use kwmbridge.Sfu.Connection.Answers.{
  answers, CanAnswer, add_pending-Quiet, create_answer_once, maybe_negotiate-Quiet,
}
use kwmbridge.Sfu.Connection.Signal.{
  SdpType, type_offer, add_pending, Signal, Remote, Turn, next, then_stage, same_pc, bind_remote,
  renegotiate_stage, note_codecs,
}
use kwmbridge.Sfu.Connection.Handler.{
  add_candidates, candidate_stage, media_stage, peer_stage, remote_stage, description_stage,
  sdp_stage, transceiver_stage, signal_stages, handle_signal,
}

module _ (w : Outside) (r : Remote) (others : ℕ → Connection → Connection) where
  -- The calls outside that an offer on the peer connection needs succeed.
  abbrev pub Takes : ℕ → Text → Connection → Type 0
  Takes pc sdp c =
      CanAnswer w pc
      × (r.set_remote_description pc type_offer (remote_sdp_transform sdp) ≡ true)
      × (add_candidates w r others pc c.pending_candidates ≡ true)

  media_stage_keeps :
      (type : SdpType) (sdp : Text) (t : Turn) (media : ℕ)
      → ((k : ℕ) (d : Connection) → others k d ≡ d)
      → r.populate_from_sdp type sdp ≡ some media
      → same_pc t.conn.pc t.pc ≡ true
      → media_stage w r others false type sdp t ≡ (
        next,
        record t {
          conn = record (note_codecs w media audio (note_codecs w media video t.conn)) {
            webrtc_media = some media;
          };
        },
      )
  unfolding media_stage
  media_stage_keeps type sdp t media alone populated same = ground (
    arith,
    alone 1 (record (note_codecs w media audio (note_codecs w media video t.conn)) {
      webrtc_media = some media;
    }),
  )

  remote_stage-answers :
      (pc : ℕ) (sdp : Text) (t : Turn)
      → ((k : ℕ) (d : Connection) → others k d ≡ d)
      → Takes pc sdp t.conn
      → t.pc ≡ some pc
      → t.conn.pc ≡ some pc
      → t.conn.initiator ≡ false
      → let p = remote_stage w r others type_offer (remote_sdp_transform sdp) t in
        (p.0 ≡ next)
        × (p.1.send_call_answer ≡ true)
        × (answers p.1.conn.log ≡ suc (answers t.conn.log))
        × (p.1.conn.initiator ≡ false)
        × (p.1.conn.pc ≡ some pc)
        × (p.1.pc ≡ some pc)
  unfolding remote_stage
  remote_stage-answers pc sdp t alone (can, sets, takes) local has asks =
      let c = record t.conn { pending_candidates = [] } in
      let c' = add_pending w c.pending c in
      let quiet = add_pending-Quiet w c.pending c asks in
      let made = create_answer_once w pc c' can (quiet.1 ∙ has) (quiet.2 ∙ asks) in
      ground (arith, alone 3 (create_answer w c').1, ==_iff pc pc, quiet, made)

  -- A signal with a description and nothing before it.
  abbrev pub IsPlain : Signal → Type 0
  IsPlain s =
      (s.renegotiate ≡ false)
      × (s.noop ≡ false)
      × (s.candidate ≡ [])
      × (is_empty s.sdp ≡ false)
      × (s.transceiver_request ≡ [])

  -- The parts of the handler, on such a signal.
  signal_stages_plain :
      (sdp : Text) (s : Signal) (c : Connection) (pc media : ℕ)
      → ((k : ℕ) (d : Connection) → others k d ≡ d)
      → c.initiator ≡ false
      → c.pc ≡ some pc
      → IsPlain s
      → r.sdp_type_of s.sdp_type ≡ some type_offer
      → r.string_of s.sdp ≡ some sdp
      → r.populate_from_sdp type_offer (remote_sdp_transform sdp) ≡ some media
      → let t : Turn = record { conn = c; pc = some pc; send_call_answer = false } in
        let c' = record (note_codecs w media audio (note_codecs w media video c)) {
          webrtc_media = some media;
        } in
        let t' : Turn = record { conn = c'; pc = some pc; send_call_answer = false } in
        signal_stages w r others c.rpcid s t
        ≡ then_stage
            (remote_stage w r others type_offer (remote_sdp_transform sdp) t')
            (transceiver_stage w r others s)
  unfolding signal_stages renegotiate_stage candidate_stage sdp_stage description_stage peer_stage
  signal_stages_plain sdp s c pc media alone asks has plain is_offer is_text populated =
      let t : Turn = record { conn = c; pc = some pc; send_call_answer = false } in
      let noted =
        media_stage_keeps type_offer (remote_sdp_transform sdp) t media alone populated
          (ground (arith, ==_iff pc pc)) in
      ground (arith, alone 0 c, noted)

  -- An offer that reaches the side which does not start the connection, under the pcid that its
  -- peer connection is bound to, is answered: the handler returns no error, exactly one answer is
  -- sent, and the peer connection stays. This is where nothing else changes the record meanwhile
  -- and the calls outside succeed.
  pub offer_answered :
      (pick : Bool) (raw sdp : Text) (s : Signal) (c : Connection) (pc media : ℕ)
      → ((k : ℕ) (d : Connection) → others k d ≡ d)
      → Takes pc sdp c
      → c.initiator ≡ false
      → c.pc ≡ some pc
      → r.signal_of raw ≡ some s
      → IsPlain s
      → r.sdp_type_of s.sdp_type ≡ some type_offer
      → r.string_of s.sdp ≡ some sdp
      → r.populate_from_sdp type_offer (remote_sdp_transform sdp) ≡ some media
      → let p = handle_signal w r others pick c.rpcid raw c in
        (p.0 ≡ (ok tt, true)) × (answers p.1.log ≡ suc (answers c.log)) × (p.1.pc ≡ some pc)
  unfolding handle_signal transceiver_stage bind_remote
  offer_answered pick raw sdp s c pc media alone takes asks has parsed plain is_offer is_text
        populated =
      let c' = record (note_codecs w media audio (note_codecs w media video c)) {
        webrtc_media = some media;
      } in
      let t' : Turn = record { conn = c'; pc = some pc; send_call_answer = false } in
      let p = remote_stage w r others type_offer (remote_sdp_transform sdp) t' in
      let stages =
        signal_stages_plain sdp s c pc media alone asks has plain is_offer is_text populated in
      let (fine, told, one, side, stays, local) =
        remote_stage-answers pc sdp t' alone takes refl has asks in
      let quiet = maybe_negotiate-Quiet w pick p.1.conn side in
      ground (
        arith,
        text_eq_iff c.rpcid c.rpcid,
        ==_iff pc pc,
        stages,
        fine,
        told,
        one,
        stays,
        local,
        quiet,
      )
