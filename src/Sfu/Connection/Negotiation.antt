-- ===== src/Sfu/Connection/Negotiation.antt =====
-- connectionrecord.go: offers, requests for an offer, and the queue of one negotiation.
use kwmbridge.Base.{
  ℕ, Bool, true, false, not, ◌&&◌, ◌||◌, none, some, [], ◌∷◌, if◌then◌else◌, ◌==◌, is_empty,
}
use kwmbridge.Utils.Sdp.{local_sdp_transform}
use kwmbridge.Sfu.Types.{
  Message, Payload, offer, renegotiate, sent, ok, err, send_failed, offer_failed, local_failed,
  Outside, webrtc_payload_version,
}
use kwmbridge.Sfu.Connection.{
  Connection, M, ◌>>=◌, ◌>>◌, change, answer_or, check, emit, negotiation_needed,
}

module _ (w : Outside) where
  -- The message with the payload, from the record's connection to its owner.
  abbrev pub message : Payload → Connection → Message
  message payload c = record {
    version = webrtc_payload_version;
    channel = w.channel;
    target = c.owner_id;
    source = c.id;
    group = w.group;
    hash = [];
    state = c.state;
    pcid = c.pcid;
    payload = payload;
  }

  -- `channel.send`; what cannot be sent is not in the log.
  unfoldable pub send : Message → M (Unit {0})
  send m c = if w.send m then (ok tt, emit (sent m ∷ []) c) else (err send_failed, c)

  unfoldable pub create_offer : ℕ → M (Unit {0})
  unfolding send local_sdp_transform
  create_offer pc c =
      (do
        sdp ← answer_or offer_failed (w.create_offer pc)
        let sdp' = local_sdp_transform sdp
        check local_failed (w.set_local_description pc sdp')
        send (message (offer sdp') c))
        c

  -- The request that the other side start a negotiation.
  unfoldable pub request_offer : M (Unit {0})
  unfolding send
  request_offer c =
      let c' = if is_empty c.pcid then record c { pcid = w.random_string } else c in
      send (message (renegotiate false) c') c'

  abbrev queue : Connection → Connection
  queue c = record c { queued_negotiation = true }

  -- The part of negotiate before its end, where `isNegotiating` is set.
  unfoldable pub start_negotiation : M (Unit {0})
  start_negotiation c =
      if c.initiator
      then (elim c.pc [
        | none ↦ (ok tt, c)
        | some pc ↦ if c.is_negotiating then (ok tt, queue c) else create_offer pc c
      ])
      else if c.is_negotiating
      then (ok tt, queue c)
      else request_offer c

  unfoldable pub negotiate : M (Unit {0})
  negotiate = do start_negotiation; change (λ c. record c { is_negotiating = true })

  -- maybeNegotiateAndUnlock. Where the context is done and a negotiation is needed too, Go's
  -- `select` picks either: `pick_done` says which.
  unfoldable pub maybe_negotiate : Bool → Connection → Connection
  maybe_negotiate pick_done c =
      if c.ctx_done && (pick_done || not c.needs_negotiation)
      then c
      else if c.needs_negotiation
      then (negotiate (record c { needs_negotiation = false })).1
      else c

  -- The handler of OnSignalingStateChange for the state stable, of the peer connection `pc`.
  unfoldable pub on_stable : Bool → ℕ → Connection → Connection
  on_stable pick_done pc c =
      let ended = record c { is_negotiating = false } in
      let renewed = negotiation_needed (record ended { queued_negotiation = false }) in
      if w.channel_closed then c else elim c.pc [
        | none ↦ c
        | some current ↦
            if current == pc
            then maybe_negotiate pick_done
                (if c.is_negotiating then if c.queued_negotiation then renewed else ended else c)
            else c
      ]
