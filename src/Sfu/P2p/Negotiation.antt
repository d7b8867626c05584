-- ===== src/Sfu/P2p/Negotiation.antt =====
-- p2precord.go: offers, requests for an offer, and the queue of one negotiation.
use kwmbridge.Base.{
  ℕ, Bool, true, false, not, ◌&&◌, ◌||◌, none, some, if◌then◌else◌, ◌==◌, is_empty,
}
use kwmbridge.Utils.Sdp.{local_sdp_transform}
use kwmbridge.Sfu.Types.{Message, offer, renegotiate, ok, offer_failed, local_failed, Outside}
use kwmbridge.Sfu.Steps.{◌>>=◌, ◌>>◌, change, answer_or, check}
use kwmbridge.Sfu.P2p.{P2pRecord, M, message, send, negotiation_needed}

module _ (w : Outside) (send_text : ℕ → Message → Bool) where
  unfoldable pub create_offer : ℕ → M (Unit {0})
  unfolding send local_sdp_transform
  create_offer pc c =
      (do
        sdp ← answer_or offer_failed (w.create_offer pc)
        let sdp' = local_sdp_transform sdp
        check local_failed (w.set_local_description pc sdp')
        send send_text (message (offer sdp') c))
        c

  -- The request that the other side start a negotiation.
  unfoldable pub request_offer : Bool → M (Unit {0})
  unfolding send
  request_offer noop c =
      let c' = if is_empty c.pcid then record c { pcid = w.random_string } else c in
      send send_text (message (renegotiate noop) c') c'

  abbrev queue : P2pRecord → P2pRecord
  queue c = record c { queued_negotiation = true }

  -- The part of negotiate before its end, where `isNegotiating` is set.
  unfoldable pub start_negotiation : Bool → M (Unit {0})
  start_negotiation noop c =
      if c.initiator
      then (elim c.pc [
        | none ↦ (ok tt, c)
        | some pc ↦ if c.is_negotiating then (ok tt, queue c) else create_offer pc c
      ])
      else if c.is_negotiating
      then (ok tt, queue c)
      else request_offer noop c

  unfoldable pub negotiate : Bool → M (Unit {0})
  negotiate noop = do start_negotiation noop; change (λ c. record c { is_negotiating = true })

  -- maybeNegotiateAndUnlock. Where the context is done and a negotiation is needed too, Go's
  -- `select` picks either: `pick_done` says which.
  unfoldable pub maybe_negotiate : Bool → P2pRecord → P2pRecord
  maybe_negotiate pick_done c =
      if c.ctx_done && (pick_done || not c.needs_negotiation)
      then c
      else if c.needs_negotiation
      then (negotiate false (record c { needs_negotiation = false })).1
      else c

  -- The handler of OnSignalingStateChange for the state stable, of the peer connection `pc`.
  unfoldable pub on_stable : Bool → ℕ → P2pRecord → P2pRecord
  on_stable pick_done pc c =
      let ended = record c { is_negotiating = false } in
      let renewed = negotiation_needed (record ended { queued_negotiation = false }) in
      if w.channel_closed then c else elim c.pc [
        | none ↦ c
        | some current ↦
            if current == pc
            then maybe_negotiate pick_done
                (if c.is_negotiating then if c.queued_negotiation then renewed else ended else c)
            else c
      ]
