-- ===== src/Sfu/Connection/Queue.antt =====
-- The request for a negotiation that came during another one is not lost.
use kwmbridge.Base.{
  ℕ, suc, ◌≡◌, refl, ◌∙◌, ◌≢◌, inl, inr, Bool, true, false, none, some, arith, Bool-cases,
  Option-cases, Text,
}
use kwmbridge.Sfu.Types.{Message, offer, renegotiate, Outcome, ok, Outside}
use kwmbridge.Sfu.Connection.{Connection, negotiation_needed}
use kwmbridge.Sfu.Connection.Negotiation.{
  message, send, create_offer, request_offer, start_negotiation, negotiate, maybe_negotiate,
  on_stable,
}
use kwmbridge.Utils.Sdp.{local_sdp_transform}
use kwmbridge.Sfu.Connection.Protocol.{
  requests, requests-sent, SameFlags, Sends, create_offer-Sends, request_offer-Sends,
}

module _ (w : Outside) where
  -- Every call outside that a negotiation needs succeeds.
  abbrev pub Working : Type 0
  Working =
      ((m : Message) → w.send m ≡ true)
      × ((pc : ℕ) → w.create_offer pc ≢ none)
      × ((pc : ℕ) (sdp : Text) → w.set_local_description pc sdp ≡ true)

  abbrev pub Started : Connection → Connection → Type 0
  Started c c' =
      (requests c'.log ≡ suc (requests c.log))
      × (c'.is_negotiating ≡ true)
      × (c'.queued_negotiation ≡ false)
      × (c'.needs_negotiation ≡ false)

  create_offer_working : (pc : ℕ) (c : Connection) → Working → (create_offer w pc c).0 ≡ ok tt
  unfolding create_offer send
  create_offer_working pc c (out, offers, sets) = elim (Option-cases (w.create_offer pc)) [
    | inl none' ↦ absurd (offers pc none')
    | inr (sdp, made) ↦ ground (
      arith,
      sets pc (local_sdp_transform sdp),
      out (message w (offer (local_sdp_transform sdp)) c),
    )
  ]

  request_offer_working : (c : Connection) → Working → (request_offer w c).0 ≡ ok tt
  unfolding request_offer send
  request_offer_working c (out, offers, sets) =
      let c' = record c { pcid = w.random_string } in
      ground (arith, out (message w (renegotiate false) c), out (message w (renegotiate false) c'))

  Sends-one :
      (c : Connection) (p : Outcome (Unit {0}) × Connection)
      → Sends w c p
      → p.0 ≡ ok tt
      → (requests p.1.log ≡ suc (requests c.log)) × SameFlags w c p.1
  Sends-one c p (inl (m, asks, fine, grown, flags)) h =
      (rw grown (requests-sent w c.log m asks ∙ omega arith), flags)
  Sends-one c p (inr (failed, same, flags)) h = absurd (failed h)

  pub start_working :
      (pc : ℕ) (c : Connection)
      → Working
      → c.pc ≡ some pc
      → c.is_negotiating ≡ false
      → (((start_negotiation w c).0 ≡ ok tt)
          × (requests (start_negotiation w c).1.log ≡ suc (requests c.log)))
        × SameFlags w c (start_negotiation w c).1
  unfolding start_negotiation
  start_working pc c working has idle = elim (Bool-cases c.initiator) [
    | inl starts ↦
        let e : start_negotiation w c ≡ create_offer w pc c = ground arith in
        let fine = create_offer_working pc c working in
        let one = Sends-one c (create_offer w pc c) (create_offer-Sends w pc c) fine in
        rw e ((fine, one.0), one.1)
    | inr asks ↦
        let e : start_negotiation w c ≡ request_offer w c = ground arith in
        let fine = request_offer_working c working in
        let one = Sends-one c (request_offer w c) (request_offer-Sends w c) fine in
        rw e ((fine, one.0), one.1)
  ]

  maybe_negotiate-Started :
      (pick : Bool) (pc : ℕ) (c : Connection)
      → Working
      → c.ctx_done ≡ false
      → c.pc ≡ some pc
      → c.is_negotiating ≡ false
      → c.queued_negotiation ≡ false
      → c.needs_negotiation ≡ true
      → Started c (maybe_negotiate w pick c)
  unfolding maybe_negotiate negotiate
  maybe_negotiate-Started pick pc c working alive has idle free wanted =
      let c' = record c { needs_negotiation = false } in
      let one = start_working pc c' working has idle in ground arith

  -- When a peer connection becomes stable while a request is queued, the next negotiation is
  -- started at once: one more offer or request is sent, and nothing stays queued. This is where
  -- the calls outside succeed, the channel is open, the context is not done and the peer
  -- connection is the record's own.
  pub on_stable_queued :
      (pick : Bool) (pc : ℕ) (c : Connection)
      → Working
      → w.channel_closed ≡ false
      → c.ctx_done ≡ false
      → c.pc ≡ some pc
      → c.is_negotiating ≡ true
      → c.queued_negotiation ≡ true
      → Started c (on_stable w pick pc c)
  unfolding on_stable negotiation_needed
  on_stable_queued pick pc c working running alive has busy queued =
      let c' = record c {
        is_negotiating = false;
        queued_negotiation = false;
        needs_negotiation = true;
      } in
      let h = maybe_negotiate-Started pick pc c' working alive has refl refl refl in
      ground (arith, h)
