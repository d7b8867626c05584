-- ===== src/Sfu/Negotiator/P2pRecords.antt =====
-- The negotiator of p2precord.go, where the calls that it makes succeed.
use kwmbridge.Base.{
  ℕ, suc, ◌≡◌, ◌≢◌, refl, sym, subst, inl, inr, Bool, true, false, none, some, List, arith, Text,
  is_some, ==_iff, Bool-cases, Option-cases,
}
use kwmbridge.Utils.Sdp.{local_sdp_transform}
use kwmbridge.Sfu.Types.{Message, offer, renegotiate, Outcome, ok, Outside}
use kwmbridge.Sfu.Connection.Protocol.{requests, requests-sent}
use kwmbridge.Sfu.P2p.{P2pRecord, message, send, negotiation_needed}
use kwmbridge.Sfu.P2p.Negotiation.{
  create_offer, request_offer, start_negotiation, negotiate, maybe_negotiate, on_stable,
}
use kwmbridge.Sfu.Negotiator.{
  Phase, Operation, ask, settle, stabilise, settle_phase, operate, phases, Negotiator, run,
  run_refines,
}

-- The negotiation of a record, as its flags and its log show it.
abbrev pub record_phase : P2pRecord → Phase
record_phase c = record {
  needed = c.needs_negotiation;
  running = c.is_negotiating;
  queued = c.queued_negotiation;
  started = requests c.log;
}

-- The record has a peer connection and a data channel, and its context is not done.
abbrev pub IsLive : P2pRecord → Type 0
IsLive c = (is_some c.pc ≡ true) × (c.ctx_done ≡ false) × (is_some c.data_channel ≡ true)

-- What a negotiation that starts changes: its message is one more in the log.
abbrev Starts : P2pRecord → Outcome (Unit {0}) × P2pRecord → Type 0
Starts c p =
    (p.0 ≡ ok tt)
    × (requests p.1.log ≡ suc (requests c.log))
    × (p.1.pc ≡ c.pc)
    × (p.1.ctx_done ≡ c.ctx_done)
    × (p.1.data_channel ≡ c.data_channel)
    × (p.1.needs_negotiation ≡ c.needs_negotiation)
    × (p.1.queued_negotiation ≡ c.queued_negotiation)

module _ (w : Outside) (send_text : ℕ → Message → Bool) (pick : Bool) where
  -- Every call outside that a negotiation needs succeeds.
  abbrev pub Working : Type 0
  Working =
      ((channel : ℕ) (m : Message) → send_text channel m ≡ true)
      × ((pc : ℕ) → w.create_offer pc ≢ none)
      × ((pc : ℕ) (sdp : Text) → w.set_local_description pc sdp ≡ true)

  -- The operations on a record; what becomes stable is its own peer connection.
  unfoldable pub record_step : Operation → P2pRecord → P2pRecord
  record_step ask c = negotiation_needed c
  record_step settle c = maybe_negotiate w send_text pick c
  record_step stabilise c = elim c.pc [ none ↦ c | some pc ↦ on_stable w send_text pick pc c ]

  create_offer-Starts :
      (pc : ℕ) (c : P2pRecord)
      → Working
      → is_some c.data_channel ≡ true
      → Starts c (create_offer w send_text pc c)
  unfolding create_offer send
  create_offer-Starts pc c (out, offers, sets) has = elim (Option-cases c.data_channel) [
    | inl free ↦ ground arith
    | inr (channel, there) ↦ elim (Option-cases (w.create_offer pc)) [
      | inl refused ↦ absurd (offers pc refused)
      | inr (sdp, made) ↦
          let sdp' = local_sdp_transform sdp in
          let m = message (offer sdp') c in
          ground (arith, sets pc sdp', out channel m, requests-sent w c.log m refl)
    ]
  ]

  request_offer-Starts :
      (c : P2pRecord)
      → Working
      → is_some c.data_channel ≡ true
      → Starts c (request_offer w send_text false c)
  unfolding request_offer send
  request_offer-Starts c (out, offers, sets) has = elim (Option-cases c.data_channel) [
    | inl free ↦ ground arith
    | inr (channel, there) ↦
        let m = message (renegotiate false) c in
        let m' = message (renegotiate false) (record c { pcid = w.random_string }) in
        ground (
          arith,
          out channel m,
          out channel m',
          requests-sent w c.log m refl,
          requests-sent w c.log m' refl,
        )
  ]

  start_working :
      (pc : ℕ) (c : P2pRecord)
      → Working
      → c.pc ≡ some pc
      → is_some c.data_channel ≡ true
      → c.is_negotiating ≡ false
      → Starts c (start_negotiation w send_text false c)
  unfolding start_negotiation
  start_working pc c working has there idle = elim (Bool-cases c.initiator) [
    | inl starts ↦
        let e : start_negotiation w send_text false c ≡ create_offer w send_text pc c =
          ground arith in
        subst (Starts c) (sym e) (create_offer-Starts pc c working there)
    | inr asks ↦
        let e : start_negotiation w send_text false c ≡ request_offer w send_text false c =
          ground arith in
        subst (Starts c) (sym e) (request_offer-Starts c working there)
  ]

  -- What a step makes of a live record.
  abbrev Refines : (Phase → Phase) → P2pRecord → P2pRecord → Type 0
  Refines f c c' = IsLive c' × (record_phase c' ≡ f (record_phase c))

  settle_idle :
      (pc : ℕ) (c : P2pRecord)
      → Working
      → c.pc ≡ some pc
      → c.ctx_done ≡ false
      → is_some c.data_channel ≡ true
      → c.needs_negotiation ≡ true
      → c.is_negotiating ≡ false
      → Refines settle_phase c (maybe_negotiate w send_text pick c)
  unfolding maybe_negotiate negotiate
  settle_idle pc c working has alive there wanted idle =
      let c' = record c { needs_negotiation = false } in
      ground (arith, start_working pc c' working has there idle)

  settle-Refines :
      (pc : ℕ) (c : P2pRecord)
      → Working
      → c.pc ≡ some pc
      → c.ctx_done ≡ false
      → is_some c.data_channel ≡ true
      → Refines settle_phase c (maybe_negotiate w send_text pick c)
  unfolding maybe_negotiate negotiate start_negotiation
  settle-Refines pc c working has alive there = elim (Bool-cases c.needs_negotiation) [
    | inr quiet ↦ ground arith
    | inl wanted ↦ elim (Bool-cases c.is_negotiating) [
      | inl busy ↦ ground arith
      | inr idle ↦ settle_idle pc c working has alive there wanted idle
    ]
  ]

  stable-Refines :
      (pc : ℕ) (c : P2pRecord)
      → Working
      → w.channel_closed ≡ false
      → c.pc ≡ some pc
      → c.ctx_done ≡ false
      → is_some c.data_channel ≡ true
      → Refines (operate stabilise) c (on_stable w send_text pick pc c)
  unfolding on_stable negotiation_needed
  stable-Refines pc c working running has alive there =
      let ended = record c { is_negotiating = false } in
      let renewed = record ended { queued_negotiation = false; needs_negotiation = true } in
      ground (
        arith,
        ==_iff pc pc,
        settle-Refines pc c working has alive there,
        settle-Refines pc ended working has alive there,
        settle-Refines pc renewed working has alive there,
      )

  pub record_step-Refines :
      (o : Operation) (c : P2pRecord)
      → Working
      → w.channel_closed ≡ false
      → IsLive c
      → Refines (operate o) c (record_step o c)
  unfolding record_step negotiation_needed
  record_step-Refines ask c working running (has, alive, there) = ground arith
  record_step-Refines settle c working running (has, alive, there) = elim (Option-cases c.pc) [
    | inl free ↦ ground arith
    | inr (pc, here) ↦ settle-Refines pc c working here alive there
  ]
  record_step-Refines stabilise c working running (has, alive, there) = elim (Option-cases c.pc) [
    | inl free ↦ ground arith
    | inr (pc, here) ↦
        let e : record_step stabilise c ≡ on_stable w send_text pick pc c = ground arith in
        subst (Refines (operate stabilise) c) (sym e)
          (stable-Refines pc c working running here alive there)
  ]

  abbrev pub record_negotiator : Working → w.channel_closed ≡ false → Negotiator P2pRecord
  record_negotiator working running = record {
    IsReady = IsLive;
    phase = record_phase;
    step = record_step;
    step_refines = λ o c live. record_step-Refines o c working running live;
  }

  -- Where the calls that negotiations make succeed and the channel is open, every run of operations
  -- on a peer to peer record that has a peer connection and a data channel and whose context is not
  -- done goes through the phases of the same abstract negotiator: its flags, and the number of
  -- offers and requests for an offer in its log, are those that the phases have.
  pub record_refines :
      (os : List Operation) (c : P2pRecord) (working : Working) (running : w.channel_closed ≡ false)
      → IsLive c
      → record_phase (run (record_negotiator working running) os c) ≡ phases os (record_phase c)
  record_refines os c working running live =
      run_refines (record_negotiator working running) os c live
