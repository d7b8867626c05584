-- ===== src/Sfu/Negotiator/Connections.antt =====
-- The negotiator of connectionrecord.go, where the calls that it makes succeed.
use kwmbridge.Base.{
  ℕ, ◌≡◌, sym, subst, inl, inr, Bool, true, false, none, some, List, arith, is_some, ==_iff,
  Bool-cases, Option-cases,
}
use kwmbridge.Sfu.Types.{Outside}
use kwmbridge.Sfu.Connection.{Connection, negotiation_needed}
use kwmbridge.Sfu.Connection.Negotiation.{
  send, create_offer, request_offer, start_negotiation, negotiate, maybe_negotiate, on_stable,
}
use kwmbridge.Sfu.Connection.Protocol.{requests}
use kwmbridge.Sfu.Connection.Queue.{Working, start_working}
use kwmbridge.Sfu.Negotiator.{
  Phase, Operation, ask, settle, stabilise, settle_phase, operate, phases, Negotiator, run,
  run_refines,
}

-- The negotiation of a connection, as its flags and its log show it.
abbrev pub connection_phase : Connection → Phase
connection_phase c = record {
  needed = c.needs_negotiation;
  running = c.is_negotiating;
  queued = c.queued_negotiation;
  started = requests c.log;
}

-- The record has a peer connection, and its context is not done.
abbrev pub IsLive : Connection → Type 0
IsLive c = (is_some c.pc ≡ true) × (c.ctx_done ≡ false)

module _ (w : Outside) (pick : Bool) where
  -- The operations on a connection; what becomes stable is its own peer connection.
  unfoldable pub connection_step : Operation → Connection → Connection
  connection_step ask c = negotiation_needed c
  connection_step settle c = maybe_negotiate w pick c
  connection_step stabilise c = elim c.pc [ none ↦ c | some pc ↦ on_stable w pick pc c ]

  start_negotiation-ctx_done : (c : Connection) → (start_negotiation w c).1.ctx_done ≡ c.ctx_done
  unfolding start_negotiation create_offer request_offer send
  start_negotiation-ctx_done c = ground arith

  -- What a step makes of a live connection.
  abbrev Refines : (Phase → Phase) → Connection → Connection → Type 0
  Refines f c c' = IsLive c' × (connection_phase c' ≡ f (connection_phase c))

  settle_idle :
      (pc : ℕ) (c : Connection)
      → Working w
      → c.pc ≡ some pc
      → c.ctx_done ≡ false
      → c.needs_negotiation ≡ true
      → c.is_negotiating ≡ false
      → Refines settle_phase c (maybe_negotiate w pick c)
  unfolding maybe_negotiate negotiate
  settle_idle pc c working has alive wanted idle =
      let c' = record c { needs_negotiation = false } in
      ground (arith, start_working w pc c' working has idle, start_negotiation-ctx_done c')

  settle-Refines :
      (pc : ℕ) (c : Connection)
      → Working w
      → c.pc ≡ some pc
      → c.ctx_done ≡ false
      → Refines settle_phase c (maybe_negotiate w pick c)
  unfolding maybe_negotiate negotiate start_negotiation
  settle-Refines pc c working has alive = elim (Bool-cases c.needs_negotiation) [
    | inr quiet ↦ ground arith
    | inl wanted ↦ elim (Bool-cases c.is_negotiating) [
      | inl busy ↦ ground arith
      | inr idle ↦ settle_idle pc c working has alive wanted idle
    ]
  ]

  stable-Refines :
      (pc : ℕ) (c : Connection)
      → Working w
      → w.channel_closed ≡ false
      → c.pc ≡ some pc
      → c.ctx_done ≡ false
      → Refines (operate stabilise) c (on_stable w pick pc c)
  unfolding on_stable negotiation_needed
  stable-Refines pc c working running has alive =
      let ended = record c { is_negotiating = false } in
      let renewed = record ended { queued_negotiation = false; needs_negotiation = true } in
      ground (
        arith,
        ==_iff pc pc,
        settle-Refines pc c working has alive,
        settle-Refines pc ended working has alive,
        settle-Refines pc renewed working has alive,
      )

  pub connection_step-Refines :
      (o : Operation) (c : Connection)
      → Working w
      → w.channel_closed ≡ false
      → IsLive c
      → Refines (operate o) c (connection_step o c)
  unfolding connection_step negotiation_needed
  connection_step-Refines ask c working running (has, alive) = ground arith
  connection_step-Refines settle c working running (has, alive) = elim (Option-cases c.pc) [
    | inl free ↦ ground arith
    | inr (pc, here) ↦ settle-Refines pc c working here alive
  ]
  connection_step-Refines stabilise c working running (has, alive) = elim (Option-cases c.pc) [
    | inl free ↦ ground arith
    | inr (pc, here) ↦
        let e : connection_step stabilise c ≡ on_stable w pick pc c = ground arith in
        subst (Refines (operate stabilise) c) (sym e)
          (stable-Refines pc c working running here alive)
  ]

  abbrev pub connection_negotiator : Working w → w.channel_closed ≡ false → Negotiator Connection
  connection_negotiator working running = record {
    IsReady = IsLive;
    phase = connection_phase;
    step = connection_step;
    step_refines = λ o c live. connection_step-Refines o c working running live;
  }

  -- Where the calls that negotiations make succeed and the channel is open, every run of operations
  -- on a connection that has a peer connection and whose context is not done goes through the
  -- phases of an abstract negotiator: its flags, and the number of offers and requests for an offer
  -- in its log, are those that the phases have.
  pub connection_refines :
      (os : List Operation) (c : Connection) (working : Working w)
      (running : w.channel_closed ≡ false)
      → IsLive c
      → connection_phase (run (connection_negotiator working running) os c)
        ≡ phases os (connection_phase c)
  connection_refines os c working running live =
      run_refines (connection_negotiator working running) os c live
