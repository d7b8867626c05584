-- ===== src/Sfu/Connection/Runs.antt =====
-- The negotiation of a connection over sequences of events: at most one offer or request for an
-- offer is on its way.
use kwmbridge.Base.{ℕ, suc, ◌+◌, ◌≤◌, ◌≡◌, subst, Bool, false, List, [], ◌∷◌, arith, Text}
use kwmbridge.Sfu.Types.{Outside}
use kwmbridge.Sfu.Connection.{Connection, reset, clear_peer_connection, negotiation_needed}
use kwmbridge.Sfu.Connection.Negotiation.{maybe_negotiate, on_stable}
use kwmbridge.Sfu.Connection.Peer.{create_peer_connection}
use kwmbridge.Sfu.Connection.Protocol.{requests, Bounded, maybe_negotiate-Bounded}
use kwmbridge.Sfu.Connection.Requests.{requests-reset, requests-clear, create_peer_connection-log}

-- Events that may happen to a connection record.
pub data Event : Type 0 where
  need : Event  -- something asks for a negotiation
  unlock : Bool → Event  -- a holder of the lock lets go
  stable : Bool → ℕ → Event  -- a peer connection has become stable
  restart : Event  -- a reset
  drop_peer : Event  -- a change of the remote side
  connect : Text → Event  -- a new peer connection

-- How many events may end a negotiation.
pub endings : List Event → ℕ
endings [] = 0
endings (need ∷ es) = endings es
endings (unlock _ ∷ es) = endings es
endings (_ ∷ es) = suc (endings es)

endings-step :
    (n : ℕ) (e : Event) (es : List Event) → n + endings (e ∷ []) + endings es ≡ n + endings (e ∷ es)
unfolding endings
endings-step n need es = omega arith
endings-step n (unlock pick) es = omega arith
endings-step n (stable pick pc) es = omega arith
endings-step n restart es = omega arith
endings-step n drop_peer es = omega arith
endings-step n (connect rpcid) es = omega arith

module _ (w : Outside) where
  pub step : Event → Connection → Connection
  step need c = negotiation_needed c
  step (unlock pick) c = maybe_negotiate w pick c
  step (stable pick pc) c = on_stable w pick pc c
  step restart c = reset w.ws_done c
  step drop_peer c = clear_peer_connection c
  step (connect rpcid) c = (create_peer_connection w rpcid c).1

  pub run : List Event → Connection → Connection
  run [] c = c
  run (e ∷ es) c = run es (step e c)

  on_stable-Bounded :
      (n : ℕ) (pick : Bool) (pc : ℕ) (c : Connection)
      → Bounded n c
      → Bounded (suc n) (on_stable w pick pc c)
  unfolding on_stable
  on_stable-Bounded n pick pc c h =
      unfold Bounded negotiation_needed in
      ground (
        arith,
        maybe_negotiate-Bounded w (suc n) pick c,
        maybe_negotiate-Bounded w (suc n) pick (record c { is_negotiating = false }),
        maybe_negotiate-Bounded w (suc n) pick
            (negotiation_needed (record c { is_negotiating = false; queued_negotiation = false })),
      )

  step-Bounded :
      (n : ℕ) (e : Event) (c : Connection) → Bounded n c → Bounded (n + endings (e ∷ [])) (step e c)
  unfolding step endings Bounded
  step-Bounded n need c h = unfold negotiation_needed in ground arith
  step-Bounded n (unlock pick) c h = omega (arith, maybe_negotiate-Bounded w n pick c h)
  step-Bounded n (stable pick pc) c h = omega (arith, on_stable-Bounded n pick pc c h)
  step-Bounded n restart c h = unfold reset in ground (arith, requests-reset w c)
  step-Bounded n drop_peer c h = unfold clear_peer_connection in ground (arith, requests-clear w c)
  step-Bounded n (connect rpcid) c h = ground (arith, create_peer_connection-log w rpcid c)

  run-Bounded :
      (es : List Event) (n : ℕ) (c : Connection) → Bounded n c → Bounded (n + endings es) (run es c)
  unfolding run endings
  run-Bounded [] n c h = subst (λ k. Bounded k c) (omega arith) h
  run-Bounded (e ∷ es) n c h =
      let one = endings (e ∷ []) in
      let rest = run-Bounded es (n + one) (step e c) (step-Bounded n e c h) in
      subst (λ k. Bounded k (run es (step e c))) (endings-step n e es) rest

  -- Over any sequence of events, from a record that is not negotiating, the offers and requests
  -- for an offer that are sent are at most one more than the events that may end a negotiation.
  pub run_requests_lem :
      (es : List Event) (c : Connection)
      → c.is_negotiating ≡ false
      → requests (run es c).log ≤ requests c.log + endings es + 1
  unfolding Bounded
  run_requests_lem es c idle = ground (arith, run-Bounded es (requests c.log) c (ground arith))
