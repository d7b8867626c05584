-- ===== src/Sfu/Negotiator.antt =====
-- What negotiations promise, without the records that keep them: whether one is needed, whether one
-- runs, whether another has to follow it, and how many were started. A negotiator is a record with
-- the three operations; connectionrecord.go and p2precord.go have one each.
pub mod Connections
pub mod P2pRecords
mod Tests
use kwmbridge.Base.{
  ℕ, ◌+◌, ◌≡◌, refl, sym, subst, ◌∙◌, ap, Bool, true, false, List, [], ◌∷◌, ◌++◌, if◌then◌else◌,
  arith,
}

pub record Phase : Type 0 where
  pub needed : Bool
  pub running : Bool
  pub queued : Bool
  pub started : ℕ

-- The operations: one asks for a negotiation, lets go of the record's lock, or learns that the peer
-- connection is stable.
pub data Operation : Type 0 where
  ask settle stabilise : Operation

abbrev ask_phase : Phase → Phase
ask_phase s = record s { needed = true }

abbrev pub settle_phase : Phase → Phase
settle_phase s =
    if s.needed
    then (if s.running
        then record s { needed = false; queued = true }
        else record s { needed = false; running = true; started = s.started + 1 })
    else s

abbrev pub stable_phase : Phase → Phase
stable_phase s = settle_phase (
    if s.running
    then (if s.queued
        then record s { needed = true; running = false; queued = false }
        else record s { running = false })
    else s)

abbrev pub operate : Operation → Phase → Phase
operate ask s = ask_phase s
operate settle s = settle_phase s
operate stabilise s = stable_phase s

unfoldable pub phases : List Operation → Phase → Phase
phases [] s = s
phases (o ∷ os) s = phases os (operate o s)

-- A record that negotiates, as far as the calls that it makes succeed.
pub record Negotiator (S : Type 0) : Type 1 where
  pub IsReady : S → Type 0
  pub phase : S → Phase
  pub step : Operation → S → S
  pub step_refines :
      (o : Operation) (c : S)
      → IsReady c
      → IsReady (step o c) × (phase (step o c) ≡ operate o (phase c))

module _ {S : Type 0} (n : Negotiator S) where
  unfoldable pub run : List Operation → S → S
  run [] c = c
  run (o ∷ os) c = run os (n.step o c)

  -- Every run of a negotiator is a run of the phases.
  pub run_refines :
      (os : List Operation) (c : S) → n.IsReady c → n.phase (run os c) ≡ phases os (n.phase c)
  unfolding run phases
  run_refines [] c ready = refl
  run_refines (o ∷ os) c ready =
      let (ready', e) = n.step_refines o c ready in
      run_refines os (n.step o c) ready' ∙ ap (phases os) e
