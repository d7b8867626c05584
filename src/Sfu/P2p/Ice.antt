-- ===== src/Sfu/P2p/Ice.antt =====
-- p2precord.go: the handler of OnICECandidate that createPeerConnection installs, and sendCandidate.
use kwmbridge.Base.{ℕ, ◌≡◌, refl, Bool, true, Option, none, some, arith, if◌then◌else◌, ◌==◌, Text}
use kwmbridge.Sfu.Types.{Message, candidate, experiment_ice_trickle}
use kwmbridge.Sfu.P2p.{P2pRecord, M, message, send}

module _ (send_text : ℕ → Message → Bool) where
  unfoldable pub send_candidate : Text → M (Unit {0})
  send_candidate init c = send send_text (message (candidate init) c) c

  -- The handler of the peer connection `pc`; `none` is the end of the candidates. `owns` says
  -- whether the record still has the channel iceComplete that it had when it made `pc`. A failure
  -- to send is only logged.
  unfoldable pub on_ice_candidate : ℕ → Bool → Option Text → P2pRecord → P2pRecord
  unfolding send_candidate
  on_ice_candidate pc owns none c = if owns then record c { ice_complete = true } else c
  on_ice_candidate pc owns (some init) c =
      if experiment_ice_trickle
      then (elim c.pc [
        | none ↦ c
        | some current ↦ if current == pc then (send_candidate init c).1 else c
      ])
      else c

  -- The handler changes nothing but whether the candidates are complete, and sends nothing.
  pub on_ice_candidate_lem :
      (pc : ℕ) (owns : Bool) (found : Option Text) (c : P2pRecord)
      → let c' = on_ice_candidate pc owns found c in
        c' ≡ record c { ice_complete = c'.ice_complete }
  unfolding on_ice_candidate
  on_ice_candidate_lem pc owns none c = ground arith
  on_ice_candidate_lem pc owns (some init) c = refl
