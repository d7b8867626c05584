-- ===== src/Sfu/Connection/Ice.antt =====
-- connectionrecord.go: the handler of OnICECandidate that createPeerConnection installs, with
-- sendCandidate of channel.go, and the watcher that it starts.
use kwmbridge.Base.{
  ℕ, ◌≡◌, ◌≢◌, refl, Bool, true, false, Option, none, some, List, [], ◌∷◌, ◌++◌, arith,
  if◌then◌else◌, ◌==◌, Text, All,
}
use kwmbridge.Sfu.Types.{Message, candidate, experiment_ice_trickle, Outside}
use kwmbridge.Sfu.Connection.{Connection, M}
use kwmbridge.Sfu.Connection.Negotiation.{message, send}

-- Whether the record's peer connection is `pc`.
abbrev is_current : ℕ → Option ℕ → Bool
is_current pc none = false
is_current pc (some current) = current == pc

module _ (w : Outside) where
  -- sendCandidate, to the user `target`.
  unfoldable pub send_candidate : Text → Text → Text → M (Unit {0})
  send_candidate target state init c =
      let m : Message = record (message w (candidate init) c) { target = target; state = state } in
      send w m c

  -- The handler of the peer connection `pc`; `none` is the end of the candidates. `owns` says
  -- whether the record still has the channel iceComplete that it had when it made `pc`. A failure
  -- to send is only logged.
  unfoldable pub on_ice_candidate : ℕ → Bool → Text → Text → Option Text → Connection → Connection
  unfolding send_candidate
  on_ice_candidate pc owns target state none c =
      if owns then record c { ice_complete = true } else c
  on_ice_candidate pc owns target state (some init) c =
      if experiment_ice_trickle
      then if w.channel_closed
        then c
        else if is_current pc c.pc
        then (send_candidate target state init c).1
        else c
      else c

  -- The handler changes nothing but whether the candidates are complete, and sends nothing.
  pub on_ice_candidate_lem :
      (pc : ℕ) (owns : Bool) (target state : Text) (found : Option Text) (c : Connection)
      → let c' = on_ice_candidate pc owns target state found c in
        c' ≡ record c { ice_complete = c'.ice_complete }
  unfolding on_ice_candidate
  on_ice_candidate_lem pc owns target state none c = ground arith
  on_ice_candidate_lem pc owns target state (some init) c = refl

-- A round of the watcher of a peer connection: what the record has, whether the peer connection is
-- connected, and whether the time of the watcher ends before the next round.
pub record Check : Type 0 where
  pub current : Option ℕ
  pub connected : Bool
  pub timed_out : Bool

pub data Watched : Type 0 where
  waiting : Watched
  left : Watched  -- the peer connection was replaced, or is connected
  gave_up : Watched  -- it was closed

unfoldable pub watch : ℕ → List Check → Watched
watch pc [] = waiting
watch pc (k ∷ ks) =
    let rest = watch pc ks in
    if is_current pc k.current
    then if k.connected then left else if k.timed_out then gave_up else rest
    else left

-- A peer connection that is connected in a round before the time ends is not closed.
pub watch_spares :
    (pc : ℕ) (front rest : List Check) (k : Check)
    → k.connected ≡ true
    → All (λ (i : Check). i.timed_out ≡ false) front
    → watch pc (front ++ (k ∷ rest)) ≢ gave_up
unfolding watch
watch_spares pc [] rest k up early gone = ground arith
watch_spares pc (i ∷ front) rest k up early gone = ground (arith, watch_spares pc front rest k up)
