-- ===== src/Sfu/Incoming/Pump.antt =====
-- connectionrecord.go and p2precord.go: the goroutines of OnTrack that take the packets of a remote
-- track, over what passes a packet on to the users. The packet is shared by those that pass it on
-- and the jitter buffer, which keeps it. Of the two goroutines that have the packet, the one that
-- goes through the users is done when the other pushes it; a packet is taken when the one before is
-- done. `room` says whether the channel of the jitter buffer takes what Push of a packet sends to it;
-- where it does not, Push waits for ever. `others` is what else happens to the users and to the
-- jitter buffer before a packet is taken and before the end, by the number of packets left; the
-- goroutines hold no lock while they wait.
use kwmbridge.Base.{
  zero, suc, not, length, ℕ, Bool, Option, none, some, List, [], ◌∷◌, ◌++◌, if◌then◌else◌,
}
use kwmbridge.JitterBuffer.Packet.{Packet}
use kwmbridge.JitterBuffer.Registry.{JitterBuffer, push_rtp, remove_buffer}
use kwmbridge.Sfu.Incoming.{Written}

-- What a round of the loop over the users leaves: the writes, the shared packet, and the users.
pub record Forwarded (U : Type 0) : Type 0 where
  pub written : List Written
  pub packet : Packet
  pub users : U

-- What the goroutines work on: the users, the jitter buffer of the record, and the writes.
pub record Flow (U : Type 0) : Type 0 where
  pub listeners : U
  pub jitter_buffer : JitterBuffer
  pub output : List Written

-- What goes on around the goroutines of a track of a record of type C: `room` and `flow_changes` are
-- those of the packets, `worker` says whether the worker of the channel takes what it is sent, without
-- which the goroutine waits for ever, and `record_changes` is what happens to the record from the
-- track's announcement to its end.
pub record Meanwhile (U C : Type 0) : Type 0 where
  pub room : Packet → JitterBuffer → Bool
  pub worker : Bool
  pub flow_changes : ℕ → Flow U → Flow U
  pub record_changes : C → C

module _ {U : Type 0} (forward : Packet → U → Forwarded U)
    (room : Packet → JitterBuffer → Bool) where
  -- A packet of the remote track. `none` says that Push does not end.
  unfoldable pub take_packet : Bool → Packet → Flow U → Option (Flow U)
  take_packet is_video p flow =
      let out = forward p flow.listeners in
      let passed : Flow U = record flow {
        listeners = out.users;
        output = flow.output ++ out.written;
      } in
      if not is_video
      then some passed
      else if not (room out.packet flow.jitter_buffer)
      then none
      else elim (push_rtp out.packet is_video flow.jitter_buffer) [
        | none ↦ none
        | some j ↦ some (record passed { jitter_buffer = j })
      ]

  -- The packets of the remote track, up to its end; `ssrc` is that of the local track.
  unfoldable pub pump : (ℕ → Flow U → Flow U) → Bool → ℕ → List Packet → Flow U → Option (Flow U)
  unfolding take_packet
  pump others is_video ssrc [] flow =
      let last = others zero flow in
      some (record last { jitter_buffer = (remove_buffer ssrc last.jitter_buffer).1 })
  pump others is_video ssrc (p ∷ packets) flow =
      elim (take_packet is_video p (others (suc (length packets)) flow)) [
        | none ↦ none
        | some flow' ↦ pump others is_video ssrc packets flow'
      ]
