-- ===== src/Sfu/P2p/Forwarding.antt =====
-- p2precord.go: the goroutine of OnTrack that passes the packets of a sender's track on, and the life
-- of a track that the handler has taken. The check that is to skip the source compares a user with a
-- connection, so that it skips nobody. `Peers` are the users of the channel with the controllers of
-- their connections to the source; the packet is shared, and each target's payload type is written
-- into it.
use kwmbridge.Base.{
  not, ℕ, Bool, true, Option, none, some, List, [], ◌∷◌, ◌++◌, if◌then◌else◌, Text, lookup, insert,
  ℕ_key, text_key,
}
use kwmbridge.JitterBuffer.Packet.{Packet}
use kwmbridge.Sfu.Types.{Codec, Track, sender_track_video}
use kwmbridge.Sfu.Incoming.{Media, taken, to_track}
use kwmbridge.Sfu.Incoming.Pump.{Meanwhile, Forwarded, Flow, pump}
use kwmbridge.Sfu.P2p.{P2pRecord, reset}
use kwmbridge.Sfu.P2p.Incoming.{publish, end_track}
use kwmbridge.Sfu.P2p.Controller.{Controller}
use kwmbridge.Sfu.P2p.Announcing.{Peers}

-- The payload type that a target wants for the codec.
unfoldable pub target_type : Codec → P2pRecord → ℕ
target_type codec c = elim (lookup codec.name c.rtp_payload_types) [
  | none ↦ codec.payload_type
  | some payload_type ↦ payload_type
]

module _ (m : Media) (codec : Codec) (token : Text) where
  -- The end of a round, for the record of an open target.
  unfoldable pub forward_to : Packet → Controller → P2pRecord → Forwarded Controller
  unfolding target_type
  forward_to p target c =
      let p' = record p { payload_type = target_type codec c } in
      elim (lookup p.ssrc c.tracks) [
        | none ↦ record { written = []; packet = p'; users = target }
        | some t ↦ record {
          written = to_track t p' ∷ [];
          packet = p';
          users =
              if m.write_rtp t p'
              then target
              else record target { callbacks = insert token (reset c) target.callbacks };
        }
      ]

  -- A round, for a user with a controller.
  unfoldable pub forward_one : Packet → Bool → Controller → Forwarded Controller
  unfolding forward_to
  forward_one p gone target =
      let skipped : Forwarded Controller = record { written = []; packet = p; users = target } in
      elim (lookup token target.callbacks) [
        | none ↦ skipped
        | some c ↦ if gone then skipped else forward_to p target c
      ]

  -- The loop.
  unfoldable pub forward : Packet → Peers → Forwarded Peers
  unfolding forward_one
  forward p [] = record { written = []; packet = p; users = [] }
  forward p ((key, (gone, none)) ∷ rest) =
      let more = forward p rest in
      record {
        written = more.written;
        packet = more.packet;
        users = (key, (gone, none)) ∷ more.users;
      }
  forward p ((key, (gone, some target)) ∷ rest) =
      let one = forward_one p gone target in
      let more = forward one.packet rest in
      record {
        written = one.written ++ more.written;
        packet = more.packet;
        users = (key, (gone, some one.users)) ∷ more.users;
      }

  -- The goroutines of a video track that the handler of OnTrack has taken, from its start to its end.
  unfoldable pub run_track :
      Meanwhile Peers P2pRecord
      → Track
      → Option ℕ
      → List Packet
      → P2pRecord × Flow Peers
      → Option (P2pRecord × Flow Peers)
  run_track around t ch packets (c, flow) =
      let live = publish (taken sender_track_video t ch, c) in
      if not around.worker
      then none
      else elim (pump forward around.room around.flow_changes true t.ssrc packets flow) [
        | none ↦ none
        | some flow' ↦ some (end_track sender_track_video t ch (around.record_changes live), flow')
      ]
