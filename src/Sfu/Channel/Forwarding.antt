-- ===== src/Sfu/Channel/Forwarding.antt =====
-- connectionrecord.go: the goroutine of OnTrack that passes the packets of a sender's track on to the
-- users of the channel. The packet is shared: each target's payload type is written into it. `source`
-- and `source_id` are the number and the id of the sourceRecord. `run_track` is the life of a track
-- that the handler has taken.
use kwmbridge.Base.{
  not, ℕ, Option, none, some, List, [], ◌∷◌, ◌++◌, if◌then◌else◌, ◌==◌, Text, lookup, insert, ℕ_key,
  text_key,
}
use kwmbridge.JitterBuffer.Packet.{Packet}
use kwmbridge.Sfu.Types.{Codec, Track, sender_track_video, Outside}
use kwmbridge.Sfu.Incoming.{Media, taken, to_track}
use kwmbridge.Sfu.Incoming.Pump.{Meanwhile, Forwarded, Flow, pump}
use kwmbridge.Sfu.Connection.{Connection, reset}
use kwmbridge.Sfu.Connection.Incoming.{publish, end_track}
use kwmbridge.Sfu.Users.{UserRecord}

-- The payload type that a target wants for the codec.
unfoldable pub target_type : Codec → Connection → ℕ
target_type codec c = elim (lookup codec.name c.rtp_payload_types) [
  | none ↦ codec.payload_type
  | some payload_type ↦ payload_type
]

abbrev pub Users : Type 0
Users = List (Text × UserRecord)

module _ (w : Outside) (m : Media) (codec : Codec) (source : ℕ) (source_id : Text) where
  -- The rest of a round, for the connection of an open target.
  unfoldable pub forward_to : Packet → UserRecord → Connection → Forwarded UserRecord
  unfolding target_type
  forward_to p target c =
      let p' = record p { payload_type = target_type codec c } in
      elim (lookup p.ssrc c.tracks) [
        | none ↦ record { written = []; packet = p'; users = target }
        | some t ↦ record {
          written = to_track t p' ∷ [];
          packet = p';
          users = if m.write_rtp t p' then target else record target {
            connections = insert source_id (reset w.ws_done c) target.connections;
          };
        }
      ]

  -- A round.
  unfoldable pub forward_one : Packet → UserRecord → Forwarded UserRecord
  unfolding forward_to
  forward_one p target =
      let skipped : Forwarded UserRecord = record { written = []; packet = p; users = target } in
      if target.number == source then skipped else elim (lookup source_id target.connections) [
        | none ↦ skipped
        | some c ↦ if target.closed then skipped else forward_to p target c
      ]

  -- The loop.
  unfoldable pub forward : Packet → List (Text × UserRecord) → Forwarded (List (Text × UserRecord))
  unfolding forward_one
  forward p [] = record { written = []; packet = p; users = [] }
  forward p ((key, target) ∷ rest) =
      let one = forward_one p target in
      let more = forward one.packet rest in
      record {
        written = one.written ++ more.written;
        packet = more.packet;
        users = (key, one.users) ∷ more.users;
      }

  -- The goroutines of a track that the handler of OnTrack has taken for a slot, from its start to its
  -- end. They are those of video in the slot of video.
  unfoldable pub run_track :
      Meanwhile Users Connection
      → ℕ
      → Track
      → Option ℕ
      → List Packet
      → Connection × Flow Users
      → Option (Connection × Flow Users)
  run_track around slot t ch packets (c, flow) =
      let live = publish source (taken slot t ch, c) in
      let is_video = slot == sender_track_video in
      if not around.worker
      then none
      else elim (pump forward around.room around.flow_changes is_video t.ssrc packets flow) [
        | none ↦ none
        | some flow' ↦ some (end_track source slot t ch (around.record_changes live), flow')
      ]
