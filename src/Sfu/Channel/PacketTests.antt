-- ===== src/Sfu/Channel/PacketTests.antt =====
-- A packet of Alice's camera, with Bob and Carol as users, and the theorems on its way.
use kwmbridge.Base.{
  ℕ, ◌≡◌, ◌≢◌, refl, true, false, none, some, List, [], ◌∷◌, ◌++◌, arith, Text, codes, lookup,
  ℕ_key, text_key, text_eq,
}
use kwmbridge.JitterBuffer.Packet.{ts_delta}
use kwmbridge.JitterBuffer.Buffer
use kwmbridge.JitterBuffer.Buffer.{new_buffer, push}
use kwmbridge.JitterBuffer.Registry.{new, push_rtp, get_buffer}
use kwmbridge.Sfu.Types.{Track, track_change}
use kwmbridge.Sfu.Samples.{
  world, camera, fresh, remote_camera, live, media, packet, jitter_buffer, vp8, or_else,
}
use kwmbridge.Sfu.Incoming.{Taken, taken, to_track, answer_rtcp}
use kwmbridge.Sfu.Incoming.Resending.{nack_of}
use kwmbridge.Sfu.Connection.{reset, Connection, new_connection}
use kwmbridge.Sfu.Connection.Incoming.{publish, on_track, take_slot, with_slot, publication}
use kwmbridge.Sfu.Users.{UserRecord}
use kwmbridge.Sfu.Channel.Forwarding.{target_type, forward, Users, run_track}
use kwmbridge.Sfu.Incoming.Pump.{Meanwhile, Flow, take_packet}
use kwmbridge.Sfu.Channel.Delivery.{forward_delivers, forward_skips}
use kwmbridge.Sfu.Channel.Pumping.{take_packet_resent}
use kwmbridge.Sfu.Channel.Lives.{run_track_lem}

-- A connection to Alice that wants the payload type for VP8.
abbrev wants : ℕ → Connection
wants n = record live { bound = some 1; rtp_payload_types = (codes "VP8", n) ∷ [] }

abbrev user : ℕ → Text → ℕ → UserRecord
user number id n = record {
  number = number;
  id = id;
  closed = false;
  connections = (codes "alice", wants n) ∷ [];
  publishers = [];
}

abbrev bob : UserRecord
bob = user 2 (codes "bob") 101

abbrev carol : UserRecord
carol = user 3 (codes "carol") 102

abbrev alice : UserRecord
alice = record (user 1 (codes "alice") 96) { connections = [] }

abbrev users : List (Text × UserRecord)
users = (codes "bob", bob) ∷ (codes "carol", carol) ∷ []

wants_type : target_type vp8 (wants 102) ≡ 102
unfolding target_type lookup text_eq
wants_type = refl

bob_connected : lookup (codes "alice") bob.connections ≡ some (wants 101)
unfolding lookup text_eq
bob_connected = refl

carol_connected : lookup (codes "alice") carol.connections ≡ some (wants 102)
unfolding lookup text_eq
carol_connected = refl

has_camera : lookup 11 (wants 101).tracks ≡ some camera
unfolding lookup
has_camera = refl

forward_delivers_example :
    (let whole = forward world media vp8 1 (codes "alice") packet users in
      let b = forward world media vp8 1 (codes "alice") packet ((codes "carol", carol) ∷ []) in
      (whole.written
        ≡ (forward world media vp8 1 (codes "alice") packet []).written
          ++ (to_track camera (record packet { payload_type = target_type vp8 (wants 101) })
              ∷ b.written))
      × (whole.users
          ≡ (forward world media vp8 1 (codes "alice") packet []).users
            ++ ((codes "bob", bob) ∷ b.users)))
forward_delivers_example =
    forward_delivers world media vp8 1 (codes "alice") [] ((codes "carol", carol) ∷ [])
      (codes "bob") bob (wants 101) camera packet (λ e. omega arith) refl bob_connected has_camera

forward_skips_example :
    (let whole =
        forward world media vp8 1 (codes "alice") packet ((codes "alice", alice) ∷ users) in
      let b = forward world media vp8 1 (codes "alice") packet users in
      (whole.written ≡ (forward world media vp8 1 (codes "alice") packet []).written ++ b.written)
      × (whole.users
          ≡ (forward world media vp8 1 (codes "alice") packet []).users
            ++ ((codes "alice", alice) ∷ b.users)))
forward_skips_example =
    forward_skips world media vp8 1 (codes "alice") [] users (codes "alice") alice packet
      (λ c other. absurd (other refl))

abbrev flow : Flow Users
flow = record { listeners = users; jitter_buffer = jitter_buffer; output = [] }

abbrev passed : Flow Users
passed =
    or_else flow
      (take_packet (forward world media vp8 1 (codes "alice")) (λ _ _. true) true packet flow)

packet_taken :
    take_packet (forward world media vp8 1 (codes "alice")) (λ _ _. true) true packet flow
    ≡ some passed
unfolding take_packet forward push_rtp lookup text_eq new push Buffer.clear_old_pkt ts_delta
    Buffer.record_packet new_buffer new_connection
packet_taken = refl

-- Bob gets the packet again with Carol's payload type.
take_packet_resent_example :
    answer_rtcp 5 passed.jitter_buffer
      (nack_of 9 11 (record { packet_id = 1; lost_packets = 0 } ∷ []) (some camera))
    ≡ to_track camera (record packet { payload_type = target_type vp8 (wants 102) }) ∷ []
take_packet_resent_example =
    take_packet_resent world media vp8 1 (codes "alice") ((codes "bob", bob) ∷ []) (codes "carol")
      carol (wants 102) packet (λ _ _. true) flow passed camera 5 9 0 refl (λ e. omega arith) refl
      carol_connected packet_taken

-- Alice's connection takes her camera, which sends one packet.
abbrev publisher : Connection
publisher = record fresh { pc = some 5 }

abbrev camera_track : Track
camera_track = record camera { id = codes "i"; label = codes "stream_alice" }

abbrev arrival : Taken × Connection
arrival = on_track world media 5 false remote_camera 3 publisher

camera_taken : arrival ≡ (taken 1 camera_track (some 4), arrival.1)
unfolding on_track new_connection text_eq take_slot with_slot lookup
camera_taken = refl

-- Meanwhile the connection is reset.
abbrev around : Meanwhile Users Connection
around = record {
  room = λ _ _. true;
  worker = true;
  flow_changes = λ _ f. f;
  record_changes = reset false;
}

abbrev before_end : Connection
before_end = reset false (publish 1 (taken 1 camera_track (some 4), arrival.1))

run_track_lem_example :
    (lookup 1 publisher.tracks ≡ none)
    × (lookup 1 (publish 1 (taken 1 camera_track (some 4), arrival.1)).tracks ≡ some camera_track)
    × ((publish 1 (taken 1 camera_track (some 4), arrival.1)).log
        ≡ publisher.log ++ (track_change (publication 1 camera_track (some 4)) ∷ []))
    × ((ended : Connection) × (flow' : Flow Users) × (run_track world media vp8 1
            (codes "alice")
            around
            1
            camera_track
            (some 4)
            (packet ∷ [])
            (arrival.1, flow)
          ≡ some (ended, flow'))
        × (lookup 1 ended.tracks ≡ none)
        × (lookup 1 ended.receivers ≡ none)
        × ((k : ℕ)
            → k ≢ 1
            → (lookup k ended.tracks ≡ lookup k before_end.tracks)
              × (lookup k ended.receivers ≡ lookup k before_end.receivers))
        × (ended.log
            ≡ before_end.log
              ++ (track_change (record (publication 1 camera_track (some 4)) { remove = true })
                  ∷ []))
        × (get_buffer 11 flow'.jitter_buffer ≡ none))
run_track_lem_example =
    run_track_lem world media vp8 1 (codes "alice") 5 3 1 false remote_camera publisher arrival.1
      camera_track (some 4) (packet ∷ []) around flow camera_taken ((refl, omega arith), tt) refl
      (λ _ _. refl)
