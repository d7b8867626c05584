-- ===== src/Sfu/P2p/Tests.antt =====
-- A controller with one stream, and the theorems on it.
use kwmbridge.Base.{
  ℕ, Bool, ◌≡◌, ◌≢◌, refl, true, false, none, some, [], ◌++◌, ◌∷◌, arith, codes, text_key, text_eq,
  lookup, insert, is_some, ℕ_key,
}
use kwmbridge.Sfu.Types.{Message, Track, TrackRecord, track_change}
use kwmbridge.Sfu.Samples.{
  vp8, media, packet, jitter_buffer, remote_camera, camera, camera_of, world, remote, offer_signal,
  unchanged,
}
use kwmbridge.Sfu.P2p.{P2pRecord, new_record, reset}
use kwmbridge.Sfu.P2p.Handler.{handle_signal}
use kwmbridge.Sfu.P2p.Silence.{Silent}
use kwmbridge.Sfu.P2p.Silences.{handle_signal-reset}
use kwmbridge.Sfu.P2p.Peer.{Source}
use kwmbridge.Sfu.P2p.Controller.{
  Stream, Announcement, Controller, new_controller, scan, kept_streams, removed_streams, scan_one,
  add_stream, add_streams, take_announcements,
}
use kwmbridge.Sfu.P2p.Controller.Scans.{announces}
use kwmbridge.Sfu.P2p.Controller.Streams.{take_announcements_keeps, changed_kind_dropped}
use kwmbridge.JitterBuffer.Registry.{get_buffer}
use kwmbridge.Sfu.Incoming.{Taken, taken}
use kwmbridge.Sfu.Incoming.Pump.{Meanwhile, Flow}
use kwmbridge.Sfu.P2p.Incoming
use kwmbridge.Sfu.P2p.Forwarding.{run_track}
use kwmbridge.Sfu.P2p.Lives.{run_p2p_track_lem}
use kwmbridge.Sfu.P2p.Announcing.{Peers}
use kwmbridge.Sfu.P2p.Workers.{take_p2p_track}
use kwmbridge.Sfu.P2p.Removal.{Forgets, take_p2p_track-Forgets}
use kwmbridge.Sfu.P2p.Dispatch.{p2p_handshake, P2pMessage, P2pJson, Around, p2p_type, handle_data}
use kwmbridge.Sfu.P2p.Handshake.{replies, RepliedOnce, handle_data-RepliedOnce}

abbrev sends : ℕ → Message → Bool
sends _ _ = true

abbrev camera_stream : Stream
camera_stream = record {
  id = codes "s";
  kind = codes "video";
  token = codes "t";
  connection = some 0;
}

abbrev camera_record : P2pRecord
camera_record = new_record false false 1 (some 3) (codes "s") (codes "t") none

abbrev controller : Controller
controller = record (new_controller false 1 false) {
  data_channel = some 3;
  callbacks = (codes "t", camera_record) ∷ [];
  streams = (codes "s", camera_stream) ∷ [];
  next_record = 1;
}

abbrev sound : Announcement
sound = record { id = codes "s"; kind = codes "audio"; token = codes "t"; version = 1 }

abbrev screen : Announcement
screen = record { id = codes "d"; kind = codes "video"; token = codes "u"; version = 1 }

abbrev screen_stream : Stream
screen_stream = record {
  id = codes "d";
  kind = codes "video";
  token = codes "u";
  connection = some 1;
}

camera_listed : lookup (codes "s") controller.streams ≡ some camera_stream
unfolding lookup text_eq
camera_listed = refl

camera_called : lookup (codes "t") controller.callbacks ≡ some camera_record
unfolding lookup text_eq
camera_called = refl

screen_listed :
    lookup (codes "d") (take_announcements world sends (screen ∷ []) controller).1.streams
    ≡ some screen_stream
unfolding take_announcements scan scan_one kept_streams removed_streams add_streams add_stream
    lookup insert text_eq
screen_listed = refl

take_announcements_keeps_example :
    lookup (codes "t") (take_announcements world sends (screen ∷ []) controller).1.callbacks
    ≡ some camera_record
take_announcements_keeps_example =
    take_announcements_keeps world sends (codes "t") (screen ∷ []) controller camera_record
      camera_called

changed_kind_dropped_example :
    lookup (codes "s") (take_announcements world sends (sound ∷ []) controller).1.streams ≡ none
unfolding announces
changed_kind_dropped_example =
    changed_kind_dropped world sends [] [] sound controller camera_stream refl refl camera_listed
      (λ e. ground arith)

abbrev hello : P2pMessage
hello = record {
  type = p2p_type;
  subtype = p2p_handshake;
  ts = 7;
  version = 1;
  streams = [];
  raw = [];
}

abbrev json : P2pJson
json = record { type_of = λ _. some p2p_type; p2p_of = λ _. some hello; webrtc_of = λ _. none }

abbrev no_source : ℕ → Source
no_source _ = record { tracks = []; rtcp_ch = none; token = [] }

abbrev around : Around
around = record {
  outside = world;
  send_text = sends;
  data_out = λ _ _. true;
  source_of = no_source;
  remote = remote offer_signal;
  others = unchanged;
  pick = false;
  source_id = codes "alice";
}

controller-RepliedOnce : RepliedOnce controller
unfolding RepliedOnce new_controller replies
controller-RepliedOnce = omega arith

handle_data-RepliedOnce_example : RepliedOnce (handle_data around json 3 [] (controller, [])).1.0
handle_data-RepliedOnce_example =
    handle_data-RepliedOnce around json 3 [] controller [] controller-RepliedOnce

handle_signal-reset_example :
    Silent camera_record.log
      (handle_signal world sends no_source
        (remote offer_signal)
        unchanged
        false
        []
        []
        (reset camera_record)).1
handle_signal-reset_example =
    handle_signal-reset world sends no_source (remote offer_signal) unchanged (λ k l c h. h) false
      [] [] camera_record

-- The record of a peer for the stream, with the camera and its sender.
abbrev peer_record : P2pRecord
peer_record = record camera_record {
  pc = some 5;
  tracks = (11, camera) ∷ [];
  senders = (11, 9) ∷ [];
}

abbrev peer : Controller
peer = record controller { callbacks = (codes "t", peer_record) ∷ [] }

abbrev peers : Peers
peers = (codes "bob", (false, some peer)) ∷ []

abbrev withdrawn_camera : TrackRecord
withdrawn_camera = record (camera_of 1) { remove = true; p2p = some (codes "t") }

bob_listed : lookup (codes "bob") peers ≡ some (false, some peer)
unfolding lookup text_eq
bob_listed = refl

peer_held : lookup (codes "t") peer.callbacks ≡ some peer_record
unfolding lookup text_eq
peer_held = refl

peer_sends : is_some (lookup 11 peer_record.senders) ≡ true
unfolding lookup new_record
peer_sends = refl

take_p2p_track-Forgets_example :
    (c' : Controller) × (p' : P2pRecord) × (lookup
        (codes "bob")
        (take_p2p_track world sends (λ _. false) (codes "alice") withdrawn_camera (codes "t") peers)
      ≡ some (false, some c'))
    × (lookup (codes "t") c'.callbacks ≡ some p')
    × Forgets 11 p'
take_p2p_track-Forgets_example =
    take_p2p_track-Forgets world sends (λ _. false) (codes "alice") (codes "t") (codes "bob")
      withdrawn_camera peer peer_record peers refl refl bob_listed (λ e. ground arith) peer_held
      refl (λ h. peer_sends)

-- The record takes a camera, which sends one packet.
abbrev publisher : P2pRecord
publisher = record camera_record { pc = some 5 }

abbrev camera_track : Track
camera_track = record camera { id = codes "i"; label = codes "g" }

abbrev arrival : Taken × P2pRecord
arrival = Incoming.on_track world media 5 remote_camera 3 publisher

camera_taken : arrival ≡ (taken 1 camera_track (some 4), arrival.1)
unfolding Incoming.on_track new_record text_eq Incoming.with_video lookup
camera_taken = refl

abbrev flow : Flow Peers
flow = record { listeners = peers; jitter_buffer = jitter_buffer; output = [] }

-- Meanwhile the record is reset.
abbrev while_live : Meanwhile Peers P2pRecord
while_live = record {
  room = λ _ _. true;
  worker = true;
  flow_changes = λ _ f. f;
  record_changes = reset;
}

abbrev published : P2pRecord
published = Incoming.publish (taken 1 camera_track (some 4), arrival.1)

run_p2p_track_lem_example :
    ◌≡◌ {A = ℕ} 1 1
    × (lookup 1 publisher.tracks ≡ none)
    × (lookup 1 published.tracks ≡ some camera_track)
    × (published.log
        ≡ publisher.log
          ++ (track_change (Incoming.publication publisher camera_track (some 4)) ∷ []))
    × ((ended : P2pRecord) × (flow' : Flow Peers) × (run_track media vp8
            (codes "t")
            while_live
            camera_track
            (some 4)
            (packet ∷ [])
            (arrival.1, flow)
          ≡ some (ended, flow'))
        × (lookup 1 ended.tracks ≡ none)
        × ((k : ℕ) → k ≢ 1 → lookup k ended.tracks ≡ lookup k (reset published).tracks)
        × (ended.log
            ≡ (reset published).log
              ++ (track_change
                    (record (Incoming.publication (reset published) camera_track (some 4)) {
                      remove = true;
                    })
                  ∷ []))
        × (get_buffer 11 flow'.jitter_buffer ≡ none))
run_p2p_track_lem_example =
    run_p2p_track_lem world media vp8 (codes "t") 5 3 1 remote_camera publisher arrival.1
      camera_track (some 4) (packet ∷ []) while_live flow camera_taken ((refl, omega arith), tt)
      refl (λ _ _. refl)
