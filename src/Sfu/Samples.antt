-- ===== src/Sfu/Samples.antt =====
-- Values that the tests share: an outside on which all calls succeed, tracks, packets and
-- connections.
use kwmbridge.Base.{ℕ, true, false, none, some, [], ◌∷◌, Option, codes}
use kwmbridge.JitterBuffer.Packet.{Packet}
use kwmbridge.JitterBuffer.Registry.{JitterBuffer, new}
use kwmbridge.Sfu.Incoming.{RemoteTrack, Media}
use kwmbridge.Sfu.Types.{video, Codec, Track, TrackRecord, Outside}
use kwmbridge.Sfu.Connection.{Connection, new_connection}
use kwmbridge.Sfu.Connection.Signal.{type_offer, Signal, Remote}

abbrev pub vp8 : Codec
vp8 = record { name = codes "VP8"; payload_type = 96 }

abbrev pub world : Outside
world = record {
  channel = codes "c";
  group = codes "g";
  channel_closed = false;
  ws_done = false;
  send = λ _. true;
  random_string = codes "r";
  new_media = 1;
  codecs_by_kind = λ _ _. vp8 ∷ [];
  new_peer_connection = some 5;
  peer_id = λ _. codes "p";
  create_data_channel = λ _. some 1;
  create_offer = λ _. some (codes "v=0");
  create_answer = λ _. some (codes "v=0");
  set_local_description = λ _ _. true;
  add_transceiver_from_kind = λ _ _ _. true;
  transceivers = λ _. [];
  new_track = λ _ _. true;
  add_track = λ _ _. some 9;
  remove_track = λ _ _. true;
}

abbrev pub camera : Track
camera = record {
  ssrc = 11;
  id = codes "t";
  label = codes "l";
  kind = video;
  codec = codes "VP8";
  payload_type = 96;
}

abbrev pub camera_of : ℕ → TrackRecord
camera_of source = record {
  track = camera;
  source = source;
  p2p = none;
  remove = false;
  transceiver = true;
  rtcp_ch = none;
}

abbrev pub fresh : Connection
fresh = new_connection false 1 (codes "alice") (codes "bob") (codes "s") true

-- A connection with a peer connection, bound to the source 2.
abbrev pub live : Connection
live = record fresh {
  pc = some 5;
  bound = some 2;
  webrtc_media = some 1;
  tracks = (11, camera) ∷ [];
  senders = (11, 9) ∷ [];
}

-- A connection of the side that does not start it, with a peer connection.
abbrev pub receiver : Connection
receiver = record live { initiator = false; rpcid = codes "q" }

abbrev pub offer_signal : Signal
offer_signal = record {
  renegotiate = false;
  noop = false;
  sdp_type = codes "offer";
  sdp = codes "sdp";
  candidate = [];
  transceiver_request = [];
}

abbrev pub request_signal : Signal
request_signal = record offer_signal { sdp = []; transceiver_request = codes "video" }

-- The calls of a handler on a message with the signal.
abbrev pub remote : Signal → Remote
remote s = record {
  signal_of = λ _. some s;
  sdp_type_of = λ _. some type_offer;
  string_of = λ _. some (codes "v=0");
  candidate_of = λ c. some c;
  request_of = λ _. none;
  codec_type = λ _. video;
  has_remote_description = λ _. true;
  add_ice_candidate = λ _ _. true;
  set_remote_description = λ _ _ _. true;
  populate_from_sdp = λ _ _. some 1;
}

abbrev pub unchanged : {A : Type 0} → ℕ → A → A
unchanged _ c = c

abbrev pub media : Media
media = record {
  vp8 = codes "VP8";
  vp9 = codes "VP9";
  opus = codes "opus";
  guid = codes "g";
  track_id = codes "i";
  rtcp_ch = 4;
  new_track = λ _ payload_type ssrc id label. some (record {
    ssrc = ssrc;
    id = id;
    label = label;
    kind = video;
    codec = codes "VP8";
    payload_type = payload_type;
  });
  write_rtp = λ _ _. true;
}

abbrev pub remote_camera : RemoteTrack
remote_camera = record { ssrc = 11; payload_type = 96; codec = codes "VP8" }

abbrev pub packet : Packet
packet = record {
  ssrc = 11;
  payload_type = 96;
  timestamp = 1000;
  sequence_number = 1;
  marshal_size = 100;
}

abbrev pub jitter_buffer : JitterBuffer
jitter_buffer = new (codes "j") (record {
  pli_interval = 0;
  remb_interval = 0;
  bandwidth = 100;
  max_bandwidth = 0;
  min_bandwidth = 0;
})

abbrev pub or_else : {A : Type 0} → A → Option A → A
or_else a none = a
or_else _ (some a) = a
