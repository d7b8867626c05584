-- ===== src/Sfu/Types.antt =====
-- What the records of the forwarding unit hold and exchange: tracks (trackrecord.go), the messages
-- that they send, the calls that leave the program, and the record of such calls that was made.
use kwmbridge.Base.{ℕ, Bool, true, false, Option, List, Text}

-- rtmcsfu.go: the experiments, by their constants, and the payload version.
abbrev pub experiment_ice_trickle : Bool
experiment_ice_trickle = false

abbrev pub experiment_add_transceiver : Bool
experiment_add_transceiver = true

abbrev pub experiment_always_add_transceiver_to_sender : Bool
experiment_always_add_transceiver_to_sender = false

abbrev pub webrtc_payload_version : ℕ
webrtc_payload_version = 20180703

abbrev pub sender_track_video : ℕ
sender_track_video = 1

abbrev pub sender_track_audio : ℕ
sender_track_audio = 2

-- `webrtc.RTPCodecType`, and `webrtc.RTPTransceiverDirection` with its zero value.
pub data Kind : Type 0 where
  audio video unspecified : Kind

pub data Direction : Type 0 where
  unknown sendrecv sendonly recvonly inactive : Direction

pub record Codec : Type 0 where
  pub name : Text
  pub payload_type : ℕ

pub record Track : Type 0 where
  pub ssrc : ℕ
  pub id : Text
  pub label : Text
  pub kind : Kind
  pub codec : Text
  pub payload_type : ℕ

-- A TrackRecord. User records and channels are known by a number; `p2p` is the token of the p2p
-- record that the track is for.
pub record TrackRecord : Type 0 where
  pub track : Track
  pub source : ℕ
  pub p2p : Option Text
  pub remove : Bool
  pub transceiver : Bool
  pub rtcp_ch : Option ℕ

-- The data of a message.
pub data Payload : Type 0 where
  offer : Text → Payload
  answer : Text → Payload
  renegotiate : Bool → Payload  -- with `noop`
  transceiver_request : Kind → Option Direction → Payload
  candidate : Text → Payload

-- An `api.RTMTypeWebRTC` with the subtype signal.
pub record Message : Type 0 where
  pub version : ℕ
  pub channel : Text
  pub target : Text
  pub source : Text
  pub group : Text
  pub hash : Text
  pub state : Text
  pub pcid : Text
  pub payload : Payload

-- What a record does to its surroundings.
pub data Effect : Type 0 where
  sent : Message → Effect
  cancelled : Effect  -- its context
  closed : ℕ → Effect  -- a peer connection
  track_change : TrackRecord → Effect  -- sent to the channel's trackCh
  rtcp_end : ℕ → Effect  -- nil sent to an rtcpCh
  p2p_reset : Effect
  p2p_bind : ℕ → Effect  -- a data channel
  handler_called : Effect  -- the reset handler
  receiver_added : Effect  -- the record sent to the channel's receiverCh
  owner_killed : Effect  -- the owner removed from the channel and closed

pub data Failure : Type 0 where
  send_failed offer_failed answer_failed local_failed : Failure
  track_mismatch track_exists new_track_failed add_track_failed codec_not_found : Failure
  remove_track_failed transceiver_failed no_media peer_failed data_channel_failed : Failure
  parse_failed populate_failed candidate_failed remote_failed : Failure
  nil_pointer : Failure  -- a call on a peer connection that is nil, a panic

pub data Outcome (A : Type 0) : Type 0 where
  ok : A → Outcome A
  err : Failure → Outcome A

-- What lies outside the code: the calls of pion/webrtc, the websocket, randomness, and what a
-- record reads of its channel. A call is answered by a function of its arguments; peer
-- connections, media engines, senders and data channels are known by a number.
pub record Outside : Type 0 where
  pub channel : Text
  pub group : Text
  pub channel_closed : Bool
  pub ws_done : Bool  -- whether the context of the channel's websocket is done
  pub send : Message → Bool
  pub random_string : Text
  pub new_media : ℕ  -- an engine with Opus, VP8 and VP9
  pub codecs_by_kind : ℕ → Kind → List Codec
  pub new_peer_connection : Option ℕ
  pub peer_id : ℕ → Text
  pub create_data_channel : ℕ → Option ℕ
  pub create_offer : ℕ → Option Text
  pub create_answer : ℕ → Option Text
  pub set_local_description : ℕ → Text → Bool
  pub add_transceiver_from_kind : ℕ → Kind → Option Direction → Bool
  pub transceivers : ℕ → List (Option Track × Direction)  -- the sender's track, if any
  pub new_track : Codec → Track → Bool
  pub add_track : ℕ → Track → Option ℕ
  pub remove_track : ℕ → ℕ → Bool
