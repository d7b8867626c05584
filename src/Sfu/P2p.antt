-- ===== src/Sfu/P2p.antt =====
-- rtmcsfu/p2precord.go: the record of a peer connection for one stream of a user, whose messages go
-- over a data channel of the user's connection. The lock is held by the caller, so each method runs
-- as one step, which appends to `log` what it does to its surroundings. JSON encoding of the
-- messages, which cannot fail for their types, is left out. The jitter buffer is in
-- Sfu.Incoming.Jitter.
pub mod Negotiation
pub mod Transceivers
pub mod Tracks
pub mod Peer
pub mod Ice
pub mod Signal
pub mod Handler
pub mod Controller
pub mod Announcing
pub mod Dispatch
pub mod Handshake
pub mod Silence
pub mod Stages
pub mod Silences
pub mod Incoming
pub mod Workers
pub mod Forwarding
pub mod Delivery
pub mod Lives
pub mod Removal
mod Tests
use kwmbridge.Base.{
  ℕ, Bool, true, false, not, ◌&&◌, Option, none, some, List, [], ◌∷◌, ◌++◌, if◌then◌else◌, is_some,
  Text,
}
use kwmbridge.Sfu.Types.{
  Track, TrackRecord, Payload, Message, Effect, closed, sent, Outcome, ok, err, Failure,
  send_failed, Outside, webrtc_payload_version,
}
use kwmbridge.Sfu.Steps.{Step}
use kwmbridge.Sfu.Connection.{close_rtcp}

-- A P2PRecord. The parent record is known by what the methods read of it: whether it starts
-- connections, and the number of its owner.
pub record P2pRecord : Type 0 where
  pub id : Text
  pub token : Text
  pub rpcid : Text
  pub initiator : Bool
  pub owner : ℕ
  pub data_channel : Option ℕ
  pub ctx_done : Bool
  pub webrtc_media : Option ℕ
  pub webrtc_api : Bool
  pub pc : Option ℕ
  pub pcid : Text
  pub pending_candidates : List Text
  pub requested_transceivers : List (ℕ × Unit {0})
  pub needs_negotiation : Bool
  pub queued_negotiation : Bool
  pub is_negotiating : Bool
  pub ice_complete : Bool
  pub guid : Text
  pub source : Option ℕ  -- the number of a record
  pub tracks : List (ℕ × Track)
  pub senders : List (ℕ × ℕ)
  pub receivers : List (ℕ × ℕ)
  pub pending : List (ℕ × TrackRecord)
  pub rtcp_ch : Option ℕ
  pub rtp_payload_types : List (Text × ℕ)
  pub log : List Effect

-- A method that may fail, on the record that it changes.
abbrev pub M : Type 0 → Type 0
M A = Step P2pRecord A

-- NewP2PRecord, of a parent whose context is done or not.
unfoldable pub new_record : Bool → Bool → ℕ → Option ℕ → Text → Text → Option ℕ → P2pRecord
new_record parent_done initiator owner data_channel id token source = record {
  id = id;
  token = token;
  rpcid = [];
  initiator = initiator;
  owner = owner;
  data_channel = data_channel;
  ctx_done = parent_done;
  webrtc_media = none;
  webrtc_api = false;
  pc = none;
  pcid = [];
  pending_candidates = [];
  requested_transceivers = [];
  needs_negotiation = false;
  queued_negotiation = false;
  is_negotiating = false;
  ice_complete = false;
  guid = [];
  source = source;
  tracks = [];
  senders = [];
  receivers = [];
  pending = [];
  rtcp_ch = none;
  rtp_payload_types = [];
  log = [];
}

abbrev pub emit : List Effect → P2pRecord → P2pRecord
emit effects c = record c { log = c.log ++ effects }

abbrev pub close_peer : Option ℕ → List Effect
close_peer none = []
close_peer (some pc) = closed pc ∷ []

-- reset, which leaves the context, the pending candidates, the GUID and the payload types.
unfoldable pub reset : P2pRecord → P2pRecord
reset c =
    let drop_api = is_some c.pc && not c.initiator in
    record c {
      data_channel = none;
      webrtc_media = if drop_api then none else c.webrtc_media;
      webrtc_api = if drop_api then false else c.webrtc_api;
      pc = none;
      pcid = [];
      rpcid = [];
      needs_negotiation = false;
      queued_negotiation = false;
      is_negotiating = false;
      ice_complete = false;
      requested_transceivers = [];
      source = none;
      tracks = [];
      senders = [];
      receivers = [];
      pending = [];
      rtcp_ch = none;
      log = c.log ++ (close_peer c.pc ++ close_rtcp c.rtcp_ch);
    }

unfoldable pub clear_peer_connection : P2pRecord → P2pRecord
clear_peer_connection c = elim c.pc [
  | none ↦ c
  | some pc ↦ record c {
    pc = none;
    pcid = [];
    rpcid = [];
    pending_candidates = [];
    webrtc_media = if c.initiator then c.webrtc_media else none;
    webrtc_api = if c.initiator then c.webrtc_api else false;
    needs_negotiation = false;
    queued_negotiation = false;
    is_negotiating = false;
    ice_complete = false;
    requested_transceivers = [];
    tracks = [];
    pending = [];
    rtcp_ch = none;
    log = c.log ++ (closed pc ∷ close_rtcp c.rtcp_ch);
  }
]

-- negotiationNeeded: a send that is given up where the channel is full.
unfoldable pub negotiation_needed : P2pRecord → P2pRecord
negotiation_needed c = if c.needs_negotiation then c else record c { needs_negotiation = true }

-- The message with the payload; its other fields are left empty.
abbrev pub message : Payload → P2pRecord → Message
message payload c = record {
  version = webrtc_payload_version;
  channel = [];
  target = [];
  source = c.token;
  group = [];
  hash = [];
  state = [];
  pcid = c.pcid;
  payload = payload;
}

-- send; `send_text` says which messages a data channel takes.
unfoldable pub send : (ℕ → Message → Bool) → Message → M (Unit {0})
send send_text m c = elim c.data_channel [
  | none ↦ (err send_failed, c)
  | some channel ↦
      if send_text channel m then (ok tt, emit (sent m ∷ []) c) else (err send_failed, c)
]
