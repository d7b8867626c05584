-- ===== src/Sfu/Connection.antt =====
-- rtmcsfu/connectionrecord.go: the record of one connection between the forwarding unit and a user.
-- The methods change the record, and append to `log` what they do to their surroundings, in order.
-- The lock is held by the caller, so each runs as one step. `needs_negotiation` says whether the
-- channel of capacity one holds its value, `ice_complete` whether that channel is closed. JSON
-- encoding of the messages, which cannot fail for their types, is left out. The jitter buffer is in
-- Sfu.Incoming.Jitter.
pub mod Negotiation
pub mod Transceivers
pub mod Tracks
pub mod Peer
pub mod Ice
pub mod Signal
pub mod Handler
pub mod Answers
pub mod Signals
pub mod Offers
pub mod Protocol
pub mod Requests
pub mod Runs
pub mod Queue
pub mod Reset
pub mod Binding
pub mod Matched
pub mod Incoming
pub mod Publishing
pub mod Ended
mod Tests
use kwmbridge.Base.{
  ℕ, Bool, true, false, not, ◌&&◌, Option, none, some, List, [], ◌∷◌, ◌++◌, map, if◌then◌else◌,
  is_some, Text,
}
use kwmbridge.Utils.{compute_initiator}
use kwmbridge.Sfu.Steps.{Step}
pub use kwmbridge.Sfu.Steps.{
  after, ◌>>=◌, ◌>>◌, return, fail, change, answer_or, check, ignore_error,
}
use kwmbridge.Sfu.Types.{
  Track, TrackRecord, Effect, cancelled, closed, track_change, rtcp_end, p2p_reset, handler_called,
  Outcome, ok, err, Failure, Outside,
}

-- The record's jitter buffer: none, or one whose loops run, or have ended with the context under
-- which they were started.
pub data JitterLoops : Type 0 where
  no_jitter running stopped : JitterLoops

-- What the end of that context makes of it.
abbrev pub stop_jitter : JitterLoops → JitterLoops
stop_jitter no_jitter = no_jitter
stop_jitter running = stopped
stop_jitter stopped = stopped

pub record Connection : Type 0 where
  pub owner : ℕ
  pub owner_id : Text
  pub bound : Option ℕ
  pub ctx_done : Bool
  pub on_reset_handler : Bool  -- whether one is set
  pub id : Text
  pub rpcid : Text
  pub initiator : Bool
  pub pipeline : Bool  -- whether there is one
  pub webrtc_media : Option ℕ
  pub webrtc_api : Bool  -- whether there is one
  pub pc : Option ℕ
  pub pcid : Text
  pub state : Text
  pub pending_candidates : List Text
  pub requested_transceivers : List (ℕ × Unit {0})
  pub needs_negotiation : Bool
  pub queued_negotiation : Bool
  pub is_negotiating : Bool
  pub ice_complete : Bool
  pub guid : Text
  pub tracks : List (ℕ × Track)
  pub senders : List (ℕ × ℕ)
  pub receivers : List (ℕ × ℕ)
  pub pending : List (ℕ × TrackRecord)
  pub rtcp_ch : Option ℕ
  pub jitter_buffer : JitterLoops
  pub rtp_payload_types : List (Text × ℕ)
  pub log : List Effect

unfoldable pub new_connection : Bool → ℕ → Text → Text → Text → Bool → Connection
unfolding compute_initiator
new_connection parent_done owner owner_id target state pipeline = record {
  owner = owner;
  owner_id = owner_id;
  bound = none;
  ctx_done = parent_done;
  on_reset_handler = false;
  id = target;
  rpcid = [];
  initiator = compute_initiator owner_id target;
  pipeline = pipeline;
  webrtc_media = none;
  webrtc_api = false;
  pc = none;
  pcid = [];
  state = state;
  pending_candidates = [];
  requested_transceivers = [];
  needs_negotiation = false;
  queued_negotiation = false;
  is_negotiating = false;
  ice_complete = false;
  guid = [];
  tracks = [];
  senders = [];
  receivers = [];
  pending = [];
  rtcp_ch = none;
  jitter_buffer = if pipeline then if parent_done then stopped else running else no_jitter;
  rtp_payload_types = [];
  log = [];
}

-- A method that may fail, on the record that it changes.
abbrev pub M : Type 0 → Type 0
M A = Step Connection A

abbrev pub emit : List Effect → Connection → Connection
emit effects c = record c { log = c.log ++ effects }

-- The record under which a reset withdraws a track of a sender.
abbrev pub withdrawal : Connection → ℕ × Track → Effect
withdrawal c (_, t) = track_change (record {
  track = t;
  source = c.owner;
  p2p = none;
  remove = true;
  transceiver = false;
  rtcp_ch = c.rtcp_ch;
})

-- The nil record that ends the readers of an rtcpCh.
abbrev pub close_rtcp : Option ℕ → List Effect
close_rtcp none = []
close_rtcp (some ch) = rtcp_end ch ∷ []

-- The peer connection is closed, and the tracks of a sender are withdrawn.
abbrev pub peer_effects : Connection → List Effect
peer_effects c = elim c.pc [
  | none ↦ []
  | some pc ↦ closed pc ∷ (if c.pipeline then map (withdrawal c) c.tracks else [])
]

abbrev pub end_effects : Connection → List Effect
end_effects c = p2p_reset ∷ (if c.on_reset_handler then handler_called ∷ [] else [])

-- What reset does to its surroundings.
unfoldable pub reset_effects : Connection → List Effect
reset_effects c = cancelled ∷ (peer_effects c ++ (close_rtcp c.rtcp_ch ++ end_effects c))

unfoldable pub reset : Bool → Connection → Connection
reset parent_done c =
    let drop_api = is_some c.pc && not c.initiator in
    record c {
      ctx_done = parent_done;
      webrtc_media = if drop_api then none else c.webrtc_media;
      webrtc_api = if drop_api then false else c.webrtc_api;
      pc = none;
      pcid = [];
      rpcid = [];
      pending_candidates = [];
      needs_negotiation = false;
      queued_negotiation = false;
      is_negotiating = false;
      ice_complete = false;
      requested_transceivers = [];
      tracks = [];
      senders = [];
      receivers = [];
      pending = [];
      rtcp_ch = none;
      jitter_buffer = stop_jitter c.jitter_buffer;
      on_reset_handler = false;
      bound = none;
      log = c.log ++ reset_effects c;
    }

unfoldable pub clear_peer_connection : Connection → Connection
clear_peer_connection c = elim c.pc [
  | none ↦ c
  | some pc ↦ record c {
    pc = none;
    pcid = [];
    rpcid = [];
    pending_candidates = [];
    webrtc_media = if c.initiator then c.webrtc_media else none;
    webrtc_api = if c.initiator then c.webrtc_api else false;
    needs_negotiation = false;
    queued_negotiation = false;
    is_negotiating = false;
    ice_complete = false;
    requested_transceivers = [];
    tracks = [];
    pending = [];
    rtcp_ch = none;
    log = c.log ++ (closed pc ∷ close_rtcp c.rtcp_ch);
  }
]

-- negotiationNeeded: a send that is given up where the channel is full.
unfoldable pub negotiation_needed : Connection → Connection
negotiation_needed c = if c.needs_negotiation then c else record c { needs_negotiation = true }
