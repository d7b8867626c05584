-- ===== src/Sfu/Http/Nested.antt =====
-- rtmcsfu/http.go: the resources of connections, controllers and peer to peer records, which hold
-- one another. A pending track shows the connection that it comes from with all that hangs on it;
-- `connection_resource` has fuel for that depth, and `none` says that it was not enough.
use kwmbridge.Base.{ℕ, zero, suc, Bool, Option, none, some, List, [], ◌∷◌, Text, length}
use kwmbridge.Sfu.Types.{TrackRecord}
use kwmbridge.Sfu.Connection.{Connection}
use kwmbridge.Sfu.P2p.{P2pRecord}
use kwmbridge.Sfu.P2p.Controller.{Controller, Stream}
use kwmbridge.Sfu.Http.Resources.{
  ChannelUserResource, ConnectionTrackResource, ConnectionPeerConnectionResource,
  TransceiverStateResource, JitterBufferResource, Reads, string_of_rune, map_option, map_entries,
  new_jitter_buffer_resource, user_resource_at, new_connection_track_resource, sender_resource,
  receiver_resource,
}

-- The fields of a ChannelConnectionResource beside `pending` and `p2p`.
pub record ConnectionFields : Type 0 where
  pub key : Text
  pub owner : Option ChannelUserResource
  pub bound : Option ChannelUserResource
  pub id : Text
  pub rpcid : Text
  pub is_initiator : Bool
  pub peer_connection : Option ConnectionPeerConnectionResource
  pub pcid : Text
  pub state : Text
  pub pending_candidates_count : ℕ
  pub has_queued_negotiation : Bool
  pub is_negotiating : Bool
  pub guid : Text
  pub tracks : List (ℕ × ConnectionTrackResource)
  pub senders : List (ℕ × TransceiverStateResource)
  pub receivers : List (ℕ × TransceiverStateResource)
  pub rtp_payload_types : List (Text × ℕ)
  pub jitter_buffer : Option JitterBufferResource

-- Those of a P2PRecordResource; its `state` and `p2p` are never set.
pub record RecordFields : Type 0 where
  pub key : Text
  pub id : Text
  pub token : Text
  pub rpcid : Text
  pub peer_connection : Option ConnectionPeerConnectionResource
  pub pcid : Text
  pub pending_candidates_count : ℕ
  pub has_queued_negotiation : Bool
  pub is_negotiating : Bool
  pub guid : Text
  pub tracks : List (ℕ × ConnectionTrackResource)
  pub senders : List (ℕ × TransceiverStateResource)
  pub receivers : List (ℕ × TransceiverStateResource)
  pub rtp_payload_types : List (Text × ℕ)
  pub jitter_buffer : Option JitterBufferResource

-- Those of a ConnectionTrackRecordResource beside `connection`.
pub record PendingFields : Type 0 where
  pub source : Option ChannelUserResource
  pub track : ConnectionTrackResource
  pub is_remove : Bool
  pub with_transceiver : Bool

-- Those of a StreamRecordResource beside `connection`.
pub record StreamFields : Type 0 where
  pub key : Text
  pub id : Text
  pub kind : Text
  pub token : Text

mutual
  -- A ChannelConnectionResource, or null.
  pub data ConnectionResource : Type 0 where
    null_connection : ConnectionResource
    connection : ConnectionFields → PendingResources → ControllerResource → ConnectionResource

  pub data PendingResources : Type 0 where
    no_pending : PendingResources
    pending : ℕ → PendingFields → ConnectionResource → PendingResources → PendingResources

  -- A P2PControllerResource, with its callbacks, streams and pending streams, or null.
  pub data ControllerResource : Type 0 where
    null_controller : ControllerResource
    controller : RecordResources → StreamResources → StreamResources → ControllerResource

  -- A P2PRecordResource, or null.
  pub data RecordResource : Type 0 where
    null_record : RecordResource
    p2p_record : RecordFields → PendingResources → RecordResource

  pub data RecordResources : Type 0 where
    no_records : RecordResources
    record_entry : Text → RecordResource → RecordResources → RecordResources

  pub data StreamResources : Type 0 where
    no_streams : StreamResources
    stream_entry : StreamFields → RecordResource → StreamResources → StreamResources

infixl 5 ◌>>=◌
abbrev pub ◌>>=◌ : {A B : Type 0} → Option A → (A → Option B) → Option B
none >>= k = none
some a >>= k = k a

module _ (w : Reads) where
  unfoldable pub connection_fields : Text → Connection → ConnectionFields
  connection_fields key c = record {
    key = key;
    owner = user_resource_at w [] (some c.owner);
    bound = user_resource_at w [] c.bound;
    id = c.id;
    rpcid = c.rpcid;
    is_initiator = c.initiator;
    peer_connection = map_option w.peer_of c.pc;
    pcid = c.pcid;
    state = c.state;
    pending_candidates_count = length c.pending_candidates;
    has_queued_negotiation = c.queued_negotiation;
    is_negotiating = c.is_negotiating;
    guid = c.guid;
    tracks = map_entries (new_connection_track_resource w) c.tracks;
    senders = map_entries (sender_resource w) c.senders;
    receivers = map_entries (receiver_resource w) c.receivers;
    rtp_payload_types = c.rtp_payload_types;
    jitter_buffer = new_jitter_buffer_resource (w.jitter_buffer_of c);
  }

  unfoldable pub record_fields : Text → P2pRecord → RecordFields
  record_fields key p = record {
    key = key;
    id = p.id;
    token = p.token;
    rpcid = p.rpcid;
    peer_connection = map_option w.peer_of p.pc;
    pcid = p.pcid;
    pending_candidates_count = length p.pending_candidates;
    has_queued_negotiation = p.queued_negotiation;
    is_negotiating = p.is_negotiating;
    guid = p.guid;
    tracks = map_entries (new_connection_track_resource w) p.tracks;
    senders = map_entries (sender_resource w) p.senders;
    receivers = map_entries (receiver_resource w) p.receivers;
    rtp_payload_types = p.rtp_payload_types;
    jitter_buffer = new_jitter_buffer_resource (w.p2p_jitter_buffer_of p);
  }

  abbrev pending_fields : ℕ → TrackRecord → PendingFields
  pending_fields key r = record {
    source = user_resource_at w (string_of_rune key) (some r.source);
    track = new_connection_track_resource w r.track;
    is_remove = r.remove;
    with_transceiver = r.transceiver;
  }

  -- The record of a stream.
  abbrev pub stream_record : Stream → Option P2pRecord
  stream_record s = s.connection >>= w.record_of

  -- The parts, where `at` makes the resource of a connection.
  module _ (at : Text → Option Connection → Option ConnectionResource) where
    unfoldable pub pending_resources : List (ℕ × TrackRecord) → Option PendingResources
    unfolding string_of_rune
    pending_resources [] = some no_pending
    pending_resources ((key, r) ∷ rest) = do
      c ← at (string_of_rune key) (w.connection_of r)
      more ← pending_resources rest
      some (pending key (pending_fields key r) c more)

    unfoldable pub new_p2p_record_resource : Text → Option P2pRecord → Option RecordResource
    unfolding record_fields pending_resources
    new_p2p_record_resource key none = some null_record
    new_p2p_record_resource key (some p) = do
      waiting ← pending_resources p.pending
      some (p2p_record (record_fields key p) waiting)

    unfoldable pub record_resources : List (Text × P2pRecord) → Option RecordResources
    unfolding new_p2p_record_resource
    record_resources [] = some no_records
    record_resources ((key, p) ∷ rest) = do
      r ← new_p2p_record_resource key (some p)
      more ← record_resources rest
      some (record_entry key r more)

    -- A map of streams, each a StreamRecordResource.
    unfoldable pub stream_resources : List (Text × Stream) → Option StreamResources
    unfolding new_p2p_record_resource
    stream_resources [] = some no_streams
    stream_resources ((key, s) ∷ rest) = do
      r ← new_p2p_record_resource [] (stream_record s)
      more ← stream_resources rest
      some (stream_entry (record { key = key; id = s.id; kind = s.kind; token = s.token }) r more)

    unfoldable pub new_p2p_controller_resource : Option Controller → Option ControllerResource
    unfolding record_resources stream_resources
    new_p2p_controller_resource none = some null_controller
    new_p2p_controller_resource (some c) = do
      callbacks ← record_resources c.callbacks
      streams ← stream_resources c.streams
      waiting ← stream_resources c.pending
      some (controller callbacks streams waiting)

  unfoldable pub connection_resource : ℕ → Text → Option Connection → Option ConnectionResource
  unfolding connection_fields pending_resources new_p2p_controller_resource
  connection_resource zero key c = none
  connection_resource (suc fuel) key none = some null_connection
  connection_resource (suc fuel) key (some c) = do
    p2p ← new_p2p_controller_resource (connection_resource fuel) (w.controller_of c)
    waiting ← pending_resources (connection_resource fuel) c.pending
    some (connection (connection_fields key c) waiting p2p)
