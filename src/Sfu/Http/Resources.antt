-- ===== src/Sfu/Http/Resources.antt =====
-- rtmcsfu/http.go: the resources that hold no other records. What pion says of peer connections,
-- senders and receivers, and the time at which a user record was made, are fields of `Reads`, which
-- also follows the pointers of records.
use kwmbridge.Base.{
  ℕ, ◌+◌, ◌*◌, ◌/◌, ◌%◌, ◌^◌, Bool, ◌&&◌, Option, none, some, List, [], ◌∷◌, if◌then◌else◌, ltb,
  leb, Text, length,
}
use kwmbridge.JitterBuffer.Buffer.{Buffer}
use kwmbridge.JitterBuffer.Rates.{get_current_rates}
use kwmbridge.JitterBuffer.Registry.{JitterBuffer}
use kwmbridge.Sfu.Types.{Kind, Track, TrackRecord}
use kwmbridge.Sfu.Connection.{Connection}
use kwmbridge.Sfu.Users.{UserRecord}
use kwmbridge.Sfu.P2p.{P2pRecord}
use kwmbridge.Sfu.P2p.Controller.{Controller}

pub record ChannelUserResource : Type 0 where
  pub key : Text
  pub when : ℕ
  pub id : Text
  pub is_closed : Bool
  pub connections_count : ℕ
  pub publishers_count : ℕ

pub record ChannelResource : Type 0 where
  pub when : ℕ
  pub channel : Text
  pub group : Text
  pub pipeline : Text
  pub user_count : ℕ

pub record ConnectionTrackResource : Type 0 where
  pub id : Text
  pub ssrc : ℕ
  pub kind : Text
  pub label : Text
  pub payload_type : ℕ

pub record ConnectionPeerConnectionResource : Type 0 where
  pub id : Text
  pub connection_state : Text
  pub signaling_state : Text
  pub ice_gathering_state : Text
  pub local_description : Option Text
  pub remote_description : Option Text
  pub stats : Text

pub record DtlsTransportResource : Type 0 where
  pub state : Text
  pub parameters : Text
  pub ice_transport : Text

-- The state of a sender or receiver.
pub record TransceiverStateResource : Type 0 where
  pub dtls_transport : Option DtlsTransportResource
  pub track : Option ConnectionTrackResource

-- The rate of lost packets is in hundredths.
pub record BufferResource : Type 0 where
  pub is_video : Bool
  pub payload_type : ℕ
  pub lost_rate : ℕ
  pub bandwidth : ℕ

pub record JitterBufferResource : Type 0 where
  pub id : Text
  pub buffers : List (ℕ × BufferResource)

pub record Reads : Type 0 where
  pub channel_when : ℕ
  pub channel_group : Text
  pub when : ℕ → ℕ  -- of the user record with the number
  pub user_of : ℕ → Option UserRecord
  pub connection_of : TrackRecord → Option Connection
  pub jitter_buffer_of : Connection → Option JitterBuffer
  pub p2p_jitter_buffer_of : P2pRecord → Option JitterBuffer
  pub controller_of : Connection → Option Controller
  pub record_of : ℕ → Option P2pRecord
  pub peer_of : ℕ → ConnectionPeerConnectionResource
  pub kind_text : Kind → Text
  pub sender_transport : ℕ → Option DtlsTransportResource
  pub sender_track : ℕ → Option Track
  pub receiver_transport : ℕ → Option DtlsTransportResource
  pub receiver_track : ℕ → Option Track

-- `string(key)` of a number: the UTF-8 encoding of the code point, or of the replacement character.
unfoldable pub string_of_rune : ℕ → Text
string_of_rune n =
    if ltb n 0x80
    then n ∷ []
    else if ltb n 0x800
    then (0xC0 + n / 0x40) ∷ (0x80 + n % 0x40) ∷ []
    else if (leb 0xD800 n && leb n 0xDFFF)
    then 0xEF ∷ 0xBF ∷ 0xBD ∷ []
    else if ltb n 0x10000
    then (0xE0 + n / 0x1000) ∷ (0x80 + n / 0x40 % 0x40) ∷ (0x80 + n % 0x40) ∷ []
    else if ltb n 0x110000
    then (0xF0 + n / 0x40000)
      ∷ (0x80 + n / 0x1000 % 0x40)
      ∷ (0x80 + n / 0x40 % 0x40)
      ∷ (0x80 + n % 0x40)
      ∷ []
    else 0xEF ∷ 0xBF ∷ 0xBD ∷ []

abbrev pub map_option : {A B : Type 0} → (A → B) → Option A → Option B
map_option f none = none
map_option f (some a) = some (f a)

-- The entries of a map, each made into a resource.
abbrev pub map_entries : {K A B : Type 0} → (A → B) → List (K × A) → List (K × B)
map_entries f [] = []
map_entries f ((k, a) ∷ rest) = (k, f a) ∷ map_entries f rest

unfoldable pub new_buffer_resource : Buffer → BufferResource
unfolding get_current_rates
new_buffer_resource b =
    let (lost_rate, byte_rate) = get_current_rates b in
    record {
      is_video = b.video;
      payload_type = b.payload_type;
      lost_rate = lost_rate;
      bandwidth = byte_rate * 8 % 2 ^ 64 / 1000;
    }

unfoldable pub new_jitter_buffer_resource : Option JitterBuffer → Option JitterBufferResource
unfolding new_buffer_resource
new_jitter_buffer_resource none = none
new_jitter_buffer_resource (some j) =
    some (record { id = j.id; buffers = map_entries new_buffer_resource j.buffers })

module _ (w : Reads) where
  unfoldable pub new_channel_user_resource : Text → UserRecord → ChannelUserResource
  new_channel_user_resource key u = record {
    key = key;
    when = w.when u.number;
    id = u.id;
    is_closed = u.closed;
    connections_count = length u.connections;
    publishers_count = length u.publishers;
  }

  -- The resource of a user record behind a pointer, which may be nil.
  abbrev pub user_resource_at : Text → Option ℕ → Option ChannelUserResource
  user_resource_at key none = none
  user_resource_at key (some number) = map_option (new_channel_user_resource key) (w.user_of number)

  unfoldable pub new_connection_track_resource : Track → ConnectionTrackResource
  new_connection_track_resource t = record {
    id = t.id;
    ssrc = t.ssrc;
    kind = w.kind_text t.kind;
    label = t.label;
    payload_type = t.payload_type;
  }

  abbrev pub sender_resource : ℕ → TransceiverStateResource
  sender_resource n = record {
    dtls_transport = w.sender_transport n;
    track = map_option new_connection_track_resource (w.sender_track n);
  }

  abbrev pub receiver_resource : ℕ → TransceiverStateResource
  receiver_resource n = record {
    dtls_transport = w.receiver_transport n;
    track = map_option new_connection_track_resource (w.receiver_track n);
  }
