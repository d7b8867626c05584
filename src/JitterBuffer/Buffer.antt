-- ===== src/JitterBuffer/Buffer.antt =====
-- internal/jitterbuffer/buffer.go: the buffer of one stream.
-- `pktBuffer` is a function from sequence numbers; a send on `rtcpCh` appends to `rtcp_ch`, and
-- one on the closed channel, like a second close, sets `panicked`. The channel's capacity, at
-- which a send waits for the reader, is left out. The counters of type `int` are unbounded.
pub mod Clear
pub mod Nack
pub mod Push
pub mod Reports
use Prim.Native.Nat.{bit_or}
use kwmbridge.Base.{
  ℕ, zero, suc, ◌+◌, ◌-◌, ◌*◌, ◌/◌, ◌%◌, ◌^◌, Bool, true, false, ◌&&◌, ◌||◌, not, Option, none,
  some, List, [], ◌∷◌, ◌++◌, ltb, leb, ◌==◌, if◌then◌else◌, is_some,
}
use kwmbridge.JitterBuffer.Packet.{
  Packet, NackPair, Rtcp, transport_layer_nack, sub16, next16, ts_delta,
}

abbrev pub max_sn : ℕ
max_sn = 65536

abbrev pub video_clock : ℕ
video_clock = 90000

abbrev pub max_buffer_ts_delta : ℕ
max_buffer_ts_delta = video_clock * 2

abbrev pub max_nack_lost_size : ℕ
max_nack_lost_size = 17

abbrev pub Slots : Type 0
Slots = ℕ → Option Packet

pub record Buffer : Type 0 where
  pub pkt_buffer : Slots
  pub last_nack_sn : ℕ  -- uint16
  pub last_clear_ts : ℕ  -- uint32
  pub last_clear_sn : ℕ  -- uint16
  pub last_push_sn : ℕ  -- uint16
  pub ssrc : ℕ  -- uint32
  pub payload_type : ℕ  -- uint8
  pub video : Bool
  pub received_pkt : ℕ
  pub lost_pkt : ℕ
  pub rtcp_ch : List Rtcp
  pub closed : Bool  -- whether rtcpCh is closed
  pub panicked : Bool
  pub total_byte : ℕ  -- uint64
  pub current_lost_rate : ℕ  -- uint64
  pub current_byte_rate : ℕ  -- uint64

unfoldable pub new_buffer : ℕ → ℕ → Bool → Buffer
new_buffer ssrc payload_type is_video = record {
  pkt_buffer = λ _. none;
  last_nack_sn = 0;
  last_clear_ts = 0;
  last_clear_sn = 0;
  last_push_sn = 0;
  ssrc = ssrc;
  payload_type = payload_type;
  video = is_video;
  received_pkt = 0;
  lost_pkt = 0;
  rtcp_ch = [];
  closed = false;
  panicked = false;
  total_byte = 0;
  current_lost_rate = 0;
  current_byte_rate = 0;
}

unfoldable pub stop : Buffer → Buffer
stop b = record b { closed = true; panicked = b.panicked || b.closed }

-- `b.pktBuffer[sn] = o`
abbrev pub put_slot : ℕ → Option Packet → Slots → Slots
put_slot sn o slots i = if i == sn then o else slots i

-- `b.rtcpCh <- pkt`
abbrev pub send : Rtcp → Buffer → Buffer
send pkt b = record b {
  rtcp_ch = if b.closed then b.rtcp_ch else b.rtcp_ch ++ (pkt ∷ []);
  panicked = b.panicked || b.closed;
}

-- The loop body's store: the slot `i` with the packet `q` is cleared.
abbrev pub evict : ℕ → Packet → Buffer → Buffer
evict i q b = record b {
  last_clear_ts = q.timestamp;
  last_clear_sn = i;
  pkt_buffer = put_slot i none b.pkt_buffer;
}

-- The loop of clearOldPkt, with `i` as its variable; `none` says that the fuel ran out.
unfoldable pub clear_loop : ℕ → ℕ → ℕ → ℕ → Buffer → Option Buffer
clear_loop zero ts sn i b = none
clear_loop (suc fuel) ts sn i b = elim (leb i sn) [
  | false ↦ some b
  | true ↦ elim (b.pkt_buffer i) [
    | none ↦ clear_loop fuel ts sn (next16 i) b
    | some q ↦ elim (leb max_buffer_ts_delta (ts_delta ts q.timestamp)) [
      | true ↦ clear_loop fuel ts sn (next16 i) (evict i q b)
      | false ↦ some b
    ]
  ]
]

unfoldable pub clear_old_pkt : ℕ → ℕ → Buffer → Option Buffer
clear_old_pkt ts sn b =
    if leb max_buffer_ts_delta (ts_delta ts b.last_clear_ts)
    then clear_loop max_sn ts sn (next16 b.last_clear_sn) b
    else some b

abbrev pub is_missing : Slots → ℕ → Bool
is_missing slots sn = not (is_some (slots sn))

-- The first loop of GetNackPair: the first empty slot among the `rounds` slots from `i` on.
unfoldable pub find_lost : Slots → ℕ → ℕ → Option ℕ
find_lost slots zero i = none
find_lost slots (suc rounds) i =
    let rest = find_lost slots rounds (i + 1) in if is_missing slots i then some i else rest

-- The second loop, over the `rounds` slots from `i` on: the bit mask and the count of lost
-- packets. `1 << n` is of type uint16.
unfoldable pub blp_loop : Slots → ℕ → ℕ → ℕ → ℕ → ℕ → ℕ × ℕ
blp_loop slots lost zero i blp lost_pkt = (blp, lost_pkt)
blp_loop slots lost (suc rounds) i blp lost_pkt =
    let hit = ltb lost i && is_missing slots i in
    blp_loop slots lost rounds (i + 1)
      (if hit then bit_or blp (2 ^ (i - lost - 1) % 65536) else blp)
      (if hit then lost_pkt + 1 else lost_pkt)

-- What follows the first loop, given the value of `lost` and the count at its end.
unfoldable pub finish_nack_pair : Slots → ℕ → ℕ → ℕ → NackPair × ℕ
unfolding blp_loop
finish_nack_pair slots end lost lost_pkt =
    if lost == 0
    then (record { packet_id = 0; lost_packets = 0 }, lost_pkt)
    else (let (blp, count) = blp_loop slots lost (end - lost) lost 0 lost_pkt in
        (record { packet_id = lost; lost_packets = blp }, count))

unfoldable pub get_nack_pair : Slots → ℕ → ℕ → NackPair × ℕ
get_nack_pair slots begin end =
    if ltb max_nack_lost_size (sub16 end begin)
    then (record { packet_id = 0; lost_packets = 0 }, 0)
    else elim (find_lost slots (end - begin) begin) [
      | none ↦ finish_nack_pair slots end 0 0
      | some i ↦ finish_nack_pair slots end i 1
    ]

-- Push up to the store into the buffer.
unfoldable pub record_packet : Packet → Buffer → Buffer
record_packet p b = record b {
  received_pkt = b.received_pkt + 1;
  total_byte = (b.total_byte + p.marshal_size) % 2 ^ 64;
  ssrc = if b.ssrc == 0 || b.payload_type == 0 then p.ssrc else b.ssrc;
  payload_type = if b.ssrc == 0 || b.payload_type == 0 then p.payload_type else b.payload_type;
  last_clear_ts = if b.last_clear_ts == 0 then p.timestamp else b.last_clear_ts;
  last_clear_sn = if b.last_clear_sn == 0 then p.sequence_number else b.last_clear_sn;
  last_nack_sn = if b.last_nack_sn == 0 then p.sequence_number else b.last_nack_sn;
  pkt_buffer = put_slot p.sequence_number (some p) b.pkt_buffer;
  last_push_sn = p.sequence_number;
}

-- `Limit nack range.`
unfoldable pub limit_nack : Buffer → Buffer
limit_nack b = record b {
  last_nack_sn =
      if leb max_nack_lost_size (sub16 b.last_push_sn b.last_nack_sn)
      then sub16 b.last_push_sn max_nack_lost_size
      else b.last_nack_sn;
}

-- The rest of Push: count the lost packets and ask for them.
unfoldable pub report_lost : Buffer → Buffer
report_lost b =
    if leb max_nack_lost_size (sub16 b.last_push_sn b.last_nack_sn)
    then (let (nack_pair, lost_pkt) = get_nack_pair b.pkt_buffer b.last_nack_sn b.last_push_sn in
        let b' = record b { last_nack_sn = b.last_push_sn } in
        if ltb 0 lost_pkt
        then send (transport_layer_nack b.ssrc b.ssrc (nack_pair ∷ []))
            (record b' { lost_pkt = b.lost_pkt + lost_pkt })
        else b')
    else b

-- `none` says that the loop of clearOldPkt does not end.
unfoldable pub push : Packet → Buffer → Option Buffer
push p b = elim (clear_old_pkt p.timestamp p.sequence_number (record_packet p b)) [
  | none ↦ none
  | some b' ↦ some (report_lost (limit_nack b'))
]

abbrev pub get_packet : ℕ → Buffer → Option Packet
get_packet sn b = b.pkt_buffer sn
