-- ===== src/JitterBuffer/Packet.antt =====
-- The RTP and RTCP packets that internal/jitterbuffer handles, as far as it looks at them.
-- The packets themselves are those of github.com/pion/rtp and github.com/pion/rtcp.
use kwmbridge.Base.{ℕ, ◌+◌, ◌-◌, ◌%◌, Bool, ◌&&◌, ◌||◌, ltb, ◌==◌, if◌then◌else◌, List}
use kwmbridge.Base.Bits.{test_bit}

-- An `rtp.Packet`. `marshal_size` is what its `MarshalSize` reports.
pub record Packet : Type 0 where
  pub ssrc : ℕ  -- uint32
  pub payload_type : ℕ  -- uint8
  pub timestamp : ℕ  -- uint32
  pub sequence_number : ℕ  -- uint16
  pub marshal_size : ℕ

-- An `rtcp.NackPair`.
pub record NackPair : Type 0 where
  pub packet_id : ℕ
  pub lost_packets : ℕ

-- The sequence numbers that a pair reports as lost: the packet id, and for each set bit the
-- sequence number that lies so far behind it (the generic NACK of RFC 4585, section 6.2.1).
unfoldable pub nacked : NackPair → ℕ → Bool
nacked pair sn =
    sn == pair.packet_id
    || (ltb pair.packet_id sn && test_bit (sn - pair.packet_id - 1) pair.lost_packets)

-- The RTCP packets that the code makes.
pub data Rtcp : Type 0 where
  transport_layer_nack : ℕ → ℕ → List NackPair → Rtcp
  picture_loss_indication : ℕ → ℕ → Rtcp
  receiver_estimated_maximum_bitrate : ℕ → ℕ → List ℕ → Rtcp

-- `x - y` on uint16.
abbrev pub sub16 : ℕ → ℕ → ℕ
sub16 x y = (x + 65536 - y) % 65536

-- `x + 1` on uint16.
abbrev pub next16 : ℕ → ℕ
next16 x = (x + 1) % 65536

-- tsDelta: `-` never goes below zero here, so that of ℕ is that of uint32.
unfoldable pub ts_delta : ℕ → ℕ → ℕ
ts_delta x y = if ltb y x then x - y else y - x
