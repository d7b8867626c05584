-- ===== src/Sfu/Incoming.antt =====
-- rtmcsfu/connectionrecord.go and p2precord.go: what the handlers of OnTrack share. A remote track,
-- what lies outside when it comes, and the goroutine that reads the RTCP records of the receivers
-- of a sender's tracks. The jitter buffer changes while the goroutine waits, so each record comes
-- with the jitter buffer of its time.
pub mod Resending
pub mod Jitter
pub mod Pump
pub mod Pumping
mod Tests
use kwmbridge.Base.{ℕ, Bool, Option, none, some, List, [], ◌∷◌, ◌++◌, Text}
use kwmbridge.JitterBuffer.Packet.{
  Packet, NackPair, Rtcp, transport_layer_nack, picture_loss_indication,
}
use kwmbridge.JitterBuffer.Registry.{JitterBuffer, get_packet}
use kwmbridge.Sfu.Types.{Track}

-- A remote track, as far as the handlers read it.
pub record RemoteTrack : Type 0 where
  pub ssrc : ℕ
  pub payload_type : ℕ
  pub codec : Text

-- What lies outside: the names of pion's codecs, the random identifiers, the channel that `make`
-- gives, `NewTrack` of a peer connection (payload type, SSRC, id and label), and `WriteRTP` of a
-- track, which says whether it succeeds.
pub record Media : Type 0 where
  pub vp8 : Text
  pub vp9 : Text
  pub opus : Text
  pub guid : Text
  pub track_id : Text
  pub rtcp_ch : ℕ
  pub new_track : ℕ → ℕ → ℕ → Text → Text → Option Track
  pub write_rtp : Track → Packet → Bool

-- How a handler of OnTrack ends. `taken` has the slot, the track and the channel that the
-- goroutines go on with. At `locked` it returns and does not let go of the record's lock.
pub data Taken : Type 0 where
  ignored : Taken
  unsupported : Taken
  locked : Taken
  panicked : Taken
  taken : ℕ → Track → Option ℕ → Taken

-- The RTCP packets that the code tells apart; the last stands for those that it has no use for.
pub data Feedback : Type 0 where
  picture_loss : ℕ → ℕ → Feedback
  nack : ℕ → ℕ → List NackPair → Feedback  -- sender SSRC, media SSRC
  other_feedback : Feedback

-- An RTCPRecord.
pub record RtcpRecord : Type 0 where
  pub packet : Feedback
  pub track : Option Track

-- What is given to pion: `WriteRTCP` of a peer connection and `WriteRTP` of a track. Their errors
-- are only logged.
pub data Written : Type 0 where
  to_peer : ℕ → Rtcp → Written
  to_track : Track → Packet → Written

abbrev resend : Option Track → Packet → List Written
resend none p = []
resend (some t) p = to_track t p ∷ []

abbrev pub lost_packet : ℕ → ℕ → ℕ → Rtcp
lost_packet sender ssrc sn =
    transport_layer_nack sender ssrc (record { packet_id = sn; lost_packets = 0 } ∷ [])

-- A round of the loop over the pairs of a NACK.
unfoldable pub answer_pair : ℕ → JitterBuffer → Option Track → ℕ → ℕ → NackPair → List Written
answer_pair pc j track sender ssrc pair = elim (get_packet ssrc pair.packet_id j) [
  | none ↦ to_peer pc (lost_packet sender ssrc pair.packet_id) ∷ []
  | some p ↦ resend track p
]

unfoldable pub answer_pairs : ℕ → JitterBuffer → Option Track → ℕ → ℕ → List NackPair → List Written
unfolding answer_pair
answer_pairs pc j track sender ssrc [] = []
answer_pairs pc j track sender ssrc (pair ∷ pairs) =
    answer_pair pc j track sender ssrc pair ++ answer_pairs pc j track sender ssrc pairs

-- The `switch` of the goroutine, for the packet of a record.
abbrev answer_packet : ℕ → JitterBuffer → Option Track → Feedback → List Written
answer_packet pc j track (picture_loss sender ssrc) =
    to_peer pc (picture_loss_indication sender ssrc) ∷ []
answer_packet pc j track (nack sender ssrc pairs) = answer_pairs pc j track sender ssrc pairs
answer_packet pc j track other_feedback = []

unfoldable pub answer_rtcp : ℕ → JitterBuffer → RtcpRecord → List Written
unfolding answer_pairs
answer_rtcp pc j r = answer_packet pc j r.track r.packet

-- What the goroutine waits for: the end of the context, the nil record of a reset, or a record.
pub data RtcpEvent : Type 0 where
  context_done reset_record : RtcpEvent
  received : RtcpRecord → JitterBuffer → RtcpEvent

-- The goroutine.
unfoldable pub read_rtcp : ℕ → List RtcpEvent → List Written
unfolding answer_rtcp
read_rtcp pc [] = []
read_rtcp pc (context_done ∷ events) = []
read_rtcp pc (reset_record ∷ events) = []
read_rtcp pc (received r j ∷ events) = answer_rtcp pc j r ++ read_rtcp pc events
