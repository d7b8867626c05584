-- ===== src/Sfu/Incoming/Resending.antt =====
-- connectionrecord.go: the answers to the NACKs of receivers, with what the jitter buffer holds.
use kwmbridge.Base.{
  ℕ, zero, suc, ◌-◌, ◌≡◌, ◌≢◌, refl, true, false, some, List, [], ◌∷◌, ◌++◌, map, arith, ap, sym,
  Option,
}
use kwmbridge.Base.Bits.{test_bit}
use kwmbridge.JitterBuffer.Packet.{Packet, NackPair, nacked}
use kwmbridge.JitterBuffer.Registry.{JitterBuffer, get_packet}
use kwmbridge.Sfu.Types.{Track}
use kwmbridge.Sfu.Incoming.{
  nack, RtcpRecord, to_track, answer_pair, answer_pairs, answer_rtcp, RtcpEvent, context_done,
  reset_record, received, read_rtcp,
}

-- A record with a NACK of the pairs, for the track of a receiver.
abbrev pub nack_of : ℕ → ℕ → List NackPair → Option Track → RtcpRecord
nack_of sender ssrc pairs track = record { packet = nack sender ssrc pairs; track = track }

-- A pair whose first sequence number is that of a packet which the jitter buffer holds under it.
pub answer_rtcp_held :
    (pc sender ssrc mask : ℕ) (p : Packet) (j : JitterBuffer) (t : Track)
    → get_packet ssrc p.sequence_number j ≡ some p
    → let again : NackPair = record { packet_id = p.sequence_number; lost_packets = mask } in
      answer_rtcp pc j (nack_of sender ssrc (again ∷ []) (some t)) ≡ to_track t p ∷ []
unfolding answer_rtcp
answer_rtcp_held pc sender ssrc mask p j t held = ground arith

test_bit_zero : (k : ℕ) → test_bit k 0 ≡ false
unfolding test_bit
test_bit_zero zero = refl
test_bit_zero (suc k) = test_bit_zero k

abbrev without_mask : NackPair → NackPair
without_mask pair = record pair { lost_packets = 0 }

answer_pairs-without_mask :
    (pc : ℕ) (j : JitterBuffer) (t : Option Track) (sender ssrc : ℕ) (pairs : List NackPair)
    → answer_pairs pc j t sender ssrc (map without_mask pairs)
      ≡ answer_pairs pc j t sender ssrc pairs
unfolding answer_pairs
answer_pairs-without_mask pc j t sender ssrc [] = refl
answer_pairs-without_mask pc j t sender ssrc (pair ∷ pairs) =
    ap (λ x. answer_pair pc j t sender ssrc pair ++ x)
      (answer_pairs-without_mask pc j t sender ssrc pairs)

-- A NACK with the pairs is answered as the NACK with the bit masks of its pairs cleared. Where a
-- pair reports by its mask that a sequence number is lost, the pair with the mask cleared does not
-- report it, so that such a report has no effect.
pub answer_rtcp_masks :
    (pc sender ssrc sn : ℕ) (j : JitterBuffer) (t : Option Track) (pair : NackPair)
    (pairs : List NackPair)
    → nacked pair sn ≡ true
    → sn ≢ pair.packet_id
    → (answer_rtcp pc j (nack_of sender ssrc (pair ∷ pairs) t)
        ≡ answer_rtcp pc j (nack_of sender ssrc (map without_mask (pair ∷ pairs)) t))
      × (nacked (without_mask pair) sn ≡ false)
unfolding answer_rtcp nacked
answer_rtcp_masks pc sender ssrc sn j t pair pairs lost other = (
  ap (λ x. answer_pair pc j t sender ssrc pair ++ x)
      (sym (answer_pairs-without_mask pc j t sender ssrc pairs)),
  ground (arith, test_bit_zero (sn - pair.packet_id - 1)),
)

-- The nil record of a reset ends the goroutine: what comes later is not answered.
pub read_rtcp_reset :
    (pc : ℕ) (before later : List RtcpEvent)
    → read_rtcp pc (before ++ (reset_record ∷ later)) ≡ read_rtcp pc before
unfolding read_rtcp
read_rtcp_reset pc [] later = refl
read_rtcp_reset pc (context_done ∷ before) later = refl
read_rtcp_reset pc (reset_record ∷ before) later = refl
read_rtcp_reset pc (received r j ∷ before) later =
    ap (λ x. answer_rtcp pc j r ++ x) (read_rtcp_reset pc before later)
