-- ===== src/Sfu/Incoming/Tests.antt =====
-- The theorems on the answers to NACKs, at a packet of a camera.
use kwmbridge.Base.{ℕ, ◌≡◌, refl, true, false, some, [], ◌∷◌, arith, ℕ_key}
use kwmbridge.Base.Bits.{test_bit}
use kwmbridge.JitterBuffer.Packet.{NackPair, nacked}
use kwmbridge.JitterBuffer.Buffer
use kwmbridge.JitterBuffer.Registry.{JitterBuffer, push_rtp}
use kwmbridge.Sfu.Samples.{camera, packet, jitter_buffer, or_else}
use kwmbridge.Sfu.Incoming.{answer_rtcp}
use kwmbridge.Sfu.Incoming.Resending.{nack_of, answer_rtcp_masks}

abbrev held : JitterBuffer
held = or_else jitter_buffer (push_rtp packet true jitter_buffer)

abbrev pair_of : ℕ → ℕ → NackPair
pair_of id mask = record { packet_id = id; lost_packets = mask }

second_lost : nacked (pair_of 1 1) 2 ≡ true
unfolding nacked test_bit
second_lost = refl

answer_rtcp_masks_example :
    (answer_rtcp 5 held (nack_of 9 11 (pair_of 1 1 ∷ []) (some camera))
      ≡ answer_rtcp 5 held (nack_of 9 11 (pair_of 1 0 ∷ []) (some camera)))
    × (nacked (pair_of 1 0) 2 ≡ false)
answer_rtcp_masks_example =
    answer_rtcp_masks 5 9 11 2 held (some camera) (pair_of 1 1) [] second_lost (λ e. omega arith)
