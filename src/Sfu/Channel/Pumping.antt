-- ===== src/Sfu/Channel/Pumping.antt =====
-- connectionrecord.go: the packets of a sender's track, from the remote track to the users and to
-- the jitter buffer, and back to a user that reports a loss.
use kwmbridge.Base.{
  ℕ, suc, ◌≡◌, ◌≢◌, refl, Bool, true, false, some, List, [], ◌∷◌, ◌++◌, arith, Text, lookup, ℕ_key,
  text_key, Option-cases, inl, inr,
}
use kwmbridge.JitterBuffer.Packet.{Packet, NackPair}
use kwmbridge.JitterBuffer.Registry.{JitterBuffer, push_rtp}
use kwmbridge.JitterBuffer.Registry.Lookup.{get_packet-push_rtp}
use kwmbridge.Sfu.Types.{Codec, Track, Outside}
use kwmbridge.Sfu.Incoming.{Media, to_track, answer_rtcp}
use kwmbridge.Sfu.Incoming.Resending.{nack_of, answer_rtcp_held}
use kwmbridge.Sfu.Connection.{Connection}
use kwmbridge.Sfu.Users.{UserRecord}
use kwmbridge.Sfu.Incoming.Pump.{Flow, take_packet}
use kwmbridge.Sfu.Incoming.Pumping.{Passes}
use kwmbridge.Sfu.Channel.Forwarding.{target_type, forward, forward_one, Users}
use kwmbridge.Sfu.Channel.Delivery.{one_untyped}

module _ (w : Outside) (m : Media) (codec : Codec) (source : ℕ) (source_id : Text) where
  forward_number :
      (users : List (Text × UserRecord)) (p : Packet)
      → let q = (forward w m codec source source_id p users).packet in
        (q.sequence_number ≡ p.sequence_number) × (q.ssrc ≡ p.ssrc)
  unfolding forward
  forward_number [] p = (refl, refl)
  forward_number ((key, target) ∷ rest) p =
      let one = forward_one w m codec source source_id p target in
      unfold forward_one in ground (arith, forward_number rest one.packet)

  pub forward-Passes : Passes (forward w m codec source source_id)
  forward-Passes = record {
    keeps_number = λ p users. (forward_number users p).0;
    keeps_ssrc = λ p users. (forward_number users p).1;
  }

  forward_last :
      (front : List (Text × UserRecord)) (key : Text) (target : UserRecord) (c : Connection)
      (p : Packet)
      → target.number ≢ source
      → target.closed ≡ false
      → lookup source_id target.connections ≡ some c
      → (forward w m codec source source_id p (front ++ ((key, target) ∷ []))).packet
        ≡ record p { payload_type = target_type codec c }
  unfolding forward
  forward_last [] key target c p other live connected = unfold forward_one in ground arith
  forward_last ((key', target') ∷ front) key target c p other live connected =
      let one = forward_one w m codec source source_id p target' in
      ground (
        arith,
        one_untyped w m codec source source_id p target',
        forward_last front key target c one.packet,
      )

  -- When a video packet has been taken, a NACK for it is answered, whichever track asks, with the
  -- payload type that the last user of the channel wants for the codec, where that user is not the
  -- source, is not closed and has a connection to the source.
  pub take_packet_resent :
      (front : List (Text × UserRecord)) (key : Text) (target : UserRecord) (c : Connection)
      (p : Packet) (room : Packet → JitterBuffer → Bool) (flow flow' : Flow Users) (t : Track)
      (pc sender mask : ℕ)
      → flow.listeners ≡ front ++ ((key, target) ∷ [])
      → target.number ≢ source
      → target.closed ≡ false
      → lookup source_id target.connections ≡ some c
      → take_packet (forward w m codec source source_id) room true p flow ≡ some flow'
      → let pair : NackPair = record { packet_id = p.sequence_number; lost_packets = mask } in
        answer_rtcp pc flow'.jitter_buffer (nack_of sender p.ssrc (pair ∷ []) (some t))
        ≡ to_track t (record p { payload_type = target_type codec c }) ∷ []
  unfolding take_packet
  take_packet_resent front key target c p room flow flow' t pc sender mask users other live
        connected done =
      let q = (forward w m codec source source_id p flow.listeners).packet in
      let r : Packet = record p { payload_type = target_type codec c } in
      let last : q ≡ r = rw users (forward_last front key target c p other live connected) in
      elim (Option-cases (push_rtp q true flow.jitter_buffer)) [
        | inl stuck ↦ absurd (ground (arith, stuck))
        | inr (j, pushed) ↦
            let went : push_rtp r true flow.jitter_buffer ≡ some j = rw (← last) pushed in
            let same : flow'.jitter_buffer ≡ j = ground (arith, pushed) in
            rw same (
              answer_rtcp_held pc sender p.ssrc mask r j t
                (get_packet-push_rtp r true flow.jitter_buffer j (suc p.ssrc) 0 went
                  (omega arith)).0)
      ]
