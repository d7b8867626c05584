-- ===== src/Sfu/Incoming/Pumping.antt =====
-- connectionrecord.go and p2precord.go: the packets of a remote track, from the track to the jitter
-- buffer, whatever passes them on to the users.
use kwmbridge.Base.{
  zero, suc, true, length, ℕ, ◌<◌, ◌≡◌, ◌≢◌, refl, Bool, none, some, List, [], ◌∷◌, arith, ℕ_key,
  Option-cases, inl, inr, lookup-erase,
}
use kwmbridge.JitterBuffer.Packet.{Packet}
use kwmbridge.JitterBuffer.Registry.{JitterBuffer, remove_buffer, get_buffer}
use kwmbridge.JitterBuffer.Registry.Lookup.{push_rtp_total}
use kwmbridge.Sfu.Incoming.Pump.{Forwarded, Flow, take_packet, pump}

-- The packets are of the SSRC and have uint16 sequence numbers.
abbrev pub AreWords : ℕ → List Packet → Type 0
AreWords ssrc [] = Unit {0}
AreWords ssrc (p ∷ packets) =
    ((p.ssrc ≡ ssrc) × (p.sequence_number < 65536)) × AreWords ssrc packets

-- What passes a packet on leaves its SSRC and its sequence number as they are.
pub record Passes {U : Type 0} (forward : Packet → U → Forwarded U) : Type 0 where
  pub keeps_number : (p : Packet) (u : U) → (forward p u).packet.sequence_number ≡ p.sequence_number
  pub keeps_ssrc : (p : Packet) (u : U) → (forward p u).packet.ssrc ≡ p.ssrc

-- The channel of the jitter buffer always takes what is sent to it.
abbrev pub HasRoom : (Packet → JitterBuffer → Bool) → Type 0
HasRoom room = (p : Packet) (j : JitterBuffer) → room p j ≡ true

module _ {U : Type 0} (forward : Packet → U → Forwarded U) (law : Passes forward)
    (room : Packet → JitterBuffer → Bool) (free : HasRoom room) where
  take_packet_total :
      (is_video : Bool) (p : Packet) (flow : Flow U)
      → p.sequence_number < 65536
      → take_packet forward room is_video p flow ≢ none
  unfolding take_packet
  take_packet_total is_video p flow word =
      let q = (forward p flow.listeners).packet in
      ground (
        arith,
        free q flow.jitter_buffer,
        law.keeps_number p flow.listeners,
        law.keeps_ssrc p flow.listeners,
        push_rtp_total q is_video flow.jitter_buffer,
      )

  -- Packets of the SSRC are all taken, and no buffer stays for it.
  pub pump_ends :
      (others : ℕ → Flow U → Flow U) (is_video : Bool) (ssrc : ℕ) (packets : List Packet)
      (flow : Flow U)
      → AreWords ssrc packets
      → (flow' : Flow U) × (pump forward room others is_video ssrc packets flow ≡ some flow')
        × (get_buffer ssrc flow'.jitter_buffer ≡ none)
  unfolding pump
  pump_ends others is_video ssrc [] flow h =
      let last = others zero flow in
      let j = last.jitter_buffer in
      unfold remove_buffer get_buffer in
      (
        record last { jitter_buffer = (remove_buffer ssrc j).1 },
        refl,
        ground (arith, lookup-erase ssrc ssrc j.buffers),
      )
  pump_ends others is_video ssrc (p ∷ packets) flow ((own, word), h) =
      let before = others (suc (length packets)) flow in
      elim (Option-cases (take_packet forward room is_video p before)) [
        | inl stuck ↦ absurd (take_packet_total is_video p before word stuck)
        | inr (flow1, went) ↦
            let (flow', done, gone) = pump_ends others is_video ssrc packets flow1 h in
            (flow', ground arith, gone)
      ]
