-- ===== src/JitterBuffer/Buffer/Reports.antt =====
-- Push asks for what is lost.
use kwmbridge.Base.{
  ℕ, ◌+◌, ◌-◌, ◌≤◌, ◌<◌, ◌≡◌, ap, ◌∙◌, ◌≢◌, false, ◌&&◌, some, [], ◌∷◌, ◌++◌, arith, ltb, leb, ◌==◌,
  if◌then◌else◌,
}
use kwmbridge.JitterBuffer.Packet.{Packet, NackPair, transport_layer_nack, nacked, sub16}
use kwmbridge.JitterBuffer.Buffer.{
  Buffer, Slots, max_nack_lost_size, is_missing, get_nack_pair, record_packet, limit_nack,
  report_lost, push,
}
use kwmbridge.JitterBuffer.Buffer.Clear.{Frame, clear_old_pkt-Frame}
use kwmbridge.JitterBuffer.Buffer.Nack.{missing, get_nack_pair_lem}
use kwmbridge.JitterBuffer.Buffer.Push.{push_cleared, pkt_buffer-report_lost}

-- How many sequence numbers wait to be examined once `p` is stored.
unfoldable pub lag_after : Packet → Buffer → ℕ
lag_after p b =
    sub16 p.sequence_number (if b.last_nack_sn == 0 then p.sequence_number else b.last_nack_sn)

sub16_window : (n : ℕ) → 17 < n → n < 65536 → sub16 n 17 ≡ n - 17
sub16_window n h k = omega arith

report_window :
    (p : Packet) (b c : Buffer)
    → Frame (record_packet p b) c
    → 17 < p.sequence_number
    → p.sequence_number < 65536
    → max_nack_lost_size ≤ lag_after p b
    → let b' = report_lost (limit_nack c) in
      let (pair, lost) = get_nack_pair c.pkt_buffer (p.sequence_number - 17) p.sequence_number in
      (b'.lost_pkt ≡ b.lost_pkt + lost)
      × (b.closed ≡ false
          → b'.rtcp_ch ≡ (
              if ltb 0 lost
              then b.rtcp_ch ++ (transport_layer_nack b'.ssrc b'.ssrc (pair ∷ []) ∷ [])
              else b.rtcp_ch))
unfolding record_packet limit_nack report_lost lag_after
report_window p b c frame big word due = ground (arith, sub16_window p.sequence_number big word)

window_exact :
    (slots : Slots) (n sn : ℕ)
    → 17 < n
    → n < 65536
    → let (pair, lost) = get_nack_pair slots (n - 17) n in
      (lost ≡ missing slots 17 (n - 17))
      × (0 < lost → nacked pair sn ≡ (leb (n - 17) sn && ltb sn n && is_missing slots sn))
window_exact slots n sn big word =
    rw size at
      (get_nack_pair_lem slots (n - 17) n sn (omega arith) (omega arith) word (omega arith))
  where
    size : n - (n - 17) ≡ 17
    size = omega arith

reports :
    (p : Packet) (b c : Buffer)
    → Frame (record_packet p b) c
    → 17 < p.sequence_number
    → p.sequence_number < 65536
    → max_nack_lost_size ≤ lag_after p b
    → b.closed ≡ false
    → let b' = report_lost (limit_nack c) in
      (pair : NackPair) × (b'.lost_pkt
        ≡ b.lost_pkt + missing b'.pkt_buffer 17 (p.sequence_number - 17))
      × (b'.rtcp_ch ≡ (
          if b'.lost_pkt == b.lost_pkt
          then b.rtcp_ch
          else b.rtcp_ch ++ (transport_layer_nack b'.ssrc b'.ssrc (pair ∷ []) ∷ [])))
      × ((sn : ℕ)
          → b'.lost_pkt ≢ b.lost_pkt
          → nacked pair sn ≡ (
              leb (p.sequence_number - 17) sn
              && ltb sn p.sequence_number
              && is_missing b'.pkt_buffer sn))
reports p b c frame big word due running =
    let (count, sent) = report_window p b c frame big word due in
    let slots = pkt_buffer-report_lost c in
    let n = p.sequence_number in
    (
      (get_nack_pair c.pkt_buffer (n - 17) n).0,
      rw slots (count ∙ ap (λ k. b.lost_pkt + k) (window_exact c.pkt_buffer n 0 big word).0),
      ground (arith, sent running),
      λ sn differs. rw slots ((window_exact c.pkt_buffer n sn big word).1 (ground arith)),
    )

reports-push :
    (p : Packet) (b b' : Buffer)
    → push p b ≡ some b'
    → 17 < p.sequence_number
    → p.sequence_number < 65536
    → max_nack_lost_size ≤ lag_after p b
    → b.closed ≡ false
    → (pair : NackPair) × (b'.lost_pkt
        ≡ b.lost_pkt + missing b'.pkt_buffer 17 (p.sequence_number - 17))
      × (b'.rtcp_ch ≡ (
          if b'.lost_pkt == b.lost_pkt
          then b.rtcp_ch
          else b.rtcp_ch ++ (transport_layer_nack b'.ssrc b'.ssrc (pair ∷ []) ∷ [])))
      × ((sn : ℕ)
          → b'.lost_pkt ≢ b.lost_pkt
          → nacked pair sn ≡ (
              leb (p.sequence_number - 17) sn
              && ltb sn p.sequence_number
              && is_missing b'.pkt_buffer sn))
reports-push p b b' h big word due running =
    let (c, cleared, done) = push_cleared p b b' h in
    let frame = clear_old_pkt-Frame p.timestamp p.sequence_number (record_packet p b) c cleared in
    rw done (reports p b c frame big word due running)

-- Where Push stores a packet that is 17 or more sequence numbers ahead of what has been examined,
-- its channel is open and some of the 17 slots before the packet is empty, it counts the empty
-- slots among them as lost and sends one NACK, with a pair that reports exactly their sequence
-- numbers. (For packets whose sequence number is above 17, where the 17 before it do not reach 0.)
pub push_reports_losses :
    (p : Packet) (b b' : Buffer)
    → push p b ≡ some b'
    → 17 < p.sequence_number
    → p.sequence_number < 65536
    → max_nack_lost_size ≤ lag_after p b
    → b.closed ≡ false
    → 0 < missing b'.pkt_buffer 17 (p.sequence_number - 17)
    → (pair : NackPair) × (b'.lost_pkt
        ≡ b.lost_pkt + missing b'.pkt_buffer 17 (p.sequence_number - 17))
      × (b'.rtcp_ch ≡ b.rtcp_ch ++ (transport_layer_nack b'.ssrc b'.ssrc (pair ∷ []) ∷ []))
      × ((sn : ℕ)
          → nacked pair sn ≡ (
              leb (p.sequence_number - 17) sn
              && ltb sn p.sequence_number
              && is_missing b'.pkt_buffer sn))
push_reports_losses p b b' h big word due running lost =
    let (pair, count, sent, exact) = reports-push p b b' h big word due running in
    let more : b'.lost_pkt ≢ b.lost_pkt = λ e. omega arith in
    (pair, count, ground arith, λ sn. exact sn more)
