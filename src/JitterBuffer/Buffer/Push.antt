-- ===== src/JitterBuffer/Buffer/Push.antt =====
-- Push: it ends, it files the packet, and it bounds the range that is still to be asked for.
use kwmbridge.Base.{
  ℕ, ◌<◌, ◌≡◌, refl, ◌≢◌, inl, inr, Bool, false, none, some, arith, ◌==◌, if◌then◌else◌, Bool-cases,
  Option-cases,
}
use kwmbridge.JitterBuffer.Packet.{Packet, sub16, ts_delta}
use kwmbridge.JitterBuffer.Buffer.{
  Buffer, max_nack_lost_size, new_buffer, clear_old_pkt, record_packet, limit_nack, report_lost,
  push, get_packet,
}
use kwmbridge.JitterBuffer.Buffer.Clear.{
  KeptOrOld, Frame, clear_old_pkt-KeptOrOld, clear_old_pkt-Frame, clear_old_pkt_total,
}

-- Push ends for every packet with a uint16 sequence number and every buffer: the loop of
-- clearOldPkt, whose variable of type uint16 may wrap round, stops within 65536 rounds.
pub push_total : (p : Packet) (b : Buffer) → p.sequence_number < 65536 → push p b ≢ none
unfolding push record_packet
push_total p b h =
    ground (arith, clear_old_pkt_total p.timestamp p.sequence_number (record_packet p b) p h)

-- What Push does after its store, as one fact about the buffer in between.
pub push_cleared :
    (p : Packet) (b b' : Buffer)
    → push p b ≡ some b'
    → (c : Buffer) × (clear_old_pkt p.timestamp p.sequence_number (record_packet p b) ≡ some c)
      × (b' ≡ report_lost (limit_nack c))
unfolding push
push_cleared p b b' h =
    elim (Option-cases (clear_old_pkt p.timestamp p.sequence_number (record_packet p b))) [
      | inl stuck ↦ ground arith
      | inr (c, cleared) ↦ (c, cleared, ground arith)
    ]

pub pkt_buffer-report_lost : (c : Buffer) → (report_lost (limit_nack c)).pkt_buffer ≡ c.pkt_buffer
unfolding report_lost limit_nack
pkt_buffer-report_lost c = ground arith

slot_record_packet :
    (p : Packet) (b : Buffer) (j : ℕ)
    → (record_packet p b).pkt_buffer j ≡ (if j == p.sequence_number then some p else b.pkt_buffer j)
unfolding record_packet
slot_record_packet p b j = refl

push_slots :
    (p : Packet) (b b' : Buffer) (j : ℕ)
    → push p b ≡ some b'
    → KeptOrOld p.timestamp
        (if j == p.sequence_number then some p else get_packet j b)
        (get_packet j b')
push_slots p b b' j h =
    let (c, cleared, done) = push_cleared p b b' h in
    rw (done, pkt_buffer-report_lost c, ← slot_record_packet p b j)
      (clear_old_pkt-KeptOrOld p.timestamp p.sequence_number (record_packet p b) c cleared j)

-- Where Push ends, the packet that was pushed is in the buffer, under its sequence number.
pub get_packet-push :
    (p : Packet) (b b' : Buffer) → push p b ≡ some b' → get_packet p.sequence_number b' ≡ some p
unfolding ts_delta
get_packet-push p b b' h = elim (push_slots p b b' p.sequence_number h) [
  | inl kept ↦ ground arith
  | inr (q, was, gone, aged) ↦ ground arith
]

-- Where Push ends, it has changed no slot but that of its packet, except to remove packets whose
-- timestamp differs from that of the new packet by two seconds of the video clock or more.
pub push-KeptOrOld :
    (p : Packet) (b b' : Buffer) (sn : ℕ)
    → push p b ≡ some b'
    → sn ≢ p.sequence_number
    → KeptOrOld p.timestamp (get_packet sn b) (get_packet sn b')
push-KeptOrOld p b b' sn h ne = elim (Bool-cases (sn == p.sequence_number)) [
  | inl e ↦ ground arith
  | inr e ↦ rw e at (push_slots p b b' sn h)
]

-- The well-formed buffers: each packet is filed under its sequence number, the marks are uint16
-- values, and fewer than 17 sequence numbers wait to be examined for losses.
pub record IsValid (b : Buffer) : Type 0 where
  pub filed : (sn : ℕ) (q : Packet) → b.pkt_buffer sn ≡ some q → q.sequence_number ≡ sn
  pub push_word : b.last_push_sn < 65536
  pub nack_word : b.last_nack_sn < 65536
  pub lag : sub16 b.last_push_sn b.last_nack_sn < max_nack_lost_size

pub new_buffer-IsValid : (s t : ℕ) (v : Bool) → IsValid (new_buffer s t v)
unfolding new_buffer
new_buffer-IsValid s t v = record {
  filed = λ sn q h. cc;
  push_word = omega arith;
  nack_word = omega arith;
  lag = omega arith;
}

-- The marks that Push leaves.
push_marks :
    (p : Packet) (b c : Buffer)
    → Frame (record_packet p b) c
    → b.last_nack_sn < 65536
    → p.sequence_number < 65536
    → let b' = report_lost (limit_nack c) in
      (b'.last_push_sn ≡ p.sequence_number)
      × (b'.last_nack_sn < 65536)
      × (sub16 b'.last_push_sn b'.last_nack_sn < max_nack_lost_size)
unfolding record_packet limit_nack report_lost
push_marks p b c frame nw pw = ground arith

push_filed :
    (p : Packet) (b b' : Buffer)
    → ((sn : ℕ) (q : Packet) → b.pkt_buffer sn ≡ some q → q.sequence_number ≡ sn)
    → push p b ≡ some b'
    → (sn : ℕ) (q : Packet) → b'.pkt_buffer sn ≡ some q
    → q.sequence_number ≡ sn
push_filed p b b' filed h sn q full = elim (push_slots p b b' sn h) [
  | inl kept ↦ ground (arith, filed sn q)
  | inr (r, was, gone, aged) ↦ ground arith
]

-- Push keeps a well-formed buffer well-formed, for a packet with a uint16 sequence number: packets
-- are filed under their sequence numbers, the marks are uint16 values, and fewer than 17 sequence
-- numbers wait to be examined for losses.
pub push-IsValid :
    (p : Packet) (b b' : Buffer)
    → IsValid b
    → p.sequence_number < 65536
    → push p b ≡ some b'
    → IsValid b'
push-IsValid p b b' v word h =
    let (c, cleared, done) = push_cleared p b b' h in
    let frame = clear_old_pkt-Frame p.timestamp p.sequence_number (record_packet p b) c cleared in
    let (pushed, nack, lag) = push_marks p b c frame v.nack_word word in
    record {
      filed = push_filed p b b' v.filed h;
      push_word = rw (done, pushed) word;
      nack_word = rw done nack;
      lag = rw done lag;
    }

report_runs :
    (p : Packet) (b c : Buffer)
    → Frame (record_packet p b) c
    → b.closed ≡ false
    → let b' = report_lost (limit_nack c) in (b'.closed ≡ false) × (b'.panicked ≡ b.panicked)
unfolding record_packet limit_nack report_lost
report_runs p b c frame running = ground arith

-- Push on a buffer whose channel is open does not panic, and leaves the channel open.
pub push_runs :
    (p : Packet) (b b' : Buffer)
    → push p b ≡ some b'
    → b.closed ≡ false
    → (b'.closed ≡ false) × (b'.panicked ≡ b.panicked)
push_runs p b b' h running =
    let (c, cleared, done) = push_cleared p b b' h in
    let frame = clear_old_pkt-Frame p.timestamp p.sequence_number (record_packet p b) c cleared in
    rw done (report_runs p b c frame running)
