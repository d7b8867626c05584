-- ===== src/JitterBuffer/Registry/Lookup.antt =====
-- The registry by SSRC: what PushRTP and RemoveBuffer do to the buffers, and that no send meets a
-- closed channel.
use kwmbridge.Base.{
  ℕ, ◌<◌, ◌≡◌, refl, ◌≢◌, inl, inr, Bool, false, none, some, arith, ◌==◌, if◌then◌else◌, Bool-cases,
  Option-cases, lookup, insert, ℕ_key, Text, ◌∙◌, subst, lookup-insert, lookup-erase,
}
use kwmbridge.JitterBuffer.Packet.{Packet}
use kwmbridge.JitterBuffer.Buffer
use kwmbridge.JitterBuffer.Buffer.{
  Buffer, new_buffer, push, record_packet, limit_nack, report_lost, clear_old_pkt,
}
use kwmbridge.JitterBuffer.Buffer.Push.{
  push_total, get_packet-push, push_runs, IsValid, new_buffer-IsValid, push-IsValid,
}
use kwmbridge.JitterBuffer.Registry.{
  JitterBuffer, Config, new, get_buffer, remove_buffer, push_rtp, get_packet,
}

-- The buffer that PushRTP pushes to: the one of the packet's SSRC, or a new one.
pub target : Packet → Bool → JitterBuffer → Buffer
target p is_video j = elim (get_buffer p.ssrc j) [
  | some b ↦ b
  | none ↦ new_buffer p.ssrc p.payload_type is_video
]

-- PushRTP is a Push to that buffer, as far as the buffers are concerned.
push_rtp_buffers :
    (p : Packet) (v : Bool) (j j' : JitterBuffer)
    → push_rtp p v j ≡ some j'
    → (b' : Buffer) × (push p (target p v j) ≡ some b')
      × ((s : ℕ) → get_buffer s j' ≡ (if p.ssrc == s then some b' else get_buffer s j))
unfolding push_rtp target get_buffer
push_rtp_buffers p v j j' h = elim (Option-cases (lookup p.ssrc j.buffers)) [
  | inl free ↦ elim (Option-cases (push p (new_buffer p.ssrc p.payload_type v))) [
    | inl stuck ↦ ground arith
    | inr (b', pushed) ↦ (
      b',
      ground arith,
      λ s. ground (
        arith,
        lookup-insert p.ssrc s b' (insert p.ssrc (new_buffer p.ssrc p.payload_type v) j.buffers),
        lookup-insert p.ssrc s (new_buffer p.ssrc p.payload_type v) j.buffers,
      ),
    )
  ]
  | inr (b, found) ↦ elim (Option-cases (push p b)) [
    | inl stuck ↦ ground arith
    | inr (b', pushed) ↦
        (b', ground arith, λ s. ground (arith, lookup-insert p.ssrc s b' j.buffers))
  ]
]

-- PushRTP ends for every packet with a uint16 sequence number.
pub push_rtp_total :
    (p : Packet) (v : Bool) (j : JitterBuffer) → p.sequence_number < 65536 → push_rtp p v j ≢ none
unfolding push_rtp
push_rtp_total p v j h = elim (Option-cases (get_buffer p.ssrc j)) [
  | inl free ↦ ground (arith, push_total p (new_buffer p.ssrc p.payload_type v) h)
  | inr (b, found) ↦ ground (arith, push_total p b h)
]

-- After PushRTP, GetPacket finds the packet under its SSRC and sequence number, and what it finds
-- under any other SSRC is what it found before.
pub get_packet-push_rtp :
    (p : Packet) (v : Bool) (j j' : JitterBuffer) (s sn : ℕ)
    → push_rtp p v j ≡ some j'
    → s ≢ p.ssrc
    → (get_packet p.ssrc p.sequence_number j' ≡ some p) × (get_packet s sn j' ≡ get_packet s sn j)
unfolding get_packet get_buffer
get_packet-push_rtp p v j j' s sn h ne =
    let (b', pushed, found) = push_rtp_buffers p v j j' h in
    (
      ground (arith, found p.ssrc, get_packet-push p (target p v j) b' pushed),
      ground (arith, found s),
    )

-- A buffer that is well-formed, whose channel is open, and that has not panicked.
abbrev pub Runs : Buffer → Type 0
Runs b = IsValid b × (b.closed ≡ false) × (b.panicked ≡ false)

push-Runs :
    (p : Packet) (b b' : Buffer) → Runs b → p.sequence_number < 65536 → push p b ≡ some b' → Runs b'
push-Runs p b b' (valid, running, calm) word h =
    let (still, same) = push_runs p b b' h running in
    (push-IsValid p b b' valid word h, still, same ∙ calm)

new_buffer-Runs : (s t : ℕ) (v : Bool) → Runs (new_buffer s t v)
unfolding new_buffer
new_buffer-Runs s t v = (new_buffer-IsValid s t v, refl, refl)

-- All buffers in the map run.
abbrev pub IsRunning : JitterBuffer → Type 0
IsRunning j = (s : ℕ) (b : Buffer) → get_buffer s j ≡ some b → Runs b

pub new-IsRunning : (id : Text) (c : Config) → IsRunning (new id c)
unfolding new get_buffer lookup
new-IsRunning id c s b h = cc

target-Runs : (p : Packet) (v : Bool) (j : JitterBuffer) → IsRunning j → Runs (target p v j)
unfolding target
target-Runs p v j run = elim (Option-cases (get_buffer p.ssrc j)) [
  | inl free ↦ rw (free, target) (new_buffer-Runs p.ssrc p.payload_type v)
  | inr (b, found) ↦ rw (found, target) (run p.ssrc b found)
]

-- Where all buffers in the map are well-formed and open and have not panicked, PushRTP of a packet
-- with a uint16 sequence number keeps them so: it never sends a NACK to a closed channel.
pub push_rtp-IsRunning :
    (p : Packet) (v : Bool) (j j' : JitterBuffer)
    → IsRunning j
    → p.sequence_number < 65536
    → push_rtp p v j ≡ some j'
    → IsRunning j'
push_rtp-IsRunning p v j j' run word h s b found =
    let (b', pushed, after) = push_rtp_buffers p v j j' h in
    let good = push-Runs p (target p v j) b' (target-Runs p v j run) word pushed in
    elim (Bool-cases (p.ssrc == s)) [
      | inl e ↦ let same : b' ≡ b = ground (arith, after s) in subst Runs same good
      | inr e ↦ run s b (ground (arith, after s))
    ]

-- RemoveBuffer takes the buffer of its SSRC, and no other, out of the map and closes it, which does
-- not panic where all buffers in the map run; a second call finds nothing to close.
pub remove_buffer_lem :
    (ssrc s : ℕ) (b : Buffer) (j : JitterBuffer)
    → IsRunning j
    → get_buffer ssrc j ≡ some b
    → s ≢ ssrc
    → let (closed, j') = remove_buffer ssrc j in
      (closed ≡ some (Buffer.stop b))
      × ((Buffer.stop b).panicked ≡ false)
      × (get_buffer ssrc j' ≡ none)
      × (get_buffer s j' ≡ get_buffer s j)
      × ((remove_buffer ssrc j').0 ≡ none)
unfolding remove_buffer get_buffer Buffer.stop
remove_buffer_lem ssrc s b j run found ne = (
  ground arith,
  ground (arith, run ssrc b found),
  ground (arith, lookup-erase ssrc ssrc j.buffers),
  ground (arith, lookup-erase ssrc s j.buffers),
  ground (arith, lookup-erase ssrc ssrc j.buffers),
)
