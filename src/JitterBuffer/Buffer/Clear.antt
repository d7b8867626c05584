-- ===== src/JitterBuffer/Buffer/Clear.antt =====
-- clearOldPkt: its loop ends, and it removes old packets only.
use kwmbridge.Base.{
  ℕ, zero, suc, ◌-◌, ◌≤◌, ◌<◌, ◌≡◌, refl, subst, ◌≢◌, ◌⊎◌, inl, inr, ◌&&◌, true, Option, none, some,
  arith, leb, ◌==◌, Bool-cases, Option-cases,
}
use kwmbridge.JitterBuffer.Packet.{Packet, next16, ts_delta}
use kwmbridge.JitterBuffer.Buffer.{
  Buffer, max_sn, max_buffer_ts_delta, evict, clear_loop, clear_old_pkt,
}

ts_delta_self : (t : ℕ) → ts_delta t t ≡ 0
unfolding ts_delta
ts_delta_self t = ground arith

-- The test that the loop makes of a packet.
abbrev pub IsOld : ℕ → Packet → Type 0
IsOld ts q = leb max_buffer_ts_delta (ts_delta ts q.timestamp) ≡ true

-- The loop stops at the latest at the slot of a packet with the timestamp that it is given.
clear_loop_total :
    (fuel ts sn i : ℕ) (b : Buffer) (p : Packet)
    → sn < 65536
    → b.pkt_buffer sn ≡ some p
    → p.timestamp ≡ ts
    → sn - i < fuel
    → clear_loop fuel ts sn i b ≢ none
unfolding clear_loop
clear_loop_total zero ts sn i b p hs e t lt = absurd (omega arith)
clear_loop_total (suc fuel) ts sn i b p hs e t lt = elim (Option-cases (b.pkt_buffer i)) [
  | inl free ↦ ground (arith, clear_loop_total fuel ts sn (next16 i) b p hs e t)
  | inr (q, full) ↦
      ground (arith, ts_delta_self ts, clear_loop_total fuel ts sn (next16 i) (evict i q b) p hs)
]

-- What holds before the loop, and is kept when an old packet is cleared, holds after it.
clear_loop_rule :
    (P : Buffer → Type 0) (ts sn : ℕ)
    → ((i : ℕ) (q : Packet) (b : Buffer)
        → P b
        → b.pkt_buffer i ≡ some q
        → IsOld ts q
        → P (evict i q b))
    → (fuel i : ℕ) (b b' : Buffer) → P b
    → clear_loop fuel ts sn i b ≡ some b'
    → P b'
unfolding clear_loop
clear_loop_rule P ts sn keep zero i b b' p h = cc
clear_loop_rule P ts sn keep (suc fuel) i b b' p h = elim (Option-cases (b.pkt_buffer i)) [
  | inl free ↦ elim (Bool-cases (leb i sn)) [
    | inl more ↦ clear_loop_rule P ts sn keep fuel (next16 i) b b' p (ground arith)
    | inr stop ↦ subst P (ground arith) p
  ]
  | inr (q, full) ↦
      elim (Bool-cases (leb i sn && leb max_buffer_ts_delta (ts_delta ts q.timestamp))) [
        | inl old ↦
            clear_loop_rule P ts sn keep fuel (next16 i) (evict i q b) b'
              (keep i q b p full (ground arith)) (ground arith)
        | inr stop ↦ subst P (ground arith) p
      ]
]

-- What clearing may do to a slot: nothing, or remove a packet that is old at `ts`.
abbrev pub KeptOrOld : ℕ → Option Packet → Option Packet → Type 0
KeptOrOld ts old new =
    (new ≡ old)
    ⊎ ((q : Packet) × (old ≡ some q)
        × (new ≡ none)
        × (max_buffer_ts_delta ≤ ts_delta ts q.timestamp))

-- Apart from the slots and the marks of the last clearing, nothing changes.
abbrev pub Frame : Buffer → Buffer → Type 0
Frame b b' = b' ≡ record b {
  pkt_buffer = b'.pkt_buffer;
  last_clear_ts = b'.last_clear_ts;
  last_clear_sn = b'.last_clear_sn;
}

evict-KeptOrOld :
    (ts i : ℕ) (q : Packet) (o : Option Packet) (b : Buffer) (j : ℕ)
    → KeptOrOld ts o (b.pkt_buffer j)
    → b.pkt_buffer i ≡ some q
    → IsOld ts q
    → KeptOrOld ts o ((evict i q b).pkt_buffer j)
evict-KeptOrOld ts i q o b j (inl same) full old = elim (Bool-cases (j == i)) [
  | inl here ↦ inr (q, ground arith, ground arith, ground arith)
  | inr there ↦ inl (ground arith)
]
evict-KeptOrOld ts i q o b j (inr (r, was, gone, aged)) full old = inr (r, was, ground arith, aged)

pub clear_old_pkt-KeptOrOld :
    (ts sn : ℕ) (b b' : Buffer)
    → clear_old_pkt ts sn b ≡ some b'
    → (j : ℕ) → KeptOrOld ts (b.pkt_buffer j) (b'.pkt_buffer j)
unfolding clear_old_pkt
clear_old_pkt-KeptOrOld ts sn b b' h j =
    elim (Bool-cases (leb max_buffer_ts_delta (ts_delta ts b.last_clear_ts))) [
      | inl due ↦
          clear_loop_rule (λ c. KeptOrOld ts (b.pkt_buffer j) (c.pkt_buffer j)) ts sn
            (λ i q c k full old. evict-KeptOrOld ts i q (b.pkt_buffer j) c j k full old) max_sn
            (next16 b.last_clear_sn) b b' (inl refl) (rw due at h)
      | inr early ↦ inl (ground arith)
    ]

pub clear_old_pkt-Frame : (ts sn : ℕ) (b b' : Buffer) → clear_old_pkt ts sn b ≡ some b' → Frame b b'
unfolding clear_old_pkt
clear_old_pkt-Frame ts sn b b' h =
    elim (Bool-cases (leb max_buffer_ts_delta (ts_delta ts b.last_clear_ts))) [
      | inl due ↦
          clear_loop_rule (Frame b) ts sn (λ i q c k full old. ground arith) max_sn
            (next16 b.last_clear_sn) b b' refl (rw due at h)
      | inr early ↦ ground arith
    ]

-- A packet with the timestamp that clearing goes by stays, and the loop ends within its fuel.
pub clear_old_pkt_total :
    (ts sn : ℕ) (b : Buffer) (p : Packet)
    → sn < 65536
    → b.pkt_buffer sn ≡ some p
    → p.timestamp ≡ ts
    → clear_old_pkt ts sn b ≢ none
unfolding clear_old_pkt
clear_old_pkt_total ts sn b p hs e t =
    ground (arith, clear_loop_total max_sn ts sn (next16 b.last_clear_sn) b p hs e t)
