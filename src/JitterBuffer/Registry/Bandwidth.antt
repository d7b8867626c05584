-- ===== src/JitterBuffer/Registry/Bandwidth.antt =====
-- The bandwidth limits: the configuration that New leaves, and the estimates that are sent.
use kwmbridge.Base.{
  ℕ, ◌*◌, ◌^◌, ◌≤◌, ◌<◌, ◌≡◌, refl, sym, ap, subst, ◌∙◌, zero, suc, map, List, [], ◌∷◌, ◌++◌, arith,
  ◌==◌, if◌then◌else◌, length, append_assoc, append-nil, Bool-cases, inl, inr, All,
}
use kwmbridge.JitterBuffer.Packet.{
  Rtcp, receiver_estimated_maximum_bitrate, picture_loss_indication, transport_layer_nack,
}
use kwmbridge.JitterBuffer.Buffer.{Buffer}
use kwmbridge.JitterBuffer.Rates.{Float64, get_lost_rate_bandwidth}
use kwmbridge.JitterBuffer.Registry.{
  Config, JitterBuffer, Event, tick, done, normalise, estimate, remb_round, remb_tick, remb_loop,
  pli_packets, pli_tick, pli_loop,
}

-- The configuration's limits: the least bandwidth is not above the greatest one.
abbrev pub IsBounded : Config → Type 0
IsBounded c = (c.min_bandwidth ≤ c.max_bandwidth) × (c.max_bandwidth < 2 ^ 54)

-- New replaces limits that are 0 by the defaults and keeps others, and where the limits that it
-- ends with are in order the start bandwidth lies within them.
pub normalise_bounds :
    (c : Config)
    → (normalise c).min_bandwidth ≤ (normalise c).max_bandwidth
    → let n = normalise c in
      (n.min_bandwidth ≤ n.bandwidth)
      × (n.bandwidth ≤ n.max_bandwidth)
      × (n.min_bandwidth ≡ (if c.min_bandwidth == 0 then 90 else c.min_bandwidth))
      × (n.max_bandwidth ≡ (if c.max_bandwidth == 0 then 2000 else c.max_bandwidth))
unfolding normalise
normalise_bounds c h = ground arith

-- A packet that is an estimate between the limits, in bits per second.
abbrev pub IsEstimate : Config → Rtcp → Type 0
IsEstimate c (receiver_estimated_maximum_bitrate ssrc rate ssrcs) =
    (c.min_bandwidth * 1000 ≤ rate) × (rate ≤ c.max_bandwidth * 1000) × (ssrcs ≡ ssrc ∷ [])
IsEstimate c (picture_loss_indication s m) = ⊥
IsEstimate c (transport_layer_nack s m pairs) = ⊥

All-append {ℓ κ} :
    {A : Type ℓ} (P : A → Type κ) (xs ys : List A) → All P xs → All P ys → All P (xs ++ ys)
All-append P [] ys p q = q
All-append P (x ∷ xs) ys (h, p) q = (h, All-append P xs ys p q)

module _ (f : Float64) where
  open f use {F}

  estimate_bounds :
      (c : Config) (rate : F) (bandwidth : ℕ)
      → IsBounded c
      → (c.min_bandwidth ≤ estimate f c rate bandwidth)
        × (estimate f c rate bandwidth ≤ c.max_bandwidth)
  unfolding estimate
  estimate_bounds c rate bandwidth h = ground arith

  -- One round of the REMB loop: one estimate for each buffer, all within the limits.
  remb_round_bounds :
      (c : Config) (buffers : List (ℕ × Buffer))
      → IsBounded c
      → All (IsEstimate c) (remb_round f c buffers).1
        × (length (remb_round f c buffers).1 ≡ length buffers)
        × (length (remb_round f c buffers).0 ≡ length buffers)
  unfolding remb_round
  remb_round_bounds c [] h = (tt, refl, refl)
  remb_round_bounds c ((k, b) ∷ rest) h =
      let ((rate, bandwidth), _) = get_lost_rate_bandwidth f c.remb_interval b in
      let (low, high) = estimate_bounds c rate bandwidth h in
      let (all, count, kept) = remb_round_bounds c rest h in
      (((omega arith, omega arith, refl), all), omega arith, omega arith)

  remb_tick_bounds :
      (j : JitterBuffer)
      → IsBounded j.config
      → (sent : List Rtcp) × ((remb_tick f j).rtcp_ch ≡ j.rtcp_ch ++ sent)
        × All (IsEstimate j.config) sent
        × (length (remb_tick f j).buffers ≡ length j.buffers)
        × ((remb_tick f j).config ≡ j.config)
  unfolding remb_tick
  remb_tick_bounds j h = elim (Bool-cases (j.config.remb_interval == 0)) [
    | inl off ↦ rw off ([], sym (append-nil j.rtcp_ch), tt, refl, refl)
    | inr on ↦
        let (all, _, kept) = remb_round_bounds j.config j.buffers h in
        rw on ((remb_round f j.config j.buffers).1, refl, all, kept, refl)
  ]

  -- Where the configured least bandwidth is not above the greatest one, and that is below 2 ^ 54, so
  -- that it fits uint64 in bits per second: whatever the floats do, the REMB loop only appends to the
  -- channel, and all that it appends are estimates between these limits, each for the SSRC that sends
  -- it. It keeps as many buffers as there were.
  pub remb_loop_bounds :
      (events : List Event) (j : JitterBuffer)
      → IsBounded j.config
      → (sent : List Rtcp) × ((remb_loop f events j).rtcp_ch ≡ j.rtcp_ch ++ sent)
        × All (IsEstimate j.config) sent
        × (length (remb_loop f events j).buffers ≡ length j.buffers)
  unfolding remb_loop
  remb_loop_bounds [] j h = ([], sym (append-nil j.rtcp_ch), tt, refl)
  remb_loop_bounds (done ∷ events) j h = ([], sym (append-nil j.rtcp_ch), tt, refl)
  remb_loop_bounds (tick ∷ events) j h =
      let (first, sent, all, count, same) = remb_tick_bounds j h in
      let (more, sent', all', count') =
        remb_loop_bounds events (remb_tick f j) (subst IsBounded (sym same) h) in
      (
        first ++ more,
        sent' ∙ ap (λ l. l ++ more) sent ∙ append_assoc j.rtcp_ch first more,
        All-append (IsEstimate j.config) first more all
            (subst (λ c. All (IsEstimate c) more) same all'),
        count' ∙ count,
      )

-- The ticks before the context is done.
pub ticks : List Event → ℕ
ticks [] = 0
ticks (done ∷ events) = 0
ticks (tick ∷ events) = suc (ticks events)

pub repeat : ℕ → List Rtcp → List Rtcp
repeat zero packets = []
repeat (suc n) packets = packets ++ repeat n packets

-- The SSRCs of the video buffers, in the order of the map.
pub video_ssrcs : List (ℕ × Buffer) → List ℕ
video_ssrcs [] = []
video_ssrcs ((_, b) ∷ rest) = let more = video_ssrcs rest in if b.video then b.ssrc ∷ more else more

pli_packets_lem :
    (buffers : List (ℕ × Buffer))
    → pli_packets buffers ≡ map (λ s. picture_loss_indication s s) (video_ssrcs buffers)
unfolding pli_packets video_ssrcs
pli_packets_lem [] = refl
pli_packets_lem ((k, b) ∷ rest) = ground (arith, pli_packets_lem rest)

-- The PLI loop leaves the buffers alone, and at each tick before the context is done it asks for a
-- key frame once for every video buffer and for no other, where its interval is not 0; where the
-- interval is 0 it sends nothing.
pub pli_loop_lem :
    (events : List Event) (j : JitterBuffer)
    → ((pli_loop events j).buffers ≡ j.buffers)
      × ((pli_loop events j).rtcp_ch
          ≡ j.rtcp_ch
            ++ repeat
                (if j.config.pli_interval == 0 then 0 else ticks events)
                (map (λ s. picture_loss_indication s s) (video_ssrcs j.buffers)))
unfolding pli_loop pli_tick ticks repeat
pli_loop_lem [] j = ground (arith, append-nil j.rtcp_ch)
pli_loop_lem (done ∷ events) j = ground (arith, append-nil j.rtcp_ch)
pli_loop_lem (tick ∷ events) j = ground (
  arith,
  pli_loop_lem events (pli_tick j),
  pli_packets_lem j.buffers,
  append_assoc j.rtcp_ch (pli_packets j.buffers) (repeat (ticks events) (pli_packets j.buffers)),
)
