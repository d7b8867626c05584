-- ===== src/Sfu/Incoming/Jitter.antt =====
-- connectionrecord.go and p2precord.go: the jitter buffers that NewConnectionRecord, for a sender,
-- and NewP2PRecord start, and the goroutine that passes their RTCP packets on to the peer connection
-- that the record has at the time. The switch of that goroutine names all packets that jitter
-- buffers send.
use kwmbridge.Base.{
  All, ℕ, ◌≡◌, refl, ap, Option, none, some, List, [], ◌∷◌, ◌++◌, map, arith, Text, ◌⊎◌, inl, inr,
  ◌<◌,
}
use kwmbridge.JitterBuffer.Packet.{
  Rtcp, receiver_estimated_maximum_bitrate, picture_loss_indication, transport_layer_nack,
}
use kwmbridge.JitterBuffer.Rates.{Float64}
use kwmbridge.JitterBuffer.Registry
use kwmbridge.JitterBuffer.Registry.{Config, JitterBuffer, new, Event, remb_loop, normalise}
use kwmbridge.JitterBuffer.Registry.Bandwidth.{IsEstimate, remb_loop_bounds}
use kwmbridge.Sfu.Incoming.{Written, to_peer}

abbrev pub connection_config : Config
connection_config = record {
  pli_interval = 1;
  remb_interval = 3;
  bandwidth = 700;
  max_bandwidth = 0;
  min_bandwidth = 0;
}

abbrev pub p2p_config : Config
p2p_config = record connection_config { bandwidth = 1200; max_bandwidth = 5000 }

-- The jitter buffer of a sender's connection; `none` is the panic of a Start that fails.
unfoldable pub connection_jitter_buffer : Text → Option JitterBuffer
connection_jitter_buffer target = Registry.start (new target connection_config)

-- That of a peer to peer record.
unfoldable pub p2p_jitter_buffer : Text → Option JitterBuffer
p2p_jitter_buffer token = Registry.start (new token p2p_config)

-- What the goroutine waits for: the end of the context, or a packet, which comes with the record's
-- peer connection.
pub data JitterEvent : Type 0 where
  jitter_done : JitterEvent
  jitter_packet : Option ℕ → Rtcp → JitterEvent

unfoldable pub pass_jitter : List JitterEvent → List Written
pass_jitter [] = []
pass_jitter (jitter_done ∷ events) = []
pass_jitter (jitter_packet none packet ∷ events) = pass_jitter events
pass_jitter (jitter_packet (some pc) packet ∷ events) = to_peer pc packet ∷ pass_jitter events

pass_jitter-map :
    (pc : ℕ) (packets : List Rtcp)
    → pass_jitter (map (jitter_packet (some pc)) packets) ≡ map (to_peer pc) packets
unfolding pass_jitter
pass_jitter-map pc [] = refl
pass_jitter-map pc (packet ∷ packets) = ap (λ l. to_peer pc packet ∷ l) (pass_jitter-map pc packets)

-- An estimate is judged by the two limits of a configuration.
estimates_same :
    (a b : Config) (l : List Rtcp)
    → a.min_bandwidth ≡ b.min_bandwidth
    → a.max_bandwidth ≡ b.max_bandwidth
    → All (IsEstimate a) l
    → All (IsEstimate b) l
estimates_same a b [] low high h = tt
estimates_same a b (receiver_estimated_maximum_bitrate s r ss ∷ l) low high (h, hs) =
    (ground (arith, h), estimates_same a b l low high hs)
estimates_same a b (picture_loss_indication s m ∷ l) low high (h, hs) = absurd h
estimates_same a b (transport_layer_nack s m pairs ∷ l) low high (h, hs) = absurd h

-- The configuration of a new record, of the two kinds, and the greatest bandwidth for it.
abbrev pub IsKind : Config → ℕ → Type 0
IsKind c limit = ((c ≡ connection_config) × (limit ≡ 2000)) ⊎ ((c ≡ p2p_config) × (limit ≡ 5000))

started_limits :
    (id : Text) (c : Config) (j0 : JitterBuffer) (limit : ℕ)
    → IsKind c limit
    → Registry.start (new id c) ≡ some j0
    → (j0.config.min_bandwidth ≡ 90) × (j0.config.max_bandwidth ≡ limit) × (limit < 5001)
unfolding Registry.start new
started_limits id c j0 limit (inl (is, most)) started = ground arith
started_limits id c j0 limit (inr (is, most)) started = ground arith

-- The jitter buffers of new records start, and whatever the floats do, the estimates that their REMB
-- loops send, from whatever buffers they come to have, lie between 90 and 2000 kilobits per second
-- for a connection and between 90 and 5000 for a peer to peer record; all are written to the peer
-- connection that the record has.
pub pass_jitter_estimates :
    (f : Float64) (events : List Event) (id : Text) (pc : ℕ) (c : Config) (j0 j : JitterBuffer)
    (limit : ℕ)
    → IsKind c limit
    → Registry.start (new id c) ≡ some j0
    → j.config ≡ j0.config
    → (sent : List Rtcp) × ((remb_loop f events j).rtcp_ch ≡ j.rtcp_ch ++ sent)
      × (pass_jitter (map (jitter_packet (some pc)) sent) ≡ map (to_peer pc) sent)
      × All (IsEstimate (record c { min_bandwidth = 90; max_bandwidth = limit })) sent
pass_jitter_estimates f events id pc c j0 j limit which started same =
    let (low, high, small) = started_limits id c j0 limit which started in
    let (sent, log, all, _) = remb_loop_bounds f events j (ground arith) in
    (
      sent,
      log,
      pass_jitter-map pc sent,
      estimates_same j.config (record c { min_bandwidth = 90; max_bandwidth = limit }) sent
          (ground arith) (ground arith) all,
    )
