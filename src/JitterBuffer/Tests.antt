-- ===== src/JitterBuffer/Tests.antt =====
-- Runs of the jitter buffer, and its theorems at them.
use kwmbridge.Base.{
  All, ℕ, ◌+◌, ◌*◌, ◌-◌, ◌/◌, ◌<◌, ◌≤◌, ◌≡◌, refl, true, false, ◌&&◌, ◌||◌, Option, none, some,
  List, [], ◌∷◌, ◌++◌, arith, if◌then◌else◌, ltb, leb, ◌==◌, codes, length, lookup, insert,
}
use kwmbridge.JitterBuffer.Packet.{Packet, ts_delta, NackPair, nacked, transport_layer_nack, Rtcp}
use kwmbridge.JitterBuffer.Buffer
use kwmbridge.JitterBuffer.Buffer.{
  Slots, new_buffer, get_nack_pair, is_missing, max_nack_lost_size, push,
}
use kwmbridge.JitterBuffer.Buffer.Clear.{KeptOrOld}
use kwmbridge.JitterBuffer.Buffer.Nack.{
  missing, get_nack_pair_exact, get_nack_pair_zero, get_nack_pair_wrapped,
}
use kwmbridge.JitterBuffer.Buffer.Push.{push-KeptOrOld, IsValid, new_buffer-IsValid, push-IsValid}
use kwmbridge.JitterBuffer.Buffer.Reports.{lag_after, push_reports_losses}
use kwmbridge.JitterBuffer.Rates.{Float64}
use kwmbridge.JitterBuffer.Registry.{
  Config, JitterBuffer, tick, done, new, push_rtp, get_packet, get_buffer, remb_loop,
}
use kwmbridge.JitterBuffer.Registry.Lookup.{
  get_packet-push_rtp, IsRunning, new-IsRunning, push_rtp-IsRunning,
}
use kwmbridge.JitterBuffer.Registry.Bandwidth.{IsBounded, IsEstimate, remb_loop_bounds}

abbrev packet_of : ℕ → ℕ → Packet
packet_of sn ts = record {
  ssrc = 7;
  payload_type = 96;
  timestamp = ts;
  sequence_number = sn;
  marshal_size = 100;
}

abbrev first : Packet
first = packet_of 1 1000

abbrev ahead : Packet
ahead = packet_of 20 2000

abbrev or_else {ℓ} : {A : Type ℓ} → A → Option A → A
or_else a none = a
or_else a (some b) = b

abbrev empty_buffer : Buffer.Buffer
empty_buffer = new_buffer 7 96 true

abbrev one_packet : Buffer.Buffer
one_packet = or_else empty_buffer (push first empty_buffer)

abbrev two_packets : Buffer.Buffer
two_packets = or_else one_packet (push ahead one_packet)

pushed_one : push first empty_buffer ≡ some one_packet
unfolding push Buffer.clear_old_pkt ts_delta Buffer.record_packet new_buffer
pushed_one = refl

pushed_two : push ahead one_packet ≡ some two_packets
unfolding push Buffer.clear_old_pkt ts_delta Buffer.record_packet new_buffer Buffer.report_lost
    Buffer.limit_nack
pushed_two = refl

lag_two : max_nack_lost_size ≤ lag_after ahead one_packet
unfolding push Buffer.clear_old_pkt ts_delta Buffer.record_packet new_buffer Buffer.report_lost
    Buffer.limit_nack lag_after
lag_two = omega arith

running_one : one_packet.closed ≡ false
unfolding push Buffer.clear_old_pkt ts_delta Buffer.record_packet new_buffer Buffer.report_lost
    Buffer.limit_nack
running_one = refl

missing_all : missing two_packets.pkt_buffer 17 3 ≡ 17
unfolding push Buffer.clear_old_pkt ts_delta Buffer.record_packet new_buffer Buffer.report_lost
    Buffer.limit_nack missing get_nack_pair Buffer.find_lost Buffer.finish_nack_pair Buffer.blp_loop
missing_all = refl

missing_two : 0 < missing two_packets.pkt_buffer 17 3
missing_two = omega (arith, missing_all)

-- Of the 17 packets before the second one, all are lost.
push_reports_losses_example :
    (pair : NackPair) × (two_packets.lost_pkt
      ≡ one_packet.lost_pkt + missing two_packets.pkt_buffer 17 3)
    × (two_packets.rtcp_ch
        ≡ one_packet.rtcp_ch
          ++ (transport_layer_nack two_packets.ssrc two_packets.ssrc (pair ∷ []) ∷ []))
    × ((sn : ℕ) → nacked pair sn ≡ (leb 3 sn && ltb sn 20 && is_missing two_packets.pkt_buffer sn))
push_reports_losses_example =
    push_reports_losses ahead one_packet two_packets pushed_two (omega arith) (omega arith) lag_two
      running_one missing_two

push-KeptOrOld_example :
    KeptOrOld 2000 (Buffer.get_packet 1 one_packet) (Buffer.get_packet 1 two_packets)
push-KeptOrOld_example = push-KeptOrOld ahead one_packet two_packets 1 pushed_two (λ e. omega arith)

one_packet-IsValid : IsValid one_packet
one_packet-IsValid =
    push-IsValid first empty_buffer one_packet (new_buffer-IsValid 7 96 true) (omega arith)
      pushed_one

-- Slots of which 6 and 8 are empty.
abbrev gaps : Slots
gaps i = if i == 6 || i == 8 then none else some (packet_of i 1000)

gap_lost : 0 < (get_nack_pair gaps 5 10).1
unfolding get_nack_pair Buffer.find_lost Buffer.finish_nack_pair Buffer.blp_loop
gap_lost = omega arith

get_nack_pair_exact_example :
    ((get_nack_pair gaps 5 10).1 ≡ missing gaps 5 5) × (nacked (get_nack_pair gaps 5 10).0 8 ≡ true)
get_nack_pair_exact_example =
    get_nack_pair_exact gaps 5 10 8 (omega arith) (omega arith) (omega arith) (omega arith) gap_lost

abbrev no_packets : Slots
no_packets _ = none

-- All of 0 to 4 are lost, and only 0 is reported.
get_nack_pair_zero_example :
    get_nack_pair no_packets 0 5 ≡ (record { packet_id = 0; lost_packets = 0 }, 1)
get_nack_pair_zero_example = get_nack_pair_zero no_packets 5 refl (omega arith) (omega arith)

get_nack_pair_wrapped_example : (get_nack_pair no_packets 65530 5).1 ≡ 0
get_nack_pair_wrapped_example = get_nack_pair_wrapped no_packets 65530 5 (omega arith)

abbrev config : Config
config = record {
  pli_interval = 1;
  remb_interval = 3;
  bandwidth = 500;
  max_bandwidth = 0;
  min_bandwidth = 0;
}

abbrev registry : JitterBuffer
registry = new (codes "a") config

abbrev registry_1 : JitterBuffer
registry_1 = or_else registry (push_rtp first true registry)

registry_pushed : push_rtp first true registry ≡ some registry_1
unfolding push_rtp lookup new push Buffer.clear_old_pkt ts_delta Buffer.record_packet new_buffer
registry_pushed = refl

get_packet-push_rtp_example :
    (get_packet 7 1 registry_1 ≡ some first) × (get_packet 8 1 registry_1 ≡ get_packet 8 1 registry)
get_packet-push_rtp_example =
    get_packet-push_rtp first true registry registry_1 8 1 registry_pushed (λ e. omega arith)

registry_1-IsRunning : IsRunning registry_1
registry_1-IsRunning =
    push_rtp-IsRunning first true registry registry_1 (new-IsRunning (codes "a") config)
      (omega arith) registry_pushed

push_rtp-IsRunning_example : IsRunning registry_1
push_rtp-IsRunning_example =
    push_rtp-IsRunning first true registry registry_1 (new-IsRunning (codes "a") config)
      (omega arith) registry_pushed

abbrev stored : Buffer.Buffer
stored = or_else empty_buffer (get_buffer 7 registry_1)

stored_found : get_buffer 7 registry_1 ≡ some stored
unfolding push_rtp lookup new push Buffer.clear_old_pkt ts_delta Buffer.record_packet new_buffer
    get_buffer insert Buffer.report_lost Buffer.limit_nack
stored_found = refl

abbrev whole_floats : Float64
whole_floats = record {
  F = ℕ;
  of_int = λ n. n;
  tenth = 1;
  div = λ a b. a / b;
  mul = λ a b. a * b;
  sub = λ a b. a - b;
  eq = λ a b. a == b;
  le = λ a b. leb a b;
  lt = λ a b. ltb a b;
  to_uint64 = λ a. a;
}

registry_1-IsBounded : IsBounded registry_1.config
unfolding push_rtp lookup new push Buffer.clear_old_pkt ts_delta Buffer.record_packet new_buffer
registry_1-IsBounded = (omega arith, omega arith)

remb_loop_bounds_example :
    (sent : List Rtcp) × ((remb_loop whole_floats (tick ∷ done ∷ []) registry_1).rtcp_ch
      ≡ registry_1.rtcp_ch ++ sent)
    × All (IsEstimate registry_1.config) sent
    × (length (remb_loop whole_floats (tick ∷ done ∷ []) registry_1).buffers
        ≡ length registry_1.buffers)
remb_loop_bounds_example =
    remb_loop_bounds whole_floats (tick ∷ done ∷ []) registry_1 registry_1-IsBounded
