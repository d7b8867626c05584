-- ===== src/JitterBuffer/Registry.antt =====
-- internal/jitterbuffer/jitterbuffer.go: the buffers by SSRC and the loops that report on them.
-- `buffers`, a `sync.Map`, is an association list, which Range goes through in order. `rtcp_ch`
-- holds what was sent to the channel; its capacity is left out. The goroutines are functions of
-- the events that they wait for: `tick`, the timer, and `done`, the end of the context. The
-- intervals are not negative.
pub mod Lookup
pub mod Bandwidth
use kwmbridge.Base.{
  ℕ, ◌*◌, ◌%◌, ◌^◌, Bool, true, false, ◌&&◌, Option, none, some, List, [], ◌∷◌, ◌++◌, map, ltb, leb,
  ◌==◌, if◌then◌else◌, is_some, Text, lookup, insert, erase, ℕ_key,
}
use kwmbridge.JitterBuffer.Packet.{
  Packet, Rtcp, picture_loss_indication, receiver_estimated_maximum_bitrate,
}
use kwmbridge.JitterBuffer.Buffer
use kwmbridge.JitterBuffer.Buffer.{Buffer, new_buffer, push}
use kwmbridge.JitterBuffer.Rates.{Float64, get_lost_rate_bandwidth}

abbrev pub default_min_bandwidth : ℕ
default_min_bandwidth = 90

abbrev pub default_max_bandwidth : ℕ
default_max_bandwidth = 2000

pub record Config : Type 0 where
  pub pli_interval : ℕ
  pub remb_interval : ℕ
  pub bandwidth : ℕ  -- uint64, as the two below
  pub max_bandwidth : ℕ
  pub min_bandwidth : ℕ

pub record JitterBuffer : Type 0 where
  pub id : Text
  pub started : Bool  -- whether ctx is set
  pub buffers : List (ℕ × Buffer)
  pub rtcp_ch : List Rtcp
  pub config : Config

-- What New does to the configuration.
unfoldable pub normalise : Config → Config
normalise c =
    let low = if c.min_bandwidth == 0 then default_min_bandwidth else c.min_bandwidth in
    let high = if c.max_bandwidth == 0 then default_max_bandwidth else c.max_bandwidth in
    record c {
      min_bandwidth = low;
      max_bandwidth = high;
      bandwidth =
          if ltb c.bandwidth low then low else if ltb high c.bandwidth then high else c.bandwidth;
    }

unfoldable pub new : Text → Config → JitterBuffer
unfolding normalise
new id c = record { id = id; started = false; buffers = []; rtcp_ch = []; config = normalise c }

-- Start: `none` is the error "already started".
unfoldable pub start : JitterBuffer → Option JitterBuffer
start j = if j.started then none else some (record j { started = true })

-- Stop: the buffers that it takes from the map and closes are returned beside the registry.
unfoldable pub stop : JitterBuffer → List Buffer × JitterBuffer
stop j = (map (λ e. Buffer.stop e.1) j.buffers, record j { buffers = [] })

unfoldable pub get_buffer : ℕ → JitterBuffer → Option Buffer
get_buffer ssrc j = lookup ssrc j.buffers

-- AddBuffer: the buffer that is in the map afterwards, which may have been there before.
unfoldable pub add_buffer : ℕ → ℕ → Bool → JitterBuffer → Buffer × JitterBuffer
add_buffer ssrc payload_type is_video j = elim (lookup ssrc j.buffers) [
  | some b ↦ (b, j)
  | none ↦
      let b = new_buffer ssrc payload_type is_video in
      (b, record j { buffers = insert ssrc b j.buffers })
]

-- RemoveBuffer: what it closes is returned beside the registry.
unfoldable pub remove_buffer : ℕ → JitterBuffer → Option Buffer × JitterBuffer
remove_buffer ssrc j = elim (lookup ssrc j.buffers) [
  | none ↦ (none, j)
  | some b ↦ (some (Buffer.stop b), record j { buffers = erase ssrc j.buffers })
]

-- A change of the buffer that the map holds for the SSRC: Go changes it through its pointer.
abbrev store_buffer : ℕ → Buffer → JitterBuffer → JitterBuffer
store_buffer ssrc b j = record j { buffers = insert ssrc b j.buffers }

-- `buffer.Push(pkt)`, for the buffer that the map holds for the packet's SSRC.
unfoldable pub push_to : Packet → Buffer × JitterBuffer → Option JitterBuffer
push_to p (b, j) = elim (push p b) [ none ↦ none | some b' ↦ some (store_buffer p.ssrc b' j) ]

-- PushRTP; `none` says that Push does not end.
unfoldable pub push_rtp : Packet → Bool → JitterBuffer → Option JitterBuffer
unfolding push_to get_buffer add_buffer
push_rtp p is_video j = elim (get_buffer p.ssrc j) [
  | some b ↦ push_to p (b, j)
  | none ↦ push_to p (add_buffer p.ssrc p.payload_type is_video j)
]

unfoldable pub get_packet : ℕ → ℕ → JitterBuffer → Option Packet
get_packet ssrc sn j = elim (lookup ssrc j.buffers) [
  | none ↦ none
  | some b ↦ Buffer.get_packet sn b
]

-- One step of startNackLoop for the buffer of an SSRC: the NACK that waits there goes on.
unfoldable pub forward_nack : ℕ → JitterBuffer → JitterBuffer
forward_nack ssrc j = elim (lookup ssrc j.buffers) [
  | none ↦ j
  | some b ↦ elim b.rtcp_ch [
    | [] ↦ j
    | nack ∷ rest ↦ record (store_buffer ssrc (record b { rtcp_ch = rest }) j) {
      rtcp_ch = j.rtcp_ch ++ (nack ∷ []);
    }
  ]
]

-- The callback of Range in startPLILoop, over all buffers.
unfoldable pub pli_packets : List (ℕ × Buffer) → List Rtcp
pli_packets [] = []
pli_packets ((_, b) ∷ rest) =
    if b.video then picture_loss_indication b.ssrc b.ssrc ∷ pli_packets rest else pli_packets rest

pub data Event : Type 0 where
  tick done : Event

-- A round of startPLILoop.
unfoldable pub pli_tick : JitterBuffer → JitterBuffer
unfolding pli_packets
pli_tick j =
    if j.config.pli_interval == 0
    then j
    else record j { rtcp_ch = j.rtcp_ch ++ pli_packets j.buffers }

-- startPLILoop.
unfoldable pub pli_loop : List Event → JitterBuffer → JitterBuffer
unfolding pli_tick
pli_loop [] j = j
pli_loop (done ∷ events) j = j
pli_loop (tick ∷ events) j = pli_loop events (pli_tick j)

module _ (f : Float64) where
  open f use {F, of_int, tenth, mul, sub, eq, le, lt, to_uint64}

  -- The `switch` of startRembLoop and the limits that follow it.
  unfoldable pub estimate : Config → F → ℕ → ℕ
  estimate c lost_rate bandwidth =
      let bw =
        if eq lost_rate (of_int 0) && bandwidth == 0
        then c.bandwidth
        else if le (of_int 0) lost_rate && lt lost_rate tenth
        then bandwidth * 2 % 2 ^ 64
        else to_uint64 (mul (of_int bandwidth) (sub (of_int 1) lost_rate)) in
      let bw' = if ltb bw c.min_bandwidth then c.min_bandwidth else bw in
      if ltb c.max_bandwidth bw' then c.max_bandwidth else bw'

  -- The callback of Range in startRembLoop, over all buffers: the buffers with their counters
  -- reset, and the estimates.
  unfoldable pub remb_round : Config → List (ℕ × Buffer) → List (ℕ × Buffer) × List Rtcp
  unfolding get_lost_rate_bandwidth
  remb_round c [] = ([], [])
  remb_round c ((k, b) ∷ rest) =
      let ((lost_rate, bandwidth), b') = get_lost_rate_bandwidth f c.remb_interval b in
      let (buffers, packets) = remb_round c rest in
      (
        (k, b') ∷ buffers,
        receiver_estimated_maximum_bitrate b.ssrc (estimate c lost_rate bandwidth * 1000 % 2 ^ 64)
              (b.ssrc ∷ [])
            ∷ packets,
      )

  -- A round of startRembLoop.
  unfoldable pub remb_tick : JitterBuffer → JitterBuffer
  unfolding remb_round
  remb_tick j =
      if j.config.remb_interval == 0
      then j
      else (let (buffers, packets) = remb_round j.config j.buffers in
          record j { buffers = buffers; rtcp_ch = j.rtcp_ch ++ packets })

  -- startRembLoop.
  unfoldable pub remb_loop : List Event → JitterBuffer → JitterBuffer
  unfolding remb_tick
  remb_loop [] j = j
  remb_loop (done ∷ events) j = j
  remb_loop (tick ∷ events) j = remb_loop events (remb_tick j)
