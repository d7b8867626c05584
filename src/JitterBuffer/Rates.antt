-- ===== src/JitterBuffer/Rates.antt =====
-- internal/jitterbuffer/buffer.go, GetLostRateBandwidth and GetCurrentRates, over an abstract
-- float64: a type with the operations and tests that the code applies.
use kwmbridge.Base.{ℕ, ◌+◌, ◌*◌, ◌/◌, ◌%◌, ◌^◌, Bool}
use kwmbridge.JitterBuffer.Buffer.{Buffer}

pub record Float64 : Type 1 where
  pub F : Type 0
  pub of_int : ℕ → F
  pub tenth : F  -- the constant 0.1
  pub div : F → F → F
  pub mul : F → F → F
  pub sub : F → F → F
  pub eq : F → F → Bool
  pub le : F → F → Bool
  pub lt : F → F → Bool
  pub to_uint64 : F → ℕ

module _ (f : Float64) where
  open f use {F, of_int, div, mul, to_uint64}

  -- The lost rate and the bandwidth, beside the buffer with its counters reset. The cycle is not
  -- zero wherever the code calls it; on uint64 `byteRate * 8` wraps.
  unfoldable pub get_lost_rate_bandwidth : ℕ → Buffer → (F × ℕ) × Buffer
  get_lost_rate_bandwidth cycle b =
      let lost_rate = div (of_int b.lost_pkt) (of_int (b.received_pkt + b.lost_pkt)) in
      let byte_rate = b.total_byte / cycle in
      (
        (lost_rate, byte_rate * 8 % 2 ^ 64 / 1000),
        record b {
          received_pkt = 0;
          lost_pkt = 0;
          total_byte = 0;
          current_lost_rate = to_uint64 (mul lost_rate (of_int 100));
          current_byte_rate = byte_rate;
        },
      )

unfoldable pub get_current_rates : Buffer → ℕ × ℕ
get_current_rates b = (b.current_lost_rate, b.current_byte_rate)
