-- ===== src/JitterBuffer/Buffer/Nack.antt =====
-- GetNackPair: the pair reports exactly the empty slots of its range.
use native.Mathlib.Nat.{pow-suc, pow-zero, add-zero}
use Prim.Native.Nat.{bit_or}
use kwmbridge.Base.{
  ℕ, zero, suc, ◌+◌, ◌-◌, ◌%◌, ◌^◌, ◌≤◌, ◌<◌, ◌≡◌, refl, ap, inl, inr, true, false, ◌&&◌, ◌||◌,
  none, some, arith, ltb, leb, ◌==◌, if◌then◌else◌, Bool-cases, Option-cases,
}
use kwmbridge.Base.Bits.{
  test_bit, bit_or-pow, test_bit-add-pow_lt, test_bit-add-pow_self, test_bit_of_lt,
}
use kwmbridge.JitterBuffer.Packet.{nacked}
use kwmbridge.JitterBuffer.Buffer.{
  Slots, max_nack_lost_size, is_missing, find_lost, blp_loop, finish_nack_pair, get_nack_pair,
}

-- How many of the `n` slots from `i` on are empty.
unfoldable pub missing : Slots → ℕ → ℕ → ℕ
missing slots zero i = 0
missing slots (suc n) i = (if is_missing slots i then 1 else 0) + missing slots n (i + 1)

pow_mono : (k n : ℕ) → 2 ^ k ≤ 2 ^ (k + n)
pow_mono k zero = rw add-zero (omega arith)
pow_mono k (suc n) = omega (arith, pow_mono k n, pow-suc 2 (k + n), ap (λ t. 2 ^ t) (shift k n))
  where
    shift : (k n : ℕ) → k + suc n ≡ suc (k + n)
    shift k n = omega arith

-- One bit of the mask fits uint16.
bit_fits : (k : ℕ) → k < 16 → 2 ^ k % 65536 ≡ 2 ^ k
bit_fits k h = omega (arith, pow_mono k (15 - k), ap (λ t. 2 ^ t) sum)
  where
    sum : k + (15 - k) ≡ 15
    sum = omega arith

-- Setting the bit `k` above all others.
test_bit-add-pow : (j k a : ℕ) → a < 2 ^ k → test_bit j (a + 2 ^ k) ≡ (j == k || test_bit j a)
test_bit-add-pow j k a h = ground (
  arith,
  pow-suc 2 k,
  test_bit-add-pow_lt j k a,
  test_bit-add-pow_self k a h,
  test_bit_of_lt j (suc k) (a + 2 ^ k),
  test_bit_of_lt j k a h,
)

-- The second loop at `lost + 1 + k`, where the mask has its bits below `k` only.
blp_loop-bits :
    (slots : Slots) (lost n i k blp c j : ℕ)
    → i ≡ lost + 1 + k
    → blp < 2 ^ k
    → k + n ≤ 16
    → test_bit j (blp_loop slots lost n i blp c).0
      ≡ (test_bit j blp || (leb k j && ltb j (k + n) && is_missing slots (lost + 1 + j)))
unfolding blp_loop
blp_loop-bits slots lost zero i k blp c j e h le = ground arith
blp_loop-bits slots lost (suc n) i k blp c j e h le = elim (Bool-cases (is_missing slots i)) [
  | inl empty ↦ ground (
    arith,
    pow-suc 2 k,
    bit_fits k,
    bit_or-pow k blp h,
    test_bit-add-pow j k blp h,
    blp_loop-bits slots lost n (i + 1) (suc k) (blp + 2 ^ k) (c + 1) j,
  )
  | inr full ↦ ground (
    arith,
    pow-suc 2 k,
    test_bit_of_lt j k blp h,
    blp_loop-bits slots lost n (i + 1) (suc k) blp c j,
  )
]

blp_loop-count :
    (slots : Slots) (lost n i blp c : ℕ)
    → lost < i
    → (blp_loop slots lost n i blp c).1 ≡ c + missing slots n i
unfolding blp_loop missing
blp_loop-count slots lost zero i blp c h = omega arith
blp_loop-count slots lost (suc n) i blp c h = ground (
  arith,
  blp_loop-count slots lost n (i + 1) (bit_or blp (2 ^ (i - lost - 1) % 65536)) (c + 1),
  blp_loop-count slots lost n (i + 1) blp c,
)

find_lost-none : (slots : Slots) (n i : ℕ) → find_lost slots n i ≡ none → missing slots n i ≡ 0
unfolding find_lost missing
find_lost-none slots zero i h = refl
find_lost-none slots (suc n) i h = ground (arith, find_lost-none slots n (i + 1))

-- The slot found is in range and empty, those before it are full, and it counts one.
find_lost-some :
    (slots : Slots) (n i l : ℕ)
    → find_lost slots n i ≡ some l
    → (i ≤ l)
      × (l < i + n)
      × (is_missing slots l ≡ true)
      × (missing slots n i ≡ 1 + missing slots (i + n - l - 1) (l + 1))
unfolding find_lost missing
find_lost-some slots zero i l h = cc
find_lost-some slots (suc n) i l h = ground (arith, find_lost-some slots n (i + 1) l)

find_lost_before :
    (slots : Slots) (n i l s : ℕ)
    → find_lost slots n i ≡ some l
    → i ≤ s
    → s < l
    → is_missing slots s ≡ false
unfolding find_lost
find_lost_before slots zero i l s h le lt = cc
find_lost_before slots (suc n) i l s h le lt = ground (arith, find_lost_before slots n (i + 1) l s)

-- The second loop passes over its first index, and has the counts of the slots behind it.
blp_loop_self :
    (slots : Slots) (lost n c j : ℕ)
    → 0 < n
    → n ≤ 17
    → let (blp, count) = blp_loop slots lost n lost 0 c in
      (test_bit j blp ≡ (ltb j (n - 1) && is_missing slots (lost + 1 + j)))
      × (count ≡ c + missing slots (n - 1) (lost + 1))
unfolding blp_loop
blp_loop_self slots lost zero c j h le = absurd (omega arith)
blp_loop_self slots lost (suc n) c j h le = ground (
  arith,
  pow-zero 2,
  test_bit_of_lt j 0 0,
  blp_loop-bits slots lost n (lost + 1) 0 0 c j,
  blp_loop-count slots lost n (lost + 1) 0 c,
)

-- The pair that follows from the first loop's result `l`.
finish_nack_pair-nacked :
    (slots : Slots) (begin end l sn : ℕ)
    → end ≤ begin + 17
    → 0 < begin
    → find_lost slots (end - begin) begin ≡ some l
    → (nacked (finish_nack_pair slots end l 1).0 sn
        ≡ (leb begin sn && ltb sn end && is_missing slots sn))
      × ((finish_nack_pair slots end l 1).1 ≡ missing slots (end - begin) begin)
unfolding finish_nack_pair nacked
finish_nack_pair-nacked slots begin end l sn le pos h = ground (
  arith,
  find_lost-some slots (end - begin) begin l h,
  find_lost_before slots (end - begin) begin l sn h,
  blp_loop_self slots l (end - l) 1 (sn - l - 1),
)

finish_nack_pair_none : (slots : Slots) (end : ℕ) → (finish_nack_pair slots end 0 0).1 ≡ 0
unfolding finish_nack_pair
finish_nack_pair_none slots end = refl

-- The count and the pair of a range that does not wrap round and does not begin at 0.
pub get_nack_pair_lem :
    (slots : Slots) (begin end sn : ℕ)
    → begin ≤ end
    → end ≤ begin + max_nack_lost_size
    → end < 65536
    → 0 < begin
    → ((get_nack_pair slots begin end).1 ≡ missing slots (end - begin) begin)
      × (0 < (get_nack_pair slots begin end).1
          → nacked (get_nack_pair slots begin end).0 sn
            ≡ (leb begin sn && ltb sn end && is_missing slots sn))
unfolding get_nack_pair
get_nack_pair_lem slots begin end sn le size word pos =
    elim (Option-cases (find_lost slots (end - begin) begin)) [
      | inl full ↦
          ground
            (arith, find_lost-none slots (end - begin) begin full, finish_nack_pair_none slots end)
      | inr (l, lost) ↦ ground (arith, finish_nack_pair-nacked slots begin end l sn size pos lost)
    ]

-- GetNackPair on a range of at most 17 sequence numbers that does not wrap round and does not
-- begin at 0, where it counts a loss: the count is the number of empty slots in the range, and
-- the pair reports a sequence number as lost exactly if it lies in the range and its slot is
-- empty.
pub get_nack_pair_exact :
    (slots : Slots) (begin end sn : ℕ)
    → begin ≤ end
    → end ≤ begin + max_nack_lost_size
    → end < 65536
    → 0 < begin
    → 0 < (get_nack_pair slots begin end).1
    → ((get_nack_pair slots begin end).1 ≡ missing slots (end - begin) begin)
      × (nacked (get_nack_pair slots begin end).0 sn
          ≡ (leb begin sn && ltb sn end && is_missing slots sn))
get_nack_pair_exact slots begin end sn le size word pos some_lost =
    let (count, exact) = get_nack_pair_lem slots begin end sn le size word pos in
    (count, exact some_lost)

-- GetNackPair takes the sequence number 0 for "nothing lost": on a range that begins at 0 and ends
-- above it, at 17 at most, with the slot 0 empty, it counts one lost packet and reports none but the
-- sequence number 0, whatever else is empty in the range.
pub get_nack_pair_zero :
    (slots : Slots) (end : ℕ)
    → slots 0 ≡ none
    → 0 < end
    → end ≤ max_nack_lost_size
    → get_nack_pair slots 0 end ≡ (record { packet_id = 0; lost_packets = 0 }, 1)
unfolding get_nack_pair find_lost finish_nack_pair
get_nack_pair_zero slots zero h pos le = absurd (omega arith)
get_nack_pair_zero slots (suc n) h pos le = ground arith

-- On a range that wraps round, where its end is below its beginning, GetNackPair finds no loss.
pub get_nack_pair_wrapped :
    (slots : Slots) (begin end : ℕ) → end < begin → (get_nack_pair slots begin end).1 ≡ 0
unfolding get_nack_pair find_lost
get_nack_pair_wrapped slots begin end h =
    ground (arith, ap (λ n. find_lost slots n begin) (sub_zero h), finish_nack_pair_none slots end)
  where
    sub_zero : end < begin → end - begin ≡ 0
    sub_zero h = omega arith
