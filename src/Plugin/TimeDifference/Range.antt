-- ===== src/Plugin/TimeDifference/Range.antt =====
-- The range of the differences, and the records of them.
use psx_xp_mover.Base.{
  ℕ, zero, suc, ◌+◌, ◌*◌, ◌≤◌, ◌<◌, ◌≡◌, arith, Bool-cases, inl, inr, List, [], ◌∷◌, All, All-set,
  length, length-set, ◌∙◌, ltb, if◌then◌else◌,
}
use psx_xp_mover.Base.Int.{ℤ, pos, negsuc, ◌+ℤ◌, ◌-ℤ◌, ◌≤ℤ◌, pos_part, neg_part, leb_ℤ}
use psx_xp_mover.Double.{Double}
use psx_xp_mover.Plugin.TimeDifference.{
  Differences, clock_diff, record_difference, sum_of, local_millis, receive_difference,
}

-- the range of the differences of two millisecond parts
abbrev pub InRange : ℤ → Type 0
InRange a = (negsuc 498 ≤ℤ a) × (a ≤ℤ pos 999)

pub record IsValid (s : Differences) : Type 0 where
  pub storage : length s.diffs ≡ 770
  pub next_in : s.next < 770
  pub num_in : s.num ≤ 770
  pub diffs_in : All InRange s.diffs

abbrev pub IsMillis : ℤ → Type 0
IsMillis a = (pos 0 ≤ℤ a) × (a ≤ℤ pos 999)

-- The difference of two millisecond parts is one of their clocks: PSX's time and the difference
-- make the local time, or the local time in the next second; it is at least -499.
pub clock_diff-InRange :
    (local remote : ℕ)
    → local < 1000
    → remote < 1000
    → InRange (clock_diff (pos local) (pos remote))
      × ((pos remote +ℤ clock_diff (pos local) (pos remote))
          ≡ (if ltb (local + 499) remote then pos (local + 1000) else pos local))
unfolding clock_diff ◌+ℤ◌ ◌-ℤ◌
clock_diff-InRange local remote h k = ground arith

limited-IsMillis :
    (a : ℤ)
    → IsMillis (if leb_ℤ a (negsuc 0) then pos 0 else if leb_ℤ (pos 1000) a then pos 999 else a)
limited-IsMillis a = ground arith

sum_of_bound :
    (n : ℕ) (diffs : List ℤ)
    → All InRange diffs
    → (pos_part (sum_of n diffs) ≤ n * 999) × (neg_part (sum_of n diffs) ≤ n * 499)
unfolding sum_of ◌+ℤ◌
sum_of_bound zero diffs h = (omega arith, omega arith)
sum_of_bound (suc n) [] h = (omega arith, omega arith)
sum_of_bound (suc n) (x ∷ diffs) h = ground (arith, sum_of_bound n diffs h.1)

local_millis-IsMillis : (d : Double) (millis : d.D) → IsMillis (local_millis d millis)
unfolding local_millis
local_millis-IsMillis d millis = ground arith

clock_diff_of_millis :
    (local : ℤ) (remote : ℕ)
    → IsMillis local
    → remote < 1000
    → InRange (clock_diff local (pos remote))
unfolding clock_diff ◌-ℤ◌ ◌+ℤ◌
clock_diff_of_millis local remote h k = ground arith

record_difference-IsValid :
    (a : ℤ) (s : Differences) → InRange a → IsValid s → IsValid (record_difference a s)
unfolding record_difference
record_difference-IsValid a s h w = record {
  storage = length-set s.diffs _ a ∙ w.storage;
  next_in = omega arith;
  num_in = ground (arith, w.num_in);
  diffs_in = All-set InRange s.diffs _ a w.diffs_in h;
}

-- Valid records with a small sum.
abbrev pub HasSmallSum : Differences → Type 0
HasSmallSum s =
    IsValid s
    × (pos_part (sum_of s.num s.diffs) ≤ 769230)
    × (neg_part (sum_of s.num s.diffs) ≤ 384230)

valid-HasSmallSum : (s : Differences) → IsValid s → HasSmallSum s
valid-HasSmallSum s w =
    let (above, below) = sum_of_bound s.num s.diffs w.diffs_in in
    (w, omega (arith, above, w.num_in), omega (arith, below, w.num_in))

-- Receiving a frame with a millisecond part keeps the records valid, each difference between -499
-- and 999 and their sum small, whatever the local clock returns.
pub receive_difference-HasSmallSum :
    (d : Double) (millis : d.D) (remote : ℕ) (s : Differences)
    → remote < 1000
    → IsValid s
    → HasSmallSum (receive_difference d millis (pos remote) s).1
unfolding receive_difference
receive_difference-HasSmallSum d millis remote s h w =
    let diff =
      clock_diff_of_millis (local_millis d millis) remote (local_millis-IsMillis d millis) h in
    let recorded = valid-HasSmallSum _ (record_difference-IsValid _ s diff w) in
    elim (Bool-cases (d.is_nan millis)) [
      | inl unknown ↦ rw unknown (valid-HasSmallSum s w)
      | inr known ↦ elim (Bool-cases (d.le (d.of_int (pos 0)) millis)) [
        | inl good ↦ rw (known, good) recorded
        | inr bad ↦ rw (known, bad) (valid-HasSmallSum s w)
      ]
    ]
