-- ===== src/Plugin/DataRefs/Text.antt =====
-- Texts as X-Plane reads them.
use mathlib.Core.List.{append-nil}
use psx_xp_mover.Base.{
  ℕ, zero, suc, refl, ap, ◌+◌, ◌-◌, ◌≤◌, ◌≡◌, arith, some, [], ◌∷◌, ◌++◌, length, length-replicate,
  take_all, drop, replicate, min,
}
use psx_xp_mover.Base.Int.{pos}
use psx_xp_mover.Utils.{Bytes}
use psx_xp_mover.Memory.{write_out, write_front}
use psx_xp_mover.Plugin.DataRefs.{copied, copied_out_of_range, copy_string, dataref_get_string}

drop_all : (n : ℕ) (xs : Bytes) → length xs ≤ n → drop n xs ≡ []
drop_all zero [] h = refl
drop_all zero (x ∷ xs) h = absurd (omega arith)
drop_all (suc n) [] h = refl
drop_all (suc n) (x ∷ xs) h = drop_all n xs (omega arith)

drop-replicate : (n m k : ℕ) → n + k ≡ m → drop n (replicate m 0) ≡ replicate k zero
drop-replicate zero m k h = ap (λ i. replicate i zero) (omega arith)
drop-replicate (suc n) zero k h = absurd (omega arith)
drop-replicate (suc n) (suc m) k h = drop-replicate n m k (omega arith)

copy_at_start :
    (s out : Bytes) (n : ℕ)
    → length out ≡ n
    → length s ≤ n
    → copy_string s 0 n out ≡ copied n (s ++ replicate (n - length s) 0)
unfolding copy_string
copy_at_start s out n e h =
    let zeros : length (replicate n zero) ≡ n = length-replicate n zero in
    let whole : min (length s) n - 0 ≡ length s = omega arith in
    rw
      (
        write_front out (replicate n 0) (omega (arith, zeros)),
        drop_all (length (replicate n zero)) out (omega (arith, zeros)),
        append-nil (replicate n zero),
        whole,
        take_all (length s) s (omega arith),
        write_front (replicate n 0) s (omega (arith, zeros)),
        drop-replicate (length s) n (n - length s) (omega arith),
      )
      refl

copy_out_of_range :
    (s out : Bytes) (offset n : ℕ)
    → length out ≡ n
    → 1 ≤ offset
    → 1 ≤ n
    → copy_string s offset n out ≡ copied_out_of_range
unfolding copy_string
copy_out_of_range s out offset n e h k =
    let zeros : length (replicate n zero) ≡ n = length-replicate n zero in
    rw (write_out out (replicate n 0) offset (omega (arith, zeros)) (omega (arith, zeros))) refl

-- Read from its start, into memory for at most 256 bytes, a text comes with zeros behind it.
dataref_get_string_at_start :
    (s out : Bytes)
    → 1 ≤ length out
    → length out ≤ 256
    → length s ≤ length out
    → dataref_get_string s (some out) (pos 0) (pos (length out))
      ≡ copied (length out) (s ++ replicate (length out - length s) 0)
unfolding dataref_get_string
dataref_get_string_at_start s out h k l =
    let part : min (length out) 256 ≡ length out = omega arith in
    rw part (ground (arith, copy_at_start s out (length out) refl l))

-- Read from a later offset, into memory for what is asked for, up to 256 bytes, it is written
-- behind the end of the memory.
pub dataref_get_string_out_of_range :
    (s out : Bytes) (offset : ℕ)
    → 1 ≤ offset
    → offset ≤ 255
    → 1 ≤ length out
    → length out ≤ 256
    → dataref_get_string s (some out) (pos offset) (pos (length out)) ≡ copied_out_of_range
unfolding dataref_get_string
dataref_get_string_out_of_range s out offset h k l m =
    let part : min (length out) 256 ≡ length out = omega arith in
    rw part (ground (arith, copy_out_of_range s out offset (length out) refl h l))
