-- ===== src/Utils/Copies.antt =====
-- The memory and the copies of texts in src/utils.c. What `malloc` returns for a size is an argument:
-- a block of any content, or NULL.
use psx_xp_mover.Base.{
  ℕ, zero, suc, ◌+◌, ◌≡◌, refl, arith, Option, none, some, [], ◌∷◌, ◌++◌, length, drop, replicate,
  ltb, if◌then◌else◌, ◌>>=◌,
}
use psx_xp_mover.Utils.{Bytes}
use psx_xp_mover.Memory.{write_at, write_front}

-- `memset` with 0 over the block
unfoldable pub zmalloc : (ℕ → Option Bytes) → ℕ → Option Bytes
unfolding write_at
zmalloc malloc size = do out ← malloc size; write_at out 0 (replicate size 0)

unfoldable pub copy_string : (ℕ → Option Bytes) → Option Bytes → Option Bytes
unfolding write_at
copy_string malloc none = none
copy_string malloc (some s) = do
  block ← malloc (length s + 1)
  copy ← if ltb 0 (length s) then write_at block 0 s else some block
  write_at copy (length s) (0 ∷ [])

drop_last :
    (s block : Bytes) → length block ≡ length s + 1 → (c : ℕ) × (drop (length s) block ≡ c ∷ [])
drop_last [] [] e = absurd (omega arith)
drop_last [] (c ∷ []) e = (c, refl)
drop_last [] (c ∷ c' ∷ block) e = absurd (omega arith)
drop_last (b ∷ s) [] e = absurd (omega arith)
drop_last (b ∷ s) (c ∷ block) e = drop_last s block (omega (arith, e))

write_last : (s : Bytes) (c : ℕ) → write_at (s ++ c ∷ []) (length s) (0 ∷ []) ≡ some (s ++ 0 ∷ [])
unfolding write_at
write_last [] c = refl
write_last (b ∷ s) c = rw (write_last s c) refl

guarded_write :
    (block s : Bytes)
    → (if ltb 0 (length s) then write_at block 0 s else some block) ≡ write_at block 0 s
unfolding write_at
guarded_write block [] = refl
guarded_write block (c ∷ s) = ground arith

-- Where memory of the size asked for is granted, the copy is the text with its terminator, which is
-- written within that memory.
pub copy_string_lem :
    (malloc : ℕ → Option Bytes) (s block : Bytes)
    → malloc (length s + 1) ≡ some block
    → length block ≡ length s + 1
    → copy_string malloc (some s) ≡ some (s ++ 0 ∷ [])
unfolding copy_string
copy_string_lem malloc s block e h =
    let (c, last) = drop_last s block h in
    rw (e, guarded_write block s, write_front block s (omega (arith, h)), last) (write_last s c)

write_over :
    (block : Bytes) (size : ℕ)
    → length block ≡ size
    → write_at block 0 (replicate size 0) ≡ some (replicate size 0)
unfolding write_at
write_over [] zero e = refl
write_over [] (suc size) e = absurd (omega (arith, e))
write_over (c ∷ block) zero e = absurd (omega (arith, e))
write_over (c ∷ block) (suc size) e = rw (write_over block size (omega (arith, e))) refl

-- Where memory is granted, all of it is 0.
pub zmalloc_lem :
    (malloc : ℕ → Option Bytes) (size : ℕ) (block : Bytes)
    → malloc size ≡ some block
    → length block ≡ size
    → zmalloc malloc size ≡ some (replicate size 0)
unfolding zmalloc
zmalloc_lem malloc size block e h = rw (e, write_over block size h) refl
