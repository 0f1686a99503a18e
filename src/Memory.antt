-- ===== src/Memory.antt =====
-- The C library's writes into a buffer, as src/logger.c and src/plugin.c use them.
use psx_xp_mover.Base.{
  ℕ, zero, suc, ◌+◌, ◌≤◌, ◌<◌, ◌≡◌, refl, arith, Option, none, some, [], ◌∷◌, ◌++◌, length, drop,
  ◌>>=◌,
}
use psx_xp_mover.Utils.{Bytes}

-- `memcpy` into a buffer at an offset: `none` if it writes behind the end.
unfoldable pub write_at : Bytes → ℕ → Bytes → Option Bytes
write_at buffer zero [] = some buffer
write_at [] zero (c ∷ text) = none
write_at (x ∷ buffer) zero (c ∷ text) = do written ← write_at buffer zero text; some (c ∷ written)
write_at [] (suc offset) text = none
write_at (x ∷ buffer) (suc offset) text = do
  written ← write_at buffer offset text
  some (x ∷ written)

pub write_out :
    (buffer text : Bytes) (offset : ℕ)
    → length buffer < offset + length text
    → 0 < length text
    → write_at buffer offset text ≡ none
unfolding write_at
write_out [] [] offset h p = absurd (omega arith)
write_out [] (c ∷ text) zero h p = refl
write_out [] (c ∷ text) (suc offset) h p = refl
write_out (x ∷ buffer) [] offset h p = absurd (omega arith)
write_out (x ∷ buffer) (c ∷ []) zero h p = absurd (omega arith)
write_out (x ∷ buffer) (c ∷ d ∷ text) zero h p =
    rw (write_out buffer (d ∷ text) zero (omega arith) (omega arith)) refl
write_out (x ∷ buffer) (c ∷ text) (suc offset) h p =
    rw (write_out buffer (c ∷ text) offset (omega arith) p) refl

pub write_front :
    (buffer text : Bytes)
    → length text ≤ length buffer
    → write_at buffer 0 text ≡ some (text ++ drop (length text) buffer)
unfolding write_at
write_front buffer [] h = refl
write_front [] (c ∷ text) h = absurd (omega arith)
write_front (x ∷ buffer) (c ∷ text) h = rw (write_front buffer text (omega arith)) refl
