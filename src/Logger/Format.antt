-- ===== src/Logger/Format.antt =====
-- What `format_message` leaves in its buffer, and when it writes behind the end of it.
use mathlib.Core.List.{append_assoc}
use psx_xp_mover.Base.{
  ℕ, zero, suc, ◌+◌, ◌-◌, ◌≤◌, ◌<◌, ◌≡◌, ◌≢◌, refl, sym, ap, ◌∙◌, arith, Option, none, some, [],
  ◌∷◌, ◌++◌, All, length, length-append, length-replicate, length-take, take, take_all, replicate,
  ◌>>=◌,
}
use psx_xp_mover.Utils.{Bytes, c_string}
use psx_xp_mover.Memory.{write_at, write_out}
use psx_xp_mover.Logger.{
  write_at, write_head, empty_buffer, log_fallback_prefix, or_fallback, write_prefix, write_text,
  format_message, message, overrun, log_level_name_message_part,
}

-- A buffer that was all 0, with a text in front.
abbrev filled : ℕ → Bytes → Bytes
filled size text = text ++ replicate (size - length text) 0

write_zeros :
    (text : Bytes) (n k : ℕ)
    → length text + k ≡ n
    → write_at (replicate n 0) 0 text ≡ some (text ++ replicate k 0)
unfolding write_at
write_zeros [] n k h = let same : k ≡ n = omega arith in rw same refl
write_zeros (c ∷ text) zero k h = absurd (omega arith)
write_zeros (c ∷ text) (suc n) k h = rw (write_zeros text n k (omega arith)) refl

bind_some : {A : Type 0} (o : Option A) → (o >>= λ w. some w) ≡ o
bind_some none = refl
bind_some (some w) = refl

bind_bind :
    {A : Type 0} (o : Option A) (f g : A → A)
    → ((o >>= λ w. some (f w)) >>= λ w. some (g w)) ≡ (o >>= λ w. some (g (f w)))
bind_bind none f g = refl
bind_bind (some w) f g = refl

write_behind :
    (xs ys text : Bytes)
    → write_at (xs ++ ys) (length xs) text ≡ (write_at ys 0 text >>= λ w. some (xs ++ w))
unfolding write_at
write_behind [] ys text = sym (bind_some (write_at ys 0 text))
write_behind (x ∷ xs) ys text =
    rw (write_behind xs ys text) (bind_bind (write_at ys 0 text) (λ w. xs ++ w) (λ w. x ∷ w))

length-filled : (size : ℕ) (text : Bytes) → length text ≤ size → length (filled size text) ≡ size
length-filled size text h = omega (
  arith,
  length-append text (replicate (size - length text) 0),
  length-replicate (size - length text) zero,
)

write_filled :
    (size : ℕ) (xs text : Bytes)
    → length xs + length text ≤ size
    → write_at (filled size xs) (length xs) text ≡ some (filled size (xs ++ text))
write_filled size xs text h =
    write_behind xs (replicate (size - length xs) 0) text
    ∙ rw
        (
          write_zeros text (size - length xs) (size - length (xs ++ text))
              (omega (arith, length-append xs text)),
          append_assoc,
        )
        refl

replicate-suc : (k n : ℕ) → suc k ≡ n → replicate (suc k) 0 ≡ replicate n zero
replicate-suc k zero h = absurd (omega arith)
replicate-suc k (suc n) h = let same : k ≡ n = omega arith in rw same refl

filled_zero :
    (size : ℕ) (text : Bytes) → length text < size → filled size (text ++ 0 ∷ []) ≡ filled size text
filled_zero size text h =
    append_assoc text (0 ∷ []) _
    ∙ ap (◌++◌ text) (
        replicate-suc (size - length (text ++ 0 ∷ [])) (size - length text)
          (omega (arith, length-append text (0 ∷ []))))

-- with a terminator
print_filled :
    (size : ℕ) (xs text : Bytes)
    → length xs + length text < size
    → write_at (filled size xs) (length xs) (text ++ 0 ∷ []) ≡ some (filled size (xs ++ text))
print_filled size xs text h =
    write_filled size xs (text ++ 0 ∷ []) (omega (arith, length-append text (0 ∷ [])))
    ∙ ap some (
        ap (filled size) (sym (append_assoc xs text (0 ∷ [])))
        ∙ filled_zero size (xs ++ text) (omega (arith, length-append xs text)))

c_string-filled :
    (text : Bytes) (n : ℕ) → All (λ c. c ≢ 0) text → c_string (text ++ replicate n 0) ≡ text
unfolding c_string
c_string-filled [] zero h = refl
c_string-filled [] (suc n) h = refl
c_string-filled (c ∷ text) n h = ground (arith, c_string-filled text n h.1)

length-level_part : (level : ℕ) → length (log_level_name_message_part level) ≡ 8
unfolding log_level_name_message_part
length-level_part level = ground arith

plain_level_part : (level : ℕ) → All (λ c. c ≢ 0) (log_level_name_message_part level)
unfolding log_level_name_message_part
plain_level_part level = ground arith

All-append : (P : ℕ → Type 0) (xs ys : Bytes) → All P xs → All P ys → All P (xs ++ ys)
All-append P [] ys a b = b
All-append P (x ∷ xs) ys a b = (a.0, All-append P xs ys a.1 b)

-- the text in front of the message
abbrev pub head_of : Option Bytes → ℕ → Bytes
head_of time_prefix level = or_fallback time_prefix ++ log_level_name_message_part level

length-head_of :
    (time_prefix : Option Bytes) (level : ℕ)
    → length (head_of time_prefix level) ≡ length (or_fallback time_prefix) + 8
length-head_of time_prefix level = omega (
  arith,
  length-append (or_fallback time_prefix) (log_level_name_message_part level),
  length-level_part level,
)

write_prefix_lem :
    (size : ℕ) (time_prefix : Option Bytes)
    → size ≡ 4096
    → length (or_fallback time_prefix) < 4094
    → write_prefix time_prefix 4094 (filled size []) ≡ some (filled size (or_fallback time_prefix))
write_prefix_lem size none e h = write_filled size [] log_fallback_prefix (omega arith)
write_prefix_lem size (some text) e h =
    rw (take_all 4093 text (omega arith)) (print_filled size [] text (omega arith))

empty_buffer_lem : (size : ℕ) → size ≡ 4096 → empty_buffer ≡ filled size []
unfolding empty_buffer
empty_buffer_lem size e =
    let same : 4096 ≡ size - 0 = omega arith in ap (λ n. replicate n zero) same

write_head_lem :
    (size : ℕ) (time_prefix : Option Bytes) (level : ℕ)
    → size ≡ 4096
    → length (or_fallback time_prefix) + 8 ≤ 4094
    → write_head time_prefix level (filled size []) ≡ some (filled size (head_of time_prefix level))
unfolding write_head
write_head_lem size time_prefix level e h = rw (write_prefix_lem size time_prefix e (omega arith)) (
    write_filled size (or_fallback time_prefix) (log_level_name_message_part level)
      (omega (arith, length-level_part level)))

format_message_lem :
    (size : ℕ) (time_prefix : Option Bytes) (level : ℕ) (formatted : Option Bytes)
    → size ≡ 4096
    → length (or_fallback time_prefix) + 8 ≤ 4094
    → format_message time_prefix level formatted empty_buffer
      ≡ write_text
          (length (head_of time_prefix level))
          (4094 - length (head_of time_prefix level))
          formatted
          (filled size (head_of time_prefix level))
unfolding format_message
format_message_lem size time_prefix level formatted e h =
    rw
      (
        empty_buffer_lem size e,
        write_head_lem size time_prefix level e h,
        length-append (or_fallback time_prefix) (log_level_name_message_part level),
      )
      refl

-- Behind the head, the text and its end.
write_text_fits :
    (size : ℕ) (head text : Bytes)
    → size ≡ 4096
    → length head + length text ≤ 4093
    → All (λ c. c ≢ 0) (head ++ text)
    → write_text (length head) (4094 - length head) (some text) (filled size head)
      ≡ message (head ++ text ++ b'\n' ∷ [])
unfolding write_text
write_text_fits size head text e h p =
    let room : 4094 - length head ≡ suc (4093 - length head) = omega arith in
    rw
      (
        room,
        take_all (4093 - length head) text (omega arith),
        print_filled size head text (omega arith),
        ← length-append head text,
        print_filled size (head ++ text) (b'\n' ∷ []) (omega (arith, length-append head text)),
      )
      (ap message (
        c_string-filled ((head ++ text) ++ b'\n' ∷ []) _
          (All-append (λ c. c ≢ 0) (head ++ text) (b'\n' ∷ []) p (ground arith))))

write_text_long :
    (size : ℕ) (head text : Bytes)
    → size ≡ 4096
    → length head ≤ 4093
    → 4095 ≤ length head + length text
    → write_text (length head) (4094 - length head) (some text) (filled size head) ≡ overrun
unfolding write_text
write_text_long size head text e h l =
    let room : 4094 - length head ≡ suc (4093 - length head) = omega arith in
    let part = take (4093 - length head) text in
    let short : length head + length part < size =
      omega (arith, length-take (4093 - length head) text) in
    let whole = length-filled size (head ++ part) (omega (arith, length-append head part, short)) in
    rw
      (
        room,
        print_filled size head part short,
        write_out (filled size (head ++ part)) (b'\n' ∷ 0 ∷ []) (length head + length text)
            (omega (arith, whole)) (omega arith),
      )
      refl

-- A text without NUL is delivered whole, behind the time and level and with a line end, if all but
-- the line end is at most 4093 bytes long.
pub format_message_fits :
    (time_prefix : Option Bytes) (level : ℕ) (text : Bytes)
    → length (or_fallback time_prefix) + 8 + length text ≤ 4093
    → All (λ c. c ≢ 0) (or_fallback time_prefix)
    → All (λ c. c ≢ 0) text
    → format_message time_prefix level (some text) empty_buffer
      ≡ message
          (((or_fallback time_prefix ++ log_level_name_message_part level) ++ text) ++ b'\n' ∷ [])
format_message_fits time_prefix level text h p q =
    format_message_lem 4096 time_prefix level (some text) refl (omega arith)
    ∙ write_text_fits 4096 (head_of time_prefix level) text refl
        (omega (arith, length-head_of time_prefix level))
        (All-append (λ c. c ≢ 0) (head_of time_prefix level) text
          (All-append (λ c. c ≢ 0) (or_fallback time_prefix) (log_level_name_message_part level) p
            (plain_level_part level))
          q)

-- A longer text, of 4095 bytes or more with the time and level, is followed by a write behind the
-- end of the buffer.
pub format_message_overruns :
    (time_prefix : Option Bytes) (level : ℕ) (text : Bytes)
    → length (or_fallback time_prefix) + 8 ≤ 4093
    → 4095 ≤ length (or_fallback time_prefix) + 8 + length text
    → format_message time_prefix level (some text) empty_buffer ≡ overrun
format_message_overruns time_prefix level text h l =
    format_message_lem 4096 time_prefix level (some text) refl (omega arith)
    ∙ write_text_long 4096 (head_of time_prefix level) text refl
        (omega (arith, length-head_of time_prefix level))
        (omega (arith, length-head_of time_prefix level))
