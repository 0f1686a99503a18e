-- ===== src/Interpolation/Inv.antt =====
-- The representation invariant of `interpolator_t`: every index is in range, every timestamp is a
-- millisecond part.
use psx_xp_mover.Base.{
  ℕ, ◌+◌, ◌%◌, ◌≤◌, ◌<◌, ◌≡◌, ◌∙◌, arith, inl, inr, true, Bool-cases, ◌==◌, leb, if◌then◌else◌,
  some, All, All-set, length, length-set,
}
use psx_xp_mover.Base.Int.{ℤ, pos, negsuc, int_of_u32, ◌+ℤ◌, ◌≤ℤ◌, ◌<ℤ◌}
use psx_xp_mover.Double.{Double}
use psx_xp_mover.Interpolation.{
  KeyFrame, Interpolator, ipmod, frame_index, write_frame, latest_frame, latest_frame_index,
  maintain, insert_frame, add_point, create_interpolator,
}

abbrev pub InSecond : {V : Type 0} → KeyFrame V → Type 0
InSecond f = f.timestamp_millis_part < 1000

-- every index in range, whatever the timestamps
pub record IsIndexed {V : Type 0} (i : Interpolator V) : Type 0 where
  pub storage : length i.frames ≡ 8
  pub start_in : i.frames_start < 8
  pub num_in : i.num_frames ≤ 8

pub record IsValid {V : Type 0} (i : Interpolator V) : Type 0 where
  pub storage : length i.frames ≡ 8
  pub start_in : i.frames_start < 8
  pub num_in : i.num_frames ≤ 8
  pub times_in : All InSecond i.frames

pub valid-IsIndexed : {V : Type 0} (i : Interpolator V) → IsValid i → IsIndexed i
valid-IsIndexed i w = record { storage = w.storage; start_in = w.start_in; num_in = w.num_in }

-- The "positive modulo" of the source's comment: in range, and congruent to the value.
pub ipmod_range :
    (value : ℤ) (divisor : ℕ)
    → 0 < divisor
    → (pos 0 ≤ℤ ipmod value divisor) × (ipmod value divisor <ℤ pos divisor)
unfolding ipmod
ipmod_range (pos n) divisor h = ground arith
ipmod_range (negsuc n) divisor h = ground arith

int_of_small : (n : ℕ) → n < 9 → int_of_u32 n ≡ pos n
int_of_small n h = ground arith

frame_index_small : (a b : ℕ) → frame_index (pos a +ℤ pos b) ≡ (a + b) % 8
unfolding ipmod ◌+ℤ◌
frame_index_small a b = ground arith

module _ (d : Double) where
  open d use {D, of_int}

  pub latest_frame_index_lem :
      (i : Interpolator D)
      → IsValid i
      → latest_frame_index d i ≡ (i.frames_start + i.num_frames + 7) % 8
  unfolding latest_frame_index
  latest_frame_index_lem i v = ground arith

  -- `insert_frame` with its indices as plain numbers
  abbrev pub inserted : Interpolator D → ℕ → D → Interpolator D
  inserted i timestamp v =
      if i.num_frames == 0
      then write_frame d i i.frames_start 1 i.frames_start timestamp v
      else if (latest_frame d i).timestamp_millis_part == timestamp
      then i
      else if leb 8 i.num_frames
      then write_frame d i ((i.frames_start + 1) % 8) 8 i.frames_start timestamp v
      else write_frame d i i.frames_start (i.num_frames + 1) ((i.frames_start + i.num_frames) % 8)
          timestamp v

  pub insert_frame_lem :
      (i : Interpolator D) (timestamp : ℕ) (v : D)
      → IsIndexed i
      → insert_frame d i timestamp v ≡ inserted i timestamp v
  unfolding insert_frame
  insert_frame_lem i timestamp v w =
      rw
        (
          int_of_small i.frames_start (omega (arith, w.start_in)),
          int_of_small i.num_frames (omega (arith, w.num_in)),
        )
        (rw (frame_index_small i.frames_start i.num_frames, frame_index_small i.frames_start 1))

  write_frame-IsValid :
      (i : Interpolator D) (start num index timestamp : ℕ) (v : D)
      → IsValid i
      → start < 8
      → num ≤ 8
      → timestamp < 1000
      → IsValid (write_frame d i start num index timestamp v)
  write_frame-IsValid i start num index timestamp v w hs hn ht = record {
    storage = length-set i.frames index _ ∙ w.storage;
    start_in = hs;
    num_in = hn;
    times_in = All-set InSecond i.frames index _ w.times_in ht;
  }

  inserted-IsValid :
      (i : Interpolator D) (timestamp : ℕ) (v : D)
      → timestamp < 1000
      → IsValid i
      → IsValid (inserted i timestamp v)
  inserted-IsValid i timestamp v h w = elim (Bool-cases (i.num_frames == 0)) [
    | inl empty ↦ rw empty (write_frame-IsValid i _ _ _ _ v w w.start_in (omega arith) h)
    | inr some_frames ↦
        rw some_frames (elim (Bool-cases ((latest_frame d i).timestamp_millis_part == timestamp)) [
          | inl same ↦ rw same w
          | inr newer ↦ rw newer (elim (Bool-cases (leb 8 i.num_frames)) [
            | inl full ↦ rw full (write_frame-IsValid i _ _ _ _ v w (omega arith) (omega arith) h)
            | inr room ↦ rw room (write_frame-IsValid i _ _ _ _ v w w.start_in (ground arith) h)
          ])
        ])
  ]

  pub insert_frame-IsValid :
      (i : Interpolator D) (timestamp : ℕ) (v : D)
      → timestamp < 1000
      → IsValid i
      → IsValid (insert_frame d i timestamp v)
  insert_frame-IsValid i timestamp v h w =
      rw (insert_frame_lem i timestamp v (valid-IsIndexed i w)) (inserted-IsValid i timestamp v h w)

  pub maintain-IsValid : (i : Interpolator D) (t : D) → IsValid i → IsValid (maintain d i t)
  unfolding maintain
  maintain-IsValid i t w = ground arith

  -- Adding a point at a millisecond part keeps the invariant, whatever the value.
  pub add_point-IsValid :
      (i : Interpolator D) (timestamp : ℕ) (v : D)
      → timestamp < 1000
      → IsValid i
      → IsValid (add_point d i timestamp v)
  unfolding add_point
  add_point-IsValid i timestamp v h w =
      let kept = maintain-IsValid i (of_int (pos timestamp)) w in
      ground (arith, insert_frame-IsValid _ timestamp v h kept)

  write_frame-IsIndexed :
      (i : Interpolator D) (start num index timestamp : ℕ) (v : D)
      → IsIndexed i
      → start < 8
      → num ≤ 8
      → IsIndexed (write_frame d i start num index timestamp v)
  write_frame-IsIndexed i start num index timestamp v w hs hn = record {
    storage = length-set i.frames index _ ∙ w.storage;
    start_in = hs;
    num_in = hn;
  }

  inserted-IsIndexed :
      (i : Interpolator D) (timestamp : ℕ) (v : D)
      → IsIndexed i
      → IsIndexed (inserted i timestamp v)
  inserted-IsIndexed i timestamp v w =
      let empty =
        write_frame-IsIndexed i i.frames_start 1 i.frames_start timestamp v w w.start_in
          (omega arith) in
      let full =
        write_frame-IsIndexed i ((i.frames_start + 1) % 8) 8 i.frames_start timestamp v w
          (omega arith) (omega arith) in
      elim (Bool-cases (i.num_frames == 0)) [
        | inl none_yet ↦ rw none_yet empty
        | inr some_frames ↦
            rw some_frames
              (elim (Bool-cases ((latest_frame d i).timestamp_millis_part == timestamp)) [
                | inl same ↦ rw same w
                | inr newer ↦ rw newer (elim (Bool-cases (leb 8 i.num_frames)) [
                  | inl at_end ↦ rw at_end full
                  | inr room ↦
                      rw room (write_frame-IsIndexed i _ _ _ _ v w w.start_in (ground arith))
                ])
              ])
      ]

  insert_frame-IsIndexed :
      (i : Interpolator D) (timestamp : ℕ) (v : D)
      → IsIndexed i
      → IsIndexed (insert_frame d i timestamp v)
  insert_frame-IsIndexed i timestamp v w =
      rw (insert_frame_lem i timestamp v w) (inserted-IsIndexed i timestamp v w)

  maintain-IsIndexed : (i : Interpolator D) (t : D) → IsIndexed i → IsIndexed (maintain d i t)
  unfolding maintain
  maintain-IsIndexed i t w = ground arith

  -- Adding a point keeps the indices in range at any timestamp.
  pub add_point-IsIndexed :
      (i : Interpolator D) (timestamp : ℕ) (v : D)
      → IsIndexed i
      → IsIndexed (add_point d i timestamp v)
  unfolding add_point
  add_point-IsIndexed i timestamp v w =
      let kept = maintain-IsIndexed i (of_int (pos timestamp)) w in
      ground (arith, insert_frame-IsIndexed _ timestamp v kept)

  pub create_interpolator-IsValid :
      {i : Interpolator D} → create_interpolator d true ≡ some i → IsValid i
  unfolding create_interpolator
  create_interpolator-IsValid e = ground arith
