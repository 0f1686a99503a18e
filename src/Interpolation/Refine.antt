-- ===== src/Interpolation/Refine.antt =====
-- The ring of src/interpolation.c holds a timeline: what `interpolator_add_point` and
-- `interpolator_maintain` do to the array is what `Timeline` says of the list.
use native.Mathlib.Numerals.{add-one}
use psx_xp_mover.Base.{
  ℕ, zero, suc, ◌+◌, ◌-◌, ◌%◌, ◌<◌, ◌≡◌, ◌≢◌, refl, sym, ap, ◌∙◌, arith, Bool, true, false, inl,
  inr, Bool-cases, ◌==◌, leb, if◌then◌else◌, List, [], ◌∷◌, take, take_all, length, get_or,
  get_or-set_self, All-get_or,
}
use psx_xp_mover.Base.Int.{pos}
use psx_xp_mover.Base.Ring.{prev, recent, length-recent, recent-set_next, take-recent}
use psx_xp_mover.Double.{Double, IsExact}
use psx_xp_mover.Interpolation.{
  KeyFrame, Interpolator, ilimit, ifloor, latest_frame_index, latest_frame, millis_since, maintain,
  insert_frame, add_point, write_frame, blank, reset_frames,
}
use psx_xp_mover.Interpolation.Timeline.{elapsed, keep, extend, record_point}
use psx_xp_mover.Interpolation.Inv.{
  IsValid, valid-IsIndexed, InSecond, latest_frame_index_lem, insert_frame_lem, maintain-IsValid,
}

module _ (d : Double) where
  open d use {D, of_int, is_finite}

  -- the index of the latest frame
  abbrev pub latest_index : Interpolator D → ℕ
  latest_index i = (i.frames_start + i.num_frames + 7) % 8

  -- the frames that the ring holds, newest first
  abbrev pub contents : Interpolator D → List (KeyFrame D)
  contents i = recent (blank d) i.frames 8 (latest_index i) i.num_frames

  pub length-contents : (i : Interpolator D) → length (contents i) ≡ i.num_frames
  length-contents i = length-recent (blank d) 8 i.frames (latest_index i) i.num_frames

  recent_of_ne_zero :
      (fs : List (KeyFrame D)) (k n : ℕ)
      → n ≢ 0
      → recent (blank d) fs 8 k n ≡ get_or fs k (blank d) ∷ recent (blank d) fs 8 (prev 8 k) (n - 1)
  recent_of_ne_zero fs k zero h = absurd (h refl)
  recent_of_ne_zero fs k (suc n) h =
      ap (λ m. get_or fs k (blank d) ∷ recent (blank d) fs 8 (prev 8 k) m) (omega arith)

  -- A ring that is not empty shows its latest frame first.
  pub contents_latest :
      (i : Interpolator D)
      → IsValid i
      → i.num_frames ≢ 0
      → contents i
        ≡ latest_frame d i
          ∷ recent (blank d) i.frames 8 (prev 8 (latest_index i)) (i.num_frames - 1)
  contents_latest i w h =
      rw (latest_frame_index_lem d i w) (recent_of_ne_zero i.frames (latest_index i) i.num_frames h)

  pub latest_frame-InSecond : (i : Interpolator D) → IsValid i → InSecond (latest_frame d i)
  latest_frame-InSecond i w =
      All-get_or InSecond i.frames (latest_frame_index d i) (blank d) w.times_in (omega arith)

  contents_empty : (i : Interpolator D) → i.num_frames ≡ 0 → contents i ≡ []
  contents_empty i h = ap (recent (blank d) i.frames 8 (latest_index i)) h

  module _ (x : KeyFrame D) (i : Interpolator D) (w : IsValid i) where
    abbrev written : ℕ → ℕ → ℕ → Interpolator D
    written start num index = write_frame d i start num index x.timestamp_millis_part x.value

    -- the first frame
    written_first : i.num_frames ≡ 0 → contents (written i.frames_start 1 i.frames_start) ≡ x ∷ []
    written_first h = rw (same_index) (
        ap (λ f. f ∷ [])
          (get_or-set_self i.frames i.frames_start x (blank d)
            (omega (arith, w.storage, w.start_in))))
      where
        same_index : (i.frames_start + 1 + 7) % 8 ≡ i.frames_start
        same_index = omega (arith, w.start_in)

    written_next :
        (start num index : ℕ)
        → index ≡ (latest_index i + 1) % 8
        → index ≡ (start + suc num + 7) % 8
        → num < 8
        → contents (written start (suc num) index)
          ≡ x ∷ recent (blank d) i.frames 8 (latest_index i) num
    written_next start num index e e' h = rw (← e') (
        recent-set_next (blank d) 8 i.frames (latest_index i) index x num (omega (arith, w.storage))
          (omega arith) e h)

    insert_refines_full :
        leb 8 i.num_frames ≡ true
        → contents (written ((i.frames_start + 1) % 8) 8 i.frames_start) ≡ take 8 (x ∷ contents i)
    insert_refines_full full =
        let eight : i.num_frames ≡ 8 = ground (arith, w.num_in) in
        written_next ((i.frames_start + 1) % 8) 7 i.frames_start (omega (arith, w.start_in))
          (omega (arith, w.start_in)) (omega arith)
        ∙ ap (◌∷◌ x)
            (sym (take-recent (blank d) 8 i.frames (latest_index i) 7 i.num_frames (omega arith)))

    insert_refines_room :
        leb 8 i.num_frames ≡ false
        → contents (written i.frames_start (i.num_frames + 1) ((i.frames_start + i.num_frames) % 8))
          ≡ take 8 (x ∷ contents i)
    insert_refines_room room =
        let below : i.num_frames < 8 = ground arith in
        rw (add-one) (
          written_next i.frames_start i.num_frames ((i.frames_start + i.num_frames) % 8)
            (omega arith) (omega arith) below
          ∙ ap (◌∷◌ x) (sym (take_all 7 (contents i) (omega (arith, length-contents i)))))

    extend-contents :
        i.num_frames ≢ 0
        → extend x (contents i) ≡ (
            if (latest_frame d i).timestamp_millis_part == x.timestamp_millis_part
            then contents i
            else take 8 (x ∷ contents i))
    extend-contents h = rw (contents_latest i w h)

    -- the part of `interpolator_add_point` behind the maintenance
    pub insert_frame_refines :
        contents (insert_frame d i x.timestamp_millis_part x.value) ≡ extend x (contents i)
    insert_frame_refines =
        rw (insert_frame_lem d i x.timestamp_millis_part x.value (valid-IsIndexed i w))
          (elim (Bool-cases (i.num_frames == 0)) [
            | inl empty ↦
                let none_yet : i.num_frames ≡ 0 = ground arith in
                rw (empty, contents_empty i none_yet) (written_first none_yet)
            | inr some_frames ↦
                rw (some_frames, extend-contents (ground arith))
                  (elim (Bool-cases
                    ((latest_frame d i).timestamp_millis_part == x.timestamp_millis_part)) [
                      | inl same ↦ rw same refl
                      | inr newer ↦ rw newer (elim (Bool-cases (leb 8 i.num_frames)) [
                        | inl full ↦ rw full (insert_refines_full full)
                        | inr room ↦ rw room (insert_refines_room room)
                      ])
                    ])
          ])

  millis_since_lem :
      (now : ℕ) (f : KeyFrame D)
      → now < 1000
      → InSecond f
      → millis_since d (pos now) f ≡ pos (elapsed now f.timestamp_millis_part)
  unfolding millis_since
  millis_since_lem now f h k = ground arith

  module _ (laws : IsExact d) where
    now_lem :
        (now : ℕ) → now < 1000 → ilimit (ifloor d (of_int (pos now))) (pos 0) (pos 999) ≡ pos now
    unfolding ilimit ifloor
    now_lem now h = rw (laws.lround-floor (pos now) (omega arith)) (ground arith)

    -- the latest frame is 499 ms old, or older
    abbrev is_stale : Interpolator D → ℕ → Bool
    is_stale i now = leb 499 (elapsed now (latest_frame d i).timestamp_millis_part)

    maintain_lem :
        (i : Interpolator D) (now : ℕ)
        → now < 1000
        → IsValid i
        → maintain d i (of_int (pos now))
          ≡ (if i.num_frames == 0 then i else if is_stale i now then reset_frames d i else i)
    unfolding maintain
    maintain_lem i now h w =
        rw (now_lem now h, millis_since_lem now (latest_frame d i) h (latest_frame-InSecond i w))
          (ground arith)

    keep-contents :
        (i : Interpolator D) (now : ℕ)
        → IsValid i
        → i.num_frames ≢ 0
        → keep now (contents i) ≡ (if is_stale i now then [] else contents i)
    keep-contents i now w h = rw (contents_latest i w h)

    -- `interpolator_maintain` at a whole millisecond drops all frames when, and only when, the latest
    -- one is 499 ms old or older by the millisecond parts.
    pub maintain_refines :
        (i : Interpolator D) (now : ℕ)
        → now < 1000
        → IsValid i
        → contents (maintain d i (of_int (pos now))) ≡ keep now (contents i)
    maintain_refines i now h w =
        rw (maintain_lem i now h w) (elim (Bool-cases (i.num_frames == 0)) [
          | inl empty ↦
              let none_yet : i.num_frames ≡ 0 = ground arith in
              rw (empty, contents_empty i none_yet)
          | inr some_frames ↦
              rw (some_frames, keep-contents i now w (ground arith))
                (elim (Bool-cases (is_stale i now)) [
                  | inl old ↦ rw old refl
                  | inr fresh ↦ rw fresh refl
                ])
        ])

    -- `interpolator_add_point` with a millisecond part does to the ring what `record_point` does
    -- to the list of its frames, for finite and other values.
    pub add_point_refines :
        (i : Interpolator D) (timestamp : ℕ) (v : D)
        → timestamp < 1000
        → IsValid i
        → contents (add_point d i timestamp v)
          ≡ record_point
              (is_finite v)
              (record { timestamp_millis_part = timestamp; value = v })
              (contents i)
    unfolding add_point
    add_point_refines i timestamp v h w =
        let kept = maintain_refines i timestamp h w in
        elim (Bool-cases (is_finite v)) [
          | inl finite ↦
              rw (finite, ← kept)
                (insert_frame_refines (record { timestamp_millis_part = timestamp; value = v }) _
                  (maintain-IsValid d i _ w))
          | inr dropped ↦ rw dropped kept
        ]
