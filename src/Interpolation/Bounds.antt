-- ===== src/Interpolation/Bounds.antt =====
-- `interpolator_calculate` never leaves the range of the two values that it interpolates between,
-- whatever time is asked for and however the arithmetic rounds.
use mathlib.Core.Path.{subst}
use psx_xp_mover.Base.{
  ℕ, zero, suc, ◌-◌, ◌<◌, ◌≡◌, refl, arith, Bool, true, false, ◌⊎◌, inl, inr, Bool-cases, ltb, leb,
  ◌==◌, if◌then◌else◌, List, ◌∷◌, All, All-get_or, All-set, Option, none, some, get_or,
}
use psx_xp_mover.Base.Int.{pos}
use psx_xp_mover.Base.Ring.{prev, recent, recent-All}
use psx_xp_mover.Double.{Double, IsOrdered}
use psx_xp_mover.Interpolation.{
  KeyFrame, Interpolator, latest_frame_index, latest_frame, find_frames, dlimit,
  interpolate_between, between_or_nan, wrap_second, calculate, blank, maintain, insert_frame,
  add_point,
}
use psx_xp_mover.Interpolation.Inv.{IsValid, latest_frame_index_lem}
use psx_xp_mover.Interpolation.Refine.{latest_index, contents}
use psx_xp_mover.Interpolation.Seek.{base_index_lem, prev_lt}

module _ (d : Double) where
  open d use {D, is_nan, is_finite, le}

  -- `r` lies between `a` and `b`, whichever is the larger
  abbrev pub Between : D → D → D → Type 0
  Between a b r = ((le a r ≡ true) × (le r b ≡ true)) ⊎ ((le b r ≡ true) × (le r a ≡ true))

  abbrev pub HasFinite : KeyFrame D → Type 0
  HasFinite f = is_finite f.value ≡ true

  insert_frame-HasFinite :
      (i : Interpolator D) (timestamp : ℕ) (v : D)
      → is_finite v ≡ true
      → All HasFinite i.frames
      → All HasFinite (insert_frame d i timestamp v).frames
  unfolding insert_frame
  insert_frame-HasFinite i timestamp v f h = elim (Bool-cases (i.num_frames == 0)) [
    | inl empty ↦ rw empty (All-set HasFinite i.frames _ _ h f)
    | inr some_frames ↦
        rw some_frames (elim (Bool-cases ((latest_frame d i).timestamp_millis_part == timestamp)) [
          | inl same ↦ rw same h
          | inr newer ↦ rw newer (elim (Bool-cases (leb 8 i.num_frames)) [
            | inl full ↦ rw full (All-set HasFinite i.frames _ _ h f)
            | inr room ↦ rw room (All-set HasFinite i.frames _ _ h f)
          ])
        ])
  ]

  frames-maintain : (i : Interpolator D) (t : D) → (maintain d i t).frames ≡ i.frames
  unfolding maintain
  frames-maintain i t = ground arith

  -- A point is stored only if its value is finite.
  pub add_point-HasFinite :
      (i : Interpolator D) (timestamp : ℕ) (v : D)
      → All HasFinite i.frames
      → All HasFinite (add_point d i timestamp v).frames
  unfolding add_point
  add_point-HasFinite i timestamp v h =
      let kept = rw (← frames-maintain i (d.of_int (pos timestamp))) at h in
      elim (Bool-cases (is_finite v)) [
        | inl finite ↦ rw finite (insert_frame-HasFinite _ timestamp v finite kept)
        | inr dropped ↦ rw dropped kept
      ]

  module _ (laws : IsOrdered d) where
    dlimit-Between :
        (v a b : D)
        → is_nan a ≡ false
        → is_nan b ≡ false
        → is_nan (dlimit d v a b) ≡ false
        → Between a b (dlimit d v a b)
    unfolding dlimit
    dlimit-Between v a b ha hb hr = ground (
      arith,
      laws.le_refl a ha,
      laws.le_refl b hb,
      laws.le_of_not_le a b ha hb,
      laws.le_of_not_lt v a,
      laws.le_of_not_lt v b,
      laws.le_of_not_lt a v,
      laws.le_of_not_lt b v,
    )

    choice-Between :
        (p q : Bool) (v a b : D)
        → is_nan a ≡ false
        → is_nan b ≡ false
        → is_nan (if p then a else if q then b else dlimit d v a b) ≡ false
        → Between a b (if p then a else if q then b else dlimit d v a b)
    choice-Between true q v a b ha hb hr =
        ground (arith, laws.le_refl a ha, laws.le_of_not_le a b ha hb)
    choice-Between false true v a b ha hb hr =
        ground (arith, laws.le_refl b hb, laws.le_of_not_le a b ha hb)
    choice-Between false false v a b ha hb hr = dlimit-Between v a b ha hb hr

    interpolate_between-Between :
        (base target : KeyFrame D) (t : D)
        → HasFinite base
        → HasFinite target
        → is_nan (interpolate_between d base target t) ≡ false
        → Between base.value target.value (interpolate_between d base target t)
    unfolding interpolate_between
    interpolate_between-Between base target t hb ht hr =
        choice-Between _ _ _ base.value target.value (laws.finite_number base.value hb)
          (laws.finite_number target.value ht) hr

    -- the search returned neighbours of the list
    abbrev AreNeighbours : List (KeyFrame D) → ℕ → Option (KeyFrame D × KeyFrame D) → Type 0
    AreNeighbours fs n none = Unit
    AreNeighbours fs n (some (base, target)) =
        (j : ℕ) × (j < n) × (target ≡ get_or fs j (blank d)) × (base ≡ get_or fs (suc j) (blank d))

    AreNeighbours-cons :
        (f : KeyFrame D) (fs : List (KeyFrame D)) (n : ℕ) (o : Option (KeyFrame D × KeyFrame D))
        → AreNeighbours fs n o
        → AreNeighbours (f ∷ fs) (suc n) o
    AreNeighbours-cons f fs n none h = tt
    AreNeighbours-cons f fs n (some (base, target)) (j, lt, t, b) = (suc j, omega arith, t, b)

    AreNeighbours-step :
        (c : Bool) (base target : KeyFrame D) (fs : List (KeyFrame D)) (n : ℕ)
        (o : Option (KeyFrame D × KeyFrame D))
        → AreNeighbours (base ∷ fs) n o
        → AreNeighbours (target ∷ base ∷ fs) (suc n) (if c then some (base, target) else o)
    AreNeighbours-step true base target fs n o h = (0, omega arith, refl, refl)
    AreNeighbours-step false base target fs n o h = AreNeighbours-cons target (base ∷ fs) n o h

    find_frames-AreNeighbours :
        (fs : List (KeyFrame D)) (n k : ℕ) (time : D)
        → k < 8
        → AreNeighbours (recent (blank d) fs 8 k (suc n)) n (find_frames d fs n k time)
    unfolding find_frames
    find_frames-AreNeighbours fs zero k time h = tt
    find_frames-AreNeighbours fs (suc n) k time h = rw (base_index_lem k h) (
        AreNeighbours-step _ (get_or fs (prev 8 k) (blank d)) (get_or fs k (blank d)) _ n _
          (find_frames-AreNeighbours fs n (prev 8 k) _ (prev_lt k h)))

    between_or_nan-Between :
        (fs : List (KeyFrame D)) (n : ℕ) (o : Option (KeyFrame D × KeyFrame D)) (t : D)
        → All HasFinite fs
        → HasFinite (blank d)
        → AreNeighbours fs n o
        → is_nan (between_or_nan d o t) ≡ false
        → (j : ℕ) × (j < n)
          × Between
              (get_or fs (suc j) (blank d)).value
              (get_or fs j (blank d)).value
              (between_or_nan d o t)
    between_or_nan-Between fs n none t a b h hr = absurd (ground (arith, laws.is_nan-nan))
    between_or_nan-Between fs n (some (base, target)) t a b (j, lt, et, eb) hr =
        let tf : HasFinite target = rw et (All-get_or HasFinite fs j (blank d) a b) in
        let bf : HasFinite base = rw eb (All-get_or HasFinite fs (suc j) (blank d) a b) in
        (j, lt, rw (← et, ← eb) (interpolate_between-Between base target t bf tf hr))

    AreNeighbours-guard :
        (p q : Bool) (fs : List (KeyFrame D)) (n : ℕ) (o : Option (KeyFrame D × KeyFrame D))
        → (p ≡ false → AreNeighbours fs n o)
        → AreNeighbours fs n (if p then none else if q then none else o)
    AreNeighbours-guard true q fs n o h = tt
    AreNeighbours-guard false true fs n o h = tt
    AreNeighbours-guard false false fs n o h = h refl

    -- the frames that `calculate` works with
    abbrev query_time : Interpolator D → D → D
    query_time i t =
        wrap_second d (d.sub (d.of_int (pos (latest_frame d i).timestamp_millis_part)) t)

    abbrev searched : Interpolator D → D → Option (KeyFrame D × KeyFrame D)
    searched i time = find_frames d i.frames (i.num_frames - 1) (latest_frame_index d i) time

    chosen_frames : (i : Interpolator D) (t : D) → Option (KeyFrame D × KeyFrame D)
    chosen_frames i t =
        if ltb i.num_frames 2
        then none
        else if d.lt (d.of_int (pos 499)) (query_time i t)
        then none
        else searched i (query_time i t)

    calculate_chosen :
        (i : Interpolator D) (t : D) → calculate d i t ≡ between_or_nan d (chosen_frames i t) t
    unfolding calculate chosen_frames
    calculate_chosen i t = ground arith

    searched-AreNeighbours :
        (i : Interpolator D) (time : D)
        → IsValid i
        → suc (i.num_frames - 1) ≡ i.num_frames
        → AreNeighbours (contents d i) (i.num_frames - 1) (searched i time)
    searched-AreNeighbours i time w whole = rw (latest_frame_index_lem d i w) (
        subst
          (λ n.
            AreNeighbours (recent (blank d) i.frames 8 (latest_index d i) n) (i.num_frames - 1)
              (find_frames d i.frames (i.num_frames - 1) (latest_index d i) time))
          whole
          (find_frames-AreNeighbours i.frames (i.num_frames - 1) (latest_index d i) time
            (omega arith)))

    chosen_frames-AreNeighbours :
        (i : Interpolator D) (t : D)
        → IsValid i
        → AreNeighbours (contents d i) (i.num_frames - 1) (chosen_frames i t)
    unfolding chosen_frames
    chosen_frames-AreNeighbours i t w =
        AreNeighbours-guard (ltb i.num_frames 2) (d.lt (d.of_int (pos 499)) (query_time i t))
          (contents d i) (i.num_frames - 1) (searched i (query_time i t))
          (λ enough. searched-AreNeighbours i (query_time i t) w (ground arith))

    -- `interpolator_calculate` returns NaN or a number that lies between the values of two
    -- neighbouring frames, at any time asked for, if the ring is valid and holds finite values.
    pub calculate-Between :
        (i : Interpolator D) (t : D)
        → IsValid i
        → All HasFinite i.frames
        → (is_nan (calculate d i t) ≡ true)
          ⊎ ((j : ℕ) × (suc j < i.num_frames)
              × Between
                  (get_or (contents d i) (suc j) (blank d)).value
                  (get_or (contents d i) j (blank d)).value
                  (calculate d i t))
    calculate-Between i t w h =
        rw (calculate_chosen i t)
          (elim (Bool-cases (is_nan (between_or_nan d (chosen_frames i t) t))) [
            | inl none_found ↦ inl none_found
            | inr number ↦
                let (j, lt, btw) =
                  between_or_nan-Between (contents d i) (i.num_frames - 1) (chosen_frames i t) t
                    (recent-All (blank d) 8 HasFinite i.frames (latest_index d i) i.num_frames h
                      laws.finite_zero)
                    laws.finite_zero (chosen_frames-AreNeighbours i t w) number in
                inr (j, omega arith, btw)
          ])
