-- ===== src/Interpolation/Timeline.antt =====
-- What the interpolator is meant to keep: the key frames as a list, newest first, and times as
-- distances round the clock of 1000 milliseconds.
use psx_xp_mover.Base.{
  ℕ, zero, suc, ◌+◌, ◌-◌, ◌%◌, ◌<◌, ◌≡◌, ◌≢◌, Bool, List, [], ◌∷◌, Option, none, some, take, leb,
  ◌==◌, if◌then◌else◌, Bool-cases, inl, inr, true, false, refl, ap, arith, length, get_or,
}
use psx_xp_mover.Interpolation.{KeyFrame}

-- the time from `before` to `now`, both millisecond parts
abbrev pub elapsed : ℕ → ℕ → ℕ
elapsed now before = (now + 1000 - before) % 1000

elapsed_trans :
    (a b c age : ℕ)
    → a < 1000
    → b < 1000
    → c < 1000
    → elapsed b c ≡ age
    → elapsed a b + age < 1000
    → elapsed a c ≡ elapsed a b + age
elapsed_trans a b c age ha hb hc e h = omega arith

add_sub_left : (a b : ℕ) → a + b - a ≡ b
add_sub_left a b = omega arith

module _ {V : Type 0} where
  -- Nothing is kept once the latest frame is 499 ms old.
  abbrev pub keep : ℕ → List (KeyFrame V) → List (KeyFrame V)
  keep now [] = []
  keep now (f ∷ fs) = if leb 499 (elapsed now f.timestamp_millis_part) then [] else f ∷ fs

  -- A frame goes in front, unless the latest one has its time; eight are kept.
  abbrev pub extend : KeyFrame V → List (KeyFrame V) → List (KeyFrame V)
  extend new [] = new ∷ []
  extend new (f ∷ fs) =
      if f.timestamp_millis_part == new.timestamp_millis_part then f ∷ fs else take 8 (new ∷ f ∷ fs)

  -- A value that is not finite is dropped.
  abbrev pub record_point : Bool → KeyFrame V → List (KeyFrame V) → List (KeyFrame V)
  record_point finite new fs =
      let kept = keep new.timestamp_millis_part fs in if finite then extend new kept else kept

  -- Neighbours have different times below 1000.
  abbrev pub IsTimeline : List (KeyFrame V) → Type 0
  IsTimeline [] = Unit
  IsTimeline (f ∷ []) = f.timestamp_millis_part < 1000
  IsTimeline (f ∷ g ∷ fs) =
      (f.timestamp_millis_part < 1000)
      × (f.timestamp_millis_part ≢ g.timestamp_millis_part)
      × IsTimeline (g ∷ fs)

  -- The neighbours whose times enclose the time `ago` milliseconds before the first frame, as
  -- base and target.
  abbrev pub enclosing : List (KeyFrame V) → ℕ → Option (KeyFrame V × KeyFrame V)
  enclosing [] ago = none
  enclosing (f ∷ []) ago = none
  enclosing (f ∷ g ∷ fs) ago =
      let gap = elapsed f.timestamp_millis_part g.timestamp_millis_part in
      if leb ago gap then some (g, f) else enclosing (g ∷ fs) (ago - gap)

  -- The neighbours for a time, unless it is more than 499 ms before the latest frame.
  abbrev pub frames_for : List (KeyFrame V) → ℕ → Option (KeyFrame V × KeyFrame V)
  frames_for [] t = none
  frames_for (f ∷ fs) t =
      let ago = elapsed f.timestamp_millis_part t in
      if leb ago 499 then enclosing (f ∷ fs) ago else none

  -- how long before the first frame the frame at an index is
  abbrev pub age_at : List (KeyFrame V) → ℕ → ℕ
  age_at [] k = 0
  age_at (f ∷ []) k = 0
  age_at (f ∷ g ∷ fs) zero = 0
  age_at (f ∷ g ∷ fs) (suc k) =
      elapsed f.timestamp_millis_part g.timestamp_millis_part + age_at (g ∷ fs) k

  IsTimeline-take : (n : ℕ) (fs : List (KeyFrame V)) → IsTimeline fs → IsTimeline (take n fs)
  IsTimeline-take zero fs h = tt
  IsTimeline-take (suc n) [] h = tt
  IsTimeline-take (suc zero) (f ∷ []) h = h
  IsTimeline-take (suc (suc n)) (f ∷ []) h = h
  IsTimeline-take (suc zero) (f ∷ g ∷ fs) h = h.0
  IsTimeline-take (suc (suc n)) (f ∷ g ∷ fs) h = (h.0, h.1, IsTimeline-take (suc n) (g ∷ fs) h.2)

  keep-IsTimeline : (now : ℕ) (fs : List (KeyFrame V)) → IsTimeline fs → IsTimeline (keep now fs)
  keep-IsTimeline now [] h = tt
  keep-IsTimeline now (f ∷ fs) h =
      elim (Bool-cases (leb 499 (elapsed now f.timestamp_millis_part))) [
        | inl stale ↦ rw stale tt
        | inr fresh ↦ rw fresh h
      ]

  extend-IsTimeline :
      (new : KeyFrame V) (fs : List (KeyFrame V))
      → new.timestamp_millis_part < 1000
      → IsTimeline fs
      → IsTimeline (extend new fs)
  extend-IsTimeline new [] h w = h
  extend-IsTimeline new (f ∷ fs) h w =
      elim (Bool-cases (f.timestamp_millis_part == new.timestamp_millis_part)) [
        | inl same ↦ rw same w
        | inr newer ↦ rw newer (IsTimeline-take 8 (new ∷ f ∷ fs) (h, ground arith, w))
      ]

  -- Recording keeps neighbours at different times.
  pub record_point-IsTimeline :
      (finite : Bool) (new : KeyFrame V) (fs : List (KeyFrame V))
      → new.timestamp_millis_part < 1000
      → IsTimeline fs
      → IsTimeline (record_point finite new fs)
  record_point-IsTimeline true new fs h w =
      extend-IsTimeline new (keep new.timestamp_millis_part fs) h
        (keep-IsTimeline new.timestamp_millis_part fs w)
  record_point-IsTimeline false new fs h w = keep-IsTimeline new.timestamp_millis_part fs w

  first_in_second :
      (f : KeyFrame V) (fs : List (KeyFrame V))
      → IsTimeline (f ∷ fs)
      → f.timestamp_millis_part < 1000
  first_in_second f [] h = h
  first_in_second f (g ∷ fs) h = h.0

  age_zero : (f : KeyFrame V) (fs : List (KeyFrame V)) → age_at (f ∷ fs) 0 ≡ 0
  age_zero f [] = refl
  age_zero f (g ∷ fs) = refl

  age_pos :
      (fs : List (KeyFrame V)) (f : KeyFrame V) (k : ℕ)
      → IsTimeline (f ∷ fs)
      → suc k < suc (length fs)
      → 0 < age_at (f ∷ fs) (suc k)
  age_pos [] f k w h = absurd (omega arith)
  age_pos (g ∷ fs) f k w h = let g_in = first_in_second g fs w.2 in omega (arith, w.0, w.1, g_in)

  module _ (e : KeyFrame V) where
    pub at_in_second :
        (fs : List (KeyFrame V)) (f : KeyFrame V) (k : ℕ)
        → IsTimeline (f ∷ fs)
        → k < suc (length fs)
        → (get_or (f ∷ fs) k e).timestamp_millis_part < 1000
    at_in_second fs f zero w h = first_in_second f fs w
    at_in_second [] f (suc k) w h = absurd (omega arith)
    at_in_second (g ∷ fs) f (suc k) w h = at_in_second fs g k w.2 (omega arith)

    -- an age below a second can be read off the clock
    pub elapsed_age :
        (fs : List (KeyFrame V)) (f : KeyFrame V) (k : ℕ)
        → IsTimeline (f ∷ fs)
        → k < suc (length fs)
        → age_at (f ∷ fs) k < 1000
        → elapsed f.timestamp_millis_part (get_or (f ∷ fs) k e).timestamp_millis_part
          ≡ age_at (f ∷ fs) k
    elapsed_age [] f zero w h a = omega (arith, w)
    elapsed_age [] f (suc k) w h a = absurd (omega arith)
    elapsed_age (g ∷ fs) f zero w h a = omega (arith, w.0)
    elapsed_age (g ∷ fs) f (suc k) w h a =
        elapsed_trans f.timestamp_millis_part g.timestamp_millis_part _ (age_at (g ∷ fs) k) w.0
          (first_in_second g fs w.2) (at_in_second fs g k w.2 (omega arith))
          (elapsed_age fs g k w.2 (omega arith) (omega arith)) a

    -- The neighbours that enclose the time of the frame at `k + 1` are that frame and the one at `k`.
    pub enclosing_age :
        (fs : List (KeyFrame V)) (f : KeyFrame V) (k : ℕ)
        → IsTimeline (f ∷ fs)
        → suc k < suc (length fs)
        → enclosing (f ∷ fs) (age_at (f ∷ fs) (suc k))
          ≡ some (get_or (f ∷ fs) (suc k) e, get_or (f ∷ fs) k e)
    enclosing_age [] f k w h = absurd (omega arith)
    enclosing_age (g ∷ fs) f zero w h = ground (arith, age_zero g fs)
    enclosing_age (g ∷ fs) f (suc k) w h = ground (
      arith,
      age_pos fs g k w.2 (omega arith),
      ap (enclosing (g ∷ fs)) (
          add_sub_left (elapsed f.timestamp_millis_part g.timestamp_millis_part)
            (age_at (g ∷ fs) (suc k))),
      enclosing_age fs g k w.2 (omega arith),
    )
