-- ===== src/Plugin/History/Window.antt =====
-- What the search for an old frame is meant to find: the frames with their ages, newest first, and
-- the oldest of them whose age lies in a window.
use psx_xp_mover.Base.{
  ℕ, ◌+◌, ◌-◌, ◌%◌, ◌<◌, ◌≡◌, refl, arith, ◌&&◌, Option, none, some, List, [], ◌∷◌, leb,
  if◌then◌else◌,
}
use psx_xp_mover.Base.Int.{ℤ, pos, pos_part, neg_part}
use psx_xp_mover.Psx.Frame.{BoostFrame}

abbrev pub or_else {ℓ} : {A : Type ℓ} → Option A → Option A → Option A
or_else (some a) o = some a
or_else none o = o

module _ {V : Type 0} where
  -- the timestamp is a millisecond part
  abbrev pub InSecond : BoostFrame V → Type 0
  InSecond f = (neg_part f.timestamp_millis_part ≡ 0) × (pos_part f.timestamp_millis_part < 1000)

  -- the milliseconds from a frame to a later millisecond part
  abbrev pub gap : ℕ → BoostFrame V → ℕ
  gap reference f = (reference + 1000 - pos_part f.timestamp_millis_part) % 1000

  -- The frames with their ages: the gaps add up, going back in time.
  abbrev pub aged : ℕ → ℕ → List (BoostFrame V) → List (BoostFrame V × ℕ)
  aged age reference [] = []
  aged age reference (f ∷ fs) =
      (f, age + gap reference f)
      ∷ aged (age + gap reference f) (pos_part f.timestamp_millis_part) fs

  module _ (lo hi : ℕ) where
    abbrev pub if_in_window : BoostFrame V → ℕ → Option (BoostFrame V × ℤ)
    if_in_window f age = if leb lo age && leb age hi then some (f, pos age) else none

    abbrev pub oldest_in_window : List (BoostFrame V × ℕ) → Option (BoostFrame V × ℤ)
    oldest_in_window [] = none
    oldest_in_window ((f, age) ∷ fs) = or_else (oldest_in_window fs) (if_in_window f age)

    -- Once a frame is too old, so are all behind it.
    pub oldest_in_window_past :
        (fs : List (BoostFrame V)) (age reference : ℕ)
        → hi < age
        → oldest_in_window (aged age reference fs) ≡ none
    oldest_in_window_past [] age reference h = refl
    oldest_in_window_past (f ∷ fs) age reference h = ground (
      arith,
      oldest_in_window_past fs (age + gap reference f) (pos_part f.timestamp_millis_part)
          (omega arith),
    )
