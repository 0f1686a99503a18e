-- ===== src/Plugin/History.antt =====
-- src/plugin.c: the boost frames of the last seconds (`previous_boost_frames`), and the search for
-- one of a given age, by which the ground speed is calculated.
pub mod Refine
pub mod Window
mod Tests
use psx_xp_mover.Base.{
  ℕ, zero, suc, ◌+◌, ◌-◌, ◌*◌, ◌%◌, Bool, true, false, not, ◌&&◌, ◌||◌, Option, none, some, List,
  set, get_or, ltb, ◌==◌, is_some, if◌then◌else◌,
}
use psx_xp_mover.Base.Int.{ℤ, pos, ◌+ℤ◌, ◌-ℤ◌, ltb_ℤ, leb_ℤ}
use psx_xp_mover.Psx.Frame.{BoostFrame}

-- `PSX_MAX_FPS`
abbrev pub psx_max_fps : ℕ
psx_max_fps = 77

-- `MAX_NUM_PREVIOUS_BOOST_FRAMES`
abbrev pub max_frames : ℕ
max_frames = 2 * psx_max_fps

-- `previous_boost_frames` with its index and count
pub record History (V : Type 0) : Type 0 where
  pub index : ℕ
  pub num : ℕ
  pub frames : List (BoostFrame V)

-- the variables of the search's loop
pub record Search (V : Type 0) : Type 0 where
  pub at : ℕ
  pub reference_millis_part : ℤ
  pub current_frame : Option (BoostFrame V)
  pub previous_frame : Option (BoostFrame V)
  pub current_frame_age_millis : ℤ
  pub previous_frame_age_millis : ℤ
  pub is_current_frame_too_young : Bool
  pub is_previous_frame_too_young : Bool
  pub is_current_frame_too_old : Bool

-- `frame_diff_millis`: `none` if it is 1000 or more.
unfoldable pub frame_diff_millis : ℤ → ℤ → Option ℤ
unfolding ◌+ℤ◌ ◌-ℤ◌
frame_diff_millis reference timestamp =
    let diff = reference -ℤ timestamp in
    if ltb_ℤ diff (pos 0)
    then some (diff +ℤ pos 1000)
    else if leb_ℤ (pos 1000) diff
    then none
    else some diff

module _ {V : Type 0} where
  unfoldable pub record_boost_frame : History V → BoostFrame V → History V
  record_boost_frame h frame =
      let index = (h.index + 1) % max_frames in
      record {
        index = index;
        num = if ltb h.num max_frames then h.num + 1 else h.num;
        frames = set h.frames index frame;
      }

  abbrev pub clear_previous_boost_frames : History V → History V
  clear_previous_boost_frames h = record h { num = 0 }

  module _ (empty : BoostFrame V) (frames : List (BoostFrame V)) (minimum maximum : ℤ) where
    -- one round, behind the check of the difference, with the age of the frame
    unfoldable pub visit : Search V → BoostFrame V → ℤ → Search V
    visit s frame age = record {
      at = if s.at == 0 then max_frames - 1 else s.at - 1;
      reference_millis_part = frame.timestamp_millis_part;
      current_frame = some frame;
      previous_frame = s.current_frame;
      current_frame_age_millis = age;
      previous_frame_age_millis = s.current_frame_age_millis;
      is_current_frame_too_young = ltb_ℤ age minimum;
      is_previous_frame_too_young = s.is_current_frame_too_young;
      is_current_frame_too_old = ltb_ℤ maximum age;
    }

    -- The loop over the frames that are left; `none` where it returns NULL for a bad difference.
    unfoldable pub search : ℕ → Search V → Option (Search V)
    unfolding visit frame_diff_millis ◌+ℤ◌
    search zero s = some s
    search (suc n) s =
        let frame = get_or frames s.at empty in
        elim (frame_diff_millis s.reference_millis_part frame.timestamp_millis_part) [
          | none ↦ none
          | some diff ↦
              let s' = visit s frame (s.current_frame_age_millis +ℤ diff) in
              let rest = search n s' in if s'.is_current_frame_too_old then some s' else rest
        ]

  -- a frame and what is stored through `actual_age_millis`
  abbrev pub with_age : Option (BoostFrame V) → ℤ → Option (BoostFrame V × ℤ)
  with_age none age = none
  with_age (some frame) age = some (frame, age)

  -- the choice behind the loop
  unfoldable pub choose : Option (Search V) → Option (BoostFrame V × ℤ)
  choose none = none
  choose (some s) =
      if is_some s.current_frame && not (s.is_current_frame_too_young || s.is_current_frame_too_old)
      then with_age s.current_frame s.current_frame_age_millis
      else if not s.is_previous_frame_too_young
      then with_age s.previous_frame s.previous_frame_age_millis
      else none

  abbrev pub first_search : History V → ℤ → Search V
  first_search h reference = record {
    at = h.index;
    reference_millis_part = reference;
    current_frame = none;
    previous_frame = none;
    current_frame_age_millis = pos 0;
    previous_frame_age_millis = pos 0;
    is_current_frame_too_young = true;
    is_previous_frame_too_young = true;
    is_current_frame_too_old = false;
  }

  unfoldable pub find_previous_boost_frame_by_age :
      BoostFrame V → History V → ℤ → ℤ → ℤ → Option (BoostFrame V × ℤ)
  unfolding search choose
  find_previous_boost_frame_by_age empty h reference minimum maximum =
      choose (search empty h.frames minimum maximum h.num (first_search h reference))
