-- ===== src/Plugin/Receive/Aligned.antt =====
-- Two interpolators of src/interpolation.c that are given points for the same times.
use mathlib.Core.Path.{subst}
use psx_xp_mover.Base.{
  ℕ, zero, suc, ◌≡◌, refl, ap, Bool, true, false, not, List, [], ◌∷◌, map, set, get_or, leb, ◌+◌,
  ◌==◌, if◌then◌else◌,
}
use psx_xp_mover.Base.Int.{ℤ, pos}
use psx_xp_mover.Double.{Double}
use psx_xp_mover.Interpolation.{
  KeyFrame, Interpolator, latest_frame, latest_frame_index, maintain, insert_frame, add_point,
  millis_since, ilimit, ifloor, write_frame,
}

module _ {V : Type 0} where
  abbrev pub time_of : KeyFrame V → ℕ
  time_of f = f.timestamp_millis_part

  -- The same places, filled with the same times.
  pub record IsAligned (i j : Interpolator V) : Type 0 where
    pub same_start : i.frames_start ≡ j.frames_start
    pub same_num : i.num_frames ≡ j.num_frames
    pub same_times : map time_of i.frames ≡ map time_of j.frames

  time_of-get_or :
      (fs : List (KeyFrame V)) (k : ℕ) (e : KeyFrame V)
      → time_of (get_or fs k e) ≡ get_or (map time_of fs) k (time_of e)
  time_of-get_or [] k e = refl
  time_of-get_or (f ∷ fs) zero e = refl
  time_of-get_or (f ∷ fs) (suc k) e = time_of-get_or fs k e

  times-set :
      (fs : List (KeyFrame V)) (k : ℕ) (f : KeyFrame V)
      → map time_of (set fs k f) ≡ set (map time_of fs) k (time_of f)
  times-set [] k f = refl
  times-set (g ∷ fs) zero f = refl
  times-set (g ∷ fs) (suc k) f = ap (λ ts. time_of g ∷ ts) (times-set fs k f)

  -- Two choices by equal tests.
  choice-IsAligned :
      {i j i' j' : Interpolator V} (b : Bool) {c : Bool}
      → b ≡ c
      → IsAligned i j
      → IsAligned i' j'
      → IsAligned (if b then i else i') (if c then j else j')
  choice-IsAligned {i} {j} {i'} {j'} b e v w =
      subst (λ c. IsAligned (if b then i else i') (if c then j else j')) e (chosen b)
    where
      chosen : (b : Bool) → IsAligned (if b then i else i') (if b then j else j')
      chosen true = v
      chosen false = w

module _ (d : Double) where
  open d use {D, of_int, is_finite}

  latest-IsAligned :
      (i j : Interpolator D)
      → IsAligned i j
      → time_of (latest_frame d i) ≡ time_of (latest_frame d j)
  unfolding latest_frame_index
  latest-IsAligned i j w =
      rw (time_of-get_or, time_of-get_or, w.same_start, w.same_num, w.same_times) refl

  millis_since_same :
      (now : ℤ) (f g : KeyFrame D)
      → time_of f ≡ time_of g
      → millis_since d now f ≡ millis_since d now g
  unfolding millis_since
  millis_since_same now f g e = rw e refl

  pub reset-IsAligned :
      {i j : Interpolator D}
      → IsAligned i j
      → IsAligned (record i { num_frames = 0 }) (record j { num_frames = 0 })
  reset-IsAligned w = record {
    same_start = w.same_start;
    same_num = refl;
    same_times = w.same_times;
  }

  maintain-IsAligned :
      (i j : Interpolator D) (t : D) → IsAligned i j → IsAligned (maintain d i t) (maintain d j t)
  unfolding maintain
  maintain-IsAligned i j t w =
      let since =
        millis_since_same (ilimit (ifloor d t) (pos 0) (pos 999)) (latest_frame d i)
          (latest_frame d j) (latest-IsAligned i j w) in
      choice-IsAligned _ (ap (λ n. n == 0) w.same_num) w (
        choice-IsAligned _ (rw since refl) (reset-IsAligned w)
          (choice-IsAligned _ (rw since refl) (reset-IsAligned w) w))

  -- What a new frame writes, at the same place and for the same time.
  write-IsAligned :
      {i j : Interpolator D} {start start' num num' index index' : ℕ} (t : ℕ) (v w : D)
      → IsAligned i j
      → start ≡ start'
      → num ≡ num'
      → index ≡ index'
      → IsAligned (write_frame d i start num index t v) (write_frame d j start' num' index' t w)
  write-IsAligned {i} {j} {index} t v w a s n e = record {
    same_start = s;
    same_num = n;
    same_times = rw (times-set i.frames, times-set j.frames, a.same_times, e) refl;
  }

  insert_frame-IsAligned :
      (i j : Interpolator D) (t : ℕ) (v w : D)
      → IsAligned i j
      → IsAligned (insert_frame d i t v) (insert_frame d j t w)
  unfolding insert_frame
  insert_frame-IsAligned i j t v w a =
      choice-IsAligned _ (ap (λ n. n == 0) a.same_num)
        (write-IsAligned t v w a a.same_start refl (rw a.same_start refl))
        (choice-IsAligned _ (ap (λ n. n == t) (latest-IsAligned i j a)) a (
          choice-IsAligned _ (ap (leb 8) a.same_num)
            (write-IsAligned t v w a (rw a.same_start refl) refl (rw a.same_start refl))
            (write-IsAligned t v w a a.same_start (ap (λ n. n + 1) a.same_num)
              (rw (a.same_start, a.same_num) refl))))

  pub add_point-IsAligned :
      (i j : Interpolator D) (t : ℕ) (v w : D)
      → is_finite v ≡ is_finite w
      → IsAligned i j
      → IsAligned (add_point d i t v) (add_point d j t w)
  unfolding add_point
  add_point-IsAligned i j t v w e a =
      let a' = maintain-IsAligned i j (of_int (pos t)) a in
      choice-IsAligned _ (ap not e) a' (insert_frame-IsAligned _ _ t v w a')
