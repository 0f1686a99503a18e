-- ===== src/Plugin/History/Refine.antt =====
-- The search over the array is the search over the list of the recorded frames.
use native.Mathlib.Numerals.{add-one}
use psx_xp_mover.Base.{
  ℕ, zero, suc, ◌+◌, ◌-◌, ◌≤◌, ◌<◌, ◌≡◌, refl, sym, ap, ◌∙◌, arith, true, false, Option, none, some,
  List, ◌∷◌, ltb, ltb→lt, ◌==◌, Bool-cases, inl, inr, if◌then◌else◌, All, All-get_or, All-set,
  length, length-set, get_or, take, take_all,
}
use psx_xp_mover.Base.Int.{ℤ, pos, pos_part, ◌+ℤ◌, ltb_ℤ}
use psx_xp_mover.Base.Ring.{prev, recent, length-recent, recent-set_next, take-recent}
use psx_xp_mover.Psx.Frame.{BoostFrame}
use psx_xp_mover.Plugin.History.{
  History, Search, frame_diff_millis, visit, search, first_search, with_age, choose,
  record_boost_frame, find_previous_boost_frame_by_age,
}
use psx_xp_mover.Plugin.History.Window.{
  InSecond, gap, aged, or_else, if_in_window, oldest_in_window, oldest_in_window_past,
}

pos_plus : (a b : ℕ) → pos a +ℤ pos b ≡ pos (a + b)
unfolding ◌+ℤ◌
pos_plus a b = ground arith

or_else_assoc {ℓ} :
    {A : Type ℓ} (a b c : Option A) → or_else (or_else a b) c ≡ or_else a (or_else b c)
or_else_assoc none b c = refl
or_else_assoc (some a) b c = refl

or_else-none {ℓ} : {A : Type ℓ} (a : Option A) → or_else a none ≡ a
or_else-none none = refl
or_else-none (some a) = refl

frame_diff_lem :
    {V : Type 0} (reference : ℕ) (f : BoostFrame V)
    → reference < 1000
    → InSecond f
    → frame_diff_millis (pos reference) f.timestamp_millis_part ≡ some (pos (gap reference f))
unfolding frame_diff_millis
frame_diff_lem reference f h t = ground arith

module _ {V : Type 0} where
  pub record IsValid (h : History V) : Type 0 where
    pub storage : length h.frames ≡ 154
    pub index_in : h.index < 154
    pub num_in : h.num ≤ 154
    pub times_in : All InSecond h.frames

  -- Recording a frame with a millisecond part keeps the array valid.
  pub record-IsValid :
      (h : History V) (f : BoostFrame V) → IsValid h → InSecond f → IsValid (record_boost_frame h f)
  unfolding record_boost_frame
  record-IsValid h f w t = record {
    storage = length-set h.frames _ f ∙ w.storage;
    index_in = omega arith;
    num_in = ground (arith, w.num_in);
    times_in = All-set InSecond h.frames _ f w.times_in t;
  }

module _ {V : Type 0} (empty : BoostFrame V) where
  -- the recorded frames, newest first
  abbrev pub contents : History V → List (BoostFrame V)
  contents h = recent empty h.frames 154 h.index h.num

  module _ (frames : List (BoostFrame V)) (lo hi : ℕ) where
    -- what the loop knows of its variables, at a frame of this age
    record Knows (s : Search V) (age reference : ℕ) : Type 0 where
      at_in : s.at < 154
      age_is : s.current_frame_age_millis ≡ pos age
      reference_is : s.reference_millis_part ≡ pos reference
      reference_in : reference < 1000
      not_old : s.is_current_frame_too_old ≡ false
      young_before : s.is_current_frame_too_young ≡ true → s.is_previous_frame_too_young ≡ true
      young_at_first : s.current_frame ≡ none → s.is_current_frame_too_young ≡ true
      old_enough : s.is_current_frame_too_young ≡ false → lo ≤ age

    -- the frame that is returned if no older one is found
    abbrev candidate : Search V → Option (BoostFrame V × ℤ)
    candidate s =
        if s.is_current_frame_too_young
        then none
        else with_age s.current_frame s.current_frame_age_millis

    abbrev next : Search V → ℕ → ℕ → Search V
    next s age reference =
        let f = get_or frames s.at empty in
        visit empty frames (pos lo) (pos hi) s f (pos (age + gap reference f))

    search_step :
        (n : ℕ) (s : Search V) (age reference : ℕ)
        → Knows s age reference
        → InSecond (get_or frames s.at empty)
        → search empty frames (pos lo) (pos hi) (suc n) s ≡ (
            if ltb_ℤ (pos hi) (pos (age + gap reference (get_or frames s.at empty)))
            then some (next s age reference)
            else search empty frames (pos lo) (pos hi) n (next s age reference))
    unfolding search
    search_step n s age reference k t =
        rw
          (
            k.reference_is,
            frame_diff_lem reference (get_or frames s.at empty) k.reference_in t,
            search,
          )
          (rw (k.age_is, pos_plus) refl)

    next-Knows :
        (s : Search V) (age reference : ℕ)
        → Knows s age reference
        → InSecond (get_or frames s.at empty)
        → ltb_ℤ (pos hi) (pos (age + gap reference (get_or frames s.at empty))) ≡ false
        → Knows
            (next s age reference)
            (age + gap reference (get_or frames s.at empty))
            (pos_part (get_or frames s.at empty).timestamp_millis_part)
    unfolding visit
    next-Knows s age reference k t young_enough = record {
      at_in = ground (arith, k.at_in);
      age_is = refl;
      reference_is = ground (arith, t.0);
      reference_in = t.1;
      not_old = young_enough;
      young_before = λ y. ground (arith, k.old_enough);
      young_at_first = λ e. cc;
      old_enough = λ y. ground arith;
    }

    at-visit : (i : ℕ) → (if i == 0 then 154 - 1 else i - 1) ≡ prev 154 i
    at-visit zero = refl
    at-visit (suc i) = ground arith

    at-next : (s : Search V) (age reference : ℕ) → (next s age reference).at ≡ prev 154 s.at
    unfolding visit
    at-next s age reference = at-visit s.at

    -- the frames from here on
    abbrev ahead : ℕ → ℕ → List (BoostFrame V)
    ahead i n = recent empty frames 154 i n

    abbrev found : ℕ → Search V → Option (BoostFrame V × ℤ)
    found n s = choose (search empty frames (pos lo) (pos hi) n s)

    found-zero :
        (s : Search V) (age reference : ℕ) → Knows s age reference → found zero s ≡ candidate s
    unfolding search choose
    found-zero s age reference k = ground (arith, k.young_before, k.young_at_first, k.not_old)

    found_old :
        (s : Search V) (age reference : ℕ)
        → Knows s age reference
        → ltb_ℤ (pos hi) (pos (age + gap reference (get_or frames s.at empty))) ≡ true
        → choose (some (next s age reference)) ≡ candidate s
    unfolding visit choose
    found_old s age reference k old = ground arith

    candidate-next :
        (s : Search V) (age reference : ℕ)
        → Knows s age reference
        → ltb_ℤ (pos hi) (pos (age + gap reference (get_or frames s.at empty))) ≡ false
        → or_else
            (if_in_window lo hi
              (get_or frames s.at empty)
              (age + gap reference (get_or frames s.at empty)))
            (candidate s)
          ≡ candidate (next s age reference)
    unfolding visit
    candidate-next s age reference k young_enough = ground (arith, k.old_enough)

    found-oldest :
        (n : ℕ) (s : Search V) (age reference : ℕ)
        → All InSecond frames
        → InSecond empty
        → Knows s age reference
        → found n s
          ≡ or_else (oldest_in_window lo hi (aged age reference (ahead s.at n))) (candidate s)
    found-oldest zero s age reference a e k = found-zero s age reference k
    found-oldest (suc n) s age reference a e k =
        let f = get_or frames s.at empty in
        let f_in = All-get_or InSecond frames s.at empty a e in
        let age' = age + gap reference f in
        let before = pos_part f.timestamp_millis_part in
        rw (search_step n s age reference k f_in) (elim (Bool-cases (ltb_ℤ (pos hi) (pos age'))) [
          | inl old ↦
              rw (old, found_old s age reference k old)
                (rw
                  (oldest_in_window_past lo hi (ahead (prev 154 s.at) n) age' before (ground arith))
                  (ground arith))
          | inr young_enough ↦ rw (young_enough) (
              found-oldest n (next s age reference) age' before a e
                (next-Knows s age reference k f_in young_enough)
              ∙ rw (at-next s age reference, ← candidate-next s age reference k young_enough)
                  (sym (
                    or_else_assoc
                      (oldest_in_window lo hi (aged age' before (ahead (prev 154 s.at) n)))
                      (if_in_window lo hi f age') (candidate s))))
        ])

  first_search-Knows :
      (h : History V) (lo hi reference : ℕ)
      → IsValid h
      → reference < 1000
      → Knows h.frames lo hi (first_search h (pos reference)) 0 reference
  first_search-Knows h lo hi reference w r = record {
    at_in = w.index_in;
    age_is = refl;
    reference_is = refl;
    reference_in = r;
    not_old = refl;
    young_before = λ _. refl;
    young_at_first = λ _. refl;
    old_enough = λ y. cc;
  }

  -- The search returns the oldest recorded frame whose age lies in the window, with its age, and
  -- NULL if there is none: for a valid array and times that are millisecond parts.
  pub find_refines :
      (h : History V) (reference lo hi : ℕ)
      → IsValid h
      → InSecond empty
      → reference < 1000
      → find_previous_boost_frame_by_age empty h (pos reference) (pos lo) (pos hi)
        ≡ oldest_in_window lo hi (aged 0 reference (contents h))
  unfolding find_previous_boost_frame_by_age
  find_refines h reference lo hi w e r =
      found-oldest h.frames lo hi h.num (first_search h (pos reference)) 0 reference w.times_in e
        (first_search-Knows h lo hi reference w r)
      ∙ or_else-none _

  -- Recording puts the frame in front, and keeps the 154 latest ones.
  pub record_refines :
      (h : History V) (f : BoostFrame V)
      → IsValid h
      → contents (record_boost_frame h f) ≡ take 154 (f ∷ contents h)
  unfolding record_boost_frame
  record_refines h f w = elim (Bool-cases (ltb h.num 154)) [
    | inl room ↦
        rw (room, add-one h.num)
          (recent-set_next empty 154 h.frames h.index _ f h.num (omega (arith, w.storage))
              w.index_in refl (ground arith)
            ∙ ap (◌∷◌ f) (
                sym (
                  take_all 153 (contents h) (
                    omega (
                      arith,
                      length-recent empty 154 h.frames h.index h.num,
                      ltb→lt h.num 154 room,
                    )))))
    | inr full ↦
        let num_is : h.num ≡ 154 = ground (arith, w.num_in) in
        rw (full, num_is)
          (recent-set_next empty 154 h.frames h.index _ f 153 (omega (arith, w.storage)) w.index_in
              refl (omega arith)
            ∙ ap (◌∷◌ f) (sym (take-recent empty 154 h.frames h.index 153 154 (omega arith))))
  ]
