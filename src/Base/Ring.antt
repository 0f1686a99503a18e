-- ===== src/Base/Ring.antt =====
-- Arrays written round and round: what the last `n` writes left, newest first, when index `i` was
-- written last and the storage has `cap` places.
use native.Mathlib.Nat.{mod-eq_of_lt, mod_self}
use psx_xp_mover.Base.{
  ℕ, zero, suc, ◌+◌, ◌-◌, ◌%◌, ◌≤◌, ◌<◌, ◌≡◌, refl, ap, ap₂, arith, leb, take, dec_lt, ◌∙◌,
  if◌then◌else◌, List, [], ◌∷◌, get_or, All, All-get_or, set, length, get_or-set_self,
  get_or-set_ne,
}

-- the index before `i`
abbrev pub prev : ℕ → ℕ → ℕ
prev cap zero = cap - 1
prev cap (suc i) = i

-- how many steps back from `i` lead to `j`
abbrev steps_back : ℕ → ℕ → ℕ → ℕ
steps_back cap i j = if leb j i then i - j else i + cap - j

module _ {ℓ} {A : Type ℓ} (d : A) (buf : List A) (cap : ℕ) where
  abbrev pub recent : ℕ → ℕ → List A
  recent i zero = []
  recent i (suc n) = get_or buf i d ∷ recent (prev cap i) n

module _ {ℓ} {A : Type ℓ} (d : A) (cap : ℕ) where
  pub length-recent : (buf : List A) (i n : ℕ) → length (recent d buf cap i n) ≡ n
  length-recent buf i zero = refl
  length-recent buf i (suc n) = ap suc (length-recent buf (prev cap i) n)

  recent-set_other :
      (buf : List A) (j : ℕ) (x : A) (n i : ℕ)
      → i < cap
      → j < cap
      → n ≤ steps_back cap i j
      → recent d (set buf j x) cap i n ≡ recent d buf cap i n
  recent-set_other buf j x zero i hi hj h = refl
  recent-set_other buf j x (suc n) zero hi hj h =
      ap₂ ◌∷◌ (get_or-set_ne buf x d (ground arith))
        (recent-set_other buf j x n (cap - 1) (omega arith) hj (ground arith))
  recent-set_other buf j x (suc n) (suc i) hi hj h =
      ap₂ ◌∷◌ (get_or-set_ne buf x d (ground arith))
        (recent-set_other buf j x n i (omega arith) hj (ground arith))

  recent_step :
      (buf : List A) (i j : ℕ) (x : A) (n : ℕ)
      → cap ≤ length buf
      → i < cap
      → j < cap
      → prev cap j ≡ i
      → n < cap
      → recent d (set buf j x) cap j (suc n) ≡ x ∷ recent d buf cap i n
  recent_step buf i j x n hs hi hj e hn =
      ap₂ ◌∷◌ (get_or-set_self buf j x d (omega arith))
        (rw e (recent-set_other buf j x n i hi hj (steps_of_prev j e)))
    where
      steps_of_prev : (k : ℕ) → prev cap k ≡ i → n ≤ steps_back cap i k
      steps_of_prev zero e = ground arith
      steps_of_prev (suc k) e = ground arith

  -- A write one place further on puts `x` in front of what was recent.
  pub recent-set_next :
      (buf : List A) (i j : ℕ) (x : A) (n : ℕ)
      → cap ≤ length buf
      → i < cap
      → j ≡ (i + 1) % cap
      → n < cap
      → recent d (set buf j x) cap j (suc n) ≡ x ∷ recent d buf cap i n
  recent-set_next buf i j x n hs hi e hn = elim (dec_lt (i + 1) cap) [
    | yes p ↦
        let e' : j ≡ suc i = omega (arith, mod-eq_of_lt p) in
        recent_step buf i j x n hs hi (omega arith) (rw e') hn
    | no p ↦
        let full : i + 1 ≡ cap = omega arith in
        let e' : j ≡ 0 = e ∙ rw full (mod_self cap) in
        recent_step buf i j x n hs hi (omega arith) (rw e' (omega arith)) hn
  ]

  pub take-recent :
      (buf : List A) (i k n : ℕ) → k ≤ n → take k (recent d buf cap i n) ≡ recent d buf cap i k
  take-recent buf i zero n h = refl
  take-recent buf i (suc k) zero h = absurd (omega arith)
  take-recent buf i (suc k) (suc n) h =
      ap (◌∷◌ (get_or buf i d)) (take-recent buf (prev cap i) k n (omega arith))

  pub recent-All {κ} :
      (P : A → Type κ) (buf : List A) (i n : ℕ) → All P buf → P d → All P (recent d buf cap i n)
  recent-All P buf i zero a h = tt
  recent-All P buf i (suc n) a h = (All-get_or P buf i d a h, recent-All P buf (prev cap i) n a h)
