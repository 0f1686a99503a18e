-- ===== src/Plugin/Registration/Counts.antt =====
-- How often an accessor is registered, unregistered and held, and how assignments change that.
use mathlib.Core.Logic.{ite, if_pos, if_neg}
use mathlib.Core.Path.{subst}
use psx_xp_mover.Base.{
  ℕ, ◌+◌, ◌≡◌, ◌≢◌, refl, sym, ap, ap₂, ◌∙◌, arith, Option, none, some, List, [], ◌∷◌, All,
  if◌then◌else◌, ◌==◌,
}
use psx_xp_mover.Plugin.Registration.{
  Provided, Provided-discrete, Call, register_accessor, send_message, unregister_accessor, assign,
}

-- how often an accessor is a given one
abbrev pub hits : ℕ → Option ℕ → ℕ
hits h none = 0
hits h (some k) = if k == h then 1 else 0

-- how often an accessor has been returned by a registration, and given back
abbrev pub registrations : ℕ → List Call → ℕ
registrations h [] = 0
registrations h (register_accessor name t reading writing v ∷ cs) = hits h v + registrations h cs
registrations h (send_message id name ∷ cs) = registrations h cs
registrations h (unregister_accessor v ∷ cs) = registrations h cs

abbrev pub unregistrations : ℕ → List Call → ℕ
unregistrations h [] = 0
unregistrations h (register_accessor name t reading writing v ∷ cs) = unregistrations h cs
unregistrations h (send_message id name ∷ cs) = unregistrations h cs
unregistrations h (unregister_accessor v ∷ cs) = hits h v + unregistrations h cs

-- how many of the variables hold an accessor
abbrev pub held : ℕ → List Provided → (Provided → Option ℕ) → ℕ
held h [] refs = 0
held h (p ∷ ps) refs = hits h (refs p) + held h ps refs

unfoldable pub occurs : Provided → List Provided → ℕ
occurs p [] = 0
occurs p (q ∷ qs) = ite (Provided-discrete q p) 1 0 + occurs p qs

pub assign_same : (p : Provided) (v : Option ℕ) (refs : Provided → Option ℕ) → assign p v refs p ≡ v
unfolding assign
assign_same p v refs = if_pos (Provided-discrete p p) refl v (refs p)

pub assign_other :
    (p q : Provided) (v : Option ℕ) (refs : Provided → Option ℕ)
    → q ≢ p
    → assign p v refs q ≡ refs q
unfolding assign
assign_other p q v refs n = if_neg (Provided-discrete q p) n v (refs q)

pub assign-none :
    (p q : Provided) (refs : Provided → Option ℕ) → refs q ≡ none → assign p none refs q ≡ none
assign-none p q refs e = elim (Provided-discrete q p) [
  | yes same ↦ subst (λ r. assign p none refs r ≡ none) (sym same) (assign_same p none refs)
  | no other ↦ assign_other p q none refs other ∙ e
]

-- An element that is in front is met there, and no more often than in the whole list.
pub occurs_self : (p : Provided) (ps : List Provided) → occurs p (p ∷ ps) ≡ 1 + occurs p ps
unfolding occurs
occurs_self p ps = ap (λ k. k + occurs p ps) (if_pos (Provided-discrete p p) refl 1 0)

pub occurs_other : (p q : Provided) (ps : List Provided) → q ≢ p → occurs p (q ∷ ps) ≡ occurs p ps
unfolding occurs
occurs_other p q ps n =
    ap (λ k. k + occurs p ps) (if_neg (Provided-discrete q p) n 1 0) ∙ omega arith

-- An assignment to a variable that is not among those, and to one that is among them once.
held-assign_other :
    (h : ℕ) (p : Provided) (v : Option ℕ) (refs : Provided → Option ℕ) (ps : List Provided)
    → occurs p ps ≡ 0
    → held h ps (assign p v refs) ≡ held h ps refs
held-assign_other h p v refs [] e = refl
held-assign_other h p v refs (q ∷ ps) e = elim (Provided-discrete q p) [
  | yes same ↦ absurd (
      omega
        (arith, e, subst (λ r. occurs p (r ∷ ps) ≡ 1 + occurs p ps) (sym same) (occurs_self p ps)))
  | no other ↦
      ap₂ ◌+◌ (ap (hits h) (assign_other p q v refs other))
        (held-assign_other h p v refs ps (sym (occurs_other p q ps other) ∙ e))
]

pub held-assign :
    (h : ℕ) (p : Provided) (v : Option ℕ) (refs : Provided → Option ℕ) (ps : List Provided)
    → occurs p ps ≡ 1
    → held h ps (assign p v refs) + hits h (refs p) ≡ held h ps refs + hits h v
unfolding occurs
held-assign h p v refs [] e = absurd (omega (arith, e))
held-assign h p v refs (q ∷ ps) e = elim (Provided-discrete q p) [
  | yes same ↦
      let once = subst (λ r. occurs p (r ∷ ps) ≡ 1 + occurs p ps) (sym same) (occurs_self p ps) in
      let rest = held-assign_other h p v refs ps (omega (arith, e, once)) in
      let here =
        ap (hits h) (subst (λ r. assign p v refs r ≡ v) (sym same) (assign_same p v refs)) in
      let old = ap (λ r. hits h (refs r)) same in omega (arith, rest, here, old)
  | no other ↦
      let rest = held-assign h p v refs ps (sym (occurs_other p q ps other) ∙ e) in
      let here = ap (hits h) (assign_other p q v refs other) in omega (arith, rest, here)
]

pub All-occurs {ℓ} :
    (P : Provided → Type ℓ) (p : Provided) (ps : List Provided) → occurs p ps ≡ 1 → All P ps → P p
unfolding occurs
All-occurs P p [] e a = absurd (omega (arith, e))
All-occurs P p (q ∷ ps) e a = elim (Provided-discrete q p) [
  | yes same ↦ subst P same a.0
  | no other ↦ All-occurs P p ps (sym (occurs_other p q ps other) ∙ e) a.1
]

pub All-assign :
    (p : Provided) (v : Option ℕ) (refs : Provided → Option ℕ) (ps : List Provided)
    → occurs p ps ≡ 0
    → All (λ q. refs q ≡ none) ps
    → All (λ q. assign p v refs q ≡ none) ps
All-assign p v refs [] e a = tt
All-assign p v refs (q ∷ ps) e a = elim (Provided-discrete q p) [
  | yes same ↦ absurd (
      omega
        (arith, e, subst (λ r. occurs p (r ∷ ps) ≡ 1 + occurs p ps) (sym same) (occurs_self p ps)))
  | no other ↦ (
    assign_other p q v refs other ∙ a.0,
    All-assign p v refs ps (sym (occurs_other p q ps other) ∙ e) a.1,
  )
]

pub held-none :
    (h : ℕ) (refs : Provided → Option ℕ) (ps : List Provided)
    → All (λ q. refs q ≡ none) ps
    → held h ps refs ≡ 0
held-none h refs [] a = refl
held-none h refs (q ∷ ps) a =
    let here = ap (hits h) a.0 in let rest = held-none h refs ps a.1 in omega (arith, here, rest)

pub All-assign-none :
    (p : Provided) (refs : Provided → Option ℕ) (ps : List Provided)
    → All (λ q. refs q ≡ none) ps
    → All (λ q. assign p none refs q ≡ none) ps
All-assign-none p refs [] a = tt
All-assign-none p refs (q ∷ ps) a = (assign-none p q refs a.0, All-assign-none p refs ps a.1)
