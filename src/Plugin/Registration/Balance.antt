-- ===== src/Plugin/Registration/Balance.antt =====
-- The plugin ends each registration of a data reference once, over all its cycles and restarts.
use mathlib.Core.Path.{subst}
use psx_xp_mover.Base.{
  ℕ, ◌+◌, ◌≡◌, refl, sym, ap, ◌∙◌, arith, Bool, true, false, Option, none, some, List, [], ◌∷◌, All,
  length, if◌then◌else◌,
}
use psx_xp_mover.Plugin.FlightLoop.{DataRef}
use psx_xp_mover.Plugin.FlightLoop.Setup.{required, finds_all}
use psx_xp_mover.Plugin.Registration.{
  Provided, Provided-discrete, Call, unregister_accessor, Registrar, Registry, unregister_dataref,
}
use psx_xp_mover.Plugin.Registration.Table.{Row, exposure, provided, withdrawn}
use psx_xp_mover.Plugin.Registration.Cycle.{
  expose_all, provide_datarefs, unregister_all, withdraw_datarefs, no_registry, Step, cycle,
  disable, Reach, here, next,
}
use psx_xp_mover.Plugin.Registration.Counts.{
  hits, registrations, unregistrations, held, occurs, assign_same, assign-none, held-assign,
  All-occurs, All-assign, held-none, All-assign-none,
}
use psx_xp_mover.Plugin.Registration.Provide.{dests, NoDup, provided-NoDup, exposure-Exposes}

-- Each variable that holds an accessor owes X-Plane the end of one registration, and nothing else does.
abbrev pub IsBalanced : Registry → Type 0
IsBalanced s =
    (h : ℕ) → registrations h s.calls ≡ unregistrations h s.calls + held h withdrawn s.refs

-- Before the first cycle, and behind the end, no variable holds an accessor.
pub record IsKept (s : Registry) : Type 0 where
  pub balanced : IsBalanced s
  pub cleared : s.datarefs_initialized ≡ false → All (λ p. s.refs p ≡ none) withdrawn

provided-occur : All (λ p. occurs p withdrawn ≡ 1) (dests provided)
unfolding occurs Provided-discrete
provided-occur = ground arith

withdrawn-occur : All (λ p. occurs p withdrawn ≡ 1) withdrawn
unfolding occurs Provided-discrete
withdrawn-occur = ground arith

expose-IsBalanced :
    (x : Registrar) (r : Row) (s : Registry)
    → occurs r.dest withdrawn ≡ 1
    → s.refs r.dest ≡ none
    → IsBalanced s
    → IsBalanced (exposure r.way x (some r.dest) (some r.name) (some r.value) s).1
expose-IsBalanced x r s once free b h =
    let e = exposure-Exposes r.way x r.dest r.name r.value s in
    let before = b h in
    let registered = e.registered h in
    let unregistered = e.unregistered h in
    let refs = ap (held h withdrawn) e.refs in
    let assigned = held-assign h r.dest (x.accessors r.name) s.refs withdrawn once in
    let unheld = ap (hits h) free in
    omega (arith, before, registered, unregistered, refs, assigned, unheld)

expose_all-IsBalanced :
    (x : Registrar) (es : List Row) (b : Bool) (s : Registry)
    → All (λ p. occurs p withdrawn ≡ 1) (dests es)
    → NoDup (dests es)
    → All (λ p. s.refs p ≡ none) (dests es)
    → IsBalanced s
    → IsBalanced (expose_all x es (b, s)).1
unfolding expose_all
expose_all-IsBalanced x [] b s once n free k = k
expose_all-IsBalanced x (r ∷ es) b s once n free k =
    let e = exposure-Exposes r.way x r.dest r.name r.value s in
    expose_all-IsBalanced x es _ _ once.1 n.1
      (subst (λ refs. All (λ q. refs q ≡ none) (dests es)) (sym e.refs)
        (All-assign r.dest (x.accessors r.name) s.refs (dests es) n.0 free.1))
      (expose-IsBalanced x r s once.0 free.0 k)

expose_all-initialized :
    (x : Registrar) (es : List Row) (b : Bool) (s : Registry)
    → (expose_all x es (b, s)).1.datarefs_initialized ≡ s.datarefs_initialized
unfolding expose_all
expose_all-initialized x [] b s = refl
expose_all-initialized x (r ∷ es) b s =
    expose_all-initialized x es _ _ ∙ (exposure-Exposes r.way x r.dest r.name r.value s).initialized

-- what holds of each of the data references that are withdrawn holds of each that is provided
withdrawn-provided :
    (P : Provided → Type 0) (ps : List Provided)
    → All (λ p. occurs p withdrawn ≡ 1) ps
    → All P withdrawn
    → All P ps
withdrawn-provided P [] once a = tt
withdrawn-provided P (p ∷ ps) once a =
    (All-occurs P p withdrawn once.0 a, withdrawn-provided P ps once.1 a)

if-IsKept :
    (b : Bool) (s t : Registry) → IsKept s → (b ≡ false → IsKept t) → IsKept (if b then s else t)
if-IsKept true s t h k = h
if-IsKept false s t h k = k refl

provide_datarefs-IsKept :
    (x : Registrar) (finds : DataRef → Bool) (s : Registry)
    → IsKept s
    → IsKept (provide_datarefs x finds s)
unfolding provide_datarefs
provide_datarefs-IsKept x finds s k =
    let started = record s { datarefs_initialized = true } in
    let exposed = (expose_all x provided (true, started)).1 in
    let is_exposed : s.datarefs_initialized ≡ false → IsKept exposed = λ stopped. record {
      balanced =
          expose_all-IsBalanced x provided true started provided-occur provided-NoDup
            (withdrawn-provided (λ p. s.refs p ≡ none) (dests provided) provided-occur
              (k.cleared stopped))
            k.balanced;
      cleared = λ e. cc (e, expose_all-initialized x provided true started);
    } in
    if-IsKept s.datarefs_initialized s (if finds_all finds required then exposed else s) k
      (λ stopped. if-IsKept (finds_all finds required) exposed s (is_exposed stopped) (λ _. k))

unregister-IsBalanced :
    (p : Provided) (s : Registry)
    → occurs p withdrawn ≡ 1
    → IsBalanced s
    → IsBalanced (unregister_dataref (some p) s)
unfolding unregister_dataref
unregister-IsBalanced p s once b h =
    let before = b h in
    let assigned = held-assign h p none s.refs withdrawn once in omega (arith, before, assigned)

unregister_all-IsBalanced :
    (ps : List Provided) (s : Registry)
    → All (λ p. occurs p withdrawn ≡ 1) ps
    → IsBalanced s
    → IsBalanced (unregister_all ps s)
unfolding unregister_all
unregister_all-IsBalanced [] s once b = b
unregister_all-IsBalanced (p ∷ ps) s once b =
    unregister_all-IsBalanced ps _ once.1 (unregister-IsBalanced p s once.0 b)

-- A variable that is NULL stays so, and those that are named become so.
unregister_all-kept :
    (ps : List Provided) (s : Registry) (q : Provided)
    → s.refs q ≡ none
    → (unregister_all ps s).refs q ≡ none
unfolding unregister_all unregister_dataref
unregister_all-kept [] s q e = e
unregister_all-kept (p ∷ ps) s q e = unregister_all-kept ps _ q (assign-none p q s.refs e)

unregister_all-cleared :
    (ps : List Provided) (s : Registry) → All (λ p. (unregister_all ps s).refs p ≡ none) ps
unfolding unregister_all unregister_dataref
unregister_all-cleared [] s = tt
unregister_all-cleared (p ∷ ps) s =
    (unregister_all-kept ps _ p (assign_same p none s.refs), unregister_all-cleared ps _)

withdraw_datarefs-IsKept : (s : Registry) → IsKept s → IsKept (withdraw_datarefs s)
unfolding withdraw_datarefs
withdraw_datarefs-IsKept s k = record {
  balanced = unregister_all-IsBalanced withdrawn _ withdrawn-occur k.balanced;
  cleared = λ e. unregister_all-cleared withdrawn _;
}

Step-IsKept : {s t : Registry} → IsKept s → Step s t → IsKept t
Step-IsKept k (cycle x finds s) = provide_datarefs-IsKept x finds s k
Step-IsKept k (disable s) = withdraw_datarefs-IsKept s k

Reach-IsKept : {s t : Registry} → IsKept s → Reach s t → IsKept t
Reach-IsKept k here = k
Reach-IsKept k (next r e) = Step-IsKept (Reach-IsKept k r) e

no_registry-IsKept : IsKept no_registry
no_registry-IsKept = record { balanced = λ h. refl; cleared = λ e. ground arith }

-- From the start of the plugin, over any sequence of cycles and ends, with any answers of X-Plane: in
-- a state in which the data references are not initialized, X-Plane has been told to end each
-- accessor as often as a registration has returned it, so that no registration is left behind and
-- none is ended twice.
pub Reach-IsReturned :
    {s : Registry}
    → Reach no_registry s
    → s.datarefs_initialized ≡ false
    → (h : ℕ) → registrations h s.calls ≡ unregistrations h s.calls
Reach-IsReturned {s} r stopped h =
    let k = Reach-IsKept no_registry-IsKept r in
    let balanced = k.balanced h in
    let no_accessor = held-none h s.refs withdrawn (k.cleared stopped) in
    omega (arith, balanced, no_accessor)

-- how often X-Plane has been told to end the registration of NULL
abbrev pub nulls : List Call → ℕ
nulls [] = 0
nulls (unregister_accessor none ∷ cs) = 1 + nulls cs
nulls (c ∷ cs) = nulls cs

nulls_front :
    (v : Option ℕ) (cs : List Call) → v ≡ none → nulls (unregister_accessor v ∷ cs) ≡ 1 + nulls cs
nulls_front none cs e = refl
nulls_front (some k) cs e = cc

unregister_all-nulls :
    (ps : List Provided) (s : Registry)
    → All (λ p. s.refs p ≡ none) ps
    → nulls (unregister_all ps s).calls ≡ length ps + nulls s.calls
unfolding unregister_all unregister_dataref
unregister_all-nulls [] s free = omega arith
unregister_all-nulls (p ∷ ps) s free =
    let rest =
      unregister_all-nulls ps (unregister_dataref (some p) s)
        (All-assign-none p s.refs ps free.1) in
    let front = nulls_front (s.refs p) s.calls free.0 in omega (arith, rest, front)

-- Where the data references are not initialized, as where the plugin is disabled before its first
-- cycle or a failed start is rolled back, the end of their registration passes NULL to X-Plane for
-- each of the 36 variables.
pub withdraw_datarefs-nulls :
    {s : Registry}
    → Reach no_registry s
    → s.datarefs_initialized ≡ false
    → nulls (withdraw_datarefs s).calls ≡ 36 + nulls s.calls
unfolding withdraw_datarefs
withdraw_datarefs-nulls {s} r stopped =
    unregister_all-nulls withdrawn (record s { datarefs_initialized = false })
      ((Reach-IsKept no_registry-IsKept r).cleared stopped)
