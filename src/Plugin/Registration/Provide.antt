-- ===== src/Plugin/Registration/Provide.antt =====
-- What the exposure of a data reference does, and that of all of them.
use mathlib.Core.Path.{subst}
use psx_xp_mover.Base.{
  ℕ, ◌+◌, ◌≡◌, refl, sym, ap, ◌∙◌, arith, Bool, true, false, ◌&&◌, Option, none, some, List, [],
  ◌∷◌, ◌++◌, All, is_some,
}
use psx_xp_mover.Plugin.Registration.{
  Provided, Provided-discrete, ValueType, Reader, Writing, Call, register_accessor, editor_id,
  Registrar, Registry, assign, message_to, announce_dataref, register_dataref,
}
use psx_xp_mover.Plugin.Registration.Expose.{
  read_by, expose_double_as_dataref_writable, expose_double_as_dataref_readonly,
  expose_int_as_dataref_writable, expose_int_as_dataref_readonly, expose_int_as_dataref_delegated,
  expose_bool_as_dataref_writable, expose_bool_as_dataref_readonly,
  expose_log_level_as_dataref_writable, expose_string_as_dataref_readonly,
  expose_string_as_dataref_delegated,
}
use psx_xp_mover.Plugin.Registration.Table.{
  Row, Way, double_writable, double_readonly, int_writable, int_readonly, bool_writable,
  bool_readonly, log_level_writable, string_readonly, hostname, port, exposure, provided,
}
use psx_xp_mover.Plugin.Registration.Cycle.{expose_all}
use psx_xp_mover.Plugin.Registration.Counts.{
  hits, registrations, unregistrations, occurs, occurs_self, occurs_other, assign_same,
  assign_other,
}

registrations-message_to :
    (h : ℕ) (id : Option ℕ) (name : Provided) (cs : List Call)
    → registrations h (message_to id name ++ cs) ≡ registrations h cs
registrations-message_to h none name cs = refl
registrations-message_to h (some i) name cs = refl

unregistrations-message_to :
    (h : ℕ) (id : Option ℕ) (name : Provided) (cs : List Call)
    → unregistrations h (message_to id name ++ cs) ≡ unregistrations h cs
unregistrations-message_to h none name cs = refl
unregistrations-message_to h (some i) name cs = refl

-- An announcement is neither a registration nor the end of one.
registrations-announce_dataref :
    (h : ℕ) (x : Registrar) (name : Provided) (s : Registry)
    → registrations h (announce_dataref x name s).calls ≡ registrations h s.calls
unfolding announce_dataref
registrations-announce_dataref h x name s = registrations-message_to h (editor_id x s) name s.calls

unregistrations-announce_dataref :
    (h : ℕ) (x : Registrar) (name : Provided) (s : Registry)
    → unregistrations h (announce_dataref x name s).calls ≡ unregistrations h s.calls
unfolding announce_dataref
unregistrations-announce_dataref h x name s =
    unregistrations-message_to h (editor_id x s) name s.calls

-- the result of one exposure
pub record Exposes (x : Registrar) (dest name : Provided) (s : Registry) (r : Bool × Registry)
    : Type 0 where
  pub success : r.0 ≡ is_some (x.accessors name)
  pub refs : r.1.refs ≡ assign dest (x.accessors name) s.refs
  pub initialized : r.1.datarefs_initialized ≡ s.datarefs_initialized
  pub registered :
      (h : ℕ) → registrations h r.1.calls ≡ hits h (x.accessors name) + registrations h s.calls
  pub unregistered : (h : ℕ) → unregistrations h r.1.calls ≡ unregistrations h s.calls

register-Exposes :
    (t : ValueType) (x : Registrar) (dest name value : Provided) (reader : Reader)
    (writing : Writing) (s : Registry)
    → Exposes x dest name s
        (register_dataref t x (some dest) (some name) (read_by reader value) writing s)
unfolding register_dataref announce_dataref
register-Exposes t x dest name value reader writing s =
    let registered = record s {
      refs = assign dest (x.accessors name) s.refs;
      calls = register_accessor name t (read_by reader value) writing (x.accessors name) ∷ s.calls;
    } in
    record {
      success = refl;
      refs = refl;
      initialized = refl;
      registered = λ h. registrations-announce_dataref h x name registered;
      unregistered = λ h. unregistrations-announce_dataref h x name registered;
    }

pub exposure-Exposes :
    (way : Way) (x : Registrar) (dest name value : Provided) (s : Registry)
    → Exposes x dest name s (exposure way x (some dest) (some name) (some value) s)
unfolding exposure expose_double_as_dataref_writable expose_double_as_dataref_readonly
    expose_int_as_dataref_writable expose_int_as_dataref_readonly expose_int_as_dataref_delegated
    expose_bool_as_dataref_writable expose_bool_as_dataref_readonly
    expose_log_level_as_dataref_writable expose_string_as_dataref_readonly
    expose_string_as_dataref_delegated
exposure-Exposes double_writable x p q v s = register-Exposes _ x p q v _ _ s
exposure-Exposes double_readonly x p q v s = register-Exposes _ x p q v _ _ s
exposure-Exposes int_writable x p q v s = register-Exposes _ x p q v _ _ s
exposure-Exposes int_readonly x p q v s = register-Exposes _ x p q v _ _ s
exposure-Exposes bool_writable x p q v s = register-Exposes _ x p q v _ _ s
exposure-Exposes bool_readonly x p q v s = register-Exposes _ x p q v _ _ s
exposure-Exposes (log_level_writable set) x p q v s = register-Exposes _ x p q v _ _ s
exposure-Exposes string_readonly x p q v s = register-Exposes _ x p q v _ _ s
exposure-Exposes hostname x p q v s = register-Exposes _ x p q v _ _ s
exposure-Exposes port x p q v s = register-Exposes _ x p q v _ _ s

-- the variables for the accessors, and the names
abbrev pub dests : List Row → List Provided
dests [] = []
dests (r ∷ rest) = r.dest ∷ dests rest

abbrev pub names : List Row → List Provided
names [] = []
names (r ∷ rest) = r.name ∷ names rest

-- None is there twice.
abbrev pub NoDup : List Provided → Type 0
NoDup [] = Unit {0}
NoDup (p ∷ ps) = (occurs p ps ≡ 0) × NoDup ps

-- whether X-Plane returns an accessor for each
abbrev pub all_accessors : Registrar → List Provided → Bool
all_accessors x [] = true
all_accessors x (p ∷ ps) = is_some (x.accessors p) && all_accessors x ps

and_assoc : (a b c : Bool) → ((a && b) && c) ≡ (a && (b && c))
and_assoc true b c = refl
and_assoc false b c = refl

-- A variable that is not named keeps its accessor.
pub expose_all-kept :
    (x : Registrar) (es : List Row) (b : Bool) (s : Registry) (q : Provided)
    → occurs q (dests es) ≡ 0
    → (expose_all x es (b, s)).1.refs q ≡ s.refs q
unfolding expose_all
expose_all-kept x [] b s q e = refl
expose_all-kept x (r ∷ es) b s q e =
    let exposed = exposure-Exposes r.way x r.dest r.name r.value s in
    elim (Provided-discrete r.dest q) [
      | yes same ↦ absurd (
          omega (
            arith,
            e,
            subst (λ p. occurs q (p ∷ dests es) ≡ 1 + occurs q (dests es)) (sym same)
                (occurs_self q (dests es)),
          ))
      | no other ↦
          expose_all-kept x es _ _ q (sym (occurs_other q r.dest (dests es) other) ∙ e)
          ∙ ap (λ refs. refs q) exposed.refs
          ∙ assign_other r.dest q (x.accessors r.name) s.refs (λ same. other (sym same))
    ]

pub expose_all-assigned :
    (x : Registrar) (es : List Row) (b : Bool) (s : Registry)
    → NoDup (dests es)
    → All (λ r. (expose_all x es (b, s)).1.refs r.dest ≡ x.accessors r.name) es
unfolding expose_all
expose_all-assigned x [] b s n = tt
expose_all-assigned x (r ∷ es) b s n = (
  expose_all-kept x es _ _ r.dest n.0
      ∙ ap (λ refs. refs r.dest) (exposure-Exposes r.way x r.dest r.name r.value s).refs
      ∙ assign_same r.dest (x.accessors r.name) s.refs,
  expose_all-assigned x es _ _ n.1,
)

pub expose_all_success :
    (x : Registrar) (es : List Row) (b : Bool) (s : Registry)
    → (expose_all x es (b, s)).0 ≡ (b && all_accessors x (names es))
unfolding expose_all
expose_all_success x [] true s = refl
expose_all_success x [] false s = refl
expose_all_success x (r ∷ es) b s =
    expose_all_success x es _ _
    ∙ ap (λ c. (b && c) && all_accessors x (names es))
        (exposure-Exposes r.way x r.dest r.name r.value s).success
    ∙ and_assoc b (is_some (x.accessors r.name)) (all_accessors x (names es))

pub provided-NoDup : NoDup (dests provided)
unfolding occurs Provided-discrete
provided-NoDup = ground arith
