-- ===== src/Plugin/Registration/Documented/Registers.antt =====
-- The calls by which src/plugin.c registers its data references are those that README.md's table means.
use mathlib.Core.Path.{subst}
use psx_xp_mover.Base.{
  IsIn, append-IsIn, get_elem?, ℕ, zero, suc, ◌≡◌, ◌↔◌, ◌∙◌, refl, sym, Bool, true, false, ◌&&◌,
  inl, inr, some, List, [], ◌∷◌, ◌++◌, All, is_some,
}
use psx_xp_mover.Plugin.Registration.{
  model_length_offset, model_height_offset, debug_spin_hdg, always_update_elevation_info,
  terrain_elevation_meters, terrain_elevation_remaining_cycles, suspend_terrain_blending,
  ground_contact_cycles, ground_contact_fraction, firm_ground_speed, lift_ground_speed,
  low_speed_fraction, low_speed_fraction_factor, elevation_blending_fraction,
  calculated_ground_speed, publish_ground_speed, publish_motion_vector, psx_latitude, psx_longitude,
  psx_elevation, suspend_injection, interpolate, interpolation_buffer_millis,
  interpolation_compensate_time_difference, average_psx_time_difference, interpolation_time_source,
  log_level_console, log_level_xplane, plugin_version, plugin_build_id, plugin_build_ref,
  plugin_build_target, plugin_build_time, connection_hostname, connection_port,
  connection_established, Provided, ValueType, type_double, type_int, type_data, Reader,
  reads_double, reads_int, reads_bool, reads_log_level, reads_string, writes_double, writes_int,
  writes_bool, writes_log_level, writes_hostname, writes_port, Writing, Call, register_accessor,
  editor_id, Registrar, Registry, message_to, announce_dataref, register_dataref,
}
use psx_xp_mover.Plugin.Registration.Expose.{
  read_by, written_by, read_only, expose_double_as_dataref_writable,
  expose_double_as_dataref_readonly, expose_int_as_dataref_writable, expose_int_as_dataref_readonly,
  expose_int_as_dataref_delegated, expose_bool_as_dataref_writable, expose_bool_as_dataref_readonly,
  expose_log_level_as_dataref_writable, expose_string_as_dataref_readonly,
  expose_string_as_dataref_delegated,
}
use psx_xp_mover.Plugin.Registration.Table.{
  Row, row, Way, double_writable, double_readonly, int_writable, int_readonly, bool_writable,
  bool_readonly, log_level_writable, string_readonly, hostname, port, exposure, provided,
}
use psx_xp_mover.Plugin.Registration.Cycle.{expose_all}
use psx_xp_mover.Plugin.Registration.Provide.{
  names, all_accessors, provided-NoDup, expose_all-assigned, expose_all_success,
}
use psx_xp_mover.Plugin.Registration.Documented.{meant}

-- what the functions of the ways register, and the call that a row makes
abbrev made : Way → Provided → ValueType × Reader × Writing
made double_writable v = (type_double, reads_double, written_by writes_double v)
made double_readonly v = (type_double, reads_double, read_only)
made int_writable v = (type_int, reads_int, written_by writes_int v)
made int_readonly v = (type_int, reads_int, read_only)
made bool_writable v = (type_int, reads_bool, written_by writes_bool v)
made bool_readonly v = (type_int, reads_bool, read_only)
made (log_level_writable set) v = (type_data, reads_log_level, written_by writes_log_level set)
made string_readonly v = (type_data, reads_string, read_only)
made hostname v = (type_data, reads_string, written_by writes_hostname v)
made port v = (type_int, reads_int, written_by writes_port v)

abbrev call_of : Registrar → Row → Call
call_of x r =
    let (t, reader, writing) = made r.way r.value in
    register_accessor r.name t (read_by reader r.value) writing (x.accessors r.name)

register-calls :
    (x : Registrar) (r : Row) (s : Registry)
    → (exposure r.way x (some r.dest) (some r.name) (some r.value) s).1.calls
      ≡ message_to (editor_id x s) r.name ++ call_of x r ∷ s.calls
unfolding exposure expose_double_as_dataref_writable expose_double_as_dataref_readonly
    expose_int_as_dataref_writable expose_int_as_dataref_readonly expose_int_as_dataref_delegated
    expose_bool_as_dataref_writable expose_bool_as_dataref_readonly
    expose_log_level_as_dataref_writable expose_string_as_dataref_readonly
    expose_string_as_dataref_delegated register_dataref announce_dataref
register-calls x r s = of_way r.way
  where
    of_way :
        (way : Way)
        → (exposure way x (some r.dest) (some r.name) (some r.value) s).1.calls
          ≡ message_to (editor_id x s) r.name ++ call_of x (record r { way = way }) ∷ s.calls
    of_way double_writable = refl
    of_way double_readonly = refl
    of_way int_writable = refl
    of_way int_readonly = refl
    of_way bool_writable = refl
    of_way bool_readonly = refl
    of_way (log_level_writable set) = refl
    of_way string_readonly = refl
    of_way hostname = refl
    of_way port = refl

-- The calls before stay in the record of the calls.
expose_all-kept_calls :
    (x : Registrar) (es : List Row) (b : Bool) (s : Registry) (c : Call)
    → IsIn c s.calls
    → IsIn c (expose_all x es (b, s)).1.calls
unfolding expose_all
expose_all-kept_calls x [] b s c h = h
expose_all-kept_calls x (r ∷ es) b s c h = expose_all-kept_calls x es _ _ c (
    subst (IsIn c) (sym (register-calls x r s))
      (append-IsIn c (message_to (editor_id x s) r.name) _ (inr h)))

expose_all-called :
    (x : Registrar) (es : List Row) (b : Bool) (s : Registry)
    → All (λ r. IsIn (call_of x r) (expose_all x es (b, s)).1.calls) es
unfolding expose_all
expose_all-called x [] b s = tt
expose_all-called x (r ∷ es) b s = (
  expose_all-kept_calls x es _ _ (call_of x r) (
      subst (IsIn (call_of x r)) (sym (register-calls x r s))
        (append-IsIn (call_of x r) (message_to (editor_id x s) r.name) _ (inl refl))),
  expose_all-called x es _ _,
)

some_injective : (q r : Row) → some q ≡ some r → q ≡ r
some_injective q r e = cc

All-at :
    (P : Row → Type 0) (es : List Row) (n : ℕ) (r : Row) → get_elem? es n ≡ some r → All P es → P r
All-at P [] n r e a = cc
All-at P (q ∷ es) zero r e a = subst P (some_injective q r e) a.0
All-at P (q ∷ es) (suc n) r e a = All-at P es n r e a.1

-- Where a documented data reference stands in the table of the calls: the call is the one that is meant.
abbrev IsListed : Provided → Type 0
IsListed p =
    (n : ℕ) × (way : Way) × (get_elem? provided n ≡ some (row way p p p))
    × ((x : Registrar) → call_of x (row way p p p) ≡ meant x p)

listed : (p : Provided) → IsListed p
listed model_height_offset = (0, double_writable, refl, λ x. refl)
listed model_length_offset = (1, double_writable, refl, λ x. refl)
listed debug_spin_hdg = (2, double_writable, refl, λ x. refl)
listed always_update_elevation_info = (3, bool_writable, refl, λ x. refl)
listed terrain_elevation_meters = (4, double_readonly, refl, λ x. refl)
listed terrain_elevation_remaining_cycles = (5, int_readonly, refl, λ x. refl)
listed suspend_terrain_blending = (6, bool_writable, refl, λ x. refl)
listed ground_contact_cycles = (7, int_readonly, refl, λ x. refl)
listed ground_contact_fraction = (8, double_readonly, refl, λ x. refl)
listed firm_ground_speed = (9, double_writable, refl, λ x. refl)
listed lift_ground_speed = (10, double_writable, refl, λ x. refl)
listed low_speed_fraction = (11, double_readonly, refl, λ x. refl)
listed low_speed_fraction_factor = (12, double_writable, refl, λ x. refl)
listed elevation_blending_fraction = (13, double_readonly, refl, λ x. refl)
listed calculated_ground_speed = (14, double_readonly, refl, λ x. refl)
listed publish_ground_speed = (15, bool_writable, refl, λ x. refl)
listed publish_motion_vector = (16, bool_writable, refl, λ x. refl)
listed psx_latitude = (17, double_readonly, refl, λ x. refl)
listed psx_longitude = (18, double_readonly, refl, λ x. refl)
listed psx_elevation = (19, double_readonly, refl, λ x. refl)
listed suspend_injection = (20, bool_writable, refl, λ x. refl)
listed interpolate = (21, bool_writable, refl, λ x. refl)
listed interpolation_buffer_millis = (22, double_writable, refl, λ x. refl)
listed average_psx_time_difference = (23, double_readonly, refl, λ x. refl)
listed interpolation_compensate_time_difference = (24, bool_writable, refl, λ x. refl)
listed interpolation_time_source = (25, int_writable, refl, λ x. refl)
listed log_level_console = (26, log_level_writable log_level_console, refl, λ x. refl)
listed log_level_xplane = (27, log_level_writable log_level_xplane, refl, λ x. refl)
listed plugin_version = (28, string_readonly, refl, λ x. refl)
listed plugin_build_id = (29, string_readonly, refl, λ x. refl)
listed plugin_build_ref = (30, string_readonly, refl, λ x. refl)
listed plugin_build_target = (31, string_readonly, refl, λ x. refl)
listed plugin_build_time = (32, string_readonly, refl, λ x. refl)
listed connection_hostname = (33, hostname, refl, λ x. refl)
listed connection_port = (34, port, refl, λ x. refl)
listed connection_established = (35, bool_readonly, refl, λ x. refl)

listed-has :
    (P : Row → Type 0) (p : Provided)
    → All P provided
    → (way : Way) × P (row way p p p) × ((x : Registrar) → call_of x (row way p p p) ≡ meant x p)
listed-has P p a =
    let (n, way, e, same) = listed p in (way, All-at P provided n (row way p p p) e a, same)

and_left : (a b : Bool) → (a && b) ≡ true → a ≡ true
and_left true b h = refl
and_left false b h = h

and_right : (a b : Bool) → (a && b) ≡ true → b ≡ true
and_right true b h = h
and_right false b h = cc

accessors_of_all :
    (x : Registrar) (es : List Row)
    → all_accessors x (names es) ≡ true
    → All (λ r. is_some (x.accessors r.name) ≡ true) es
accessors_of_all x [] h = tt
accessors_of_all x (r ∷ es) h =
    (and_left _ _ h, accessors_of_all x es (and_right (is_some (x.accessors r.name)) _ h))

all_of_accessors :
    (x : Registrar) (es : List Row)
    → ((p : Provided) → is_some (x.accessors p) ≡ true)
    → all_accessors x (names es) ≡ true
all_of_accessors x [] h = refl
all_of_accessors x (r ∷ es) h = rw (h r.name, all_of_accessors x es h) refl

-- After the exposure of the data references, whether or not some before failed, each data reference
-- that is documented has been registered under its name, with the type and the access of the table,
-- for the variable that is meant by it, and its pointer is what X-Plane has returned for its name.
-- The exposure succeeds exactly if X-Plane returns an accessor for each of them.
pub expose_all-documented :
    (x : Registrar) (s : Registry)
    → ((p : Provided)
        → ((expose_all x provided (true, s)).1.refs p ≡ x.accessors p)
          × IsIn (meant x p) (expose_all x provided (true, s)).1.calls)
      × (((expose_all x provided (true, s)).0 ≡ true)
          ↔ ((p : Provided) → is_some (x.accessors p) ≡ true))
expose_all-documented x s = (each, (from, to))
  where
    each :
        (p : Provided)
        → ((expose_all x provided (true, s)).1.refs p ≡ x.accessors p)
          × IsIn (meant x p) (expose_all x provided (true, s)).1.calls
    each p =
        let (way, assigned, _) =
          listed-has (λ r. (expose_all x provided (true, s)).1.refs r.dest ≡ x.accessors r.name) p
            (expose_all-assigned x provided true s provided-NoDup) in
        let (way', called, same) =
          listed-has (λ r. IsIn (call_of x r) (expose_all x provided (true, s)).1.calls) p
            (expose_all-called x provided true s) in
        (assigned, subst (λ c. IsIn c (expose_all x provided (true, s)).1.calls) (same x) called)

    from :
        (expose_all x provided (true, s)).0 ≡ true → (p : Provided) → is_some (x.accessors p) ≡ true
    from h p =
        (listed-has (λ r. is_some (x.accessors r.name) ≡ true) p
          (accessors_of_all x provided (sym (expose_all_success x provided true s) ∙ h))).1

    to :
        ((p : Provided) → is_some (x.accessors p) ≡ true)
        → (expose_all x provided (true, s)).0 ≡ true
    to h = expose_all_success x provided true s ∙ all_of_accessors x provided h
