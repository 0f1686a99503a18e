-- ===== src/Plugin/Whole/Start.antt =====
-- What a start of the plugin makes of the variables of the flight loop, and what it has been granted
-- where it registers the flight loop.
use psx_xp_mover.Base.{◌≡◌, refl, ap, arith, Bool, true, false, not, is_some, if◌then◌else◌}
use psx_xp_mover.Double.{Double}
use psx_xp_mover.Interpolation.{create_interpolator}
use psx_xp_mover.Plugin.Receive.Sound.{IsIndexedIfAny, HasIndexedChannels, reset-IsSoundData}
use psx_xp_mover.Plugin.Lifecycle.{
  Interpolators, Plugin, Grants, is_already_set, all_interpolators, disable, rollback,
  finish_enable, enable,
}
use psx_xp_mover.Plugin.FlightLoop.{Flight}
use psx_xp_mover.Plugin.FlightLoop.Sound.{IsSound}
use psx_xp_mover.Plugin.Whole.{
  create_channels, no_channels, stop_flight, mark_applied, make_channels, finish_flight,
  start_flight,
}
use psx_xp_mover.Plugin.Whole.Kept.{HasChannels}

module _ (d : Double) where
  open d use {D}

  create_interpolator-IsIndexedIfAny : (b : Bool) → IsIndexedIfAny (create_interpolator d b)
  unfolding create_interpolator
  create_interpolator-IsIndexedIfAny false = tt
  create_interpolator-IsIndexedIfAny true = record {
    storage = refl;
    start_in = omega arith;
    num_in = omega arith;
  }

  create-HasIndexedChannels : (i : Interpolators) → HasIndexedChannels (create_channels d i)
  create-HasIndexedChannels i = record {
    latitude = create_interpolator-IsIndexedIfAny i.latitude;
    longitude = create_interpolator-IsIndexedIfAny i.longitude;
    elevation = create_interpolator-IsIndexedIfAny i.elevation;
    heading = create_interpolator-IsIndexedIfAny i.heading;
    pitch = create_interpolator-IsIndexedIfAny i.pitch;
    bank = create_interpolator-IsIndexedIfAny i.bank;
  }

  created : (b : Bool) → b ≡ true → is_some (create_interpolator d b) ≡ true
  unfolding create_interpolator
  created true h = refl
  created false h = h

  pub create-HasChannels :
      (i : Interpolators) → all_interpolators i ≡ true → HasChannels (create_channels d i)
  create-HasChannels i h = record {
    latitude = created i.latitude (ground arith);
    longitude = created i.longitude (ground arith);
    elevation = created i.elevation (ground arith);
    heading = created i.heading (ground arith);
    pitch = created i.pitch (ground arith);
    bank = created i.bank (ground arith);
  }

  pub no_channels-HasIndexedChannels : HasIndexedChannels (no_channels d)
  no_channels-HasIndexedChannels = record {
    latitude = tt;
    longitude = tt;
    elevation = tt;
    heading = tt;
    pitch = tt;
    bank = tt;
  }

  pub stop-IsSound : (s : Flight D) → IsSound s → IsSound (stop_flight d s)
  stop-IsSound s w = record {
    received = record {
      history = w.received.history;
      channels = no_channels-HasIndexedChannels;
      differences = w.received.differences;
      fractions = w.received.fractions;
    };
    contact_in = w.contact_in;
    override_in = w.override_in;
    sim_time_in = w.sim_time_in;
    terrain_in = w.terrain_in;
  }

  mark-IsSound : (s : Flight D) → IsSound s → IsSound (mark_applied d s)
  mark-IsSound s w = record {
    received = record {
      history = w.received.history;
      channels = w.received.channels;
      differences = w.received.differences;
      fractions = w.received.fractions;
    };
    contact_in = w.contact_in;
    override_in = w.override_in;
    sim_time_in = w.sim_time_in;
    terrain_in = w.terrain_in;
  }

  make-IsSound : (i : Interpolators) (s : Flight D) → IsSound s → IsSound (make_channels d i s)
  make-IsSound i s w = record {
    received = record {
      history = w.received.history;
      channels = create-HasIndexedChannels i;
      differences = w.received.differences;
      fractions = w.received.fractions;
    };
    contact_in = w.contact_in;
    override_in = w.override_in;
    sim_time_in = w.sim_time_in;
    terrain_in = w.terrain_in;
  }

  finish_flight-IsSound :
      (locks : Bool) (s : Flight D) → IsSound s → IsSound (finish_flight d locks s)
  finish_flight-IsSound locks s w = record {
    received = reset-IsSoundData d locks s.psx w.received;
    contact_in = w.contact_in;
    override_in = (omega arith, omega arith);
    sim_time_in = w.sim_time_in;
    terrain_in = w.terrain_in;
  }

  if-IsSound : (b : Bool) (s t : Flight D) → IsSound s → IsSound t → IsSound (if b then s else t)
  if-IsSound true s t h k = h
  if-IsSound false s t h k = k

  pub start_flight-IsSound :
      (grants : Grants) (destroys locks : Bool) (p : Plugin) (s : Flight D)
      → IsSound s
      → IsSound (start_flight d grants destroys locks p s)
  unfolding start_flight
  start_flight-IsSound grants destroys locks p s w =
      let made = make-IsSound grants.interpolators s w in
      if-IsSound (is_already_set p) _ _ w (
        if-IsSound (not grants.mutex) _ _ (mark-IsSound s w) (
          if-IsSound (enable grants destroys p).0 _ _ (finish_flight-IsSound locks _ made)
            (stop-IsSound _ made)))

-- An attempt that registers the flight loop has been granted all.
abbrev pub Registers : Grants → Bool × Plugin → Type 0
Registers grants r =
    r.1.flight_loop_registered ≡ true
    → (r.0 ≡ true)
      × (all_interpolators grants.interpolators ≡ true)
      × (r.1.has_boost_frame_mutex ≡ true)
      × (r.1.probe ≡ true)

module _ (grants : Grants) (destroys : Bool) where
  past-Registers :
      (b : Bool) (r r' : Bool × Plugin)
      → b ≡ false
      → Registers grants r'
      → Registers grants (if b then r else r')
  past-Registers true r r' h k = cc
  past-Registers false r r' h k = k

  or-Registers :
      (b : Bool) (r r' : Bool × Plugin)
      → Registers grants r
      → (b ≡ false → Registers grants r')
      → Registers grants (if b then r else r')
  or-Registers true r r' h k = h
  or-Registers false r r' h k = k refl

  rollback-Registers : (p : Plugin) → Registers grants (rollback destroys p)
  unfolding disable
  rollback-Registers p e = cc

  finish-Registers :
      (has_client : Bool) (p : Plugin)
      → all_interpolators grants.interpolators ≡ true
      → p.has_boost_frame_mutex ≡ true
      → Registers grants (finish_enable grants destroys has_client p)
  unfolding finish_enable
  finish-Registers has_client p i m = or-Registers (not has_client) _ _ (rollback-Registers p) (λ _.
      or-Registers (not grants.probe_info) _ _ (rollback-Registers p) (λ _.
        or-Registers (not grants.probe) _ _ (rollback-Registers (record p { probe_info = true }))
          (λ _ _. (refl, i, m, refl))))

  pub enable-Registers :
      (p : Plugin)
      → is_already_set p ≡ false
      → grants.mutex ≡ true
      → Registers grants (enable grants destroys p)
  unfolding enable
  enable-Registers p h k = past-Registers (is_already_set p) _ _ h (
      past-Registers (not grants.mutex) _ _ (ap not k) (
        or-Registers (not (all_interpolators grants.interpolators)) _ _ (rollback-Registers _)
          (λ e. finish-Registers _ _ (ground arith) refl)))
