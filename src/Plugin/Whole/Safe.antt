-- ===== src/Plugin/Whole/Safe.antt =====
-- Over any sequence of starts, ends, cycles, callbacks and settings, the plugin is sound, and holds what
-- the flight loop needs as long as X-Plane can call it.
use psx_xp_mover.Base.{
  ◌≡◌, refl, sym, ap, arith, Bool, true, false, not, inl, inr, Bool-cases, length-replicate,
  if◌then◌else◌,
}
use psx_xp_mover.Base.Int.{pos}
use mathlib.Core.Path.{subst}
use psx_xp_mover.Double.{Double, Math}
use psx_xp_mover.Psx.Received.{zero_frame}
use psx_xp_mover.Plugin.Connection.{
  Connection, update_port_via_dataref, update_hostname_via_dataref,
}
use psx_xp_mover.Plugin.Receive.Sound.{connection-IsSoundData, handle-IsSoundData}
use psx_xp_mover.Plugin.Lifecycle.{Plugin, Grants, is_already_set, disable, enable}
use psx_xp_mover.Plugin.FlightLoop.{Flight}
use psx_xp_mover.Plugin.FlightLoop.Sound.{IsSound, settings-IsSound, source-IsSound}
use psx_xp_mover.Plugin.FlightLoop.Sound.Cycle.{cycle-IsSound}
use psx_xp_mover.Plugin.Whole.{
  Whole, shared, mark_applied, make_channels, finish_flight, start_flight, enable_whole, loaded,
  change_connection,
}
use psx_xp_mover.Plugin.Whole.Steps.{
  Step, enables, disables, calls, receives, changes_port, changes_hostname, sets, selects, Reach,
  here, next,
}
use psx_xp_mover.Plugin.Whole.Kept.{
  HasChannels, reset-HasChannels, handle-HasChannels, channels-flight_loop_callback,
}
use psx_xp_mover.Plugin.Whole.Start.{
  create-HasChannels, no_channels-HasIndexedChannels, stop-IsSound, start_flight-IsSound,
  enable-Registers,
}

-- what the flight loop locks, probes and asks
pub record IsReady {V : Type 0} (w : Whole V) : Type 0 where
  pub mutex : w.plugin.has_boost_frame_mutex ≡ true
  pub probe : w.plugin.probe ≡ true
  pub channels : HasChannels w.flight.psx.channels

pub record IsSafe {V : Type 0} (w : Whole V) : Type 0 where
  pub sound : IsSound w.flight
  pub ready : w.plugin.flight_loop_registered ≡ true → IsReady w

abbrev RegisteredIsReady : {V : Type 0} → Plugin → Flight V → Type 0
RegisteredIsReady p s =
    p.flight_loop_registered ≡ true → IsReady (record { plugin = p; flight = s })

ready_at :
    {V : Type 0} (p p' : Plugin) (s s' : Flight V)
    → p ≡ p'
    → s ≡ s'
    → RegisteredIsReady p' s'
    → RegisteredIsReady p s
ready_at p p' s s' e f k =
    subst (λ q. RegisteredIsReady q s) (sym e) (subst (λ t. RegisteredIsReady p' t) (sym f) k)

third_choice :
    {A : Type 0} (a b c : Bool) (x y z t : A)
    → a ≡ false
    → b ≡ true
    → c ≡ true
    → (if a then x else if not b then y else if c then z else t) ≡ z
third_choice true b c x y z t h k e = cc
third_choice false false c x y z t h k e = cc
third_choice false true false x y z t h k e = cc
third_choice false true true x y z t h k e = refl

module _ (d : Double) where
  open d use {D}

  start_flight-set :
      (grants : Grants) (destroys locks : Bool) (p : Plugin) (s : Flight D)
      → is_already_set p ≡ true
      → (enable grants destroys p ≡ (false, p)) × (start_flight d grants destroys locks p s ≡ s)
  unfolding enable start_flight
  start_flight-set grants destroys locks p s h = (rw h refl, rw h refl)

  start_flight-refused :
      (grants : Grants) (destroys locks : Bool) (p : Plugin) (s : Flight D)
      → is_already_set p ≡ false
      → grants.mutex ≡ false
      → (enable grants destroys p ≡ (false, record p { boost_frame_applied = true }))
        × (start_flight d grants destroys locks p s ≡ mark_applied d s)
  unfolding enable start_flight
  start_flight-refused grants destroys locks p s h k = (rw (h, k) refl, rw (h, k) refl)

  start_flight-up :
      (grants : Grants) (destroys locks : Bool) (p : Plugin) (s : Flight D)
      → is_already_set p ≡ false
      → grants.mutex ≡ true
      → (enable grants destroys p).0 ≡ true
      → start_flight d grants destroys locks p s
        ≡ finish_flight d locks (make_channels d grants.interpolators s)
  unfolding start_flight
  start_flight-up grants destroys locks p s h k e =
      third_choice (is_already_set p) grants.mutex (enable grants destroys p).0 _ _ _ _ h k e

  enable_whole-IsReady :
      (grants : Grants) (destroys locks : Bool) (w : Whole D)
      → IsSafe w
      → RegisteredIsReady
          (enable_whole d grants destroys locks w).plugin
          (enable_whole d grants destroys locks w).flight
  enable_whole-IsReady grants destroys locks w safe =
      let p = shared d w in
      let s = w.flight in
      let made = make_channels d grants.interpolators s in
      elim (Bool-cases (is_already_set p)) [
        | inl set ↦
            let (e, f) = start_flight-set grants destroys locks p s set in
            ready_at _ p _ s (ap (λ r. r.1) e) f (λ r.
              let ready = safe.ready r in
              record { mutex = ready.mutex; probe = ready.probe; channels = ready.channels })
        | inr unset ↦ elim (Bool-cases grants.mutex) [
          | inr refused ↦
              let (e, f) = start_flight-refused grants destroys locks p s unset refused in
              ready_at _ (record p { boost_frame_applied = true }) _ (mark_applied d s)
                (ap (λ r. r.1) e) f
                (λ r.
                  let ready = safe.ready r in
                  record { mutex = ready.mutex; probe = ready.probe; channels = ready.channels })
          | inl locked ↦ λ r.
              let (e, i, mutex, probe) = enable-Registers grants destroys p unset locked r in
              record {
                mutex = mutex;
                probe = probe;
                channels =
                    subst (λ t. HasChannels t.psx.channels)
                      (sym (start_flight-up grants destroys locks p s unset locked e))
                      (reset-HasChannels d locks made.psx
                        (create-HasChannels d grants.interpolators i));
              }
        ]
      ]

  -- A change of the connection leaves the flight loop what it needs.
  change-IsSafe :
      (change : Connection → Connection) (w : Whole D)
      → IsSafe w
      → IsSafe (change_connection d change w)
  change-IsSafe change w safe = record {
    sound = record {
      received = connection-IsSoundData d _ w.flight.psx safe.sound.received;
      contact_in = safe.sound.contact_in;
      override_in = safe.sound.override_in;
      sim_time_in = safe.sound.sim_time_in;
      terrain_in = safe.sound.terrain_in;
    };
    ready = λ r.
        let ready = safe.ready r in
        record { mutex = ready.mutex; probe = ready.probe; channels = ready.channels };
  }

  module _ (m : Math d) where
    Step-IsSafe : {w v : Whole D} → Step d m w v → IsSafe w → IsSafe v
    unfolding disable
    Step-IsSafe (enables grants destroys locks w) safe = record {
      sound = start_flight-IsSound d grants destroys locks (shared d w) w.flight safe.sound;
      ready = enable_whole-IsReady grants destroys locks w safe;
    }
    Step-IsSafe (disables destroys w) safe = record {
      sound = stop-IsSound d w.flight safe.sound;
      ready = λ r. cc;
    }
    Step-IsSafe (calls fuel x w o r e) safe = record {
      sound = cycle-IsSound d m fuel x w.flight e safe.sound;
      ready = λ r'.
          let ready = safe.ready r' in
          record {
            mutex = ready.mutex;
            probe = ready.probe;
            channels =
                subst HasChannels (sym (channels-flight_loop_callback d m fuel x w.flight e))
                  ready.channels;
          };
    }
    Step-IsSafe (receives e w c) safe = record {
      sound = record {
        received = handle-IsSoundData d e w.flight.psx safe.sound.received;
        contact_in = safe.sound.contact_in;
        override_in = safe.sound.override_in;
        sim_time_in = safe.sound.sim_time_in;
        terrain_in = safe.sound.terrain_in;
      };
      ready = λ r.
          let ready = safe.ready r in
          record {
            mutex = ready.mutex;
            probe = ready.probe;
            channels = handle-HasChannels d e w.flight.psx ready.channels;
          };
    }
    Step-IsSafe (changes_port creates destroys value w) safe =
        change-IsSafe (update_port_via_dataref creates destroys value) w safe
    Step-IsSafe (changes_hostname creates destroys value offset len w) safe =
        change-IsSafe (update_hostname_via_dataref creates destroys value offset len) w safe
    Step-IsSafe (sets c w) safe = record {
      sound = settings-IsSound d c w.flight safe.sound;
      ready = λ r.
          let ready = safe.ready r in
          record { mutex = ready.mutex; probe = ready.probe; channels = ready.channels };
    }
    Step-IsSafe (selects n w) safe = record {
      sound = source-IsSound d n w.flight safe.sound;
      ready = λ r.
          let ready = safe.ready r in
          record { mutex = ready.mutex; probe = ready.probe; channels = ready.channels };
    }

    loaded-IsSafe : IsSafe (loaded d m)
    loaded-IsSafe = record {
      sound = record {
        received = record {
          history = record {
            storage = length-replicate 154 (zero_frame d m);
            index_in = omega arith;
            num_in = omega arith;
          };
          channels = no_channels-HasIndexedChannels d;
          differences = record {
            storage = length-replicate 770 (pos 0);
            next_in = omega arith;
            num_in = omega arith;
          };
          fractions = record { storage = refl; next_in = omega arith; num_in = omega arith };
        };
        contact_in = (omega arith, omega arith);
        override_in = (omega arith, omega arith);
        sim_time_in = (omega arith, omega arith);
        terrain_in = (omega arith, omega arith);
      };
      ready = λ r. cc;
    }

    -- In every state that is reached from the one in which the plugin is loaded, by starts and ends of the
    -- plugin with whatever the system grants, cycles of the flight loop while it is registered, calls of
    -- a client's thread while there is one, with frames of any timestamp, changes of the host and the port
    -- with whatever clients can be created and destroyed, and settings, one call after the other: all rings and records are indexed in
    -- range and the cycle counters are within their limits, and where the flight loop is registered, the
    -- mutex, the probe and all six interpolators are there.
    pub Reach-IsSafe : {w : Whole D} → Reach d m (loaded d m) w → IsSafe w
    Reach-IsSafe here = loaded-IsSafe
    Reach-IsSafe (next r st) = Step-IsSafe st (Reach-IsSafe r)
