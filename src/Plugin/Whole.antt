-- ===== src/Plugin/Whole.antt =====
-- The plugin as a whole: the state that src/plugin.c starts with, `XPluginEnable` and `XPluginDisable`
-- on all of it, and changes of the host and the port.
pub mod Kept
pub mod Start
pub mod Steps
pub mod Safe
mod Tests
use psx_xp_mover.Base.{
  ℕ, ◌≡◌, Bool, true, false, not, none, some, [], replicate, is_some, if◌then◌else◌,
}
use psx_xp_mover.Base.Int.{pos, negsuc}
use psx_xp_mover.Double.{Double, Math}
use psx_xp_mover.Interpolation.{create_interpolator}
use psx_xp_mover.Utils.Conversions.{decimal}
use psx_xp_mover.Psx.Received.{zero_frame}
use psx_xp_mover.Plugin.History.{max_frames}
use psx_xp_mover.Plugin.TimeDifference.{max_records}
use psx_xp_mover.Plugin.Blending.{max_raw_fractions}
use psx_xp_mover.Plugin.Countdown.{init_cycles_to_override_plane_path}
use psx_xp_mover.Plugin.TimeSource.{interpolation_time_source_default}
use psx_xp_mover.Plugin.Receive.{Channels, PsxData, PsxEvent, reset_psx_data, handle}
use psx_xp_mover.Plugin.Connection.{Connection}
use psx_xp_mover.Plugin.Lifecycle.{
  Interpolators, no_interpolators, Plugin, Grants, is_already_set, disable, enable,
}
use psx_xp_mover.Plugin.FlightLoop.{Settings, Flight, Answers}
use psx_xp_mover.Plugin.FlightLoop.Setup.{init_cycles_to_update_sim_time_diff}
use psx_xp_mover.Plugin.FlightLoop.Callback.{Outcome, flight_loop_callback}

-- What is held of the system, and the variables of the flight loop. A variable that both records have
-- is the one of the flight loop.
pub record Whole (V : Type 0) : Type 0 where
  pub plugin : Plugin
  pub flight : Flight V

module _ (d : Double) where
  open d use {D, of_int}

  abbrev pub create_channels : Interpolators → Channels D
  create_channels i = record {
    flight_deck_latitude = create_interpolator d i.latitude;
    flight_deck_longitude = create_interpolator d i.longitude;
    psx_elevation_msl_meters = create_interpolator d i.elevation;
    heading_true_degrees = create_interpolator d i.heading;
    pitch_degrees = create_interpolator d i.pitch;
    bank_degrees = create_interpolator d i.bank;
  }

  abbrev pub no_channels : Channels D
  no_channels = record {
    flight_deck_latitude = none;
    flight_deck_longitude = none;
    psx_elevation_msl_meters = none;
    heading_true_degrees = none;
    pitch_degrees = none;
    bank_degrees = none;
  }

  -- the variables that both records have
  abbrev pub shared : Whole D → Plugin
  shared w = record w.plugin {
    datarefs_initialized = w.flight.datarefs_initialized;
    has_dataref_cabin_altitude = w.flight.has_dataref_cabin_altitude;
    boost_frame_applied = w.flight.psx.boost_frame_applied;
    cycles_to_override_plane_path = w.flight.cycles_to_override_plane_path;
    connection = record w.plugin.connection {
      connection_established = w.flight.psx.connection_established;
    };
  }

  -- `XPluginDisable` on the variables of the flight loop
  abbrev pub stop_flight : Flight D → Flight D
  stop_flight s = record s {
    datarefs_initialized = false;
    has_dataref_cabin_altitude = false;
    psx = record s.psx { connection_established = false; channels = no_channels };
  }

  -- what `XPluginEnable` does before it creates the client
  abbrev pub mark_applied : Flight D → Flight D
  mark_applied s = record s { psx = record s.psx { boost_frame_applied = true } }

  abbrev pub make_channels : Interpolators → Flight D → Flight D
  make_channels i s = record s {
    psx = record s.psx { boost_frame_applied = true; channels = create_channels i };
  }

  -- what it does where all is granted, with whether the mutex can be locked
  abbrev pub finish_flight : Bool → Flight D → Flight D
  finish_flight locks s = record s {
    cycles_to_override_plane_path = pos init_cycles_to_override_plane_path;
    psx = reset_psx_data d locks s.psx;
  }

  unfoldable pub start_flight : Grants → Bool → Bool → Plugin → Flight D → Flight D
  start_flight grants destroys locks p s =
      let made = make_channels grants.interpolators s in
      if is_already_set p
      then s
      else if not grants.mutex
      then mark_applied s
      else if (enable grants destroys p).0
      then finish_flight locks made
      else stop_flight made

  abbrev pub enable_whole : Grants → Bool → Bool → Whole D → Whole D
  enable_whole grants destroys locks w = record {
    plugin = (enable grants destroys (shared w)).1;
    flight = start_flight grants destroys locks (shared w) w.flight;
  }

  abbrev pub disable_whole : Bool → Whole D → Whole D
  disable_whole destroys w = record {
    plugin = disable destroys (shared w);
    flight = stop_flight w.flight;
  }

  -- what the data references of the host and the port do to the connection
  abbrev pub change_connection : (Connection → Connection) → Whole D → Whole D
  change_connection change w =
      let c = change (shared w).connection in
      record {
        plugin = record w.plugin { connection = c };
        flight = record w.flight {
          psx = record w.flight.psx { connection_established = c.connection_established };
        };
      }

  module _ (m : Math d) where
    -- as the plugin is loaded
    abbrev pub loaded_data : PsxData D
    loaded_data = record {
      connection_established = false;
      boost_frame = zero_frame d m;
      boost_frame_applied = true;
      history = record { frames = replicate max_frames (zero_frame d m); index = 0; num = 0 };
      channels = no_channels;
      differences = record { diffs = replicate max_records (pos 0); num = 0; next = 0 };
      average_psx_time_difference = of_int (pos 0);
      interpolation_time_source = interpolation_time_source_default;
      fractions = record { raw = replicate max_raw_fractions (of_int (pos 0)); next = 0; num = 0 };
    }

    abbrev pub default_settings : Settings D
    default_settings = record {
      model_height_offset_meters = decimal d 38 10;
      model_length_offset_meters = decimal d 28194 1000;
      debug_spin_hdg = of_int (pos 0);
      always_update_elevation_info = false;
      suspend_terrain_blending = false;
      firm_ground_speed = of_int (pos 60);
      lift_ground_speed = of_int (pos 160);
      low_speed_fraction_factor = decimal d 8 10;
      publish_ground_speed = true;
      publish_motion_vector = true;
      suspend_injection = false;
      interpolate = true;
      interpolation_buffer_millis = of_int (pos 50);
      interpolation_compensate_time_difference = true;
    }

    abbrev pub loaded : Whole D
    loaded = record {
      plugin = record {
        datarefs_initialized = false;
        has_dataref_cabin_altitude = false;
        flight_loop_registered = false;
        probe = false;
        probe_info = false;
        has_boost_frame_mutex = false;
        boost_frame_applied = true;
        cycles_to_override_plane_path = pos init_cycles_to_override_plane_path;
        interpolators = no_interpolators;
        connection = record {
          connection_hostname = [];
          connection_port = negsuc 0;
          connection_established = false;
          psx_client = none;
        };
      };
      flight = record {
        psx = loaded_data;
        settings = default_settings;
        found = λ _. false;
        datarefs_initialized = false;
        has_dataref_cabin_altitude = false;
        cycles_to_override_plane_path = pos init_cycles_to_override_plane_path;
        cycles_to_update_sim_time_diff = pos init_cycles_to_update_sim_time_diff;
        terrain = record { elevation_meters = none; remaining_cycles = pos 0 };
        calculated_ground_speed = of_int (pos 0);
        low_speed_fraction = of_int (pos 0);
        ground_contact_cycles = pos 0;
        ground_contact_fraction = of_int (pos 0);
        elevation_blending_fraction = of_int (pos 0);
        psx_latitude = d.nan;
        psx_longitude = d.nan;
        psx_elevation = d.nan;
      };
    }
