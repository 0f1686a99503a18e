-- ===== src/Plugin/Receive/Sound.antt =====
-- What is received stays sound: the indices of the rings and records are in range, whatever the
-- timestamps of the frames are.
use psx_xp_mover.Base.{
  ℕ, ◌≤◌, ◌<◌, ◌≡◌, refl, ◌∙◌, arith, Bool, true, false, Bool-cases, inl, inr, Option, none, some,
  length, length-set, ◌==◌, if◌then◌else◌,
}
use psx_xp_mover.Base.Int.{ℤ}
use psx_xp_mover.Double.{Double}
use psx_xp_mover.Interpolation.{Interpolator, interpolator_add_point, interpolator_reset}
use psx_xp_mover.Interpolation.Inv.{IsIndexed, add_point-IsIndexed}
use psx_xp_mover.Psx.Frame.{BoostFrame}
use psx_xp_mover.Plugin.History.{History, record_boost_frame}
use psx_xp_mover.Plugin.Blending.{Fractions, record_raw_elevation_blending_fraction}
use psx_xp_mover.Plugin.TimeDifference.{
  Differences, clock_diff, record_difference, local_millis, receive_difference,
}
use psx_xp_mover.Plugin.Receive.{
  Channels, PsxData, PsxEvent, connected, disconnected, received, add_points,
  on_boost_frame_received, reset_psx_data, handle,
}

pub record HasIndexedDifferences (s : Differences) : Type 0 where
  pub storage : length s.diffs ≡ 770
  pub next_in : s.next < 770
  pub num_in : s.num ≤ 770

module _ {V : Type 0} where
  abbrev pub IsIndexedIfAny : Option (Interpolator V) → Type 0
  IsIndexedIfAny none = Unit
  IsIndexedIfAny (some i) = IsIndexed i

  pub record HasIndexedHistory (h : History V) : Type 0 where
    pub storage : length h.frames ≡ 154
    pub index_in : h.index < 154
    pub num_in : h.num ≤ 154

  pub record HasIndexedChannels (c : Channels V) : Type 0 where
    pub latitude : IsIndexedIfAny c.flight_deck_latitude
    pub longitude : IsIndexedIfAny c.flight_deck_longitude
    pub elevation : IsIndexedIfAny c.psx_elevation_msl_meters
    pub heading : IsIndexedIfAny c.heading_true_degrees
    pub pitch : IsIndexedIfAny c.pitch_degrees
    pub bank : IsIndexedIfAny c.bank_degrees

  pub record HasIndexedFractions (f : Fractions V) : Type 0 where
    pub storage : length f.raw ≡ 5
    pub next_in : f.next < 5
    pub num_in : f.num ≤ 5

  -- what is received
  pub record IsSoundData (p : PsxData V) : Type 0 where
    pub history : HasIndexedHistory p.history
    pub channels : HasIndexedChannels p.channels
    pub differences : HasIndexedDifferences p.differences
    pub fractions : HasIndexedFractions p.fractions

record_difference-HasIndexedDifferences :
    (a : ℤ) (s : Differences)
    → HasIndexedDifferences s
    → HasIndexedDifferences (record_difference a s)
unfolding record_difference
record_difference-HasIndexedDifferences a s w = record {
  storage = length-set s.diffs _ a ∙ w.storage;
  next_in = omega arith;
  num_in = ground (arith, w.num_in);
}

pub record-HasIndexedHistory :
    {V : Type 0} (h : History V) (f : BoostFrame V)
    → HasIndexedHistory h
    → HasIndexedHistory (record_boost_frame h f)
unfolding record_boost_frame
record-HasIndexedHistory h f w = record {
  storage = length-set h.frames _ f ∙ w.storage;
  index_in = omega arith;
  num_in = ground (arith, w.num_in);
}

module _ (d : Double) where
  open d use {D}

  pub record_fraction-HasIndexedFractions :
      (x : D) (f : Fractions D)
      → HasIndexedFractions f
      → HasIndexedFractions (record_raw_elevation_blending_fraction d x f)
  unfolding record_raw_elevation_blending_fraction
  record_fraction-HasIndexedFractions x f w = record {
    storage = length-set f.raw f.next x ∙ w.storage;
    next_in = omega arith;
    num_in = ground (arith, w.num_in);
  }

  add_point-IsIndexedIfAny :
      (i : Option (Interpolator D)) (t : ℕ) (v : D)
      → IsIndexedIfAny i
      → IsIndexedIfAny (interpolator_add_point d i t v)
  unfolding interpolator_add_point
  add_point-IsIndexedIfAny none t v w = tt
  add_point-IsIndexedIfAny (some i) t v w = add_point-IsIndexed d i t v w

  reset-IsIndexedIfAny :
      (i : Option (Interpolator D)) → IsIndexedIfAny i → IsIndexedIfAny (interpolator_reset d i)
  unfolding interpolator_reset
  reset-IsIndexedIfAny none w = tt
  reset-IsIndexedIfAny (some i) w = record {
    storage = w.storage;
    start_in = w.start_in;
    num_in = omega arith;
  }

  add_points-HasIndexedChannels :
      (frame : BoostFrame D) (c : Channels D)
      → HasIndexedChannels c
      → HasIndexedChannels (add_points d frame c)
  unfolding add_points
  add_points-HasIndexedChannels frame c w = record {
    latitude = add_point-IsIndexedIfAny c.flight_deck_latitude _ _ w.latitude;
    longitude = add_point-IsIndexedIfAny c.flight_deck_longitude _ _ w.longitude;
    elevation = add_point-IsIndexedIfAny c.psx_elevation_msl_meters _ _ w.elevation;
    heading = add_point-IsIndexedIfAny c.heading_true_degrees _ _ w.heading;
    pitch = add_point-IsIndexedIfAny c.pitch_degrees _ _ w.pitch;
    bank = add_point-IsIndexedIfAny c.bank_degrees _ _ w.bank;
  }

  receive_difference-HasIndexedDifferences :
      (clock : D) (frame : BoostFrame D) (s : Differences)
      → HasIndexedDifferences s
      → HasIndexedDifferences (receive_difference d clock frame.timestamp_millis_part s).1
  unfolding receive_difference
  receive_difference-HasIndexedDifferences clock frame s w =
      let recorded =
        record_difference-HasIndexedDifferences
          (clock_diff (local_millis d clock) frame.timestamp_millis_part) s w in
      ground (arith, recorded)

  differences_if :
      (b : Bool) (s t : Differences)
      → HasIndexedDifferences s
      → HasIndexedDifferences t
      → HasIndexedDifferences (if b then s else t)
  differences_if true s t v w = v
  differences_if false s t v w = w

  received-IsSoundData :
      (locks : Bool) (clock : D) (frame : BoostFrame D) (p : PsxData D)
      → IsSoundData p
      → IsSoundData (on_boost_frame_received d locks clock frame p)
  unfolding on_boost_frame_received
  received-IsSoundData locks clock frame p w =
      let measured =
        differences_if (p.interpolation_time_source == 1) _ _
          (receive_difference-HasIndexedDifferences clock frame p.differences w.differences)
          w.differences in
      elim (Bool-cases locks) [
        | inr fails ↦ rw fails (record {
          history = w.history;
          channels = w.channels;
          differences = measured;
          fractions = w.fractions;
        })
        | inl good ↦ rw good (record {
          history = w.history;
          channels = add_points-HasIndexedChannels frame p.channels w.channels;
          differences = measured;
          fractions = w.fractions;
        })
      ]

  pub reset-IsSoundData :
      (locks : Bool) (p : PsxData D) → IsSoundData p → IsSoundData (reset_psx_data d locks p)
  unfolding reset_psx_data
  reset-IsSoundData false p w = w
  reset-IsSoundData true p w = record {
    history = record {
      storage = w.history.storage;
      index_in = w.history.index_in;
      num_in = omega arith;
    };
    channels = record {
      latitude = reset-IsIndexedIfAny p.channels.flight_deck_latitude w.channels.latitude;
      longitude = reset-IsIndexedIfAny p.channels.flight_deck_longitude w.channels.longitude;
      elevation = reset-IsIndexedIfAny p.channels.psx_elevation_msl_meters w.channels.elevation;
      heading = reset-IsIndexedIfAny p.channels.heading_true_degrees w.channels.heading;
      pitch = reset-IsIndexedIfAny p.channels.pitch_degrees w.channels.pitch;
      bank = reset-IsIndexedIfAny p.channels.bank_degrees w.channels.bank;
    };
    differences = w.differences;
    fractions = record { storage = refl; next_in = omega arith; num_in = omega arith };
  }

  -- the flag of the connection is of no account
  pub connection-IsSoundData :
      (b : Bool) (p : PsxData D)
      → IsSoundData p
      → IsSoundData (record p { connection_established = b })
  connection-IsSoundData b p w = record {
    history = w.history;
    channels = w.channels;
    differences = w.differences;
    fractions = w.fractions;
  }

  pub handle-IsSoundData :
      (e : PsxEvent D) (p : PsxData D) → IsSoundData p → IsSoundData (handle d e p)
  unfolding handle
  handle-IsSoundData (received locks clock frame) p w = received-IsSoundData locks clock frame p w
  handle-IsSoundData (connected locks) p w =
      reset-IsSoundData locks _ (connection-IsSoundData true p w)
  handle-IsSoundData (disconnected locks) p w =
      reset-IsSoundData locks _ (connection-IsSoundData false p w)
