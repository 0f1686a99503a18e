-- ===== src/Plugin.antt =====
-- src/plugin.c: the X-Plane plugin, part by part.
pub mod History
pub mod Connection
pub mod Lifecycle
pub mod DataRefs
pub mod Blending
pub mod TimeDifference
pub mod Countdown
mod Tests
pub mod Receive
pub mod QueryTime
pub mod TimeSource
pub mod FlightLoop
pub mod Registration
pub mod Whole
