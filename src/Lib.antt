-- ===== src/Lib.antt =====
-- PSX/XP Mover, a plugin that moves an aircraft in X-Plane as the simulator PSX says: a model of its
-- C code in src/ and the theorems that make it correct.
--
-- A thread of src/psx.c holds a TCP connection to a boost server of PSX, by the checks and sockets of
-- src/network.c. It cuts lines out of what it receives and parses each as a boost frame, with the
-- numbers of src/utils.c. The callback in src/plugin.c compares the clocks and adds each value of the
-- frame to an interpolator of src/interpolation.c. The flight loop of src/plugin.c takes the latest
-- frame and the interpolated values, calculates a ground speed from the frames of the last seconds
-- and how much of the elevation comes from X-Plane's terrain, and moves the aircraft. All parts log
-- through src/logger.c.
--
-- Files and what they model:
--   Base: Boolean tests, lists under native indices, signed integers with C's conversions, and the
--     newest-first view of a ring that three of the components are.
--   Double: `double` as a parameter, with the laws of IEEE 754 arithmetic that theorems rely on as
--     records; Double/Fixed is a concrete instance, with which witnesses run.
--   Memory: writes of the C library into a buffer.
--   Interpolation: src/interpolation.c, one function for each of its own, NULL as `none`; Timeline has
--     its meaning as a list of frames, Refine and Seek the refinements, Query and Bounds the values.
--   Psx: src/psx.c; Parse is psx_parse_boost_frame, with a printer of lines in Print; Lines is the byte
--     loop of run_connection_loop, where the line buffer is the bytes in front of the write cursor;
--     Client is create_psx_client, destroy_psx_client and the outer loop, as a list of rounds; Received
--     is psx_recalculate_boost_frame and on_line_received.
--   Utils: parse_int, parse_long and parse_double of src/utils.c; Conversions has its units and the
--     distance between two places, Copies zmalloc and copy_string.
--   Logger: src/logger.c, its static variables as a record, the message buffer as its 4096 bytes.
--   Network: src/network.c; Connect is connect_tcp_client with the sockets that it opens and closes.
--   Plugin: src/plugin.c, part by part: History (find_previous_boost_frame_by_age, record_boost_frame),
--     Connection (recreate_psx_client and the data references that call it), Lifecycle (XPluginEnable,
--     XPluginDisable), DataRefs (the accessors), Blending, Countdown (parts of flight_loop_callback),
--     TimeDifference (the clocks in on_boost_frame_received) and Receive (all of that callback, and
--     reset_psx_data, on_psx_connected and on_psx_disconnected), with Receive/Aligned and
--     Receive/InStep for the six interpolators together; TimeSource (get_millis); QueryTime (the time
--     that flight_loop_callback asks the interpolators for).
--   Plugin/FlightLoop: flight_loop_callback as a whole. Its static variables are a record, and what it
--     sets in X-Plane is a list. Setup, Frame, Speed and Elevation are its parts in their order, Callback
--     composes them, and Run has the steps of the plugin: a cycle, a callback of the receiver, and a
--     setting that is changed from outside.
--   Plugin/Whole: XPluginEnable and XPluginDisable on all of the variables, the state in which the plugin
--     is loaded, and in Steps what leads on from it, changes of the host and the port included, each
--     where X-Plane or a client can take it.
--   Plugin/Registration: the data references that the plugin provides. Expose has the functions that
--     expose them, Table the calls with their arguments, Cycle when they are made and undone, and
--     Documented the table of README.md, which the calls are compared with.
--
-- Integers: `int` and `long` are integers, with the wrap-around of each conversion written out
-- (`int32`, `u32`); `unsigned int` and indices are native numbers. Chars are the bytes 0 to 255.
-- Loops are structural recursion, over a list or over the count that bounds the loop in C: the
-- remaining frames of an interpolator, the recorded boost frames, the bytes received. The printing of
-- numbers has fuel, one more than the number, which has at most as many digits. The two loops over
-- seconds in QueryTime have fuel too, and a theorem on how much is enough, also for the flight loop,
-- whose cycle has no outcome (`none`) where they do not end.
--
-- What the system answers is an argument: memory (in psx_parse_boost_frame, for each field), mutexes
-- and threads, getaddrinfo, socket and connect, the clock, atof, the functions of <math.h>, and what
-- snprintf makes of a time and a format. What X-Plane answers in a cycle of the flight loop is one
-- record of arguments: the data references that it finds, its coordinates, its terrain and its time.
-- Each call is one step: the shared boost frame and the interpolators are read and written under one
-- mutex, but the flight loop uses the history and the fractions behind its end, and what the
-- connection's thread does to them at that time is not modelled. The session of a client is one with
-- both callbacks given, as the plugin gives them. interpolation_time_source is a natural number,
-- since any number other than 1 and 2 is replaced before it is used.
--
-- Not modelled: XPluginStart and XPluginStop, which log and copy names, the manual tests, and the
-- threads for macOS, which are another project's.
pub mod Base
pub mod Double
pub mod Interpolation
pub mod Logger
pub mod Memory
pub mod Network
pub mod Plugin
pub mod Psx
pub mod Utils
