-- ===== src/Psx.antt =====
-- src/psx.h and src/psx.c: boost frames, their text form, and the client that receives them.
pub mod Frame
pub mod Parse
pub mod Lines
pub mod Client
pub mod Received
mod Tests
