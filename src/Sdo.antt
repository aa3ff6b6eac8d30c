-- ===== src/Sdo.antt =====
-- The SDO protocol (canopen/sdo): the frames, the server, and the client's streams.
pub mod Constants
pub mod Frames
pub mod Server
pub mod Client
pub mod Base
pub mod Bits
