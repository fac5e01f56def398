-- ===== src/Transcode.antt =====
-- src/l2dbus_transcode.c: what D-Bus type a Lua value is sent as, its signature, how it is appended to a
-- message, and how the arguments of a message become Lua values.
pub mod NumType
pub mod Tables
pub mod Wrapper
pub mod Signature
pub mod Message
pub mod Scalars
pub mod Marshall
pub mod Arguments
pub mod Unmarshall
pub mod RoundTrip
pub mod Constructors
