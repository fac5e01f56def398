-- ===== src/Tests.antt =====
-- Small Lua states, and the theorems at concrete values in them.
mod Vm
mod Int64
mod Interface
mod Uint64
mod Transcode
mod Messages
mod RefList
mod Events
mod Memory
mod Alloc
mod Match
mod PendingCall
mod ServiceObject
mod Source
mod Timeout
mod Watch
