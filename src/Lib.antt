-- ===== src/Lib.antt =====
-- Verification of l2dbus, the binding of D-Bus for Lua.
--
-- The program is a library of C modules (src/) that Lua scripts load. A script builds D-Bus
-- messages from Lua values: the transcoder decides what D-Bus type a value is sent as, computes
-- the signature of a value, and boxes integers that a Lua number cannot hold in userdata of their
-- own. Timers, watches of file descriptors and matches of messages call handlers in Lua, and keep
-- what these need alive.
--
-- Files, and the code they are about:
--   Types       src/l2dbus_types.h, src/l2dbus_types.c: type identifiers and metatable names
--   Util        src/l2dbus_util.c: l2dbus_isUserData, l2dbus_getMetaTypeId, l2dbus_getTypeName
--   Int64       src/l2dbus_int64.c: casts (l2dbus_int64Cast), constructors, operators, comparisons;
--               Int64/Text is l2dbus_int64ToString; the other children hold proofs
--   Uint64      src/l2dbus_uint64.c: the same for unsigned integers
--   Boxed       what the two share
--   Transcode   src/l2dbus_transcode.c: Transcode/NumType is l2dbus_calcDbusNumType, Transcode/Tables
--               the checks of tables and l2dbus_transcodeMapLuaToDbusType, Transcode/Wrapper the reading
--               of wrapped values, Transcode/Signature is l2dbus_dbusComputeSignature;
--               Transcode/Marshall is l2dbus_transcodeMarshallAsType, Transcode/Scalars its basic
--               types, Transcode/Constructors the wrappers' constructors, Transcode/Arguments the
--               functions that send the arguments of a call, Transcode/Unmarshall
--               l2dbus_transcodeUnmarshall and the functions that return them; Transcode/Message is what they see of libdbus, Transcode/RoundTrip what is sent
--               and returned
--   RefList     src/l2dbus_reflist.h, src/l2dbus_reflist.c: l2dbus_refListInit, l2dbus_refListRef,
--               l2dbus_refListUnref, l2dbus_refListFree; RefList/Iter is the iterators
--               and l2dbus_refListFindItem, RefList/Laws what is relied on queue.h for
--   Callback    src/l2dbus_callback.h, src/l2dbus_callback.c: the references to a handler
--   Object      src/l2dbus_object.c: the registry of userdata by address
--   Userdata    what methods of userdata begin with: luaL_checkudata, l2dbus_checkModuleInitialized
--   Timeout     src/l2dbus_timeout.c: l2dbus_newTimeout, the methods, l2dbus_timeoutHandler,
--               l2dbus_timeoutDispose
--   Watch       src/l2dbus_watch.c: l2dbus_newWatch, the methods, l2dbus_watchHandler; Watch/Events is
--               about l2dbus_watchParseEvents
--   PendingCall src/l2dbus_pendingcall.c: l2dbus_newPendingCall, the methods,
--               l2dbus_pendingCallHandler, l2dbus_pendingCallDispose
--   Source      what timers and watches do in the same way; Source/Anchors has their references,
--               Source/Steps what can happen to them between creation and disposal
--   Alloc       src/l2dbus_alloc.c; Alloc/Owns counts the blocks that code is answerable for
--   Match       src/l2dbus_match.c: l2dbus_newMatch, l2dbus_disposeMatch, l2dbus_matchHandler;
--               Match/Rule is the reading of a rule and l2dbus_matchFreeRule, the other children hold
--               proofs
--   Interface   src/l2dbus_interface.c: l2dbus_newInterface, the methods, l2dbus_interfaceHandler;
--               Interface/Describe is l2dbus_interfaceParseItems and the freeing of descriptions,
--               Interface/Properties the same for properties, Interface/Register and
--               Interface/Outcome the three registrations, the other children hold proofs
--   ServiceObject  src/l2dbus_serviceobject.c: l2dbus_newServiceObject, the methods and the
--               disposal; ServiceObject/Members is the adding and removing of interfaces,
--               ServiceObject/Handler the handler, the other children hold proofs
--   Lua         the Lua C API, a parameter; Lua/Laws what is relied on; Lua/Refs the
--               references of luaL_ref, Lua/Slots what is left of them
--   C           machine words, strtoll and strtoull, and sprintf of an integer
--   Dbus        the type codes of D-Bus
--   Base        results, lists, integers and Boolean tests that the others share
--   Tests       a small Lua state, a small list, timers, watches, matches, and the theorems at concrete values
--
-- How they interact: the transcoder asks Util what a userdata is, and Util asks Types for the name
-- of its metatable; the casts of Int64 and Uint64 use Util and Boxed; the computation of a
-- signature uses the mapping of types at every level.
--
-- Timeout and Watch use Source, which uses Callback for their handlers, Object for the address
-- that libcdbus hands back, and Userdata; PendingCall uses the same three; Match uses Callback and
-- Alloc, and Interface uses both and Object; ServiceObject uses RefList and the table of references.
--
-- Conventions. The Lua state is a snapshot, the record `Lua`, since the modelled functions change
-- no Lua value. A reference list is the links, the items that are allocated and what was given
-- back to the registry. A function that can fail returns a `Result`: `lua_error` is a call of
-- luaL_error or luaL_argerror, `undefined` is behaviour that C leaves undefined (signed overflow,
-- a division by zero, a read outside a block), `out_of_fuel` a recursion that the model cut off.
-- `errno` is passed through the casts, since the code does not reset it. A double is a sign, a
-- whole part and a fraction. Machine words are ℕ below 2^64 or ℤ with the test `fits`.
--
-- A message is the tree of its arguments, and a signature the tree of its types, as the iterators of
-- libdbus visit them; what libdbus and memory refuse is the parameter `Library`. What was appended
-- before an error stays in the message in the code; the model forgets it. A Lua table that the code
-- fills is a list of fields.
--
-- A method of a userdata is an `Action`: the state comes back also when an error is raised. The
-- table of references, the timers and watches of libcdbus, the pending calls of libdbus and the
-- allocator are the parameters `Refs`, `Timers`, `Watches`, `PendingCalls`, `Connections`,
-- `Interfaces` and `Memory`; `RefsLaws` and `MemoryLaws` state what is documented of them. A handler in
-- Lua is a function of the state. Fresh references are unlike the others only where no reference was
-- given back that was not in use (`IsSound`): pending calls and failed constructors do give some back
-- twice. lua_getfield may raise an error where the code reads the tables of a user, `raises`, and
-- strtoll may set EINVAL for a string without digits, `sets_einval`.
--
-- Fuel. The loops of `__pow` halve the exponent: 64 and 65 rounds are enough. The checks of tables
-- recurse into tables without a bound in the code: fuel above the depth of the table is enough,
-- and for a table that holds itself no fuel is. The computation of a signature stops below level
-- 32: 34 levels are enough. The marshalling follows the type, and takes one unit of fuel for every
-- variant inside a variant: one unit is enough for a type without variants. A word has at most 64
-- digits in any base. The loops over a reference list take one round more than it has items.
--
-- Not modelled: the conversion of a boxed integer to a double and its concatenation, and the modules
-- for connections and messages; the rest calls libcdbus, libdbus and the Lua C API
-- only. The string buffer of libcdbus is a parameter.
pub mod Alloc
pub mod Base
pub mod C
pub mod Boxed
pub mod Callback
pub mod Int64
pub mod Interface
pub mod Uint64
pub mod Dbus
pub mod Lua
pub mod Transcode
pub mod Match
pub mod Object
pub mod PendingCall
pub mod RefList
pub mod ServiceObject
pub mod Source
pub mod Timeout
pub mod Types
pub mod Userdata
pub mod Util
pub mod Watch
mod Tests
