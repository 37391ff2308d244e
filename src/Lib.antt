-- ===== src/Lib.antt =====
-- suplalite: a lightweight SUPLA server and devices in Python. The part modelled is what every
-- connection rests on, the messages as bytes, the table of message classes and the packets on a
-- stream; the server, with its state, the life of its connections and the handlers that register
-- clients and devices, run actions and pass values on; and the client that a device runs, with the
-- values of its channels.
--
-- Parts and files:
-- - Python/: what the code uses of Python. `Result` is a call that may raise, with the class of the
--   exception; `Bytes` has slices and indexing with negative bounds, `Word` the integer types of
--   `ctypes` with their wrap-around, `Text` the UTF-8 codec of `str`, with surrogates refused, and
--   `Dict` the dictionary in insertion order.
-- - Encoding/: suplalite/encoding.py. `Schema` has the metadata that `c_int8` .. `c_packed_array`
--   build; `Fields` is `fields`, with its size fields and their offsets; `Encode` is `encode` and the
--   `_encode_*` functions, `Decode` is `decode`, `partial_decode`, `_decode_field` and the
--   `_decode_*` functions. A message is the list of its attributes. A float is its 64-bit pattern.
--   `WellFormed` is a test on expanded fields that a class passes if its size fields stand where the
--   decoder needs them; `Fits` says which values a class carries.
-- - Proto/: suplalite/proto.py as data: constants, enumerations (name and value of each member) and
--   the 62 message classes, which `Proto/Messages` lists.
-- - Packets/: suplalite/packets.py. `PacketStream` has the fields of the class but the reader and the
--   writer. `have_packet`, `next_packet`, `recv`, `advance_send_rr_id` and `send` are the methods. A
--   `recv` gets the list of results that the reads of the stream will give, and returns those that it
--   did not use; its recursion is on that list, so a `recv` always ends: a list that runs out is the
--   end of the stream. `send` gets whether the writer takes the bytes. `Session` has the loops that a
--   sender and a receiver of several packets run.
-- - Server/, its state: suplalite/server/state.py. `Types` has the records and `ServerState`; `State`
--   the methods on clients, `Devices` those on devices and channels, `Icons` icons and scenes,
--   `LastValue` `set_channel_value`. A method returns its result and the state after it. The hash and
--   the base64 text of icons are arguments. `Reachable` has the calls on clients as a step relation.
-- - Server/, its connections: suplalite/server/__init__.py, suplalite/server/context.py and
--   suplalite/server/events.py. A `World` is what the handlers work on: the state, the event queues,
--   the connections with their contexts, and what has been sent. An `Action` on it may raise, and
--   keeps what it changed before. `Connections` opens and ends a connection. A
--   handler runs under the lock of the state, as one step; the replacement of the context is a step of
--   its own, since the lock is released before it. A teardown has two steps: it tests without the lock
--   whether the connection has been superseded, and then waits for the lock (`ending` of `World`) while
--   other connections go on. `Idle` says how a state is set up before the server starts, and `Service`
--   has the steps of the connections from there on, in any order. `handle` and `close_connection` are
--   the same steps with nothing in between. `Broadcast` is the event loop of `Server`; the program's
--   own handlers of events are an argument.
-- - Server/, its handlers: suplalite/server/handlers.py. `ClientRegistration` and `Registration` are
--   the registrations, with the old connection of the same guid superseded; `Actions` has the values
--   that actions on channels give, `Acting` the actions and the values that clients set, `Requests`
--   what passes between clients and devices, and `Packs` `build_pack_message`, which calls `batched`
--   of suplalite/utils.py, in Utils.antt. A handler gets its message decoded.
-- - ChannelValues: the messages of channel values, which handlers and channels use.
-- - Device/: suplalite/device. `Channels` has the channels of suplalite/device/channels.py,
--   `Channels/Codec` their encoded values; the arithmetic of floats, `Floats`, and the callbacks are
--   arguments. `Client`, `Rounds` and `Messages` are `Device` of suplalite/device/__init__.py: its task
--   loop is a sequence of rounds, each at a time of the clock in microseconds, and its handlers get
--   the messages that arrive. `Runs` has any sequence of rounds, messages and changes
--   after a start.
-- - Tests/: runs on concrete data.
--
-- Loops over fields, items, reads and dictionaries are structural recursion. `batches` has fuel: each
-- batch takes at least one item, so the number of items is enough.
--
-- Not modelled: the messages of exceptions; the sockets, TLS and tasks of suplalite/network.py,
-- suplalite/server/__init__.py and suplalite/device/__init__.py, which are asyncio and tlslite, with
-- the starts and stops of those tasks; suplalite/server/api.py and suplalite/logging.py; printing
-- (`to_hex`, `IntFlag`); `close` of a stream; the getters of the state that copy a whole table; the
-- programs of examples/; and so far the handlers that send the locations, channels, scenes and their
-- values to clients, those of channel configurations, authorization and tokens, and the tables that
-- find the handler of a call or an event.
pub mod Common
pub mod Python
pub mod Encoding
pub mod Proto
pub mod Packets
pub mod Utils
pub mod ChannelValues
pub mod Server
pub mod Device
pub mod Tests
