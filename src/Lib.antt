-- ===== src/Lib.antt =====
-- nmux, a terminal workspace whose state is owned by a server and synced to its clients.
--
-- A session (crates/nmux-core/src/session.rs) has tabs, each with a tree of panes. Events of
-- clients, panes and timers are queued by a deterministic scheduler, accepted one at a time by the
-- session's core, and recorded in a trace. Output of a pane goes through its terminal engine
-- (crates/nmux-core/src/terminal.rs), whose report is compared with the pane to find the patch that
-- clients are sent.
--
-- - Base: shared tests, lists, words and the order of texts. A `String` is the list of its code
--   points, a byte string the list of its bytes. `u32`, `u64` and `usize` are numbers; the
--   additions that saturate and the casts that wrap are written out where the code has them.
-- - Protocol: the enumerations of crates/nmux-proto/src/generated/nmux_generated.rs.
-- - Host: `HostSpec` and `CommandSpec` with their builders (crates/nmux-core/src/host.rs), and
--   `PlanningHost` in Host/Planning, with a list of pairs for its map of processes.
-- - Terminal: cursors, modes, colours, cell runs, an engine's input and its report, and the
--   interface `TerminalEngine`, which is the trait with its state made explicit. Sessions are
--   modelled over any such engine. Terminal/Interim is the parser `InterimAnsiParser`, and
--   Terminal/Interim/Merge the engine `InterimTextTerminalEngine`, over a decoder of UTF-8 that is
--   a parameter. Terminal/Keys and Terminal/Mouse encode keys and mouse events.
-- - Session: panes, tabs and sessions. A `Pane` is a record of its fields but the children, with a
--   list of panes. Session/Tree has the functions on trees and Session/Tabs the operations of
--   `Session`; a write through the reference of `pane_mut` is the function `write_pane`.
--   Session/Update is `apply_terminal_update` with the functions below it, in the order of its
--   steps, and Session/Output the handlers that call it. Session/Environment is
--   `set_pane_nmux_environment` and `from_pane_output`.
-- - Session/Event, Session/Core: events, their effects, `SessionCore` and replay.
-- - Session/Scheduler, Session/Trace, Session/Actor: `DeterministicSessionScheduler`,
--   `SessionTraceRing`, `SessionActor` and `SessionRegistry`. A `BTreeMap` is an association list
--   that insertion keeps in the order of its keys. `drain_ready` runs on fuel; any fuel above the
--   number of queued events is enough.
-- - Wire: `read_frame` and `write_frame` (crates/nmux-proto/src/wire.rs), over the accessor of a
--   frame's protocol version, which is a parameter; `write_default_frame` is over any stream. Wire/RoundTrip reads and writes lists of frames.
-- - Client/StateFile: the fields of the client's state file
--   (crates/nmux-cli/src/local/state_file.rs, and the palette of client_state.rs beside it).
-- - Frame: the tables of surface frames, as the arguments of their builders in the generated file.
--   The FlatBuffers library is the interface `FlatBuffers`: it reads back the tables of an envelope
--   that is within its limits. Session/Frame has `pane_surface` and the functions that build the
--   snapshot and the patch of a pane, and Session/Frame/Hash the hashes of a row.
-- - Client/Surface: what a client keeps of a pane (crates/nmux-cli/src/local/surface.rs), with
--   the validators, the decoders and `surface_update_from_frame` (crates/nmux-cli/src/local.rs),
--   `from_snapshot`, `apply_patch` and `apply_update`. An error is a constructor for each message.
--   A method that changes the surface in place is a function that returns the surface also with an
--   error, and an index out of bounds is the error `panicked`. Client/Surface/Render is the text
--   of a surface, Client/Surface/Summary what is reported of it, Client/Receive decodes a frame
--   and applies it, and Client/Cache is `apply_surface_update_styled` on the surfaces that a
--   client keeps (crates/nmux-cli/src/local/client_state.rs).
-- - Sync: the frame that the server chooses for the version that a client knows, and the loop that
--   writes the changed surfaces (crates/nmux-cli/src/local.rs), up to the first frame that is
--   refused or cannot be written; the stream's `write_all` is a parameter. Sync/Mirror says what
--   an up-to-date client shows of a pane, without frames, and the modules beside it compare it
--   with what the frames bring: Sent, Listed and Snapshot for a snapshot, Changes, Kept, Rising,
--   Palette, Patch, Patched, Kinds and Replaced for the kinds of patches, Response, Refines and
--   Run for the server and the client together, and Shown for the text. Planned and Known are
--   about the loop that writes.
-- - Examples: runs on concrete values.
--
-- Not modelled: the bytes of FlatBuffers and the frames of other messages than surfaces, the
-- libghostty-vt engine, processes and sockets, and the rest of the client, which are input and output
-- or calls of libraries.
pub mod Base
pub mod Protocol
pub mod Host
pub mod Terminal
pub mod Session
pub mod Client
pub mod Wire
pub mod Frame
pub mod Sync
pub mod Examples
