-- ===== src/Lib.antt =====
-- SMKVM: one keyboard, one mouse and one clipboard over several machines.
--
-- A server has the keyboard and the mouse; each client is a machine that receives input while the
-- cursor is on it. Machines speak in frames of messages. The clipboard is offered by name and fetched
-- only when something pastes, and files ride on it, a piece at a time, all through the server. The
-- state machines touch no socket and no clipboard: they take inputs and answer with outputs, which
-- the daemons of crates/smkvm-cli carry out.
--
-- The parts, and the files that model them:
--
-- - Base: Rust's containers and tests. A HashMap or BTreeMap is an association list whose order no
--   theorem fixes (Maps), a BTreeSet or HashSet the ordered list of its elements (Sets), a slice or
--   vector a list (Lists, Members), an i32 an integer over the native numbers (Int, I32), PartialEq and Ord are
--   interfaces (Equality).
-- - Layout: crates/smkvm-layout/src. Model has the data of model.rs and geom.rs: a DeviceId, 32 bytes,
--   is the number that the bytes spell, and a placement's key, hexadecimal text and a name, is the
--   pair, since the hexadecimal text has 64 digits always. Geometry is geom.rs: an i32 is an integer
--   whose sums and differences wrap round (Base.I32), and the f64 of distances, exits and scaled
--   maps is a parameter, the record Float, of which the theorems assume nothing; Rational is an
--   instance for runs. Desktop is model.rs (`report_monitors`, `place_rect`, `auto_place`,
--   `unplaced`, `cells`), Resolve is resolve.rs (`locate`, `snap`, `resolve`), Hex `to_hex` and
--   `short`. Geometry.Points, Desktop.Cells, Places, Reports and Identities, Resolve.Lands and Back
--   hold the proofs.
-- - Proto: crates/smkvm-proto/src. Keys is keys.rs, Msg is msg.rs (the messages with the derived
--   equality and orders), Codec is codec.rs: `encode_with_limit`, `decode`, and the FrameDecoder with
--   `extend`, `compact` and `next_frame`. The bytes of a message are postcard's, an external crate:
--   `to_stdvec` and `from_bytes` are parameters. Codec.Parse and Codec.Stream hold the proofs.
-- - Core.Exchange: crates/smkvm-core/src/exchange.rs, the clipboard. State has the inputs, outputs and
--   the Exchange record with the source's fields; Serve the helpers (`serve_waiters`, `fail_waiters`,
--   `start_fetch`, `forget`, `chunk`); Machines `peer_up` and `peer_gone`; Offers `local_changed`,
--   `offered` and `announce`; Fetches `requested`, `wanted`, `chunk_arrived` and `read_done`; Handle
--   `peer_said` and `handle`. `&mut self` and `&mut out` are the record Run that the handlers thread.
--   An Instant is a number of nanoseconds, and the difference of two is 0 where the source
--   saturates; the u64 counter of offers is kept modulo 2 ^ 64. Tickets and Answers follow the
--   pastes, Effects and Tidy the loop of `forget`, Invariant the state, Conversation a whole fetch.
-- - Core.Transfer: crates/smkvm-core/src/transfer.rs, files through the server: `handle`, `pull`,
--   `peer_said`, `peer_gone`. Pulls is about the pieces that a machine asks for, Told and Relays about
--   the requests that it passes on, Sources and Departures about the machines that they went to.
-- - Input: crates/smkvm-input/src/lib.rs. Inject is the trait that a platform implements, as a
--   parameter: a type of devices with the trait's operations, and IsObedient for "Implementations do
--   exactly what they are told". A platform may refuse any change. Tracked is the record of what
--   is held: `key`, `button`, `sync`, `release_all`. Logged puts a log of the refusals beside any
--   platform and changes nothing else of it, so that a theorem can say of a run what was refused in
--   it (Notes, Keeps, Loops, Synced and Released, one key or button at a time,
--   and Plain). Board has the platforms of the examples, one of which refuses a key.
-- - Core.Client: crates/smkvm-core/src/client.rs over the same parameter: `handle`, `suspend`, `resume`,
--   `disconnected`. Session runs it over a sequence of events; Kept, Runs, Loose
--   and Held are about what it holds, one key or button at a time, and Plain about the log.
-- - Core.Server: crates/smkvm-core/src/server.rs, over Layout. State has the events, the actions and
--   the Server record; Placements `set_placements`, `apply_placements` and `refresh_reserved`;
--   Pointer `advance`, `may_cross`, `cross_to`, `settle_pending`, `recall_cursor`, `resettle`; Handle
--   the other handlers, `handle` and `reconfigure`. A handler returns the server and the actions
--   that the source pushes on `out`. Online, Invariant, Arrivals, Consistent and Usable hold the proofs, and
--   Histories runs the server over a sequence of events; Routed is about the actions.
-- - Core.Joined: the server and a client together, the client taking what the server says to it (`feed`).
--   Told is about one message, Follows and Steps about one event, Sessions about a sequence of them.
-- - Gui.Snap: crates/smkvm-gui/src/snap.rs, where a screen comes to rest that the editor drops (`snap`,
--   `along`, `settle`, `is_clear`). Pulls and Clear hold the proofs.
-- - Cli.Outbox: crates/smkvm-cli/src/secure/outbox.rs (`post`, `missed`, `put_back`, `next`). The channel is
--   the standard library's bounded queue; Threads takes the posters' and the drain's steps one by
--   one, in any order; Order follows the messages from `post` to `next`. A channel with no room, where
--   the standard library has the sender meet the receiver, is left out.
-- - Cli.Plan: crates/smkvm-cli/src/secure/plan.rs (`install`, `uninstall`, and `is_a_daemon` from the words
--   of the command line on).
--
-- A client's Tracked belongs to the Client; the Exchange and the Transfer of a machine stand beside
-- it and share no state with it. A Bulk message reaches the Exchange or the Transfer, any other the
-- Client. Logging is left out.
--
-- All loops are structural recursion on what they walk. The one place with fuel is the fetch of
-- Core.Exchange.Conversation, where two machines exchange requests and chunks: the fuel is the number
-- of chunks, and one more turn than the whole chunks of `max_chunk_data` bytes is enough.
--
-- Not modelled: the encrypted link and pairing (crates/smkvm-net), the configuration
-- (crates/smkvm-config), the platforms' input and clipboard backends, the rest of the graphical
-- editor, the command line and the rest of the daemons. The platforms, the editor and the daemons are
-- calls of the operating system and of other crates; `formats_from_names` of exchange.rs reads configuration words.
pub mod Base
pub mod Cli
pub mod Core
pub mod Gui
pub mod Input
pub mod Layout
pub mod Proto
