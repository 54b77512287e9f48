-- ===== src/Lib.antt =====
-- The Ouroboros network crate: mini-protocols of a Cardano node over one multiplexed connection.
--
-- A connection carries frames of a time, a channel number, a length and a payload. Its demultiplexer
-- hands each payload to the queue of its channel. On a channel runs one mini-protocol, a state machine
-- in which one side at a time has the agency: with its own agency a machine sends a message, and with
-- the other side's it reads a payload, decodes the CBOR messages in it and takes them in. Each message is
-- an array of CBOR values.
--
-- Prelude (with Tests, Lists, Int, Outcome, Words): shared names and lemmas, integers with Rust's casts,
--   the outcome of fallible code. `panic` is a panic, which ends a run.
-- Model: src/model.rs, the data of points, tips and block headers.
-- Cbor: the data type and the codec of serde_cbor, a parameter with the laws that proofs use. Cbor.Sample
--   is a small codec that has these laws, for concrete runs. It is not CBOR.
-- Values: src/protocols.rs, the cursor `Values`. Convert: points and tips there. Header: block headers
--   there, over BLAKE2b as a parameter.
-- Mux: src/mux.rs. `send` is what `Connection::send` puts on the wire, `feed` the task of `run_demux`
--   byte by byte, `deliver` its look-up, `recv` the receipt. Frames, Delivery, Fifo: proofs.
-- Mux.Connection: src/mux.rs. `open_channel` is `Connection::channel`, `drop_channel` the drop of a
--   `Channel`, by which the last one aborts the task; `Step` is what may happen to a connection. Bounds,
--   Invariant, Handover, End: proofs.
-- Mux.Connect: src/mux.rs, `tcp_connect`, `unix_connect` and the clock of a connection, over what becomes of
--   a request and over tokio's `timeout`; Sample is one for concrete runs.
-- Protocol: src/protocols.rs, the trait `Protocol` as a record, and `send_bytes`, `receive_bytes` and
--   `execute`. Stream: bytes of several messages and their first parts. Receive, Execute, Fuel: proofs.
-- Protocol.Duplex: src/protocols.rs, `execute` on both ends of a connection: `turn` is the body of its loop,
--   and `step` a turn of either end, while bytes are on their way. Reading: proofs. Protocol.Traces: what a run
--   exchanges as a path through a relation between states.
-- Handshake: src/protocols/handshake.rs; Versions has the numbers, Builder the calls of
--   the builder, Scenarios the tests. Messages, Machine, Agreement, Refusal, Builder: proofs. Duplex: a client and a
--   server on both ends, with Steps for each phase of their exchange and Progress for whole runs.
-- ChainSync: src/protocols/chainsync.rs; `ask_intersect` and `ask_next` are the client's methods
--   `find_intersect` and `request_next`. Messages, Machine, Session, Fuel: proofs.
-- BlockFetch: src/protocols/blockfetch.rs; `finish` is the client's method `done`, and `fetch_range` is
--   the use of the client in examples/blockfetch.rs. Lifetime is the run of the test
--   `client_works`, and Typed the exchange as a relation between states. Messages, Machine, Fetch, Session,
--   Request, Wire: proofs, Wire behind the multiplexer.
-- TxSubmission: src/protocols/txsubmission.rs. Machine: proofs.
-- Programs: examples/, what the programs do with the library. `negotiate_as` is the handshake with which
--   each of them begins, `sync_on` examples/sync.rs on the payloads that its channels get, `tip` examples/tip.rs, `ping`, `local` and `serve` the
--   programs ping.rs, local.rs and server.rs. Opening, Sync, FollowTip: proofs. Programs.Wire:
--   `sync`, the program sync.rs on one connection, on which it opens its channels. Programs.Ping: all of ping.rs. Programs.Local: all of local.rs. Programs.Fetching: blockfetch.rs, with Batch for its proofs.
--   Programs.Serving: the loop of server.rs. Programs.Store: `handle_block` of examples/common.rs and the loop of examples/blockread.rs, over the database and
--   the decoder of blocks as parameters. Kept, ReadBack: proofs.
-- The modules Examples hold tests and the theorems at concrete inputs.
--
-- Bounds and fuel. Numbers on the wire keep their wrap-around. `receive_loop` has one turn more than
-- bytes, which is always enough, since an item takes a byte. `execute` takes its fuel from the caller: a
-- turn sends a message or takes a payload. The inbox of a channel is the list of the payloads that will
-- arrive; where it is empty, a machine that has to read is `waiting`, which is no end of the program. Two ends
-- that take turns need as many rounds as their messages have bytes, and four. Times are microseconds.
--
-- Not modelled: logging and its wording; the event writer, the database and the logger as they are set up;
-- the socket pair of the tests; a send that is cut short by its own cancellation; real delays, apart from
-- those of connecting.
pub mod Prelude
pub mod Model
pub mod Cbor
pub mod Values
pub mod Convert
pub mod Header
pub mod Mux
pub mod Protocol
pub mod BlockFetch
pub mod ChainSync
pub mod Handshake
pub mod TxSubmission
pub mod Programs
