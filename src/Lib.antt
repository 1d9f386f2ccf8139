-- ===== src/Lib.antt =====
-- Verification of p2p-net, a node for peer-to-peer applications over libp2p.
--
-- The library's parts, and the files that model them:
-- - crates/common/error.rs: `Common.Error`, with `Result` and its bind. Reasons that the source
--   formats from a value of another library are fixed words here.
-- - crates/api/mod.rs: `Api.Message`, the application message, the rules for topics and
--   `validate_app_message`; `Api.Envelope`, how messages are made, written to one envelope and read
--   from it, and bound to the author and topic that Gossipsub authenticates.
-- - crates/api/fragmentation.rs: `Api.Fragmentation` (the sender `fragment_message` and the wire
--   checks of `decode_fragment`) and `Api.Fragmentation.Reassembler` (`push` and `expire` of
--   `AppFragmentReassembler`). Sender and receiver meet in the fragments: `Wire`, `Chunks` and
--   `Reassembly` follow a message from one to the other.
-- - crates/protocol/pulse.rs: `Protocol.Config`, the security configuration that the next two read.
-- - crates/protocol/app_security.rs and pulse.rs: `Protocol.ReplayCache`, the two replay caches as
--   one that is generic in its key, and `Protocol.AppSecurity`, the decision on each application
--   message.
-- - crates/protocol/pulse.rs: `Protocol.Heartbeat`, the binary frame of a heartbeat and the decision
--   on each frame that comes in.
-- - crates/protocol/reputation.rs: `Protocol.Reputation`, the bounded store of peer reputations with
--   its age index and decay.
-- - crates/connectivity/limits.rs: `Connectivity.Limits`, the limits and the counters that enforce
--   the limit for each IP.
-- - crates/connectivity/peer_book.rs: `Connectivity.PeerBook`, the records of known peers, the
--   indexes over them and the eviction of the disconnected; `Ops` has the methods and their
--   histories.
-- - crates/connectivity/connection_strategy.rs: `Connectivity.Strategy`, the plan of a connection
--   from the addresses of the peer book, and the plans whose later attempts are pending.
-- - crates/connectivity/relay/address.rs: `Connectivity.Relay.Address`, the addresses through which
--   a relay is used.
-- - crates/connectivity/relay: `Connectivity.Relay.Retry` (reservation_retry.rs), `Metering`
--   (metering.rs), `Schedule` (schedule.rs) and `Service` (config.rs).
-- - crates/connectivity/mediator.rs and direct_upgrade.rs: `Connectivity.Mediator`, the limits of a
--   relay that mediates, and `Connectivity.DirectUpgrade`, the relayed connections of browsers.
-- - crates/node/dial.rs: `Node.Dial`, which dials the attempts of a plan in order, decides when to
--   dial by itself and keeps its statistics in the sets of `Connectivity.BoundedSet`.
-- - crates/connectivity/dht/state.rs: `Connectivity.Dht`, the providers that the DHT found, the
--   policy of automatic connections to them and the queries in progress.
-- - crates/node/events/kademlia.rs: `Node.AutoConnect`, the dialing of found providers, in which the
--   DHT's policy, the statistics of dialing and the dial itself meet.
--
-- State is passed explicitly: a method that takes `&mut self` gives the new state back. A `HashMap`
-- or `BTreeMap` is an association list (`Prelude.Assoc`), a `HashSet` or `BTreeSet` a list, a peer id
-- or a connection id a number, a `str` the list of its code points, and an `Instant` the number of
-- nanoseconds since some start (of seconds in the relay and DHT modules), given to the method that
-- reads the clock. Unsigned integers are natural numbers with Rust's saturation written out; signed
-- ones are those of `Prelude.Int`.
--
-- What is not in the repository is a parameter: the JSON codec, BLAKE3 and the texts of peer ids
-- (the records `Externals`, `EnvelopeExternals` and `HeartbeatExternals`), the hexadecimal codec, the
-- texts of addresses (`AddrText`), the swarm (`Dialer`), the live counters of relay circuits and the
-- standard library's parsing of a u16.
-- The hypotheses on them are that what is written reads back and that a hash prints as 64
-- hexadecimal digits; the modules of `Tests` have functions for which they hold.
--
-- Loops follow the structure of their list; `chunks` runs on fuel, for which the length of the list
-- is enough (`Chunks.concat-chunks`), and decimal printing of a u32 on fuel for 10 digits. An index
-- out of range, where Rust panics, is `none`.
--
-- Not modelled: the asynchronous event loop and the libp2p behaviours that it drives, files and
-- network input and output, the adapters to platforms, and the vendored libraries under external/.
pub mod Prelude
pub mod Common
pub mod Api
pub mod Protocol
pub mod Connectivity
pub mod Node
pub mod Tests
