-- ===== src/Lib.antt =====
-- The Basis server, a UDP server that speaks the LiteNetLib protocol to the clients of a social
-- world: its wire format, its transport, the broker of peer-to-peer links, its resource tables, its
-- moderation, and the core that ties them together.
--
-- A text is its bytes and a byte is a natural number below 256; an unsigned word is a natural number,
-- with `% 2 ^ w` where the code wraps, and a signed word or a float is its bit pattern. A hash map is
-- an association list in which a key stands once, in the order in which it iterates. An instant is a
-- number of nanoseconds that the caller supplies. A mutex or an atomic is a field: an operation of the
-- model runs from its start to its end before the next one starts.
--
-- Common holds what the parts share: Tests, Lists, Maps, Bits, Words, Int, and Utf8 with the check of
-- `std::str::from_utf8`.
--
-- Protocol, of BasisRustServer/crates/basis-protocol/src:
--   Io models io.rs: `NetWriter`, `NetReader` and each of their methods. A read is a function from a
--   reader to a value and the next reader, or an error. Io/Reads relates reads to the bytes that they
--   take, Io/RoundTrip does so for each method, and Io/Fields for runs of them.
--   ServerInfo models server_info.rs.
--   Messages, and Did for the challenges of identities, have a writer and a reader for each message of
--   messages.rs that the code writes and reads; Messages/Kinds puts them into one type. Io/Carries has
--   what it means that a reader takes back what a writer wrote, and a lemma for each way to combine
--   them.
--   Avatar models avatar.rs: the qualities, and in Avatar/Bundle the bundles of avatar packets. LZ4 is
--   an argument.
--
-- Transport, of BasisRustServer/crates/basis-transport/src/lib.rs:
--   Packet: headers, delivery methods and parsing. Merge: `build_merged_datagrams`, and the packets
--   that `process_merged_packet` takes out of a datagram; its loop has as much fuel as the datagram has
--   bytes, and each round takes two at least. Acks: `relative_sequence`, `queue_ack` and
--   `build_ack_packet`, on the window of one channel. Peer: `PeerState` and what packets that go out
--   and acknowledgements that come in do to it. Parse: server-list queries, connection requests and
--   NAT introductions. Handle: `TransportHandle`, the socket as the list of what it took, and the
--   channel of events as the list of what is in it; Handle/Ids allocates ids, with fuel for one round
--   of the 16-bit counter; Handle/Peers accepts, rejects, disconnects and times out; Handle/Sending
--   sends. Resend: one round of `reliable_resend_loop`. Dispatch: `process_packet`, with as many
--   levels of joined datagrams as the datagram has bytes. Address: `SocketAddr`.
--   The socket takes every datagram of `send_to`, and answers `try_send_to` as its state says. The
--   channel of events stays open.
--
-- P2p, of BasisRustServer/crates/basis-server-core/src/p2p.rs: `P2pBroker`. A handler gives the broker
--   after it and what it asks of the transport, which `run_effects` hands to Transport/Handle. P2p has
--   the steps on one session, P2p/Steps those that reach further and the signals by their bytes.
--   Whether a peer is authenticated is an argument.
--
-- Resources, of BasisRustServer/crates/basis-server-resources/src/lib.rs: NetIds, Ownership, Store for
--   the loaded resources, Preload for those that are loaded together, Sharing for shared content and
--   Cameras.
--
-- Permissions, of BasisRustServer/crates/basis-server-permissions/src/lib.rs: what a user may do. A set
--   iterates in the order of its list. Text has the functions on texts that it uses. `apply_group` has
--   a level more than there are groups, and `check_node` as many rounds as the node has bytes: each
--   round cuts it.
--
-- Core, of BasisRustServer/crates/basis-server-core/src/lib.rs: the state of the server, and handlers
--   that give the state after them and what they ask of the transport, which `run_requests` hands to it.
--   Admission judges requests for connections, by the text of their address. Voice and Relays pass
--   messages on, Tables has the arms of `handle_message` that change tables (Loads and Owners are parts
--   of it), Locks what they need a permission for, and Leaving is `handle_disconnect`. AvatarSync is what
--   avatar_sync.rs keeps of a player. A handler reads the state once, so a change that another task makes
--   meanwhile is not seen. The counters of statistics are left out.
--
-- Moderation, of BasisRustServer/crates/basis-server-admin/src/lib.rs: bans, the whitelist and the
--   blacklist. An operation gives the lists and what it writes to a file, last of all.
--
-- Tests runs the model at concrete inputs.
--
-- Not modelled: opening the socket and starting the tasks; the table of permissions in the metadata of
-- the server and the payloads of the database (JSON and deflate of libraries); repacking of avatar
-- packets and the ticks that send them; how permissions are edited and stored; reading the files of the
-- moderation; storage, configuration, health; what a peer is told when it is accepted, the messages of
-- administrators and the event loop of the core crate; the console, the client and the source-sync tool.
pub mod AvatarSync
pub mod Common
pub mod Core
pub mod Moderation
pub mod P2p
pub mod Permissions
pub mod Protocol
pub mod Resources
pub mod Tests
pub mod Transport
