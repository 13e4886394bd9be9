-- ===== src/Lib.antt =====
-- Verification of baltica, a Minecraft Bedrock networking library in TypeScript.
--
-- baltica speaks RakNet over UDP (packages/raknet), and the Bedrock game protocol over that
-- (packages/baltica), whose clients get their tokens from the services of Microsoft (packages/auth).
-- The core of RakNet is `NetworkSession` of packages/raknet/src/shared/network-session.ts, which a
-- server keeps for every connection and a client for its only one, with the wire formats under
-- packages/raknet/src/shared/proto.
--
-- A payload goes out by `frameAndSend` and `sendFrame`, which number it, split it if it is too
-- long and queue it; `flush` puts the queue into a frame set with a sequence number of its own and
-- keeps it until `onAck`; `onNack` and `tick` send it again. A datagram that comes in is an
-- acknowledgement or a frame set. `onFrameSet` notes its sequence number, `handleFrame` the
-- reliable index of each frame; `handleSplit` puts fragments together, and `handleSequenced` and
-- `handleOrdered` decide what is handed on, and when.
--
-- A server (packages/raknet/src/server) has one session for each endpoint and answers the messages
-- of the others itself; a client (packages/raknet/src/client) binds its socket before its session
-- sends.
--
-- Above RakNet, a client and a player (packages/baltica/src/client/client.ts, server/player.ts) agree on
-- the compression, log in with a chain of tokens that the client has made or been given, and make the
-- key of their encryption from each other's public keys; from then on both compress and encrypt with
-- packages/baltica/src/shared/serializer. `Auth.login` of packages/auth asks the services for the
-- tokens by one of three flows, or takes them from its cache file.
--
-- Files and the code they model, under packages/raknet/src/shared unless said otherwise:
--   Stream          what the program uses of BinaryStream of @serenityjs/binarystream, which is
--                   not in the repository: a record of calls, and its documented laws as a
--                   hypothesis; Stream/Sample is a concrete stream that fulfils them
--   Address         proto/types/address.ts
--   Packets         proto/enums/packet.ts, proto/types/magic.ts and mtu.ts; Packets/Offline and
--                   Packets/Online are the packets of proto/packets, and the other files of the
--                   folder are about their round trips
--   Frame           proto/types/frame.ts
--   FrameSet        proto/packets/online/frame-set.ts
--   Acknowledgement proto/packets/online/acknowledgement.ts, ack.ts and nack.ts; Acknowledgement/Sets
--                   is about the quotient of lists by their sets of members
--   Ordering        handleSequenced and handleOrdered; the handler of payloads is a parameter
--   Fragment        handleSplit, and the cutting of sendSplit
--   Outbound        sendFrame, sendSplit, queueFrame, flush, onAck, onNack, the last part of tick;
--                   Outbound/Messages, Datagrams and Copies are about a sender of game packets
--   Window          the bookkeeping of onFrameSet and handleFrame, and the cleanup of tick
--   Session         the whole NetworkSession: Session.antt has its state and handleOnlinePacket,
--                   Session/Offline handleClientOffline, handleServerOffline and the offline
--                   retry, Session/Receive receive, onFrameSet and handleFrame, Session/Tick tick,
--                   Session/Keepalive startKeepalive and destroy; Session/Duplicates and Repeats
--                   are about frame sets that come again, Session/Waiting about a client before the
--                   second reply, Session/Arrivals, Network and Transport about a sender and a
--                   receiver with a network between them
--   Server          packages/raknet/src/server/server.ts and connection.ts
--   Serializer      packages/baltica/src/shared/serializer; the ciphers, the hash, zlib and the
--                   framing are a record of calls with their laws as a hypothesis
--   RaknetClient    packages/raknet/src/client/client.ts: binding, connecting and closing in every order
--   Socks5          socks5.ts: the datagrams that go through a relay, and in Socks5/Relay its handshake
--   Auth            packages/auth/src/auth: Auth/Replies and Services xbox.ts, playfab.ts, session.ts and
--                   the device code of microsoft.ts, Auth/Pages and Password its password flow,
--                   Auth/Cache cache.ts, Auth/Login auth.ts; the other files of the folder are about
--                   their runs
--   Json            JSON values
--   LoginPayload    packages/baltica/src/server/login-payload.ts
--   Bedrock         the game protocol's packets; Bedrock/Identity and Player are
--                   server/player.ts, Bedrock/ClientState and Client client/client.ts,
--                   Bedrock/LoginOptions and LoginData client/types/login/login-data.ts,
--                   Bedrock/Authentication the part of client.ts that fills the login data;
--                   Bedrock/Handshake, Steps, Completion and Offline are about a client and a player
--                   that log in to each other, Bedrock/Ending, Handlers and Once about a client's end,
--                   Bedrock/Uuid about `nextUUID`
--   Bridge          routePacket of packages/baltica/src/bridge/bridge-player.ts; Bridge/Players has the
--                   tables of packages/baltica/src/server/server.ts and bridge/bridge.ts, and
--                   Bridge/Lifetimes and Eviction are about them
--   Base            tests, lists, sets and maps
--   Examples        runs on small inputs
--
-- State. The fields of a session are split into the records Ordering, Outbound and Window and the
-- map of Fragment, by the methods that use them, and Session puts them together. A `Set` is a list
-- without repetitions and a `Map` an association list, both in the order of insertion; an array of
-- 32 channels is a map. Numbers are natural numbers: the fields that start at -1 are kept plus
-- one, and those that TypeScript leaves undefined are 0. `Date.now()` is an argument, `this.send`
-- appends to a list, `emit` appends an event, and a timer is whether it is set. A handler ends
-- normally, with an exception, or never. The sequence numbers and indices of a session are not
-- wrapped by the code, nor here; the wire formats say below which bound they come back.
--
-- Loops. Those over lists are structural. The loop of `Frame.read` has the length of the stream
-- for fuel, and `handleOrdered` the size of the queue, of which each round deletes an entry. The
-- loop of `sendSplit` runs as often as its bound, which is Infinity at an MTU of 36: there the
-- model has no result, since what follows depends on how the stream writes Infinity.
--
-- Requests of packages/auth run in a monad of a world, with the clock, the file of the cache and the
-- events; the services are functions of the request. In packages/baltica a handler returns the new
-- state, with what it sends and emits appended to lists, and a key, a token or a cipher comes from a
-- record of calls, with the laws of what the code relies on as a hypothesis. The operations of the
-- RakNet client are a list, of which each does nothing where it cannot happen.
--
-- The network between two sessions is a list of what reaches the receiver, each datagram by its
-- position among those that were sent; a datagram that is not in the list is lost, and one that is
-- there twice is repeated.
--
-- Not modelled: sockets, and the start and stop of a server; the options that a bridge gives to a
-- player's client, and its polling of the backend's status; the emitter, whose `emit` is an event
-- appended or the run of the listeners that the code sets, and the logger, which is output; the debug
-- file and the texts of the messages of packages/auth; `JSON.parse` of an array, which JavaScript
-- makes a text first.
pub mod Acknowledgement
pub mod Address
pub mod Auth
pub mod Base
pub mod Bedrock
pub mod Bridge
pub mod Examples
pub mod Fragment
pub mod Frame
pub mod FrameSet
pub mod Json
pub mod LoginPayload
pub mod Ordering
pub mod Outbound
pub mod Packets
pub mod RaknetClient
pub mod Serializer
pub mod Server
pub mod Session
pub mod Socks5
pub mod Stream
pub mod Window
