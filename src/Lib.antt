-- ===== src/Lib.antt =====
-- The verification library of i2pd, a router of the I2P network written in C++.
--
-- A router sends I2NP messages through tunnels and over transports, and offers local services to
-- applications. The parts that are modelled, and how they work together:
--
-- Ssu (core/transport/SSUData.cpp, SSUData.h): the data layer of an SSU session, a transport over UDP.
--   `SsuData` is the state of the class: the incomplete messages, the messages sent but not yet
--   acknowledged, the ids received, the three timers and the packet size. Ssu/Transmit has `Send` and the
--   resend timer, Ssu/Receive `ProcessFragments`, `ProcessMessage` and the two other timers, Ssu/Acks
--   the writing and reading of acknowledgements. Packets that go to the session, which encrypts
--   and sends them, and messages for the handler above are logged in `actions`. Proofs: Ssu/Packets,
--   Ssu/Reassembly, Ssu/Delivery, Ssu/Acks/Numbering, Ssu/Timers.
-- Tunnel (core/tunnel/TunnelBase.h): constants and delivery types. Tunnel/Gateway
--   (core/tunnel/TunnelGateway.cpp) cuts I2NP messages into the fragments of tunnel data messages of 1028
--   bytes: `put_i2np_msg` is `PutI2NPMsg`, `complete_current_tunnel_data_message` its namesake.
--   Tunnel/Endpoint (core/tunnel/TunnelEndpoint.cpp) takes the fragments out again, puts messages
--   together and hands them on: `handle_decrypted_tunnel_data_msg` is `HandleDecryptedTunnelDataMsg`.
--   Between the two, transit routers encrypt and decrypt. Proofs: Tunnel/Headers (the instructions in
--   front of a fragment), Tunnel/Layout (padding and checksum), Tunnel/Receiver (fragments in order),
--   Tunnel/Fragments and Tunnel/Sending (follow-on fragments), Tunnel/First (whole messages and first
--   fragments), Tunnel/RoundTrip (an idle gateway and the endpoint), Tunnel/Lost and Tunnel/Total (a gateway at
--   work), Tunnel/Safety (an endpoint with input of any content).
-- Socks (client/SOCKS.cpp): the handler of one SOCKS client, a state machine over single bytes:
--   `handle_byte` is the `switch` of `HandleData`, `handle_bytes` its loop. A request that is accepted
--   ends in a stream to an I2P destination. Proofs: Socks/Invariant, Socks/Handshake.
-- Bob (client/BOB.cpp, BOB.h): the sessions of the BOB command channel. `Session` holds the members of
--   `BOBCommandSession` and the channel that it uses; a pointer to a destination is an index into a
--   heap, where a deleted object is missing. Bob/Commands has one case for each command handler,
--   Bob/Input what happens between lines. Proofs: Bob/Lines.
-- Streaming (core/Streaming.cpp, Streaming.h): streams of bytes, the transport that applications use on top
--   of the tunnels. `Stream` holds the members of the class. Streaming/Wire has the bytes of a packet,
--   Streaming/Sending `SendBuffer`, `Send`, `SendPacket` and `ConcatenatePackets`, Streaming/Acks `ProcessAck` and
--   `SendQuickAck`, Streaming/Receiving `HandleNextPacket` and `ProcessPacket`, Streaming/Closing `Close`,
--   Streaming/Reading `AsyncReceive`, Streaming/Timers the resend and
--   acknowledgement timers, Streaming/Dispatch the streams of a destination.
--   Packets that are sent, calls of handlers and posted work are logged in `actions`; identities and
--   signatures are the parameter `Services`. Proofs: Streaming/InOrder, Streaming/Placing and Streaming/Delivery (the
--   receiving half, with a run as a step relation), Streaming/Nacks and Streaming/Acked (what is acknowledged),
--   Streaming/Cutting and Streaming/Flushed (what is sent), Streaming/Window, Streaming/WireRoundTrip,
--   Streaming/Frame (what the sending half leaves alone).
-- Identity (core/Identity.cpp, Identity.h): `IdentityEx`, the keys and the certificate that name a router or a
--   destination: `from_buffer` is `FromBuffer`, `to_buffer` `ToBuffer`, `verifying_key` the key that `CreateVerifier`
--   takes. The pointer to the extended buffer tells a deleted buffer from none. Identity/Keys makes new
--   identities, and has `PrivateKeys`. Proofs: Identity/RoundTrip, Identity/Created, Identity/Private.
-- LeaseSet (core/LeaseSet.cpp, LeaseSet.h): the inbound tunnels that a destination publishes: `from_pool` is the
--   constructor from a tunnel pool, `publish` what it writes, `from_bytes` the other constructor, `update` is `Update`.
--   It reads and writes identities by Identity. Proofs: LeaseSet/Leases, LeaseSet/Publish, LeaseSet/Expiry.
-- I2np (core/I2NPProtocol.h, I2NPProtocol.cpp): the messages that routers send, as their bytes: `fill_header` is
--   `FillI2NPMessageHeader`, `to_ssu` and `from_ssu` are `ToSSU` and `FromSSU`; I2np/Lookup has the lookups. Proofs:
--   I2np/Header.
-- Garlic (core/Garlic.cpp, Garlic.h): messages for the far end, hidden under a key that both ends know by one-time
--   tags. `RoutingSession` is `GarlicRoutingSession`. Garlic/Session has the life of its tags, Garlic/Wrap the cloves,
--   Garlic/Single the rest of `WrapSingleMessage`; Garlic/Incoming is `HandleGarlicMessage` and `HandleAESBlock`,
--   Garlic/Receive `HandleGarlicPayload`. Garlic/Destination has the sessions of a `GarlicDestination`, which two of
--   its maps share. Proofs: Garlic/Cloves and Garlic/Delivering (cloves as they are handled), Garlic/Blocks
--   (encryption), Garlic/Payload (the cloves that are made), Garlic/Exchange, Garlic/Unwrapping and Garlic/RoundTrip
--   (a message and its handling), Garlic/Tags, Garlic/Known and Garlic/Confirmed (the tags on both ends),
--   Garlic/Status, Garlic/Owned and Garlic/EndToEnd (a session with an owner).
-- Netdb (core/NetworkDatabase.cpp): `handle_database_lookup_msg` is `HandleDatabaseLookupMsg`, which answers a lookup
--   out of a database that is a parameter, under a key for one use of Garlic. Proofs: Netdb/Replies, Netdb/Answers.
-- Profiling (core/Profiling.cpp, Profiling.h): `RouterProfile`, by which a router chooses the peers of its tunnels:
--   `is_bad` is `IsBad`, `load` and `save` are `Load` and `Save` over what a file holds. Proofs: Profiling/Rating.
-- Base64 (core/util/base64.cpp): the codec with the alphabet of I2P, which Bob and the address book
--   use for destinations. Proofs: Base64/RoundTrip.
-- Prelude: the names of the standard library that are used everywhere, lists over the native numbers,
--   bytes and big-endian words, and finite maps by numbers (Assoc) and by texts (Dict).
--
-- The tests and the theorems at concrete inputs stand in the modules named Tests.
--
-- Numbers are natural numbers with the wrap-around of their width written out; a signed `int` that
-- overflows is taken to wrap around too (Base64). A read or a write outside of a buffer, but for those
-- that are named below, a failed assertion and the use of a deleted object are outcomes of their own
-- (`none`, `fault`, `overrun`, `broken`). The loops of the encoder, of the acknowledgements and of the
-- SOCKS parser are structural on their bytes. Three loops have fuel: `split_message`, where each
-- round takes at least a byte off the message if the payload size is positive, so the length
-- of the message is enough; `follow_on`, likewise; and `handle_fragments`, where each round takes
-- at least a byte off the payload, so its length is enough. `put_i2np_msg` calls itself once at most.
-- A run of a stream (Streaming/Delivery) is any sequence of these steps: packets of one sender that
-- follow its SYN and carry none themselves, plain acknowledgements, reads, writes, timers, posted work
-- and closing.
--
-- Not modelled: sockets, threads, files and the daemon; the cryptographic libraries, which are
-- parameters (`Crypto`, the hash of the endpoint and of identities, `Services`) with what their documents promise as
-- hypotheses (`IsSound`); Base32; the tunnels that BOB starts; in streaming,
-- the choice of leases and tunnels and the compression; in garlic routing, a message that outgrows its buffer and
-- one that arrives inside of another; the fixed buffers of a lease set (3072 bytes) and of a DatabaseStore
-- (4096 bytes), which only a certificate far longer than any key needs would outgrow; the rest of the
-- network database and of the I2NP messages, the SSU and NTCP
-- handshakes and the SAM bridge, which are not there yet.
pub mod Prelude
pub mod Base64
pub mod Socks
pub mod Tunnel
pub mod Ssu
pub mod Bob
pub mod Streaming
pub mod Garlic
pub mod I2np
pub mod Identity
pub mod LeaseSet
pub mod Netdb
pub mod Profiling
