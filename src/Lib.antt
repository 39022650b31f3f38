-- ===== src/Lib.antt =====
-- Verification library of the AION 5.8 server (server/src): what a client and the server say
-- to each other, how a login passes from port to port, and the state that the world keeps per
-- entity.
--
-- The gateway (server/src/cmd/gateway) stands between the clients and the world. A client logs
-- in on the auth port with an RSA credential block, gets a one-time token, and presents it on
-- the game port, whose packets are enciphered by a chained stream cipher. The relay loop then
-- forwards the client's packets to the world engine, which keeps players, NPCs, stats and
-- buffs as components of entities. A director decides on interventions in the world once per
-- tick.
--
-- - Prelude and Bytes: Boolean tests, lists over the native numbers, maps as association
--   lists, the exclusive or, and little-endian numbers in byte sequences.
-- - Crypto.GameCrypt (server/src/internal/crypto/gamecrypt.go): `encrypt`, `decrypt`,
--   `validate_client`, `evolve_key` and the opcode and key obfuscation, with Stream, Session
--   and Opcode below it. Session states what runs of packets do, with rejected packets in
--   between.
-- - Crypto.XorCipher, Crypto.BlowfishLe, Crypto.Rsa (xor.go, blowfish_le.go, rsa.go beside
--   it): the other ciphers. The block cipher of golang.org/x/crypto is the parameter
--   `BlockCipher`.
-- - Packet (server/src/internal/aionproto/packet.go): a packet is its buffer and its read
--   position; Frame is about its wire form, Fields about field reads and writes, Conn about
--   packets in a byte stream.
-- - TinyClient (server/src/cmd/tinyclient/main.go): the client's side of the credential block,
--   in Conn its packets on the game port, and in Reading its parsers of the world's packets.
-- - Gateway.Wire, Gateway.Creation, Gateway.Relay (server/src/cmd/gateway/game.go and
--   slot_map.go): the frames of the game port, the creation of characters with the bounds of
--   its fixed buffer, and the relay loop as a step function.
-- - Gateway.Login (game.go, main.go and handshake.go beside it): the token's way through the
--   client and the life of a game connection, login, character list and relay loop, with the
--   events it publishes; Events says what these are, Conn which connections publish them.
-- - Gateway.AuthPort (session.go and handshake.go beside it): the packets of the auth port,
--   with their checksum and their blocks.
-- - Gateway.Session (session.go beside it): the stage of a session and the packets with a
--   two-byte opcode through its ciphers; Session.Exchange lets it talk with TinyClient.Conn,
--   which still uses these packets where the gateway has moved to Gateway.Wire's frames.
-- - Gateway.AuthConn (main.go and handshake.go beside it): a whole auth-port connection, from
--   the key packet to SM_PLAY_OK, as a function from the incoming bytes to the token store and
--   the effects; Xor has the first packet's scrambling, Chosen and Safe say what is stored,
--   and for whom.
-- - SessionStore (server/src/internal/session/store.go): one-time tokens. Redis and the JSON
--   form are the parameters `Redis` and `Json`.
-- - World (server/src/internal/ecs/world.go): the component maps; Index, Buffs and Components
--   are about the session index, buffs, and creation and destruction.
-- - Dispatcher (server/src/cmd/world/dispatcher.go): the world server's sessions and
--   subscriptions over World; CharacterList builds SM_CHARACTER_LIST from database rows.
-- - Memory (server/src/internal/memory): the in-memory vector store with its insertion sort,
--   and in Retriever the recall over any `VectorStore`.
-- - Spsynth (server/src/internal/spsynth): the comparison of two result sets, and in Validator
--   the two validators.
-- - Logd (server/src/cmd/logd/writer.go): the batcher and its writer.
-- - Admin (server/src/cmd/admin): Limiter, Auth and Router are the rate limiter, the users and
--   tokens, and the middleware chain; Guarded, Login and Limiter.Collect are about them.
-- - Director (server/src/internal/director): a tick's decision and the decimal texts of the
--   descriptions.
-- - Tests: every theorem at a concrete input.
--
-- A method that takes a lock is atomic, so it is a function from the state to the state after
-- it, and a run of calls is a list of them. A w-bit integer is its pattern, with its
-- wrap-around written out; a float is its bit pattern. Loops are structural recursion on the
-- bytes they walk, or on a number of rounds: the block loops on the number of blocks, the
-- checksum's on the number of bytes, of which it takes four per round, the game port's login
-- phases on their ten attempts, the decimal loop on the 20 bytes of its buffer, which hold
-- every 64-bit number. A run over a stream takes as many rounds as packets are expected.
--
-- Parameters stand for what is outside: Redis and JSON, block ciphers, JSON web tokens,
-- bcrypt, token buckets, database procedures, sort.Slice with the comparison it is given, and
-- floating-point arithmetic, each with the laws that a theorem uses as a record. The insertion
-- sort takes one round per candidate behind the first and one step per place before it; the
-- comparison of result sets takes the longer side's length; the first packet's scrambling
-- takes at most as many rounds as the packet has bytes.
--
-- Not modelled: network deadlines, failed writes on the game port (a failed write ends a
-- handler as a failed read does), key files, logging, the Lua host and the call of Lua
-- functions on ticks, the database and messaging clients, telemetry, configuration, the
-- synthesis of stored procedures by a language model, calls of the log batcher that
-- interleave, the personas, the job workers, and the tools for load tests.
mod Prelude
mod Bytes
pub mod Crypto
pub mod Packet
pub mod TinyClient
pub mod Gateway
pub mod SessionStore
pub mod Memory
pub mod World
pub mod Logd
pub mod Admin
pub mod Spsynth
pub mod Dispatcher
pub mod Director
mod Tests
