-- ===== src/Lib.antt =====
-- A model of the chat backend of this repository (TypeScript on Bun, PostgreSQL, Redis), and the
-- theorems on its sessions, accounts, rooms, messages, sockets, requests and request limits.
--
-- The parts. A request runs through the middlewares of src/infrastructure/http/middlewares to a
-- controller, a frame of a socket through the event router of src/infrastructure/ws to a handler;
-- both validate their input with the schemas of src/application/dtos and call the use cases of
-- src/application/use-cases. A use case checks its caller, calls the repositories of
-- src/infrastructure/db/repositories, and publishes events on the channel `room:<id>` of the bus.
-- The connection registry of src/infrastructure/ws subscribes to that channel for the rooms that
-- its sockets are in, and sends on what comes.
--
-- The files:
--   Prelude     tests on numbers and options, tables as lists of rows, sorting
--   Domain      src/domain/entities, src/domain/errors, the DTOs and their mappings
--   World       the tables, what was published and what was mailed, and the actions on them
--   Store       one module per repository; the constraints of migrations/ are written out
--   Auth        src/application/use-cases/auth. Session, Refresh, Credentials and EmailLinks hold
--               the use cases, Signer src/infrastructure/jwt/jose-token-signer.ts; Linear, Families,
--               Rotation, Overlap, Refusals, Takeover, Verification and Accounts the proofs
--   Rooms       src/application/services/room-authorizer.ts and use-cases/rooms. Authorizer,
--               Membership and Creation hold the code; Policy and Deletion compare it with rules
--               that stand beside it; Orderly, Invariant, CreationInvariant, MessagesInvariant and Reach hold the
--               invariant of the two tables, Shared the proof on direct rooms; Queries holds
--               get-room.ts and list-my-rooms.ts
--   Profiles    src/application/use-cases/users, but for GetUser, which is `get_user` of Auth
--   Messages    src/application/use-cases/messages, in UseCases, and the proofs
--   Ws          connection-registry.ts of src/infrastructure/ws in Registry; Synced, Seats,
--               Keeping and Delivery hold the invariant of the registry and the bus, Races what
--               breaks it; Events holds the envelopes of fanOutBusEvent; Gateway holds gateway.ts,
--               Socket holds envelope.ts, Router holds event-router.ts and its handlers; Answers,
--               Lifetime and Live hold the proofs on frames and open sockets
--   Limits      src/infrastructure/rate-limiter/in-memory-rate-limiter.ts, and in Sliding
--               src/infrastructure/redis/redis-rate-limiter.ts, which is the one in use
--   Json        JSON values and the combinators of zod; Schemas holds those of src/application/dtos
--   Http        responses, error-mapper.ts, and rate-limit.ts on the limiter in memory
--   Web         requests and what they share; Compose holds compose.ts, Middlewares the six
--               middlewares, Chain what a chain of them comes to
--   Controllers one module per controller of src/infrastructure/http/controllers, with the
--               attachments of use-cases/attachments; Pages holds proofs, Samples data for tests
--   Server      src/create-server.ts; Total, Guards, Protected, Headers, Privacy, Entry,
--               Signing, SignedIn and Attempts hold the proofs
--   Migrations  src/infrastructure/db/migrator.ts
--   Bus         src/infrastructure/redis/redis-message-bus.ts; Tables and Subscribers hold the proofs
--   Ids         src/infrastructure/crypto/uuidv7.ts
--   Tickets     src/infrastructure/redis/redis-ws-ticket-store.ts
--   Presence    src/application/use-cases/presence and redis-presence-store.ts; Expiry adds the times
--               at which Redis drops a hash, Deadlines and Silence hold the proofs on them
--   Config      src/infrastructure/config/env.ts; Wiring holds what src/composition-root.ts and
--               src/create-server.ts take from it, Production the proofs
--   Storage     src/infrastructure/storage/s3-object-storage.ts
--   Seed        scripts/seed-dev.ts; Upserts and Again hold the proof on a second run
--
-- State and effects. A use case is an `Action`: from a `World` to a result and the `World` after
-- it. An exception is a value, and the state before it stays, since each statement commits by
-- itself. A constraint that a statement breaks is the error `fault`. A clock reading, a drawn id,
-- a salt or a random token is an argument. A registry is a record of lists, and an event on a
-- channel reaches every handler that the bus holds for the room.
--
-- Data. A UUID is a number, in the order of UUIDs, and so is the text of one, in the order of
-- texts, such that an id has the number of its text as the database prints it. Where rooms compare or
-- join the texts that requests give, a `GivenId` has both numbers, and a `dmKey` is a sorted pair of
-- texts; the registry and the channels of the sockets, whose keys are texts too, and the test of
-- mark-as-read.ts on the room are modelled for ids that are spelt as the database prints them. A digest is a number; a date is its milliseconds. What Bun, jose and the string methods compute is the record `Runtime`;
-- one hypothesis is made of it, `HashesVerify`, that a password verifies against its own hash. Where
-- the signer matters, jose is the record `Jose`, and `IsJose` says what it promises of a token that
-- it signed. The client of AWS is the record `Aws`, and the text of a UUID the parameter `show`.
--
-- A request works on a `Turn`: what all requests share, its context, and the counter of compose.ts.
-- A frame works on a `Hub`. The settings of env.ts are the record `Settings`, what one request draws
-- and reads from clocks the record `Moment`, and what comes from outside the repository the records
-- `Outside` and `Zod`: jose, the string methods, the checks of zod, the storage. The router of Bun is
-- the argument that says which route a request matches. A URL is the list of its parts.
--
-- Loops are by recursion on their list, so that no fuel is needed, but for `next` of compose.ts: it
-- has one unit for each middleware and one for the handler, which `compose-nested` shows to be
-- enough. A mail that is not awaited is
-- modelled as run to its end with its errors dropped; publishing on the bus is taken to succeed.
-- Two requests do not interleave within a use case, except in Ws.Races and
-- Auth.Overlap.
--
-- Not modelled: the construction of the objects in the composition root; e-mail and logging; start and stop of the process. They are wiring, input and output, or calls of other
-- services. The sockets of Ws work on a presence that does not expire, which Presence.Expiry has
-- beside it. The cast of an address to inet is left out: the controllers give none. Settings with
-- negative integers, which env.ts lets through, are left out of Config.Wiring. An update of a profile without any field is left out. Frames of one socket do not
-- overlap with each other.
pub mod Prelude
pub mod Domain
pub mod World
pub mod Store
pub mod Auth
pub mod Rooms
pub mod Messages
pub mod Ws
pub mod Limits
pub mod Json
pub mod Ids
pub mod Tickets
pub mod Profiles
pub mod Presence
pub mod Http
pub mod Web
pub mod Controllers
pub mod Storage
pub mod Seed
pub mod Server
pub mod Config
pub mod Migrations
pub mod Bus
