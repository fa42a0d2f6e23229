-- ===== src/Lib.antt =====
-- ChatWave's backend: a NestJS server for chats, groups and calls over MongoDB, Redis and sockets.
--
-- The services of the server share one state, `World` (World/State): the collections as lists of rows
-- in insertion order, the Redis keys with their times to live, the clock, the next number that is
-- drawn, and the outbox, in which every socket message, event, mail and cookie stands in the order in
-- which it is sent. A handler is an `Action`: it takes a world to a result or a thrown exception and a
-- world, and what it wrote before it threw stays written. World/Effects has the reads and writes,
-- World/Ttl the keys with a time to live, World/Keeps and World/Hoare the rules by which a property is
-- carried through a handler. Ids are numbers, and times are in milliseconds. What comes from libraries
-- and the configuration is the record Env: whether an id is an ObjectId, the ring timeout, the time of
-- day, upper and lower case, bcrypt, the check of a JWT, and random draws, each a function of a number
-- that is drawn once.
--
-- The parts, each a directory of src/, and the files that model them:
--   calls          src/calls/calls.service.ts: Calls/Rows has what a handler does to the loaded row,
--                  Calls/Service the handlers (`hang_up` is `end`), Calls/Run the requests that reach
--                  them from calls.controller.ts, the gateway and the ring timer. Calls/Lifecycle,
--                  Calls/Frame, Calls/Tracks, Calls/Handlers and Calls/Start carry the proofs:
--                  the diagram of the statuses, what leaves the calls alone, the invariant of the
--                  collection, and each handler in turn.
--   conversations  src/conversations/: Conversations/Rows has the functions on one row,
--                  Conversations/Preview the preview line and the key of a direct chat,
--                  Conversations/Details the answers and the rows that are made,
--                  Conversations/Service the handlers, Conversations/Listing the list (Filters on it),
--                  Conversations/Peers the direct chats by peer; Conversations/Pairs is on the key of a
--                  direct chat.
--   messages       src/messages/: Messages/Html, Labels, Reactions and Receipts have the pure parts,
--                  Messages/Rows the rows that are made and read, Messages/Service the handlers.
--   groups         src/groups/groups.service.ts: Groups/Service; it calls conversations and messages.
--                  Groups/Admins is on who is left as an admin, Groups/Roles on `setAdmin`.
--   blocks         src/blocks/blocks.service.ts with the removal of a contact: Blocks/Queries,
--                  Blocks/Restricted (the cached list of restricted ids), Blocks/Service.
--   contacts       src/contacts/: Contacts/Notes has the note of a person, Contacts/Service the handlers,
--                  Contacts/Lists the lists; Contacts/Book is on the rows.
--   sockets        src/messages/messages.gateway.ts, src/calls/calls.gateway.ts, src/calls/calls.realtime.ts
--                  and src/messages/adapters/socket-session.adapter.ts: Sockets/State has what the
--                  server keeps of its sockets, a record around `World`; Sockets/Session the handshake,
--                  the loss of a socket and the timers (the one of handleDisconnect in two steps,
--                  since other requests may come before the count it asks for); Sockets/Chat and Sockets/CallRooms the messages
--                  of a socket; Sockets/Packets what an entry of the outbox becomes on the wire
--                  (`packets_of`); Sockets/Run what reaches the server, in order. Sockets/Kept, Counts,
--                  Grace, Sound and Counted carry the invariant through it, Sockets/Reach is on who
--                  hears what, Sockets/InThread on the gateway behind the `in_thread` of
--                  notifications.
--   users          src/users/: Users has the reads by other services, Users/Store the save of a row with
--                  the unique indexes, Users/Accounts the profile and the presence, Users/Closing the
--                  cached viewer and the end of an account (Viewers on them), Users/Signup the
--                  accounts that are created, Users/Names the user names (Naming and Unique on them),
--                  Users/Presence the presence keys (Live on them), Users/Profiles what others see of
--                  a user (Private on it).
--   auth           src/auth/ with the guard, src/sessions/ and the keys of redis.service.ts:
--                  Auth/Devices reads the request, Auth/Sessions and Auth/Codes have the keys,
--                  Auth/Service the handlers, Auth/OAuth the sign-in by a provider, Auth/Guard the guard
--                  (`authenticate` is its `canActivate`). Auth/Index
--                  and Auth/Reach are on the sets of session ids, Auth/Revoked and Auth/Banned on what
--                  a deletion of all sessions leaves, Auth/Reset on the reset of a
--                  password, Auth/Throttle on the codes that are mailed,
--                  Auth/Lifetime on how long a cookie signs in.
--   settings       src/settings/: Settings/Merge and Settings/Service, with Laws and Sounds on them.
--   admin          src/admin/: Admin/Service has the moderation, Admin/Owner is on the owner's account,
--                  Audit is the audit log.
--   notifications  src/notifications/: Notifications/Service has `notify` and the handlers of events,
--                  Notifications/Digests the unread digests (Pending on them), Notifications/Pages the
--                  list and the marks (Reading on them).
-- The schemas are in Schema/. Calls use conversations, messages, blocks and users; messages and groups
-- use conversations and blocks; a block archives the direct chat. Auth uses users and the audit log;
-- settings and admin use users and delete sessions through auth; notifications use users and blocks;
-- contacts use users, blocks and conversations. The sockets call conversations, messages, calls and
-- users; a service never reads a socket, and the entry `kicked` of the outbox is what `kick_banned`
-- carries out. Of socket.io the model takes that a packet reaches the sockets in its room but the one
-- that is excepted, and that a socket that is lost leaves its rooms.
--
-- A handler runs to its end before the next one starts, so what two handlers do to each other between
-- their awaits is not modelled, and neither is a failure of the database, of Redis or of the mail
-- server. All functions are structurally recursive: there is no fuel; the search for a user name has
-- the eight rounds of the source. A text is the list of its UTF-16 code units. A DTO is given by the
-- row from which it is built, and a document in a socket message by its id.
--
-- Not modelled: uploads and links (Cloudinary), the lists of messages, calls and blocked users and their
-- DTOs, the history that the owner sees, the invite link, the validators of the schemas and the DTOs,
-- tokens without a user or a session, the text of the mails, the parsing of the bodies that sockets
-- send, and the wiring of the application.
pub mod Base
pub mod Schema
pub mod World
pub mod Env
pub mod Audit
pub mod Settings
pub mod Users
pub mod Blocks
pub mod Conversations
pub mod Contacts
pub mod Messages
pub mod Auth
pub mod Calls
pub mod Groups
pub mod Admin
pub mod Notifications
pub mod Sockets
pub mod Tests
