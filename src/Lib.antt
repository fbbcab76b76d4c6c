-- ===== src/Lib.antt =====
-- A model of unified-messaging, a server that connects mailboxes and chat accounts for developers,
-- mirrors their messages, and posts one stable shape of event to webhooks.
--
-- The parts. The adapters of internal/provider report what happens on a connection. For chat,
-- internal/chatsync keeps one actor per account: the runtime attaches and detaches actors, an actor
-- dials, serves, backs off and gives up, and its sink writes what the adapter reports to the store
-- and emits an event for it. internal/events sends each event to the webhooks that want it, parks
-- what was refused in a retry queue, and drops content that every subscriber has, where the
-- developer asked for that. internal/auth knows developers by passwords, browser sessions and API
-- keys. internal/accounts keeps the tokens of the connected accounts, sealed by internal/secretbox,
-- and hands out access tokens to whoever talks to a provider. For mail, internal/syncer walks the
-- folders of a mailbox from the cursor of each, writes what changed to the store and emits events
-- for what is new. internal/store holds all state in SQL tables.
--
-- The files.
--   Prelude: shared names; Prelude/Tables has the SQL statements over a table held as a list of rows
--     (first match, UPDATE WHERE, DELETE WHERE, INSERT ON CONFLICT) with their lemmas.
--   Model: internal/model/model.go and chat.go.
--   Store/Tables, Store/Chats, Store/Messages: internal/store/chat.go and the chat tables of schema.go;
--     Store/Messages/Retention has the invariants of evicted messages, Store/Neighbours what a
--     statement for one account leaves of the others.
--   Store/Deliveries: webhooks and the retry queue of internal/store/aux.go, with RetentionMaxAge of
--     developers.go and DeleteAccount of store.go; Store/Deliveries/Queue its properties.
--   Store/Emails: the mail mirror of internal/store/store.go; the sweep of retention.go is here and in
--     Store/Messages.
--   Store/OAuth: the pending connect attempts of internal/store/aux.go. Store/Idempotency: the
--     idempotency keys of internal/store/chat.go.
--   Store/Developers: internal/store/developers.go, with its sessions and API keys as children.
--     Store/Accounts: the accounts and tokens of store.go, the linked devices of chat.go.
--   Auth: Signup, Login and ChangePassword of internal/auth/auth.go; Auth/Sessions the browser
--     sessions, Auth/Keys the API keys.
--   Secretbox: internal/secretbox/secretbox.go. Accounts: Connect of internal/accounts/accounts.go;
--     Accounts/Tokens is AccessToken, Accounts/Devices the accounts of linked devices,
--     Accounts/Custody what becomes of refresh tokens.
--   Syncer/Wakes: Wake, the worker and runOnce of internal/syncer/syncer.go as steps.
--   Syncer/Subscriptions, Syncer/Notifications: internal/syncer/subscriptions.go and the subscriptions
--     of internal/store/aux.go.
--   Syncer/Scope: syncScope of internal/syncer/syncer.go, one round over one folder of a mailbox, with
--     GetCursor and SetCursor of internal/store/store.go.
--   Syncer/Account: syncScopes and syncAccount of the same file, with the folders of
--     internal/store/store.go: the listing of the scopes and the walk over them. What a provider does to
--     the account's row while it answers is Accounts', not a part of a run here.
--   Api/Idempotency: withIdempotency and replayOrConflict of internal/api/handlers_chat.go, with the
--     handler's operation as a function of a world. Requests run one after another here; of two that
--     overlap one wins the key, by Store/Idempotency.
--   Api/Misses: missCache of internal/api/api.go.
--   Chatsync/Sink: internal/chatsync/sink.go and chatOrExisting of actor.go. A callback is a value, and
--     drain_inbox runs a sequence of them, each with the calls of the store that fail for it.
--   Chatsync/Backoff: internal/chatsync/backoff.go. Chatsync/Actor: the loop of actor.go, one turn for
--     each answer of the world. Chatsync/Runtime: runtime.go, one step for each section under the lock.
--   Events/Sender: the choice of a sender and its answer (internal/notify/sender.go, and subscribes,
--     deliversFullPayload and send of internal/events/events.go). Events/Dispatch: deliver,
--     evictDelivered, enqueue and schedule. Events/Retry: retryDue, SendTest and Redeliver.
--     Events/Retry/Flights is Redeliver in two parts, between which other work is done.
--   Examples: concrete runs.
--
-- How state and operations correspond. An operation is a function from the database to the
-- database, with an answer beside it where the Go method has one; an error that the caller branches
-- on is a value of the answer, and a driver error is a flag that the caller's environment sets.
-- Times are numbers of seconds since 1970 in the store and numbers of nanoseconds in Auth, Accounts
-- and the syncer's subscriptions, where the stored seconds are compared with a clock; waits of the
-- backoff are nanoseconds. All stay far below the 63 bits of a Go integer. A difference of times
-- stops at 0 here, where Go goes negative: both are below every positive age, so the tests on it
-- agree. A nil slice is kept apart from an empty one where JSON tells them apart (the attachments
-- of a mail).
--
-- Parameters. The JSON codec, the HTTP client, the Bot API's answer and the wording of errors are
-- the fields of Wire in Events/Sender; the mail provider is the record Mailbox of Syncer/Scope.
-- bcrypt, SHA-256 and the case table of Unicode are the record Crypto of Auth, AES-GCM and base64
-- the record Cipher of Secretbox, the OAuth side of a provider the record Backend of Accounts, its
-- push side the record Pusher of Syncer/Subscriptions, SHA-256 and the JSON of a kept reply the
-- record Codec of Api/Idempotency; random ids, keys and nonces are arguments, `none` where the
-- random source fails. The minting of an id, the slot of a worker pool and failing writes are given
-- for each attempt (Luck). The concurrent attempts of one event are made in the order of the hooks:
-- each writes a row of its own id, and the program waits for all of them before it decides on the
-- eviction. No definition uses fuel: loops run over the list of what the world answers.
--
-- Not modelled: the poll of the syncer, the HTTP API but for its idempotency keys and its cache of
-- misses, the adapters themselves, logging, configuration, templates, the roster fetch of an actor,
-- the bounded queue in front of the dispatcher, list queries with cursors, and the parts of the
-- store that only those use.
pub mod Prelude
pub mod Model
pub mod Store
pub mod Chatsync
pub mod Events
pub mod Syncer
pub mod Auth
pub mod Secretbox
pub mod Accounts
pub mod Api
pub mod Examples
