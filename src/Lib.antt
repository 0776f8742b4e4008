-- ===== src/Lib.antt =====
-- Sirr: a server for secrets that expire, burn after a number of reads, or are sealed.
--
-- The program keeps its secrets, the organisations that own some of them, their principals with keys
-- and roles, and an audit log in one redb database. A request is recognised by `require_auth`
-- (crates/sirr-server/src/auth.rs), handled by an HTTP handler, and ends in one or two transactions of
-- the store (crates/sirr-server/src/store/db.rs). This library models the store, the recognition of
-- requests, their handlers and routes, the choice of the webhooks that are told of them, the first
-- set-up of the database, the cached validation of the license, and what the client prints.
--
-- Which file models which part, by paths below crates/sirr-server/src:
--   Records           the structs of store/model.rs, store/org.rs, store/audit.rs and webhooks.rs
--   Permissions       store/permissions.rs; Bits, Flags and Letters hold the lemmas
--   RecordFormat      `encode` and `decode` of store/db.rs, `encrypt` and `decrypt` of store/crypto.rs
--   Database          `Store`, the tables, and write transactions that commit or are dropped
--   Secrets           `put`, `get`, `patch`, `delete`, `head` of store/db.rs; Scan holds `list`, `prune`,
--                     `rotate` and `max_key_version`, Machine the abstract view of one secret, and the
--                     other children the theorems
--   OrgSecrets        the operations with `org_secret` in their names; Scan holds those that go
--                     through the table
--   Audit             `record_audit`, `list_audit` and `prune_audit` of store/db.rs
--   Directory         organisations, principals, their keys and roles of store/db.rs, the built-in roles
--                     and `validate_metadata` of store/org.rs
--   Webhooks          store/webhooks.rs, and the URL guard and `matches_event` of webhooks.rs; Sender
--                     holds `fire` and `fire_for_url`
--   License           license.rs
--   Handlers          create, get, patch and delete of a public secret of handlers.rs; Admin holds the
--                     other handlers of that file
--   OrgHandlers       org_handlers.rs: Orgs, Principals, Roles, Account, Secrets and Hooks hold the
--                     handlers, Client the address of the client, Requests the routes below one
--                     organisation (server.rs), and the other children the theorems. A handler ends at
--                     the first of its checks that fails, which is an optional reply
--   Routes            the routes of `run` in server.rs: `serve` composes the middlewares and the handlers
--   Validator         validator.rs; the answer of the service is an argument
--   Bootstrap         `auto_init_bootstrap` of server.rs
--   Auth              auth.rs
--   CommandLine       of the client, crates/sirr/src/main.rs from the root: the quoting of values, the
--                     printing of durations, and the paths that it asks for
--   External          the crates the code relies on, as interfaces: redb's ordered tables, bincode's
--                     encoding and the cipher of chacha20poly1305, with the laws they document
--   Prelude, Text, Result   shared names, byte strings, and errors as values
--   Samples, Examples a small environment that satisfies the interfaces, and runs in it
--
-- How the state corresponds: a `Db` has one field for each table; an operation takes the database and
-- returns its reply and the database after it. The clock and the random bytes that an operation draws
-- are arguments. A transaction ends with `commit`, or with `abort` where the code returns early and redb
-- drops the transaction. Where the code reads in one transaction and writes in a second one, both are
-- steps of one function, and the steps are also functions of their own, so that another call can stand
-- between them.
--
-- Bounds: counters and lengths are native numbers; the read counter wraps at 2^32 and the audit counter
-- at 2^64, and timestamps are integers with the wrap-around of an `i64` in a release build. Loops go
-- through finite lists and need no fuel; only the digits of a number n (Text.Decimal) are computed with
-- fuel, n + 1, which is enough since each step divides by 10.
--
-- Not modelled: routes that answer with a fixed text, rate limits and the configuration, the requests
-- over HTTP that deliver a webhook or validate a license, their signatures, the heartbeat, the commands
-- of the client and the server's binary: input and output. A failure of redb itself ends an operation
-- with an error and is left out.
pub mod Audit
pub mod Auth
pub mod Bootstrap
pub mod CommandLine
pub mod Database
pub mod Directory
pub mod Examples
pub mod External
pub mod Handlers
pub mod License
pub mod OrgHandlers
pub mod OrgSecrets
pub mod Permissions
pub mod Prelude
pub mod RecordFormat
pub mod Records
pub mod Result
pub mod Routes
pub mod Samples
pub mod Secrets
pub mod Text
pub mod Validator
pub mod Webhooks
