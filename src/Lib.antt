-- ===== src/Lib.antt =====
-- agent-fs: a shared file system for agents. Its core package (packages/core/src) keeps files,
-- members and webhooks in a SQLite database, and file contents in an object store; the server
-- package (packages/server/src) puts it behind HTTP. This library models the core's own logic over
-- tables as lists of rows. A SQL statement is a function on such a list (Sql), a transaction is the
-- composition of its statements, and code that throws returns a Result (Errors).
--
-- Parts, and the code that they are about:
--   Prelude      Boolean tests, lists over native numbers, and text as a list of code units.
--   Errors       packages/core/src/errors.ts; `get_status_code` is `getStatusCode` of
--                packages/server/src/middleware/error.ts.
--   Sql          UPDATE, DELETE and COUNT with a WHERE clause; lemmas on them. Unique is about columns
--                without duplicates.
--   Paths        packages/core/src/ops/paths.ts, storage/key-guard.ts, and `getS3Key` of
--                ops/versioning.ts. Normalize, Keys and Containment hold the proofs.
--   Identity     the identity tables of packages/core/src/db/schema.ts. Rbac is identity/rbac.ts,
--                Context identity/context.ts, Grants identity/grants.ts; Members is the part of
--                identity/orgs.ts, identity/drives.ts and identity/api-keys.ts that changes
--                memberships. Members/History runs these operations in any order. Invites is
--                identity/invites.ts and `inviteToOrg` of identity/orgs.ts; Invites/Once runs its
--                operations in any order. ApiKeys is identity/api-keys.ts and the keys of
--                identity/users.ts; ApiKeys/Revoked runs their operations in any order.
--   Webhooks     the webhook tables of db/schema.ts. Schedule is webhooks/events.ts, Outbox
--                webhooks/outbox.ts, Worker and Record webhooks/worker.ts, Subscriptions
--                `disableSubscription` of webhooks/subscriptions.ts, Manage ops/webhook.ts. Invariant
--                states what holds between the tables, History runs all writes in any order, and
--                Record/Retries the ticks that send one delivery again.
--   Files        the file tables of db/schema.ts. Versions is ops/versioning.ts, Write is
--                `writeInternal` of ops/write.ts, cut in two at the upload that it awaits.
--                Edit is the text that ops/edit.ts writes.
--                Versions/Interleaved runs the requests' reads and commits in any order.
--   Storage      packages/core/src/storage/adapter.ts: a backend over an unknown state, and the contract
--                that the file operations rely on. Disk is files-sdk, as a parameter with laws, and
--                the calls of Node, without any. Legacy is storage/legacy-reserved-keys.ts, and Local
--                storage/local-adapter.ts over a disk. Memory is a backend for the tests.
--   Mime         ops/mime.ts.
--   Drive        write, append, edit, rm, cp, mv and revert (ops/write.ts to ops/revert.ts) over the
--                tables of Files and a backend; Requests has their meaning on contents alone. Reads is
--                ops/cat.ts, ops/tail.ts and ops/stat.ts.
--   Presence     `PresenceRegistry` of presence/registry.ts, for one drive. Runs is any sequence of
--                its operations.
--   RateLimit    the sliding window of packages/server/src/middleware/rate-limit.ts and
--                ip-rate-limit.ts, for one key.
--
-- A definition has the name of the function that it models, in snake case; a table's row is a record
-- with the table's columns. Columns that no modelled code reads (names, descriptions, the signing
-- secret) are left out. Ids that the code draws, clocks, random numbers and JSON payloads are
-- arguments. Times are natural numbers of milliseconds, so a difference of times is compared by
-- moving the subtrahend to the other side. `Math.random()` is a fraction k / 2 ^ 53, and rounding is
-- exact. No function runs on fuel: every loop of the modelled code is over a list.
--
-- Files uses Webhooks, whose deliveries are written in the transaction of a version, and Paths. Drive
-- uses Files and Storage: an operation gives the drive that it leaves, also when it fails, so what a
-- backend's failure in the middle of it leaves behind is part of the model. SHA-256 and UTF-8 are
-- parameters; no theorem says that two contents with one hash are equal. The theorems of Drive ask
-- the contract of a backend at the keys of all paths of a drive, as a store of distinct keys keeps it.
-- On the local backend "a//b" and "a/b" are one file, and it keeps the contract at the keys that
-- `IsFileKey` of Storage/Local/Laws describes, not at those of all paths.
--
-- Each transaction is one step. The interleavings of writes are the sequences of steps in
-- Identity/Members/History, Webhooks/History and Files/Versions/Interleaved; a claim that is recorded
-- late is a step with any claim in it.
--
-- Not modelled: HTTP, rendering, the command line, the web application, the S3 client, search and
-- embeddings, cryptography, migrations and configuration, which are I/O or other people's code; and
-- comments, shares, favorites, listings, diffs and the events stream of packages/core.
pub mod Prelude
pub mod Errors
pub mod Sql
pub mod Paths
pub mod Identity
pub mod Webhooks
pub mod Files
pub mod Storage
pub mod Mime
pub mod Drive
pub mod Presence
pub mod RateLimit
