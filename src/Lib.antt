-- ===== src/Lib.antt =====
-- LCTK keeps a code index for each registered project of a machine and lets coding agents ask it
-- questions. A daemon watches the project's files, journals what changed, and brings the index of
-- the project's container up to date; it hands out credentials per project, decides which
-- commands a project may run, and serves an administrator's browser on loopback.
--
-- The modules follow the packages. A store, a method or a function of the source is a definition
-- of the same name in snake case; a method that changes its receiver returns the new one, and an
-- error is a value of the package's error type. Section parameters and arguments stand for what
-- the source only calls.
--
-- Files      the atomic write that internal/changejournal/journal.go,
--            internal/adminsession/session.go and internal/projectregistry/store.go share
-- Settings   internal/hostsettings/settings.go
-- Journal    internal/changejournal/journal.go
-- Worker     internal/watchsupervisor/worker.go, over Journal, Settings and Files
-- Supervisor internal/watchsupervisor/supervisor.go, over Worker
-- Policy     internal/commandpolicy/policy.go
-- Session    internal/adminsession/session.go, over Files
-- Grants     internal/projectgrant/grant.go
-- Status     internal/gitinfo/parse.go
-- Ring       internal/logring/logring.go
-- Registry   internal/projectregistry/registry.go and store.go, over Files and Policy
-- Codex      internal/codexconfig/merge.go, with EntryName of entry.go
-- Installation internal/installation/activation.go, over Files; its children have Install
--            and Rollback (Resolving) and Adopt (Adopting)
-- Glob       the matching of a glob in images/code-intel/internal/searchindex/ignore.go;
--            its children state what a glob means
-- Ignore     the rest of that file
-- Inventory  images/code-intel/internal/searchindex/inventory.go, over Ignore; its children
--            Watching, Scope and Tally have watchset.go, the paths that a caller may name and
--            what the walk counts
-- Index      images/code-intel/internal/searchindex/store.go and search.go, over Inventory: the
--            loop over a batch in Batch, build and publish in Building, Update, Rebuild and
--            Reconcile in Updating, the pages of a search in Searching
-- Prelude    lists, texts, maps and 64-bit integers for all of them
-- Examples   the theorems at concrete inputs
--
-- A worker holds the journal of its project. Its watcher's events are recorded (`record_events`),
-- a lost event stream is marked (`mark_gap`), and both arm the timers of `run_step`. A drain
-- takes a snapshot, asks the index service to apply the pending list or, where there is a gap, to
-- reconcile, and reports back with `commit` or `reconciled` and the snapshot's mark. Other
-- goroutines observe while the service works and while a document is written: these are lists of
-- observations, `during` and `saving` of an `Attempt` and the argument of `save`, so a theorem
-- about all lists is one about all interleavings at the points where the mutex is free. A
-- supervisor keeps the table of the workers: each of its methods' sections under the mutex is one
-- action, so a list of actions is an interleaving of its methods (a worker is stopped in the step
-- that takes it out of the table; the lists `let_go` and `overwritten`, which the source does not
-- have, keep the workers that left it by being stopped and by losing their place to another), and
-- a sweep is one run of Sweep with nothing between.
--
-- On the other side of the index service, `update` and `reconcile` of Index read the published
-- state, run the loop over the changes against the workspace (`apply_changes`), and either leave
-- the store, build a delta or rebuild. A build meets a `Run`: the workspace as it is when the
-- build reads it, and which of its steps fail. Readers of the index see the state through
-- `resolve_current` and the shards through `searcher_for`.
--
-- Representation. A text is a list of code points (of bytes in Status, Glob, Ignore, Index,
-- Installation, `env_var_name` and `entry_name`); strings.TrimSpace is `trim_space` of code
-- points and `trim_bytes` of bytes; a time is a number of nanoseconds and 0 is the zero time. A
-- map is a list with one pair for each key; `pending` is keyed by the path of its entries. A
-- uint64 counter wraps at 2^64, and the theorems that need it say for how many more steps it does
-- not (`Room`, `Rooms`); the number of a generation wraps too, and no theorem says that it grows.
-- An int64 product of a setting and a unit wraps (`mul_i64`). A workspace is a tree of named
-- entries in the order of the walk. Fuel: `decimal` has one unit more than the number, and no
-- number has more digits than that; `segment_loop` has one unit for each pair of a place in the
-- glob and one in the name, ends included, and `match_segment-Fits` shows that it does not run
-- out; `all_pages` has one unit for each page, and `all_pages_lem` shows that one more than the
-- matches are enough. Every other function is structural.
--
-- Parameters. SHA-256 in hexadecimal is the argument `hash` of Policy and needs no property;
-- os.Stat with os.SameFile, strings.EqualFold and package projectpath are the record `Host` of
-- Registry; package net is the record `Net` of Session; random tokens, ids and codes are
-- arguments, and where a theorem needs a fresh one it says that it differs from the old. Which
-- system calls fail is the record `Faults`. Whether a configuration file is valid TOML is the
-- argument `valid` of Codex, and the lines of a rendered entry its argument `body`. The index
-- service's answer is an argument of a drain. In Installation SHA-256 is the argument `hash`, and
-- the release's artifact, the free space, the downloaded body and the candidate's self-test are
-- fields of an `Attempt`; the packaged core is a field of a `Bootstrap`. Opening an ignore file
-- under the workspace's root is the argument `read` of Ignore and Inventory. In Index the digest
-- is the argument `digest_of`, the project's source is the record `Workspace`, and the search
-- engine with its shards is the record `Engine`: `IsEngine` states what the code relies on, that
-- a build over shards keeps their documents but those of the retracted names and adds one
-- document for each file it is given. What is stored for a content is a parameter too, since the
-- engine puts a marker in the place of a content that it does not index (one under three bytes, a
-- binary one, one with too many trigrams). Whether a query is accepted, and the sorted matches,
-- are arguments of `search`.
--
-- Not modelled: the JSON encoding of documents (a file holds a document whole, in part, or not at
-- all), paths and permissions of files, what the code logs, contexts and deadlines, the texts of
-- formatted errors, the removal of the exchange code when the store closes and the file system
-- fails, the escapes of %q, the parallel reading of the files of an inventory, the staging
-- directory and the temporary link of a build, the flattening and sorting of matches, whether a
-- search was truncated, the products of `bulk` beyond 2^63, and the splitting of a configuration
-- file into lines, which turns CRLF into LF, and in Installation a manager that is not complete
-- and the paths of a Windows host. DiskBytes of Index measures a directory. A bound on pending
-- paths that is not positive is represented by 0. A worker whose loop has ended because a channel
-- closed saves its journal once more when it is released. A rebuild in place of a delta takes its
-- inventory of the workspace that the update read first. The goroutine of a drain that is under
-- way when a worker is released is a step before the release.
pub mod Prelude
pub mod Files
pub mod Settings
pub mod Journal
pub mod Worker
pub mod Supervisor
pub mod Policy
pub mod Session
pub mod Grants
pub mod Status
pub mod Ring
pub mod Glob
pub mod Ignore
pub mod Inventory
pub mod Index
pub mod Installation
pub mod Registry
pub mod Codex
pub mod Examples
