-- ===== src/Lib.antt =====
-- slusk moves albums from Lidarr's wanted list to imported files over Soulseek. Its state is a
-- PostgreSQL database (internal/store): album jobs, the candidates that a search cached for a
-- job, the transfers of a candidate's files, the rejection history and the register of download
-- folders. The modules of internal/pipeline read jobs in one state and move them to the next;
-- the dashboard, the wanted sync and the transfer poller write the same rows concurrently. What
-- keeps them apart is the guard in every UPDATE and the unique indexes, and that is what this
-- library is about.
--
-- Core models internal/core/state.go and models.go. Matcher models the release folder of
-- internal/matcher/matcher.go, by Go's path functions on bytes. Store models internal/store:
-- Table has the statements of SQL on lists of rows, Db the tables, and Jobs, Rejections, Format,
-- Candidates, Activation, Retry, Transfers, Wanted and Folders have one function for each method
-- of the Go type Store, in snake case (RecordEnqueueIntent is record_enqueue_intent). A method
-- is a function from the tables before its transaction to the tables after it and its answer; a
-- rollback returns the tables it was given. Operation lists the operations that write, so that a
-- history is a list of them. The proofs on histories are in Store/Integrity, Store/LiveOwner and
-- Store/Barrier/Sequences, those on one operation in Store/Barrier, Store/Activation/Cap,
-- Store/Transfers/WriteAhead, Store/Erasure and Store/Rejections/Bars, and those on the wanted
-- sync in Store/Wanted. Pipeline/Backoff models internal/pipeline/backoff.go over the store's
-- operations.
--
-- The other modules of Pipeline act on a World: the tables, and a log of what was asked of the
-- peer backend, the disk and the event table. The backend, the disk and package fmt are records
-- of functions that the definitions take; what the backend answers, and what other goroutines
-- commit during an Enqueue, may depend on the whole world so far, so that every sequence of
-- answers and every interleaving at an Enqueue is covered. Pipeline/TopUp models topUpCandidate
-- of internal/pipeline/selecting.go with the reservation of folders, Pipeline/Selecting the rest
-- of that file, Pipeline/Downloading internal/pipeline/downloading.go (Pass and Reconcile its
-- first phase, Resolve the others and the tick), Pipeline/Quarantine and Pipeline/Paths
-- internal/pipeline/paths.go, Pipeline/Importing the ends of an import in
-- internal/pipeline/importing.go, and Pipeline/Dedup internal/pipeline/dedup.go. Pipeline/Moves
-- and the modules named Moved are about the jobs that Downloading writes, Pipeline/TopUp/Calls
-- about the log of a top-up, and Pipeline/TopUp/Outcome about the transfer of one turn of its
-- loop.
--
-- Soulseek/Uploads models the upload manager of internal/soulseek/uploads.go, which shares the
-- files of this client with its peers: one function for each critical section under its mutex,
-- and an indexed type of steps for their interleavings. A pointer to a job is the job's index in
-- the order of allocation, so that a goroutine that outlives a reset completes the job it was
-- given.
--
-- An instant and a duration are numbers of nanoseconds. The int64 products of the backoff and
-- the cooldown are taken modulo 2^64 with the sign bit as the test for a negative value. A score
-- is its position in the order of the float64 values, since the store only compares it. Text is
-- a list of bytes, and SQL's lower() is modelled on ASCII letters.
--
-- The one fuelled function is the decimal rendering in Pipeline/Backoff: a number has fewer
-- digits than its successor counts.
--
-- Not modelled: the network clients (internal/lidarr, internal/slskd, internal/musicbrainz and
-- the Soulseek sessions), the vendored protocol library internal/soulseek/soul, the dashboard
-- (internal/observ), configuration, and cmd. Of internal/pipeline, the modules Discovery and
-- WantedSync and the phase verify of Importing are not modelled. Errors of the database driver
-- abort a transaction and leave the tables as they were; they are not values of the model.
pub mod Prelude
pub mod Core
pub mod Matcher
pub mod Store
pub mod Pipeline
pub mod Soulseek
