-- ===== src/Lib.antt =====
-- RideWatch, a tracker of how reliably transit vehicles keep to their schedule (a Go program).
--
-- Pollers fetch GTFS-Realtime feeds; internal/reconcile matches every trip update with the static
-- schedule, hands stop events to internal/store and mirrors them in memory; a sweep finalizes what
-- is past; the raw responses stay on disk and can be replayed; internal/push alerts riders about
-- late arrivals at the stops that they follow, and internal/api takes their subscriptions. The
-- modules follow the packages:
--
--   Domain      internal/domain: Types and Static (domain.go), GtfsTime (gtfstime.go), over Scan (what it uses
--               of fmt.Sscanf) and Calendar (what the program uses of package time).
--               WeekHours holds a proof.
--   Reconcile   internal/reconcile: Cache (cache.go and Engine.tripSchedule); ServiceDate and Trip
--               (process.go: resolveServiceDate, resolveStopIndex, reconcileTrip and what they call);
--               Live (the maps under `e.mu` in engine.go and process.go, and the getters); Engine and
--               Process (engine.go: location, Process, Sweep; process.go: the two passes).
--               Coherence, Delays, Mirror, Upcoming and Failures hold the proofs.
--   Store       internal/store: Rows (convert.go and the SQL of events.go), Subscriptions
--               (subscriptions.go), Partitions (partitions.go). Settled, Replay, Finality,
--               Claims and Weeks hold the proofs.
--               Versions and ScheduleLoad (scheduleload.go), Reads and Schedules (schedulerepo.go and
--               the reads of queries.go), Like and Search (likeEscape and SearchStops of queries.go).
--               SameVersion, Direct, Flushing, Published, Opening, Sound, SoundLoad and SoundCommit
--               hold what the load of a schedule keeps.
--   Static      internal/gtfsstatic: Table, Rows and Zip (parse.go), which call a writer of
--               Domain.Static; Script, Performs, MetaFirst and ByName hold the proofs.
--   Cmd         cmd/ridewatch: StaticLoad (loadStatic of main.go) and Nightly (startNightly of
--               main.go). Unloaded, Direct, Sound, Success, Active, OnceADay and Nights hold the
--               proofs.
--   Push        internal/push: Evaluate (push.go); Once holds the proof.
--   Ingest      internal/ingest: Decode (decode.go), BlobPath (blobPath of ingest.go, parseBlobPath of
--               replay.go), Archive (pollOnce of ingest.go, and internal/store/rawarchive.go), Replay
--               (replay.go). PathTrip, InOrder, Pruning and Durable hold the
--               proofs.
--   Api         internal/api: Subscribe (the subscription endpoints of handlers.go), Sentences
--               (sentences.go). Watches and Shown hold the proofs.
--   Base, GoMap integers, strings, lists, sorting, results and Go maps.
--   Tests       runs at fixed inputs and the theorems at concrete inputs.
--
-- A Go string is the list of its code points. An instant is a number of nanoseconds since the zero
-- time.Time, so IsZero is a comparison with 0; the sums of instants are unbounded, while Sub
-- saturates and the product of a number with time.Second wraps as in Go. An int is an unbounded
-- integer, and a conversion from uint64 to int64 is by bit pattern. Floats stand as their bit
-- patterns, but in Api.Sentences, which computes with them, as multiples of the smallest one. An
-- error is one of three classes: the sentinel ErrNotFound, a cancelled context, any other; its
-- message is dropped. A Go map is a list of entries whose order stands for the order of `range`. A
-- type of the program that a mutex guards is changed by one function at a time, so each locked
-- section is one function; how the sections of several goroutines interleave is modelled for the
-- cache of Store.Schedules only. A
-- table of the database is a map from its primary key to its rows, and a statement does what its
-- SQL text says; failures of the database are not modelled there, but in Reconcile, Ingest and Api
-- they are parameters, as the failures of the disk are. What the zone files say, which entry of a
-- map `range` visits first, what the queries and the push service answer are parameters.
-- sort.Slice is a stable insertion sort, which is one of the orders that it may produce.
--
-- The text of fmt.Sscanf is read by structural recursion, the digits of a number are printed on
-- fuel n + 1 for the number n, which is enough since each digit divides it by ten. The binary
-- digits of a float in Api.Sentences are counted on fuel 4096; a float64 has at most 2098 of them,
-- and a sum of two one more. The weeks of Store.Partitions are counted on fuel: the days between
-- the first and the last Monday, and one.
--
-- A zip is the list of its members, each a header and records as encoding/csv yields them; the
-- transaction of a schedule load is a working copy of the tables, which a commit puts in place of
-- them, and no other load runs beside it. Which statements fail is a parameter. A tick of the nightly
-- work is given its clock, and the ticks of a run are a list.
--
-- Not modelled: the metrics, logging, routing and the read-only handlers of the HTTP server, the
-- download of the zips, the rollups, the migrations, configuration and the wiring of the commands.
pub mod Api
pub mod Base
pub mod GoMap
pub mod Cmd
pub mod Domain
pub mod Ingest
pub mod Reconcile
pub mod Static
pub mod Store
pub mod Push
mod Tests
