-- ===== src/Lib.antt =====
-- Cogmemory: a memory service that keeps markdown files below one root directory and serves them by
-- JSON-RPC to agents with roles.
--
-- The parts and their files:
-- - Base, Base/*: byte strings, the functions of Go's `strings` that the source uses, sorting.
-- - FilePath: path/filepath's Clean, Join and Base. FilePath/Normal: their laws.
-- - Regex: matchers with the priorities of Go's regexp, for the patterns of the source.
-- - Time: instants, dates, durations and their texts, of Go's `time`. Time/Dates: their laws.
-- - Store (store/store.go): Fs is the file system, State the store with absPath, atomicWrite and
--   Write, Lines and Read what Read selects, Append is Append and AppendSection, Edit is Patch and
--   Move, Actions is OpenActions, Counts is CountActions and countOpenActions
--   (store/session_brief.go), Scan is scanFiles, List and Search, Brief is SessionBrief
--   (store/session_brief.go), Files is L0Index, Read and Outline, Observations is
--   store/observations.go, Clusters with Clusters/Terms and Clusters/Check is store/cluster.go,
--   Housekeeping with Housekeeping/Scan is store/housekeeping.go, Indexes is GlacierIndex,
--   ScenarioCheck and WikiIndex (store/wiki.go), Entities with Entities/Audit is EntityAudit. Paths,
--   Traversal, Written, Frame, Append/Appended, Append/Joined, Append/Inserted, Actions/Fences,
--   Actions/Results, Counts/Agreement, Edit/Patched, Edit/Moved, the modules below Observations,
--   Clusters/Buckets, Clusters/Sound, Clusters/Threads, Clusters/Clustered, Clusters/Span, Clusters/Windows,
--   Housekeeping/Placed, Housekeeping/Tallied, Indexes/Due and Entities/Totals hold the proofs.
-- - Link (store/link.go): Words is wholeWordIndex and the spans, Index is LinkIndex and
--   LinkIndexFiltered, Audit is LinkAudit. Words/Whole and Audit/Homes hold the proofs.
-- - Rbac (rbac/rbac.go, with the types of config/config.go): Engine.Check.
-- - Domain (domain/domain.go): Schema is validate and joinPosix, Controller is reload, maybeReload and
--   the queries, Owner is DomainForPath and ValidateWrite. Schema/Valid, Controller/Serving and
--   Owner/Deepest hold the proofs.
-- - Rpc (rpc/server.go, rpc/methods.go): Protocol is the server's state and the responses, Files,
--   Queries, Indexes, Observed, Summary, Housekeeping (rpc/housekeeping.go) and Brief
--   (rpc/session_brief.go) are the handlers, Since is parseSince and resolveSince, Dispatch is dispatch
--   and handleConn. Guard, Payloads, Readable, Serving, Answered, Escapes, Brief/High and
--   Housekeeping/Disclosed hold the proofs.
-- - Tests: the theorems at concrete inputs.
--
-- A request reaches `dispatch`, whose handler asks the rules (`may`), lets the controller look at the
-- manifest (`sync`), and calls an operation of the store, which returns a result and the next store.
-- A failing operation returns an `Error`, with one constructor for each message of the source.
--
-- How the model differs from the program:
-- - A Go string is a list of bytes. TrimSpace, ToLower and EqualFold act on ASCII only.
-- - The file system is a list of files by absolute path, with content and time. A directory is there
--   as soon as a file lies below it, and an empty directory is not kept. So what an operation leaves
--   behind that then fails is not kept either: the directories that MkdirAll made for a move or an
--   append to a section, or the empty file of an append. A write fails where a directory is in its
--   place or a file is in the place of a directory above; it never fails for want of space, and Sync
--   never fails. A path below a file is no missing file but an error (ENOTDIR). There are no symbolic
--   links.
-- - An operation is one step. The locks, and requests that run at the same time, are not modelled.
-- - sort.Slice is a stable sort.
-- - doublestar.Match and yaml.Unmarshal are parameters (`Externals`).
-- - An instant is its nanoseconds from the start of the year 0, before which there is none. time.Now is
--   the clock of the store. A difference of instants stops where a Duration does. A directory has the
--   time 0. time.Parse reads RFC 3339 with hours of two digits and a fraction behind a dot, and
--   ParseDuration takes fractions exactly. The caps of a housekeeping scan are not negative.
-- - A map from keys to observations or to counts is a list in the order in which the keys come.
-- - The manifest is read from the store's file system, once per request.
-- - Requests arrive decoded, each with the length of its line, of which the scanner of a connection
--   takes at most 65535 bytes; their `id` is an opaque text. Writing a response never fails.
-- - The number in Patch's message for an empty text is counted on valid UTF-8.
-- - The loop of wholeWordIndex has fuel for one round more than the line has bytes, and each round
--   moves the offset by at least one. Line scanners stop at 1 MiB (64 KiB in Outline), as bufio does.
--   The fuel of parse_duration is the length of the text, of which each term takes a byte at least, and
--   that of date_of the number of days, of which each year takes more than one.
--
-- Not modelled: stats, which needs the size of files that cannot be read, and git, which runs another
-- program; JSON, sockets, HTTP, the configuration file and the main program, which are input and
-- output.
pub mod Base
pub mod FilePath
pub mod Regex
pub mod Time
pub mod Store
pub mod Rbac
pub mod Link
pub mod Rpc
pub mod Domain
pub mod Tests
