-- ===== src/Lib.antt =====
-- backuper: a server that pulls the files of a client over TLS, keeps them in a storage directory with
-- an index in SQLite, moves what the client deleted to a trash, and restores files to the client.
--
-- Prelude: Booleans as tests, bytes, lists with their lengths in native numbers, signed 64-bit numbers.
--
-- Protocol: internal/protocol. Protocol/Msg and Protocol/Err are the constants of protocol.go with
-- MsgName, ErrName and ProtoError. Protocol/Scanner is Builder (a buffer) and Scanner (buffer,
-- position, first error); a method of the scanner is a function from its state to its result and the
-- new state, and Protocol/Scanner/Reads says when a method reads a value off the front of what is left.
-- Protocol/Messages and Protocol/Messages/Lists are messages.go: `encode_x` is X.Encode, `parse_x` is
-- ParseX, `read_x` the calls of the scanner in it. Protocol/Frame is WriteFrame, over any writer, and
-- ReadFrame, over the bytes that come before the connection is closed. Protocol/Paths is paths.go on a
-- system whose separator is the slash: path.Clean resolves the parts of a path from left to right with
-- the documented rules, `cwd` is the directory that filepath.Abs asks the system for, `lower` is
-- strings.ToLower.
--
-- Protocol/Conn is internal/tlsconn/conn.go: a connection is the bytes to come and a writer.
--
-- Store: internal/store. A table is the list of its rows in the order of the primary key (or of
-- insertion), an operation is a function on tables, and its SQL is written out: a LEFT JOIN gives each
-- row with its partners or with NULL, INSERT ... ON CONFLICT replaces the row it conflicts with.
-- Store/Files is the index and the client's list (store.go), Store/Writers the batched writers,
-- Store/Diff the comparison (diff.go), Store/Tasks the queue (tasks.go), Store/Tasks/Paging the loop of
-- RunDownloadQueue (internal/transfer/transfer.go) over it, Store/TrashRows, Store/Cycles and
-- Store/Events the other tables. Ids are numbers from 1; a new row's INTEGER PRIMARY KEY is the next
-- number above those in the table. Errors of the database are not modelled, and neither is the
-- connection to it.
--
-- The loop of RunDownloadQueue runs on fuel, one unit for a page; its theorem asks for more fuel than
-- there are runnable tasks, which bounds the pages since none of them is empty. Workers are any
-- function on the table that leaves the tasks above the current page as they are.
--
-- Client: internal/client. What the handlers share is in Client.antt: the configuration, an open file (what
-- Stat, Seek and Read say of it), and the messages that they send. Client/Get is handleGet, Client/Delta
-- handleDelta; the answer of a handler is a function from what is done with a message that is sent.
-- The loop of handleGet runs on fuel, one unit for a read; for a file that is read without an error,
-- more units than it has bytes are enough, since no read is empty. Blocks is how both sides of a delta cut a file into blocks.
--
-- Chunks is the loop in which both sides send a file in chunks, Files what both keep of a file.
--
-- Client/Put is handlePut (internal/client/fileserver.go), over the client's files and the messages that
-- come; Server/Restore/Send is sendRestoreFile (internal/server/restore.go), which talks to it, and
-- Server/Restore/Worker restoreWorker, whose attempts are records of what happens in them. The loop over
-- messages follows the messages, the attempts RETRY_COUNT; the loop of the sender runs on fuel as in
-- handleGet.
--
-- Client/Session is handleConn after the exchange of passwords, with dispatch (internal/client/client.go)
-- and handleDisk: the commands work on one state, the client's files and the messages. The loop runs on
-- fuel, one unit for a turn; one more than the messages that come is enough, since a turn reads one. diskinfo.Get, the context and
-- what the system makes of the files for os.Open and the walk are given. Client/Keeps and Client/Put/Keeps
-- say what every command leaves as it is.
--
-- Config: internal/config, with ParseLevel of internal/logx/logx.go. Config/Env is loadEnvFile, a map of strings
-- being a list of entries; Config/Values the getter, as functions that pass on the problems so far;
-- Config/Server and Config/Client the two configurations with Validate, EnsureDirs and Warnings.
-- Messages are data from which their texts are formatted.
--
-- Client/Scan is handleList (internal/client/scanner.go): filepath.WalkDir is a walk of a tree of entries, in
-- which a directory that the function skips, or that cannot be read, is passed over, as is a root that
-- Lstat refuses. filepath.Match and filepath.Rel are given.
--
-- Server/Control is internal/server/control.go: disk, ping and loadList, over the messages of the control
-- connection and the table client_files. The loop of loadList follows the messages.
--
-- Server/Cycle is RunCycle (internal/server/cycle.go) from its first pass on. What a pass calls of other
-- components is the interface CycleOps over a common state; a step of a pass goes on or breaks off.
--
-- Transfer/Local is what an attempt works on: the files (with their times), the .meta files, the index,
-- the queue, the messages that come and those that are sent; `Faults` says what the system refuses.
-- Transfer/Download is the full download of downloadOne with its resume, Transfer/Delta deltaDownload and
-- downloadOne itself, as chains of steps each of which goes on or stops with an outcome (Prelude/Steps).
-- Loops over messages follow the messages, or the blocks that are left. The clock is one reading. The names
-- of the .part and .meta files, SHA-256 and the texts of errors are given. Closing files, rights and the
-- log are left out.
--
-- Transfer: processTask of internal/transfer/transfer.go with dial, failAttempt and skip. What the
-- clock, the network, the context and downloadOne do in a turn of its loop is a record `Turn`, one for
-- each turn; the loop runs on fuel, one unit for a turn, and a task needs as many as RETRY_COUNT
-- leaves it. The counters of parallel workers are left out. Its tables are those of Store.
--
-- Trash: internal/trash/trash.go (Trash/Disk moveFile, Trash/Names versionPath, Trash moveOne, Trash/Loops
-- MoveDeleted and Cleanup) over a file system (a function from paths to contents) whose
-- operations can fail as a record `Faults` says; directories are not kept. moveOne is a chain of
-- statements each of which can end it with an error. MoveDeleted and Cleanup run on fuel, one unit for
-- a batch; the cutoff of Cleanup (now less the retention) is given, and the clock is one reading.
--
-- Scheduler: Run of internal/server/scheduler.go as steps between locks: a tick calls trigger, a
-- RunCycle returns, the context is cancelled. A cycle is one such step here.
--
-- Not modelled: the start of the server's cycle (connection, disks, first run) and its report, the
-- selection of files for a restore; the listener's accept loop; mail, TLS, certificates, disks, the log, service installation, the
-- set-up program (calls of the operating system and of the standard library).
pub mod Blocks
pub mod Chunks
pub mod Client
pub mod Config
pub mod Files
pub mod Prelude
pub mod Protocol
pub mod Scheduler
pub mod Server
pub mod Store
pub mod Transfer
pub mod Trash
