-- ===== src/Lib.antt =====
-- pkgundo runs a command, a package manager's or an install script's, records what it changes in the
-- file system, and undoes it later. Its daemon does the same for apps that are tracked over all their
-- launches. This library models what is recorded in the database, how a recorded file is classified,
-- reviewed, archived, removed and restored, the whole of a rollback, and how the daemon attributes
-- changes of files to the launches of tracked apps.
--
-- Parts of the program and the files that model them:
--   src/classifier/mod.rs       Classifier: categories of paths and what a rollback may do with them
--   src/db/mod.rs               Db, Db/Tables: the tables, their unique keys and the statements
--   src/transaction/mod.rs      Transaction: transactions, their status and their package manager
--   src/journal/mod.rs          Journal: the mutations that a transaction made
--   src/fingerprint/mod.rs      Fingerprint: the recorded state of a file, and its comparison
--   src/blob_store/mod.rs       BlobStore: the contents of small files before a transaction
--   src/archive/mod.rs          Archive: copies of what is removed, and their recovery
--   src/service_tracker/mod.rs  ServiceTracker: calls of systemctl and their reversal
--   src/user_tracker/mod.rs     UserTracker: added users and groups and their removal
--   src/rollback/review.rs      Review: mutations in groups, and the user's selection of groups
--   src/rollback/mod.rs         Rollback: the engine; Rollback/Files its handlers of single files,
--                               Rollback/Cleanup the removal of empty directories, Rollback/Engine
--                               the steps A to G of `execute`
--   src/tracked_apps/mod.rs     TrackedApps: what an app stands for, and its lifecycle
--   src/btrfs_mount.rs          BtrfsMount: the mount at which a path is watched
--   src/ebpf/mod.rs             Monitor: fanotify groups; Monitor/Buffer the events in the kernel's
--                               buffer, Monitor/Resolve their paths, Monitor/Filter their
--                               attribution, Monitor/Shared the records sent to the journal
--   src/daemon/mutation_capture.rs  Capture: the group that all launches share
--   src/daemon/exec_watch.rs    ExecWatch: watched executables and the launches they begin
--   src/process_tracker/mod.rs  ProcessTracker: the processes of a launch
--   src/daemon/mod.rs           Daemon: the task that writes the journal; Daemon/Requests the answers
--                               to requests
--   src/scan_leftovers/mod.rs   Leftovers: what packages that are gone have left in a home
--   src/commands/hook.rs, src/commands/apt_hook.rs, src/commands/dnf_hook.rs
--                               Hooks: what the hooks of package managers read
-- Paths is `std::path`, Maps is `HashMap`, as far as the program uses it; Prelude is shared by all.
--
-- `execute` loads the transaction and its mutations, lets the package manager remove the package,
-- passes each mutation through the group filter and, by the category of its path, to one of the
-- handlers, which ask Fingerprint what happened to the file since and use Archive and BlobStore; then
-- it removes empty directories, reverses service and user events, and closes the transaction.
--
-- In the daemon, ExecWatch begins a launch when a watched executable is run: Capture arms the file
-- system of the user's home, asking BtrfsMount where to watch it, and ProcessTracker finds the
-- processes of the launch, which are entered in the map of launches. Monitor attributes each event by
-- that map and sends records to the task of Daemon, which appends them to the Journal under the
-- transaction that TrackedApps gave the app.
--
-- How the program is modelled: Exec is a state monad over the database and the state of the operating
-- system, in which an error, as text, ends a function as `?` does and keeps the state. System has one
-- field for each call of the operating system; the theorems hold for every such system, and those on
-- archives and blobs assume System/Lawful, which System/Memory, a system in memory, satisfies. A statement is
-- refused, if at all, before it has read or changed anything; of the constraints of the tables, the
-- unique keys and the references to transactions are checked. A record of the source is a record, an
-- enum a data type, a number of a row a natural number, a time its RFC 3339 text. Texts are lists of
-- code points. A function of the source that branches on what it has read is one definition for
-- itself and one for each branch. Arguments stand for code that is not in the repository: `lower` is
-- `str::to_lowercase`, `codec` is serde_json on the metadata of an archive, `decode` is
-- `String::from_utf8_lossy`, `json` is serde_json on a list of paths, and the files that walkdir visits are a list.
--
-- Kernel has one field for each system call of the daemon, and Run is the monad for code on a state of
-- its own. What a lock guards is one step: threads take turns between such steps, and the map of
-- launches is the same throughout one read of events. A descriptor, a process and a device are
-- numbers; buffers are little-endian.
--
-- Fuel: the loop of `remove_empty_dirs_up_to` goes up by one component in each round and is given one
-- unit more than the directory has components. The digits of a number are written with one unit more
-- than the number. The walk over a buffer of events has one unit more than the buffer has bytes, since
-- each event and each record takes one. The walk from a process up to its ancestors passes a process
-- once and has one unit more than there are numbers of processes, 2³¹. `trim_all`
-- has one unit for each character of the text. All other loops are over a list.
--
-- Not modelled: what is printed and logged; sockets, timers and the spawning of threads; the monitor
-- for one transaction and the file system monitor over inotify, which attribute nothing; the
-- commands by which the scan for leftovers asks package managers; the command line and its
-- other commands.
pub mod Prelude
pub mod Classifier
pub mod System
pub mod Db
pub mod Paths
pub mod Exec
pub mod Maps
pub mod Journal
pub mod Review
pub mod Transaction
pub mod Fingerprint
pub mod BlobStore
pub mod Archive
pub mod ServiceTracker
pub mod UserTracker
pub mod Rollback
pub mod Run
pub mod Kernel
pub mod BtrfsMount
pub mod Monitor
pub mod Capture
pub mod ProcessTracker
pub mod TrackedApps
pub mod Daemon
pub mod ExecWatch
pub mod Hooks
pub mod Leftovers
