-- ===== src/Lib.antt =====
-- cbfuse, a FUSE file system that keeps its files in a Couchbase bucket. FUSE calls the
-- operations of cbfuse/cbfuse.c with a path. An operation changes up to three documents of that
-- path: its stat (cbfuse/stats.c), the entry of its directory (cbfuse/dentries.c) and its data
-- (cbfuse/data.c). Each document is read, stored or removed by a libcouchbase command that is
-- scheduled and then waited for (cbfuse/sync_get.c, cbfuse/sync_store.c, cbfuse/sync_remove.c).
-- The guards that jump to the label done are the macros of cbfuse/util.h.
--
-- Prelude, and the files below it: shared names, Boolean tests on the native numbers, lists,
--   the C strings, and the int that functions return.
-- Common: the constants of cbfuse/common.c and the error numbers.
-- Io: a statement as a function from a state to an outcome and a state. An outcome is a value,
--   a jump to done with fresult, or a fault, that is a memory access that C leaves undefined.
--   Io/Rules and Io/Guards: specifications of statements that go on, and a rule for each way to
--   combine them. Io/Leaves: the same for statements that may end in any way.
-- Platform: what the program calls of libcouchbase, of libc and of the clock, as an argument of
--   the model. Platform/Reliable: the behaviour of it that the theorems rely on. A reliable
--   server answers every command by its documentation, and no other client changes a document
--   in between; it holds and stores only documents whose key has at most 250 characters, and
--   refuses a stat or a block of more than 20 MiB; memory and the clock are there. Results on
--   the entries of directories take their texts to be within that size. Platform/Shared: a server that other clients
--   use too, where every call may fail. It carries out one command at a time; its log is the
--   sequence of the changes that this program has made, and it knows which versions of the
--   documents the program has been given. Results name the platform that they are about: the
--   files named Codes are about any, those named Shared, the files below Cbfuse/Shared,
--   Dentries/Entering, Dentries/Overwrites, Data/Prepares, Data/Stores and Data/Cuts about a shared one, and
--   all others about a reliable one.
-- Util: the macros and memdup of cbfuse/util.h.
-- Sync: the three callbacks and the three synchronous requests, and the whole course of a get,
--   a store and a remove as the callers write it. Its child modules say what each does over a
--   reliable server; Sync/Shared, Sync/Changes and Sync/Commits over a shared one.
-- Stats: cbfuse/stats.c. Stats/Times: the times of utimensat. Stats/Reads and Stats/Updates: its
--   theorems.
-- Data: cbfuse/data.c. Data/Bytes, Data/Blocks, Data/Writes, Data/TooLarge, Data/Reads,
--   Data/Truncates, Data/Resizes and Data/NoBytes: its theorems.
-- Json: what the program calls of cJSON, as an argument of the model. Json/Local: it sends no
--   commands. Json/Lawful: the behaviour of a reliable cJSON, which has memory, and parses what
--   it printed.
-- Dentries: cbfuse/dentries.c, and what its operations do to the list of the names in a
--   directory.
-- Cbfuse: the operations of cbfuse/cbfuse.c and the installation of the root directory.
--   Cbfuse/Files: getattr, split_path and create. Cbfuse/Opens: open. Cbfuse/Removal: unlink and rmdir.
--   Cbfuse/Directories: mkdir. Cbfuse/Listing: readdir. Cbfuse/Root: the start of main.
--   Cbfuse/Sequences: getattr after a change. The files named Codes: with which codes each
--   operation can end on a platform of which nothing is assumed. Stats/Shared, Dentries/Shared,
--   Dentries/Entering, Data/Shared, Data/Prepares, Data/Stores, Data/Cuts, Cbfuse/Shared and the files below
--   it: which documents an operation changes on a shared platform, and in which order.
--   Dentries/Overwrites: what a new entry is made of there.
-- Tree: what the file system promises. A tree of files and directories, moves in it, their
--   effects, and its invariant. A move is a request of the kernel with what it has looked up
--   before; the moves are not all that a kernel may send (below). The words of Stat, and the
--   requests, are those of the program. Tree/Names, Tree/Keeps, Tree/Adds, Tree/Removes and
--   Tree/Invariant are about the tree alone. Tree/Represents: how the documents of the three
--   collections represent a tree. Tree/Moves: the requests and their effects. Tree/Files,
--   Tree/Directories, Tree/Removals and Tree/Runs: the operations, as Cbfuse/Calls lists them
--   from the table of cbfuse/cbfuse.c, against the tree. Tree/Views: getattr and readdir.
--   Tree/Orphans: rmdir of a directory with children. Tree/Start: from an empty bucket.
-- Main: main of cbfuse/cbfuse.c, with the table of options and the option processor. libfuse
--   and the calls about the connection are an argument. Main/Mounts and Main/Credentials: its
--   theorems.
-- Examples: a server in memory and a cJSON that meet the laws of Platform/Reliable and
--   Json/Lawful, and the theorems at their files and directories. Examples/Bucket,
--   Examples/BucketSteps and Examples/BucketLaws: a bucket with other clients; Examples/Races
--   and Examples/Lost: the theorems there.
--
-- The collections, the key and the value of a command are its fields, set in the order in which
-- the source sets them. A CString is the list of its character codes before the terminator. The
-- bytes behind a pointer are a list, and NULL is none; what a malloc leaves in fresh memory is
-- decided by the platform. A sum of size_t is taken modulo 2 ^ 64, and a size_t that is
-- returned as int is converted from its low 32 bits.
--
-- The moves of Tree leave out: rmdir of a directory with children, of which Tree/Orphans is
-- about; a write of no bytes; a write that ends between the largest size of a document and that
-- of a file; a truncate that makes a file longer; a truncate of a file with no block to more
-- than 0; create of a path that is too long, or with the mode of something else than a regular
-- file; mkdir of a new path that is too long; a read of 2 ^ 31 bytes or more, a write of as
-- many that would fit, and sums of offset and size that wrap; all of read, write, truncate,
-- unlink and rmdir of a path that is not there or is no file or no directory; and getattr, open
-- and readdir, which change nothing, and which Tree/Views and Cbfuse/Opens are about.
--
-- No loop needs fuel: the loops of readdir and of the entries run over the items of an array,
-- which are finite. Numbers have no width where the header does not say one: the fields of the
-- struct of a stat (mode_t, off_t, time_t and long), which the platform is taken to copy to
-- bytes and back whole, and the counter of readdir, an int in the source. strdup is taken to
-- find the 0 that ends the key of a response. The calls that libfuse makes of the option
-- processor during its parse are taken to come after it, with the arguments that are left at
-- its end.
--
-- Not modelled: the messages to stderr, the frees at the label done, and the usage text. What
-- fuse_opt_parse makes of the arguments and what happens in fuse_main are arguments of the
-- model. cbfuse/custom-uthash.h and contrib/uthash are not used by any operation.
pub mod Prelude
pub mod Common
pub mod Io
pub mod Platform
pub mod Util
pub mod Sync
pub mod Stats
pub mod Data
pub mod Json
pub mod Dentries
pub mod Cbfuse
pub mod Tree
pub mod Main
pub mod Examples
