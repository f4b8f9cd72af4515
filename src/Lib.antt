-- ===== src/Lib.antt =====
-- A verification of xlurm, a single-node job scheduler for accelerators.
--
-- The daemon owns a queue of jobs. Clients (xbatch, xrun, xqueue, xcancel, xinfo) send it requests over a
-- Unix socket; it authorizes them by the kernel's identity of the client, keeps the queue in
-- state.json, gives each job devices of one vendor, and starts a worker process for it. Every 50 ms
-- it collects the jobs that have ended, and starts pending ones on idle devices.
--
-- Which file models which part of the repository:
--   Base: natural numbers, lists, text, results, and decimal numbers as Rust's standard library has them
--   Model: src/model.rs, all types; errors are values of Model.Errors, named by their message
--   Storage: src/storage.rs, the paths, write_json, read_json and try_lock;
--     Storage.Trusted: initialize
--   Scheduler.Machine: src/scheduler.rs, the struct, new, save and get; the trait of src/executor.rs
--   Scheduler.Allocate: src/scheduler.rs, allocate and matching_kinds
--   Scheduler.Submit: src/scheduler.rs, submit
--   Scheduler.Exclude: src/scheduler.rs, set_devices_excluded, exclude_devices and info
--   Scheduler.Tick: src/scheduler.rs, cancel and tick
--   Scheduler.Cleanup: src/scheduler.rs, cleanup
--   Scheduler.Exclusive: the invariant of the queue
--   Daemon: src/daemon.rs, handle and the loop of serve; src/auth.rs, authorize
--   Device: src/device/mod.rs, discover, refresh, validate, parse_nvidia and hcu_health_status
--   Executor: src/executor.rs, ProcessExecutor, the lists of visible devices, and the watch of execute
--   Client: src/cli.rs, submission, visible_queue_jobs and the texts of the queue;
--     Client.Follow: follow and print_log_chunk, over the daemon's answers and the terminal
--     Client.Clean: clean
--     Client.Table: format_timestamp and format_queue_table
--   Framing: src/daemon.rs, request, send and receive
--   Driver: src/device/ascend.rs, hcu.rs, metax.rs, mthreads.rs and ppu.rs, load, discover and status
--   Device.Drivers and Device.Loaded: these drivers in the places of the inventory; Evidence and Silent below
--     Device.Drivers: what makes a device idle after a refresh
--   Daemon.Kept: a property that each operation keeps is kept by every request and every round; Daemon.Turns
--     uses it for the invariant of the queue, Daemon.Ledger for runs of any length
--   Samples: a small machine on which the theorems are applied
--
-- A method on &mut self that returns Result is a function from the state to a result and the state
-- that it leaves, also where it fails. All that the operating system and libraries do is one parameter
-- W, a type of states of the outside world, with the calls as functions on it (FileSystem, Executor, Json,
-- Host, Platform). Nothing is assumed of these calls, except where a theorem names what it assumes:
-- Storage.Atomic.Disk says what a reader of a file sees, Storage.Trusted.Own.Quiet what is at a path
-- on a machine on which nobody else changes directories, Client.Clean.Removed.KeptElsewhere which property of
-- the world calls keep, and Device.Drivers.Silent.Silent that calls of drivers and tools fail. Sets and maps are lists.
--
-- The loops go over lists, so that they need no fuel, but for two of the client: print_log and follow count
-- their rounds, as follow does itself for pieces of a log (16 in a round). print_log-Drained says how many rounds
-- are enough for a log that does not grow; follow waits for a job, which may take any number of rounds. Numbers are natural numbers; the one
-- operation of the scheduler that can leave its type, the next job number, is checked against 2 ^ 64 as in the source,
-- and saturating subtraction is the subtraction of natural numbers. The device count of the machine is far
-- below the range of usize.
--
-- Not modelled: the sockets, the parsing of the command line and the choice of a command, the start of the
-- daemon and of a worker process, and the worker's change of identity. They are calls of the operating
-- system or lead to them. The functions of the vendors' libraries, the loader of libraries, the decoding of
-- UTF-8, the calendar of the C library and the escapes of names in the table are parameters. The texts of
-- errors are not modelled beyond their number and names.
pub mod Base
pub mod Model
pub mod Storage
pub mod Scheduler
pub mod Daemon
pub mod Samples
pub mod Device
pub mod Client
pub mod Driver
pub mod Framing
pub mod Executor
