-- ===== src/Scheduler.antt =====
-- src/scheduler.rs: the queue, the allocation of devices and the life of a job.
pub mod Machine
pub mod Allocate
pub mod Submit
pub mod Exclude
pub mod Tick
pub mod Cleanup
pub mod Exclusive
