-- ===== src/Scheduler/Invariant.antt =====
-- What holds of the scheduler after every history of events.
pub mod Active
pub mod Counted
pub mod Tickets
pub mod Queues
pub mod Queued
pub mod Admissions
pub mod Tally
pub mod Events
pub mod History
