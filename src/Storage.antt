-- ===== src/Storage.antt =====
-- The storage of wq_workflow/storage: the queue that one thread writes to the database.
pub mod Database
pub mod WriteQueue
pub mod Transaction
pub mod Fifo
pub mod Run
pub mod Drain
pub mod Abandoned
