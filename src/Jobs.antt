-- ===== src/Jobs.antt =====
-- apps/server/jobs.py: the persistent queue of lifecycle work, and the rows of the `jobs` table.
-- `Table` has the rows and the statements on them, `Queue` the methods of the class `Jobs`; the
-- other modules have what is proved of them.
pub mod Table
pub mod Queue
pub mod Loop
pub mod Rows
pub mod Closed
pub mod Inversion
pub mod Threads
pub mod Attempts
pub mod Stopped
pub mod Flight
pub mod Sweeps
pub mod Expiry
pub mod History
pub mod Examples
pub mod Retry
