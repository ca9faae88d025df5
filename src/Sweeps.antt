-- ===== src/Sweeps.antt =====
-- services/sweepService.ts: the pipeline that collects settled deposits. `Monad` has the state that
-- a sweep works on, `Pipeline` the methods, `Steps` what one step may do,
-- `Batch` a whole run, and `Apart` the lemmas on lists of jobs that it takes.
pub mod Monad
pub mod Pipeline
pub mod Steps
pub mod Apart
pub mod Batch
