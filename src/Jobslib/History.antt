-- ===== src/Jobslib/History.antt =====
-- The library over time: any interleaving of the critical sections of `Start`, of the goroutines that
-- wait for the processes, and of `Stop` (jobslib/jobslib.go). `Status` and `StreamOutputSetup` only read.
pub mod Evolution
pub mod Invariant
pub mod Refinement
pub mod Spec
pub mod Stops
pub mod View
use jobmaster.Base.{ℕ, ◌≡◌, ◌≢◌, Bool, List, Option, none, some, Text, ℤ, lookup}
use jobmaster.Result.{ok}
use jobmaster.Os.{Env, Log}
use jobmaster.Jobslib.Job.{Job, completed}
use jobmaster.Jobslib.Store.{JobsLib}
use jobmaster.Jobslib.Start.{start_job}
use jobmaster.Jobslib.Finish.{WaitResult, finish_job}
use jobmaster.Jobslib.Stop.{stop_commit}

-- The goroutine of a job has run once its state is `Completed`, which nothing else writes.
abbrev pub IsPending : JobsLib → Text → Type 0
IsPending lib id = (job : Job) → lookup id lib.jobs ≡ some job → job.state ≢ completed

pub data Step (env : Env) : JobsLib → JobsLib → Type 0 where
  -- ksuid does not give an ID twice
  started :
      {lib lib' : JobsLib} (client command : Text) (args : List Text) (id : Text) (log log' : Log)
      → start_job env lib client command args log ≡ (ok (lib', id), log')
      → lookup id lib.jobs ≡ none
      → Step env lib lib'
  finished :
      {lib lib' : JobsLib} (id client : Text) (r : WaitResult) (log log' : Log)
      → IsPending lib id
      → finish_job env lib id client r log ≡ (ok lib', log')
      → Step env lib lib'
  -- the copy may be an old one
  stopped :
      {lib lib' : JobsLib} (fuel : ℕ) (copy job : Job) (client id : Text) (override : Bool)
      (log log' : Log)
      → stop_commit env fuel lib copy client id override log ≡ (ok (lib', job), log')
      → Step env lib lib'

pub data Reach (env : Env) (lib : JobsLib) : JobsLib → Type 0 where
  here : Reach env lib lib
  next : {lib1 lib2 : JobsLib} → Reach env lib lib1 → Step env lib1 lib2 → Reach env lib lib2
