-- ===== src/Jobslib/WaitForFile.antt =====
-- jobslib/watcher.go, WaitForFile.
pub mod Bounds
use jobmaster.Base.{ℕ, zero, suc, ◌+◌, leb, inl, inr, if◌then◌else◌}
use jobmaster.Result.{not_exist, msg, os, hang}
use jobmaster.FilePath.{FilePath}
use jobmaster.Os.{Env, Io, sleep, ◌>>=◌, ◌>>◌, return, fail, lift, ask, check_live, stat_path}

abbrev pub num_sleep_cycles : ℕ
num_sleep_cycles = 200

module _ (env : Env) where
  -- The loop, on fuel, with its counter `i`.
  unfoldable pub wait_loop : ℕ → ℕ → FilePath → Io (Unit {0})
  wait_loop zero i p = lift hang
  wait_loop (suc fuel) i p = do
    check_live env
    let again = wait_loop fuel (i + 1) p
    if leb num_sleep_cycles (i + 1)
        then fail
            (msg "WaitForFile (%s): Did not find logfile after %d cycles of %d millisecs each")
        else (do
          info ← stat_path env p
          elim info as (λ _. Io (Unit {0})) [
            | inr i ↦ return tt
            | inl not_exist ↦ (do ask env sleep; again)
            | inl e ↦ fail (os e)
          ])

  -- The counter begins at 0; each round raises it, so that this fuel is not used up.
  unfoldable pub wait_for_file : FilePath → Io (Unit {0})
  wait_for_file p = wait_loop num_sleep_cycles 0 p
