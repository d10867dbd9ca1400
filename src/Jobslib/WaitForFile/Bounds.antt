-- ===== src/Jobslib/WaitForFile/Bounds.antt =====
-- How long the wait for the log file takes (jobslib/watcher.go, WaitForFile).
use jobmaster.Base.{
  ℕ, zero, suc, ◌+◌, ◌≤◌, ◌<◌, ◌≡◌, ◌⊎◌, inl, inr, Bool, true, false, [], ◌∷◌, arith,
}
use jobmaster.Result.{Result, IsReturn, err, msg}
use jobmaster.FilePath.{FilePath}
use jobmaster.Os.{Env, Log, check_ctx, stat, sleep}
use jobmaster.Jobslib.WaitForFile.{wait_loop, wait_for_file}

-- The number of looks at any file.
abbrev pub stats : Log → ℕ
stats [] = 0
stats (stat p ∷ log) = suc (stats log)
stats (c ∷ log) = stats log

-- The wait is given up; the errors of the calls are other errors.
abbrev pub gave_up : Result (Unit {0}) → Bool
gave_up (err (msg s)) = true
gave_up r = false

module _ (env : Env) (p : FilePath) where
  wait_loop-IsReturn :
      (fuel i : ℕ) (log : Log)
      → i < 200
      → 200 ≤ fuel + i
      → IsReturn (wait_loop env fuel i p log).0
        × (i + stats (wait_loop env fuel i p log).1 ≤ 199 + stats log)
        × ((gave_up (wait_loop env fuel i p log).0 ≡ false)
            ⊎ (i + stats (wait_loop env fuel i p log).1 ≡ 199 + stats log))
  unfolding wait_loop
  wait_loop-IsReturn zero i log few enough = absurd (omega arith)
  wait_loop-IsReturn (suc fuel) i log few enough =
      ground (arith, wait_loop-IsReturn fuel (i + 1) (sleep ∷ stat p ∷ check_ctx ∷ log))

  -- The wait for a file comes to an end with success or an error, whatever the world does. It looks for the
  -- file 199 times at most, and where it is given up, exactly 199 times.
  pub wait_for_file-IsReturn :
      (log : Log)
      → IsReturn (wait_for_file env p log).0
        × (stats (wait_for_file env p log).1 ≤ 199 + stats log)
        × ((gave_up (wait_for_file env p log).0 ≡ false)
            ⊎ (stats (wait_for_file env p log).1 ≡ 199 + stats log))
  unfolding wait_for_file
  wait_for_file-IsReturn log =
      let (returns, most, given_up) = wait_loop-IsReturn 200 0 log (omega arith) (omega arith) in
      (returns, omega arith, elim given_up [ inl early ↦ inl early | inr all ↦ inr (omega arith) ])
