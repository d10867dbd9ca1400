-- ===== src/Server/Stream/Running.antt =====
-- The stream of a job that was still running (api/server/server_impl.go), from the moment on in which
-- the watcher's lock is free: the inner loop is left before its first read.
use jobmaster.Base.{
  ◌≡◌, refl, inl, inr, Bool-cases, ℕ, zero, suc, ◌+◌, Bool, ◌∷◌, arith, Option, none, some,
  if◌then◌else◌,
}
use jobmaster.Result.{Result, ok, err, hang, Error, status, internal}
use jobmaster.FilePath.{FilePath}
use jobmaster.Os.{Env, Log, check_ctx, try_lock_watcher}
use jobmaster.Server.Stream.{check_canceled, poll, is_over, send_new, is_eof, follow}

-- Rounds that look at the context and at the lock and do nothing else.
abbrev pub idle_rounds : ℕ → Log → Log
idle_rounds zero log = log
idle_rounds (suc n) log = idle_rounds n (try_lock_watcher ∷ check_ctx ∷ log)

-- What is left to do, given the error of the last read.
abbrev pub stale_outcome : ℕ → Option Error → Log → Result (Unit {0}) × Log
stale_outcome fuel none log = (hang, idle_rounds fuel log)
stale_outcome fuel (some e) log =
    if is_eof e
    then (ok tt, try_lock_watcher ∷ try_lock_watcher ∷ check_ctx ∷ log)
    else (err (status internal e), try_lock_watcher ∷ check_ctx ∷ log)

module _ (env : Env) (p : FilePath) (inner : ℕ) (live : (l : Log) → env.ctx_err l ≡ none)
    (free : (l : Log) → env.watcher_free l ≡ Bool.true) where
  follow_idle :
      (fuel pos : ℕ) (log : Log)
      → follow env fuel (suc inner) p pos none log ≡ (hang, idle_rounds fuel log)
  unfolding follow check_canceled poll is_over send_new
  follow_idle zero pos log = refl
  follow_idle (suc fuel) pos log = ground (
    arith,
    live log,
    free (check_ctx ∷ log),
    follow_idle fuel pos (try_lock_watcher ∷ check_ctx ∷ log),
    follow_idle fuel (pos + 0) (try_lock_watcher ∷ check_ctx ∷ log),
  )

  -- If the context lives and the watcher's lock is free, then the loop never reads the file again and
  -- sends nothing, and the error of the last read decides: if there was none, then no number of rounds
  -- is enough and the handler spins; after an end of file it ends well; after another error it fails.
  pub follow-stale_outcome :
      (fuel pos : ℕ) (e : Option Error) (log : Log)
      → follow env (suc fuel) (suc inner) p pos e log ≡ stale_outcome (suc fuel) e log
  unfolding follow check_canceled poll is_over send_new
  follow-stale_outcome fuel pos none log = follow_idle (suc fuel) pos log
  follow-stale_outcome fuel pos (some e) log = elim (Bool-cases (is_eof e)) [
    | inl h ↦
        rw (live log)
          (rw (free (check_ctx ∷ log)) (rw h (rw (free (try_lock_watcher ∷ check_ctx ∷ log)) refl)))
    | inr h ↦ rw (live log) (rw (free (check_ctx ∷ log)) (rw h refl))
  ]
