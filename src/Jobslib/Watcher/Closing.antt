-- ===== src/Jobslib/Watcher/Closing.antt =====
-- The watcher up to the event that closes the file (jobslib/watcher.go).
use jobmaster.Base.{◌≡◌, refl, subst, ℕ, suc, ◌<◌, ◌^◌, true, List, ◌∷◌, none, inr, length, All}
use jobmaster.Result.{Result, ok}
use jobmaster.FilePath.{FilePath}
use jobmaster.Os.{
  Env, Log, FileInfo, Call, check_ctx, lock_event, read_events, unlock_event, stat, inotify_init,
  add_watch, lock_watcher, close_inotify, remove_watch, broadcast, unlock_watcher,
}
use jobmaster.Jobslib.WaitForFile.{wait_loop, wait_for_file}
use jobmaster.Jobslib.Watcher.{read_locked, watch_loop, watch, watcher}
use jobmaster.Jobslib.Watcher.Batch.{Event, batch_bytes, Fits, outcome, handle_bytes-batch}
use jobmaster.Jobslib.Watcher.Release.{IsFree, Ends, watcher-IsFree}

module _ (env : Env) (e : Event) (es : List Event) (fuel rounds : ℕ) (fits : All Fits (e ∷ es))
    (few : length (batch_bytes (e ∷ es)) < 2 ^ 31) (enough : suc (length es) < fuel)
    (closes : (l : Log) → (outcome (e ∷ es) 0 l).0 ≡ true) (live : (l : Log) → env.ctx_err l ≡ none)
    (reads : (l : Log) → env.event_read l ≡ inr (batch_bytes (e ∷ es))) where
  watch_loop-closes :
      (log : Log) → (log' : Log) × (watch_loop env (suc rounds) fuel log ≡ (ok tt, log'))
  unfolding watch_loop read_locked
  watch_loop-closes log =
      let l = unlock_event ∷ read_events ∷ lock_event ∷ check_ctx ∷ log in
      let handled = handle_bytes-batch e es fuel l fits few enough in
      (
        (outcome (e ∷ es) 0 l).1,
        rw (live log) (rw (reads (lock_event ∷ check_ctx ∷ log)) (rw handled (rw (closes l) refl))),
      )

  module _ (p : FilePath) (info : FileInfo) (there : (l : Log) → env.stat_of l p ≡ inr info)
      (made : (l : Log) (c : Call) → env.os_err l c ≡ none) where
    -- The calls of a watcher that ends, around those of its loop.
    abbrev ending : Log → Log
    ending l = close_inotify ∷ remove_watch ∷ broadcast ∷ unlock_watcher ∷ l

    watcher_runs :
        (log : Log) → (l : Log) × (watcher env (suc rounds) fuel p log ≡ (ok tt, ending l))
    unfolding watcher wait_for_file wait_loop watch
    watcher_runs log =
        let (l, ran) =
          watch_loop-closes
            (lock_watcher ∷ add_watch p ∷ inotify_init ∷ stat p ∷ check_ctx ∷ log) in
        (
          l,
          rw (live log) (
              rw (there (check_ctx ∷ log)) (
                rw (made (stat p ∷ check_ctx ∷ log) inotify_init) (
                  rw (made (inotify_init ∷ stat p ∷ check_ctx ∷ log) (add_watch p))
                    (rw ran refl)))),
        )

    -- While the context lives, the file is there, no call reports an error, and a read yields a batch of
    -- events, of less than 2^31 bytes, of which one closes the file: with one round, and more fuel than
    -- events, the watcher ends with no error, and if nothing was held before it then nothing is held behind
    -- it.
    pub watcher-closes :
        (log : Log)
        → IsFree env log
        → (log' : Log) × (watcher env (suc rounds) fuel p log ≡ (ok tt, log')) × IsFree env log'
    watcher-closes log free =
        let (l, run) = watcher_runs log in
        let ends : Ends (watcher env (suc rounds) fuel p log).0 = rw run tt in
        (
          ending l,
          run,
          subst (λ (r : Result (Unit {0}) × Log). IsFree env r.1) run
              (watcher-IsFree env (suc rounds) fuel p log free ends),
        )
