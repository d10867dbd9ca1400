-- ===== src/Jobslib/Watcher.antt =====
-- jobslib/watcher.go, `Watcher`: the goroutine that turns the file events of inotify into broadcasts.
pub mod Rounds
pub mod Batch
pub mod Bounds
pub mod Keep
pub mod Release
pub mod Closing
use jobmaster.Base.{
  ℕ, zero, suc, ◌+◌, ◌-◌, ◌%◌, ◌^◌, Bool, List, [], ◌∷◌, Option, none, some, ltb, leb, length, drop,
  is_nil, if◌then◌else◌, inl, inr, ◌⊎◌,
}
use jobmaster.Result.{OsErr, hang}
use jobmaster.FilePath.{FilePath}
use jobmaster.Os.{
  Env, Io, broadcast, lock_event, unlock_event, lock_watcher, unlock_watcher, remove_watch,
  inotify_init, close_inotify, add_watch, ◌>>=◌, ◌>>◌, return, lift, call, note, closing, ctx_error,
  read_inotify,
}
use jobmaster.Jobslib.Inotify.{event_size, read_event, is_close_write}
use jobmaster.Jobslib.WaitForFile.{wait_for_file}

-- Broadcasts, so many.
unfoldable pub broadcasts : ℕ → Io (Unit {0})
broadcasts zero = return tt
broadcasts (suc n) = do note broadcast; broadcasts n

-- The loop over the events in the bytes of one read; `true` says that the watch has ended. The offset
-- is a uint32, and so is what is added to it.
unfoldable pub process_events : ℕ → List ℕ → ℕ → ℕ → Io Bool
process_events zero bytes offset seen = lift hang
process_events (suc fuel) bytes offset seen =
    elim (leb offset (length bytes - event_size)) as (λ _. Io Bool) [
      | Bool.false ↦ return Bool.false
      | Bool.true ↦ (do
        note broadcast
        ev ← lift (read_event (drop offset bytes))
        elim (is_close_write ev.mask) as (λ _. Io Bool) [
          | Bool.true ↦ (do broadcasts (seen + 11); return Bool.true)
          | Bool.false ↦
              process_events fuel bytes ((offset + (event_size + ev.len) % 2 ^ 32) % 2 ^ 32)
                (seen + 1)
        ])
    ]

-- What is done with the bytes of one read: none end the watch, and too few are read over.
unfoldable pub handle_bytes : ℕ → List ℕ → Io Bool
handle_bytes fuel bytes =
    if is_nil bytes
    then return Bool.true
    else if ltb (length bytes) event_size
    then return Bool.false
    else process_events fuel bytes 0 0

module _ (env : Env) where
  -- A read under the lock of the condition variable.
  unfoldable pub read_locked : Io (OsErr ⊎ List ℕ)
  read_locked = do note lock_event; r ← read_inotify env; note unlock_event; return r

  -- The loop of the watch, over the rounds that are left; `fuel` is that of the loop over the events. A
  -- read that fails is made again.
  unfoldable pub watch_loop : ℕ → ℕ → Io (Unit {0})
  watch_loop zero fuel = lift hang
  watch_loop (suc rounds) fuel = do
    done ← ctx_error env
    elim done as (λ _. Io (Unit {0})) [
      | some _ ↦ return tt
      | none ↦ (do
        r ← read_locked
        elim r as (λ _. Io (Unit {0})) [
          | inl _ ↦ watch_loop rounds fuel
          | inr bytes ↦ (do
            over ← handle_bytes fuel bytes
            elim over as (λ _. Io (Unit {0})) [
              | Bool.true ↦ return tt
              | Bool.false ↦ watch_loop rounds fuel
            ])
        ])
    ]

  -- From the lock on: the deferred function unlocks, wakes the readers and takes the watch off.
  unfoldable pub watch : ℕ → ℕ → Io (Unit {0})
  watch rounds fuel = do
    note lock_watcher
    closing remove_watch (closing broadcast (closing unlock_watcher (watch_loop rounds fuel)))

  unfoldable pub watcher : ℕ → ℕ → FilePath → Io (Unit {0})
  watcher rounds fuel p = do
    wait_for_file env p
    call env inotify_init
    closing close_inotify (do call env (add_watch p); watch rounds fuel)
