-- ===== src/Server/Stream/Waiting.antt =====
-- The stream of a job whose output is complete, while some watcher holds the one lock of the library
-- (api/server/server_impl.go).
use jobmaster.Base.{◌≡◌, refl, ℕ, zero, suc, Bool, [], ◌∷◌, Option, none}
use jobmaster.Result.{hang, Error}
use jobmaster.FilePath.{FilePath}
use jobmaster.Os.{Env, Log, bound_hang, check_ctx, try_lock_watcher, wait_event, read_at}
use jobmaster.Server.Stream.{chunk_len, check_canceled, poll, follow}
use jobmaster.Server.Stream.Prefix.{sent}

module _ (env : Env) (p : FilePath) (pos : ℕ) (live : (l : Log) → env.ctx_err l ≡ none)
    (locked : (l : Log) → env.watcher_free l ≡ Bool.false)
    (at_end : (l : Log) → (env.read_reply (read_at p chunk_len pos ∷ l)).bytes ≡ []) where
  poll_waits :
      (fuel : ℕ) (e : Option Error) (log : Log)
      → ((poll env fuel p pos e log).0 ≡ hang) × (sent (poll env fuel p pos e log).1 ≡ sent log)
  unfolding poll
  poll_waits zero e log = (refl, refl)
  poll_waits (suc fuel) e log =
      let l = wait_event ∷ try_lock_watcher ∷ log in
      let l' = read_at p chunk_len pos ∷ l in
      rw (locked log) (rw (at_end l) (poll_waits fuel (env.read_reply l').error l'))

  -- While the context lives, the lock is held and the file has nothing behind the offset, the handler
  -- sends nothing more and does not end, for any fuel: an end of file does not count as long as the lock
  -- is held, be it by the watcher of another job.
  pub follow-waits :
      (fuel inner : ℕ) (e : Option Error) (log : Log)
      → ((follow env fuel inner p pos e log).0 ≡ hang)
        × (sent (follow env fuel inner p pos e log).1 ≡ sent log)
  unfolding follow check_canceled
  follow-waits zero inner e log = (refl, refl)
  follow-waits (suc fuel) inner e log =
      let (stuck, quiet) = poll_waits inner e (check_ctx ∷ log) in
      rw (live log)
        (rw (bound_hang (poll env inner p pos e (check_ctx ∷ log)) _ stuck) (refl, quiet))
