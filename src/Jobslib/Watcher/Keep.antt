-- ===== src/Jobslib/Watcher/Keep.antt =====
-- What the calls of the watcher's loops leave as it is (jobslib/watcher.go).
use jobmaster.Base.{
  ltb→le, ℕ, zero, suc, ◌+◌, ◌%◌, ◌^◌, ◌≤◌, true, false, Bool-cases, inl, inr, ◌⊎◌, Sum-cases, List,
  ◌∷◌, Option-cases, length, is_nil, ltb, leb,
}
use jobmaster.Result.{Result, ok, err, panic, hang, OsErr, not_exist, exist, interrupted, other, os}
use jobmaster.FilePath.{FilePath}
use jobmaster.Os.{
  Env, Log, Io, FileInfo, bound, return, fail, ask, check_live, ◌>>◌, check_ctx, stat, sleep,
  broadcast, lock_event, unlock_event, read_events,
}
use jobmaster.Jobslib.Inotify.{event_size}
use jobmaster.Jobslib.WaitForFile.{num_sleep_cycles, wait_loop}
use jobmaster.Jobslib.Watcher.Rounds.{wakes, past, closes, goes_on, Round-cases}
use jobmaster.Jobslib.Watcher.{process_events, handle_bytes, read_locked, watch_loop}

-- A property of the log that the calls of the loops keep.
pub record IsKept (P : Log → Type 0) : Type 0 where
  pub looked : (log : Log) → P log → P (check_ctx ∷ log)
  pub woken : (log : Log) → P log → P (broadcast ∷ log)
  pub read : (log : Log) → P log → P (unlock_event ∷ read_events ∷ lock_event ∷ log)
  pub found : (p : FilePath) (log : Log) → P log → P (stat p ∷ log)
  pub slept : (log : Log) → P log → P (sleep ∷ log)

module _ (P : Log → Type 0) (kept : IsKept P) where
  wakes_keep : (n : ℕ) (log : Log) → P log → P (wakes n log)
  wakes_keep zero log h = h
  wakes_keep (suc n) log h = wakes_keep n (broadcast ∷ log) (kept.woken log h)

  process_events_keep :
      (fuel : ℕ) (bytes : List ℕ) (offset seen : ℕ) (log : Log)
      → event_size ≤ length bytes
      → P log
      → P (process_events fuel bytes offset seen log).1
  process_events_keep zero bytes offset seen log some_event h = unfold process_events in h
  process_events_keep (suc fuel) bytes offset seen log some_event h =
      elim (Round-cases fuel bytes offset seen log some_event) [
        | past beyond e ↦ rw e h
        | closes e ↦ rw e (wakes_keep (seen + 11) (broadcast ∷ log) (kept.woken log h))
        | goes_on ev within raw e ↦ rw e (
            process_events_keep fuel bytes ((offset + (event_size + ev.len) % 2 ^ 32) % 2 ^ 32)
              (seen + 1) (broadcast ∷ log) some_event (kept.woken log h))
      ]

  handle_bytes_keep :
      (fuel : ℕ) (bytes : List ℕ) (log : Log) → P log → P (handle_bytes fuel bytes log).1
  unfolding handle_bytes
  handle_bytes_keep fuel bytes log h = elim (Bool-cases (is_nil bytes)) [
    | inl empty ↦ rw empty h
    | inr some_byte ↦ rw some_byte (elim (Bool-cases (ltb (length bytes) event_size)) [
      | inl few ↦ rw few h
      | inr enough ↦ rw enough (process_events_keep fuel bytes 0 0 log (ltb→le _ _ enough) h)
    ])
  ]

  bound_keep {ℓ κ} :
      {A : Type ℓ} {B : Type κ} (r : Result A × Log) (f : A → Io B)
      → P r.1
      → ((a : A) (log : Log) → P log → P (f a log).1)
      → P (bound r f).1
  bound_keep (ok a, log) f h k = k a log h
  bound_keep (err e, log) f h k = h
  bound_keep (panic s, log) f h k = h
  bound_keep (hang, log) f h k = h

  -- What is made of one look, given the rest of the wait.
  look_keep :
      (env : Env) (next : Io (Unit {0})) (o : OsErr ⊎ FileInfo) (log : Log)
      → ((l : Log) → P l → P (next l).1)
      → P log
      → P
          ((elim o as (λ _. Io (Unit {0})) [
            | inr i ↦ return tt
            | inl not_exist ↦ (ask env sleep >> next)
            | inl e ↦ fail (os e)
          ])
            log).1
  look_keep env next (inr i) log k h = h
  look_keep env next (inl not_exist) log k h = k (sleep ∷ log) (kept.slept log h)
  look_keep env next (inl exist) log k h = h
  look_keep env next (inl interrupted) log k h = h
  look_keep env next (inl (other n)) log k h = h

  pub wait_loop_keep :
      (env : Env) (fuel i : ℕ) (p : FilePath) (log : Log) → P log → P (wait_loop env fuel i p log).1
  unfolding wait_loop
  wait_loop_keep env zero i p log h = h
  wait_loop_keep env (suc fuel) i p log h =
      bound_keep (check_live env log) _ (kept.looked log h) (λ _ l k.
        elim (Bool-cases (leb num_sleep_cycles (i + 1))) [
          | inl last ↦ rw last k
          | inr early ↦ rw early (
              look_keep env (wait_loop env fuel (i + 1) p) (env.stat_of l p) (stat p ∷ l)
                (wait_loop_keep env fuel (i + 1) p) (kept.found p l k))
        ])

  pub watch_loop_keep :
      (env : Env) (rounds fuel : ℕ) (log : Log) → P log → P (watch_loop env rounds fuel log).1
  unfolding watch_loop read_locked
  watch_loop_keep env zero fuel log h = h
  watch_loop_keep env (suc rounds) fuel log h = elim (Option-cases (env.ctx_err log)) [
    | inr (e, done) ↦ rw done (kept.looked log h)
    | inl live ↦
        let k = kept.read (check_ctx ∷ log) (kept.looked log h) in
        rw live (elim (Sum-cases (env.event_read (lock_event ∷ check_ctx ∷ log))) [
          | inl (e, failed) ↦ rw failed (watch_loop_keep env rounds fuel _ k)
          | inr (bytes, got) ↦ rw got (
              bound_keep
                (handle_bytes fuel bytes
                  (unlock_event ∷ read_events ∷ lock_event ∷ check_ctx ∷ log))
                _ (handle_bytes_keep fuel bytes _ k)
                (λ over l h'.
                  elim over
                    as (λ b.
                      P
                        ((elim b as (λ _. Io (Unit {0})) [
                          | true ↦ return tt
                          | false ↦ watch_loop env rounds fuel
                        ])
                          l).1) [ true ↦ h' | false ↦ watch_loop_keep env rounds fuel l h' ]))
        ])
  ]
