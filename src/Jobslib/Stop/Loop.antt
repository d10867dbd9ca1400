-- ===== src/Jobslib/Stop/Loop.antt =====
-- The loop of `Stop` that waits for the process to go away (jobslib/jobslib.go).
use jobmaster.Base.{
  ℕ, zero, suc, ◌≤◌, ◌<◌, ◌≡◌, refl, inl, inr, ◌≢◌, ◌∷◌, arith, Option-cases, none, some, ℤ, All,
}
use jobmaster.Result.{ok, hang, OsErr}
use jobmaster.Os.{Env, Log, Call, signal_zero, sleep}
use jobmaster.Jobslib.Stop.{wait_gone}

-- The log after n rounds of the loop.
abbrev pub rounds : ℕ → ℤ → Log → Log
rounds zero pid log = log
rounds (suc n) pid log = rounds n pid (sleep ∷ signal_zero pid ∷ log)

-- The loop ended in round k, which is the first that saw the process gone.
pub record EndsAt (env : Env) (pid : ℤ) (log log' : Log) (k : ℕ) : Type 0 where
  pub error : OsErr
  pub gone : env.os_err (rounds k pid log) (signal_zero pid) ≡ some error
  pub alive : (i : ℕ) → i < k → env.os_err (rounds i pid log) (signal_zero pid) ≡ none
  pub last : log' ≡ signal_zero pid ∷ rounds k pid log

EndsAt-now :
    (env : Env) (pid : ℤ) (log : Log) (e : OsErr)
    → env.os_err log (signal_zero pid) ≡ some e
    → EndsAt env pid log (signal_zero pid ∷ log) 0
EndsAt-now env pid log e gone = record {
  error = e;
  gone = gone;
  alive = λ i h. absurd (omega arith);
  last = refl;
}

alive_suc :
    (env : Env) (pid : ℤ) (log : Log) (k : ℕ)
    → env.os_err log (signal_zero pid) ≡ none
    → ((i : ℕ)
        → i < k
        → env.os_err (rounds i pid (sleep ∷ signal_zero pid ∷ log)) (signal_zero pid) ≡ none)
    → (i : ℕ) → i < suc k
    → env.os_err (rounds i pid log) (signal_zero pid) ≡ none
alive_suc env pid log k now later zero h = now
alive_suc env pid log k now later (suc i) h = later i (omega arith)

EndsAt-later :
    (env : Env) (pid : ℤ) (log log' : Log) (k : ℕ)
    → env.os_err log (signal_zero pid) ≡ none
    → EndsAt env pid (sleep ∷ signal_zero pid ∷ log) log' k
    → EndsAt env pid log log' (suc k)
EndsAt-later env pid log log' k now t = record {
  error = t.error;
  gone = t.gone;
  alive = alive_suc env pid log k now t.alive;
  last = t.last;
}

-- If the process is gone in round n and the fuel is more than n, then the loop returns, in the first
-- round that sees the process gone.
pub wait_gone_ends :
    (env : Env) (n fuel : ℕ) (pid : ℤ) (log : Log) (e : OsErr)
    → env.os_err (rounds n pid log) (signal_zero pid) ≡ some e
    → n < fuel
    → (k : ℕ) × (log' : Log) × (k ≤ n)
      × (wait_gone env fuel pid log ≡ (ok tt, log'))
      × EndsAt env pid log log' k
unfolding wait_gone
wait_gone_ends env n zero pid log e gone more = absurd (omega arith)
wait_gone_ends env zero (suc fuel) pid log e gone more =
    (0, signal_zero pid ∷ log, omega arith, ground arith, EndsAt-now env pid log e gone)
wait_gone_ends env (suc n) (suc fuel) pid log e gone more =
    elim (Option-cases (env.os_err log (signal_zero pid))) [
      | inr (e', now) ↦
          (0, signal_zero pid ∷ log, omega arith, ground arith, EndsAt-now env pid log e' now)
      | inl now ↦
          let (k, log', le, returned, t) =
            wait_gone_ends env n fuel pid (sleep ∷ signal_zero pid ∷ log) e gone (omega arith) in
          (suc k, log', omega arith, ground arith, EndsAt-later env pid log log' k now t)
    ]

abbrev pub Avoids : Call → Log → Type 0
Avoids c log = All (λ d. d ≢ c) log

-- A process that lives as long as a certain call is not made outlives any fuel.
pub wait_gone-hang :
    (env : Env) (c : Call) (fuel : ℕ) (pid : ℤ) (log : Log)
    → signal_zero pid ≢ c
    → sleep ≢ c
    → ((l : Log) → Avoids c l → env.os_err l (signal_zero pid) ≡ none)
    → Avoids c log
    → ((wait_gone env fuel pid log).0 ≡ hang) × Avoids c (wait_gone env fuel pid log).1
unfolding wait_gone
wait_gone-hang env c zero pid log s1 s2 lives avoids = (refl, avoids)
wait_gone-hang env c (suc fuel) pid log s1 s2 lives avoids = ground (
  arith,
  lives log avoids,
  wait_gone-hang env c fuel pid (sleep ∷ signal_zero pid ∷ log) s1 s2 lives (s2, (s1, avoids)),
)
