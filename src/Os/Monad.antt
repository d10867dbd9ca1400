-- ===== src/Os/Monad.antt =====
-- Computations that call the world: the log of the calls, errors, and calls that are deferred.
use jobmaster.Base.{◌≡◌, refl, ◌∷◌, ◌⊎◌, inl, inr}
use jobmaster.Result.{Error, Result, ok, err, panic, hang}
use jobmaster.Os.Calls.{Call, Log}

abbrev pub Io {ℓ} : Type ℓ → Type ℓ
Io A = Log → Result A × Log

abbrev pub bound {ℓ κ} : {A : Type ℓ} {B : Type κ} → Result A × Log → (A → Io B) → Result B × Log
bound (ok a, log) f = f a log
bound (err e, log) f = (err e, log)
bound (panic s, log) f = (panic s, log)
bound (hang, log) f = (hang, log)

infixl 5 ◌>>=◌ ◌>>◌
abbrev pub ◌>>=◌ {ℓ κ} : {A : Type ℓ} {B : Type κ} → Io A → (A → Io B) → Io B
◌>>=◌ m f log = bound (m log) f

abbrev pub ◌>>◌ {ℓ κ} : {A : Type ℓ} {B : Type κ} → Io A → Io B → Io B
m >> k = m >>= λ _. k

abbrev pub return {ℓ} : {A : Type ℓ} → A → Io A
return a log = (ok a, log)

abbrev pub fail {ℓ} : {A : Type ℓ} → Error → Io A
fail e log = (err e, log)

-- What is computed with no call.
abbrev pub lift {ℓ} : {A : Type ℓ} → Result A → Io A
lift r log = (r, log)

abbrev pub renamed {ℓ} : {A : Type ℓ} → (Error → Error) → Result A × Log → Result A × Log
renamed f (ok a, log) = (ok a, log)
renamed f (err e, log) = (err (f e), log)
renamed f (panic s, log) = (panic s, log)
renamed f (hang, log) = (hang, log)

-- A call that reports nothing.
abbrev pub note : Call → Io (Unit {0})
note c log = (ok tt, c ∷ log)

-- `if err != nil { return fmt.Errorf(…, err) }`.
abbrev pub on_err {ℓ} : {A : Type ℓ} → (Error → Error) → Io A → Io A
on_err f m log = renamed f (m log)

abbrev pub caught {ℓ} : {A : Type ℓ} → Result A × Log → Result (Error ⊎ A) × Log
caught (ok a, log) = (ok (inr a), log)
caught (err e, log) = (ok (inl e), log)
caught (panic s, log) = (panic s, log)
caught (hang, log) = (hang, log)

-- `_, err := …` and then a look at `err` itself.
abbrev pub attempt {ℓ} : {A : Type ℓ} → Io A → Io (Error ⊎ A)
attempt m log = caught (m log)

abbrev pub closed {ℓ} : {A : Type ℓ} → Call → Result A × Log → Result A × Log
closed c (ok a, log) = (ok a, c ∷ log)
closed c (err e, log) = (err e, c ∷ log)
closed c (panic s, log) = (panic s, c ∷ log)
closed c (hang, log) = (hang, log)

-- `defer` of a call: it is made on every way out, and what never ends has none.
abbrev pub closing {ℓ} : {A : Type ℓ} → Call → Io A → Io A
closing c m log = closed c (m log)

-- Inversion of a computation that succeeds.
pub bound-eq-ok {ℓ κ} :
    {A : Type ℓ} {B : Type κ} (r : Result A × Log) (f : A → Io B) {b : B} {log' : Log}
    → bound r f ≡ (ok b, log')
    → (a : A) × (log1 : Log) × (r ≡ (ok a, log1)) × (f a log1 ≡ (ok b, log'))
bound-eq-ok (ok a, log1) f h = (a, log1, refl, h)
bound-eq-ok (err e, log1) f h = cc
bound-eq-ok (panic s, log1) f h = cc
bound-eq-ok (hang, log1) f h = cc

pub bound_hang {ℓ κ} :
    {A : Type ℓ} {B : Type κ} (r : Result A × Log) (f : A → Io B)
    → r.0 ≡ hang
    → bound r f ≡ (hang, r.1)
bound_hang (ok a, log1) f h = cc
bound_hang (err e, log1) f h = cc
bound_hang (panic s, log1) f h = cc
bound_hang (hang, log1) f h = refl

pub renamed-eq-ok {ℓ} :
    {A : Type ℓ} (f : Error → Error) (r : Result A × Log) {a : A} {log' : Log}
    → renamed f r ≡ (ok a, log')
    → r ≡ (ok a, log')
renamed-eq-ok f (ok a, log1) h = h
renamed-eq-ok f (err e, log1) h = cc
renamed-eq-ok f (panic s, log1) h = cc
renamed-eq-ok f (hang, log1) h = cc
