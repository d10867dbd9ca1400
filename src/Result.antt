-- ===== src/Result.antt =====
-- What a Go call comes to: a value, an error, a panic, or a loop that never ends. The last is what
-- a loop on fuel yields when the fuel runs out. The source logs on the way; logging is left out.
use jobmaster.Base.{◌≡◌, refl, ℕ, String}

-- What a system call reports.
pub data OsErr : Type 0 where
  not_exist exist interrupted : OsErr
  other : ℕ → OsErr

-- ctx.Err().
pub data CtxErr : Type 0 where
  canceled deadline_exceeded : CtxErr

-- The status codes of gRPC that the source uses.
pub data Code : Type 0 where
  permission_denied aborted internal not_found canceled unauthenticated : Code

-- An error stands by its format string and its cause; the other formatted values are left out.
pub data Error : Type 0 where
  msg : String → Error
  wrap : String → Error → Error
  joined : Error → Error
  os : OsErr → Error
  ctx : CtxErr → Error
  -- what a package outside the repository reports
  foreign : ℕ → Error
  status : Code → Error → Error
  eof : Error

pub data Result {ℓ} (A : Type ℓ) : Type ℓ where
  hang : Result A
  panic : String → Result A
  err : Error → Result A
  ok : A → Result A

-- Only a value goes on to the next statement.
infixl 5 ◌>>=◌ ◌>>◌
abbrev pub ◌>>=◌ {ℓ κ} : {T : Type ℓ} {U : Type κ} → Result T → (T → Result U) → Result U
hang >>= next = hang
panic why >>= next = panic why
err e >>= next = err e
ok value >>= next = next value

abbrev pub ◌>>◌ {ℓ} : {U : Type ℓ} → Result (Unit {0}) → Result U → Result U
first >> second = first >>= λ done. second

-- `if err != nil { return fmt.Errorf(s, err) }`.
abbrev pub map_err {ℓ} : {A : Type ℓ} → (Error → Error) → Result A → Result A
map_err f (ok a) = ok a
map_err f (err e) = err (f e)
map_err f (panic m) = panic m
map_err f hang = hang

-- Where a sequence of two yields a value, so does the first, and the second from there.
pub >>=-eq-ok {ℓ κ} :
    {T : Type ℓ} {U : Type κ} (r : Result T) (next : T → Result U) {u : U}
    → (r >>= next) ≡ ok u
    → (t : T) × (r ≡ ok t) × (next t ≡ ok u)
>>=-eq-ok hang next e = cc
>>=-eq-ok (panic why) next e = cc
>>=-eq-ok (err x) next e = cc
>>=-eq-ok (ok t) next e = (t, refl, e)

-- A result that is a value or an error.
abbrev pub IsReturn {ℓ} : {A : Type ℓ} → Result A → Type 0
IsReturn (ok a) = Unit
IsReturn (err e) = Unit
IsReturn (panic s) = ⊥
IsReturn hang = ⊥

pub bind-IsReturn {ℓ κ} :
    {A : Type ℓ} {B : Type κ} (m : Result A) (f : A → Result B)
    → IsReturn m
    → ((a : A) → IsReturn (f a))
    → IsReturn (m >>= f)
bind-IsReturn (ok a) f h k = k a
bind-IsReturn (err e) f h k = tt
bind-IsReturn (panic s) f h k = h
bind-IsReturn hang f h k = h
