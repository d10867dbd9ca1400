-- ===== src/Client/CommandLine/Laws.antt =====
-- Which command lines the client accepts (cmd/client/main.go).
use jobmaster.Base.{
  length, ◌≤◌, ◌≡◌, refl, ◌↔◌, ◌≢◌, Bool, List, [], ◌∷◌, Text, codes, text_eq_iff, OneOf, CaseMap,
  to_lower, arith, is_nil-eq-false,
}
use jobmaster.Result.{ok, IsReturn}
use jobmaster.Client.CommandLine.{
  CommandLine, is_operation, parse_op_arg, parse_operation, parse_name, parse_command_line_args,
}

abbrev pub operations : List Text
operations = codes "start" ∷ codes "stop" ∷ codes "status" ∷ codes "streamoutput" ∷ []

is_operation_iff : (s : Text) → (is_operation s ≡ Bool.true) ↔ OneOf operations s
unfolding is_operation
is_operation_iff s = ground (
  arith,
  text_eq_iff s (codes "start"),
  text_eq_iff s (codes "stop"),
  text_eq_iff s (codes "status"),
  text_eq_iff s (codes "streamoutput"),
)

module _ ⦃m : CaseMap⦄ where
  -- What an accepted command line holds, and what is read from it.
  abbrev pub Reads : Text → Text → Text → Text → List Text → CommandLine → Type 0
  Reads flag name op arg more l =
      OneOf (codes "-n" ∷ codes "--name" ∷ []) flag
      × (name ≢ [])
      × OneOf operations (to_lower op)
      × (l ≡ record {
        client_name = name;
        operation = to_lower op;
        op_arg = arg;
        additional_args = more;
      })

  parse_Reads :
      (flag name op arg : Text) (more : List Text) (l : CommandLine)
      → (parse_command_line_args (flag ∷ name ∷ op ∷ arg ∷ more) ≡ ok l)
        ↔ Reads flag name op arg more l
  unfolding parse_command_line_args parse_name parse_operation parse_op_arg
  parse_Reads flag name op arg more l = ground (
    arith,
    text_eq_iff flag (codes "-n"),
    text_eq_iff flag (codes "--name"),
    is_operation_iff (to_lower op),
    is_nil-eq-false name,
  )

  too_short :
      (cargs : List Text) (l : CommandLine)
      → length cargs ≤ 3
      → parse_command_line_args cargs ≡ ok l
      → ⊥
  unfolding parse_command_line_args parse_name parse_operation parse_op_arg
  too_short [] l h e = ground arith
  too_short (a ∷ []) l h e = ground arith
  too_short (a ∷ b ∷ []) l h e = ground arith
  too_short (a ∷ b ∷ c ∷ []) l h e = ground arith
  too_short (a ∷ b ∷ c ∷ d ∷ r) l h e = absurd (omega arith)

  -- A command line is accepted exactly when it is `-n` or `--name`, a name that is not empty, one of the four
  -- operations in any case, its argument, and any further arguments; what is read is these, with the
  -- operation in lower case.
  pub parse_command_line_args_iff :
      (cargs : List Text) (l : CommandLine)
      → (parse_command_line_args cargs ≡ ok l) ↔ (
          (flag : Text) × (name : Text) × (op : Text) × (arg : Text) × (more : List Text) × (cargs
            ≡ flag ∷ name ∷ op ∷ arg ∷ more)
          × Reads flag name op arg more l)
  parse_command_line_args_iff cargs l = (
    λ h. forward cargs h,
    λ (flag, name, op, arg, more, e, reads). rw e ((parse_Reads flag name op arg more l).1 reads),
  )
    where
      forward :
          (cargs : List Text)
          → parse_command_line_args cargs ≡ ok l
          → (flag : Text) × (name : Text) × (op : Text) × (arg : Text) × (more : List Text) × (cargs
              ≡ flag ∷ name ∷ op ∷ arg ∷ more)
            × Reads flag name op arg more l
      forward (flag ∷ name ∷ op ∷ arg ∷ more) h =
          (flag, name, op, arg, more, refl, (parse_Reads flag name op arg more l).0 h)
      forward [] h = absurd (too_short [] l (omega arith) h)
      forward (a ∷ []) h = absurd (too_short (a ∷ []) l (omega arith) h)
      forward (a ∷ b ∷ []) h = absurd (too_short (a ∷ b ∷ []) l (omega arith) h)
      forward (a ∷ b ∷ c ∷ []) h = absurd (too_short (a ∷ b ∷ c ∷ []) l (omega arith) h)

  -- Whatever the arguments, the parser returns a command line or an error, and never indexes past the
  -- end of a slice.
  pub parse_command_line_args-IsReturn :
      (cargs : List Text) → IsReturn (parse_command_line_args cargs)
  unfolding parse_command_line_args parse_name parse_operation parse_op_arg
  parse_command_line_args-IsReturn [] = tt
  parse_command_line_args-IsReturn (a ∷ []) = tt
  parse_command_line_args-IsReturn (a ∷ b ∷ []) = tt
  parse_command_line_args-IsReturn (a ∷ b ∷ c ∷ []) = ground arith
  parse_command_line_args-IsReturn (a ∷ b ∷ c ∷ d ∷ r) = ground arith
