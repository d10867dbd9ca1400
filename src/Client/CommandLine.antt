-- ===== src/Client/CommandLine.antt =====
-- cmd/client/main.go: the parsing of the arguments, by hand.
pub mod Laws
use jobmaster.Base.{
  Bool, not, ◌&&◌, ◌||◌, ltb, length, List, [], ◌∷◌, Text, codes, text_eq, is_nil, CaseMap,
  to_lower, if◌then◌else◌,
}
use jobmaster.Result.{Result, ok, err, panic, msg}

-- The variables of the package that the parser sets.
pub record CommandLine : Type 0 where
  pub client_name : Text
  pub operation : Text
  pub op_arg : Text
  pub additional_args : List Text

-- The cases of the switch.
unfoldable pub is_operation : Text → Bool
is_operation s =
    text_eq s (codes "start")
    || text_eq s (codes "stop")
    || text_eq s (codes "status")
    || text_eq s (codes "streamoutput")

unfoldable pub parse_op_arg : Text → Text → List Text → Result CommandLine
parse_op_arg name op [] = err (msg "operation %q requires an argument")
parse_op_arg name op (arg ∷ more) =
    ok (record { client_name = name; operation = op; op_arg = arg; additional_args = more })

module _ ⦃m : CaseMap⦄ where
  -- From the operation on.
  unfoldable pub parse_operation : Text → List Text → Result CommandLine
  parse_operation name [] = panic "index out of range"
  parse_operation name (op ∷ args) =
      if is_operation (to_lower op)
      then parse_op_arg name (to_lower op) args
      else err (msg "unknown operation %q")

  unfoldable pub parse_name : List Text → Result CommandLine
  parse_name (flag ∷ name ∷ rest) =
      if not (text_eq flag (codes "-n")) && not (text_eq flag (codes "--name"))
      then err (
          msg
            "-n/--name CLIENT_NAME is required/mandatory and MUST be the first argument to the program")
      else if is_nil name
      then err (
          msg
            "-n/--name CLIENT_NAME is empty - it is required/mandatory and MUST be the first argument to the program")
      else parse_operation name rest
  parse_name _ = panic "index out of range"

  unfoldable pub parse_command_line_args : List Text → Result CommandLine
  parse_command_line_args cargs =
      if ltb (length cargs) 3
      then err (msg "incorrect number of args specified")
      else parse_name cargs
