-- ===== src/Tests/CommandLines.antt =====
-- Command lines of the client.
use jobmaster.Base.{◌≡◌, ◌↔◌, [], ◌∷◌, List, Text, codes}
use jobmaster.Result.{ok}
use jobmaster.Client.CommandLine.{CommandLine, parse_command_line_args}
use jobmaster.Client.CommandLine.Laws.{Reads, parse_command_line_args_iff}
use jobmaster.Tests.World.{ascii}

abbrev list_root : List Text
list_root = codes "-n" ∷ codes "client1" ∷ codes "Start" ∷ codes "ls" ∷ codes "-l" ∷ []

abbrev listing : CommandLine
listing = record {
  client_name = codes "client1";
  operation = codes "start";
  op_arg = codes "ls";
  additional_args = codes "-l" ∷ [];
}

parse_command_line_args_iff_example : (parse_command_line_args list_root ≡ ok listing) ↔ (
    (flag : Text) × (name : Text) × (op : Text) × (arg : Text) × (more : List Text) × (list_root
      ≡ flag ∷ name ∷ op ∷ arg ∷ more)
    × Reads flag name op arg more listing)
parse_command_line_args_iff_example = parse_command_line_args_iff list_root listing
