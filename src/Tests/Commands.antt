-- ===== src/Tests/Commands.antt =====
-- Lines of the administrator.
use tpe_protos.Common.{◌≡◌, refl, [], ◌∷◌, codes, arith}
use tpe_protos.Admin.Command.{ParsedCommand, commands, s5admin_parse_command, strncpy}
use tpe_protos.Admin.Command.Words.{words, join}
use tpe_protos.Admin.Command.Spec.{accepted, reading, meaning, s5admin_parse_command_lem}
use tpe_protos.Admin.Command.Print.{parse-join}

abbrev before : ParsedCommand
before = record { cmd = 0; arg1 = []; arg2 = [] }

s5admin_parse_command_lem_example :
    reading (s5admin_parse_command before (codes "  ADD_USER ana sol extra"))
    ≡ meaning (words (codes "  ADD_USER ana sol extra"))
s5admin_parse_command_lem_example =
    s5admin_parse_command_lem before (codes "  ADD_USER ana sol extra")

parse-join_example :
    reading (s5admin_parse_command before (join (codes "REMOVE_USER") (codes "ana" ∷ [])))
    ≡ accepted 1 (strncpy (codes "ana") ∷ [])
unfolding commands
parse-join_example =
    parse-join before 1 (record { name = codes "REMOVE_USER"; expected_args = 1 })
      (codes "ana" ∷ []) refl refl ((refl, (refl, (refl, tt))), tt) (omega arith, tt)
