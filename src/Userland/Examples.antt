-- ===== src/Userland/Examples.antt =====
-- The theorems on the programs at concrete values.
use manux.Common.{◌==◌, if◌then◌else◌, ℕ, ◌≡◌, refl, List, [], ◌∷◌, arith}
use manux.Userland.Edit.{Editor, File}
use manux.Userland.Shell.{build_argv, shell_round, call_null}
use manux.Userland.Shell.Laws.{build_argv_lem, shell_round_space}

-- Three lines, the second empty.
abbrev three_lines : Editor
three_lines = record {
  lines = λ k. if k == 0 then 72 ∷ 105 ∷ [] else if k == 2 then 33 ∷ [] else [];
  num_lines = 3;
}

-- A file of one line, "old".
abbrev old_file : File
old_file = record { front = 111 ∷ []; back = 108 ∷ 100 ∷ 10 ∷ [] }

-- A file that is two characters longer than what is written.
abbrev longer_file : File
longer_file = record { front = 49 ∷ 50 ∷ 51 ∷ 10 ∷ []; back = 97 ∷ 98 ∷ 99 ∷ 120 ∷ [] }

abbrev replaced : List ℕ
replaced = 49 ∷ 50 ∷ 51 ∷ 10 ∷ 97 ∷ 98 ∷ []

build_argv_example :
    build_argv (99 ∷ 97 ∷ 116 ∷ 32 ∷ 65 ∷ 32 ∷ 66 ∷ 67 ∷ [])
    ≡ (99 ∷ 97 ∷ 116 ∷ []) ∷ (65 ∷ []) ∷ (66 ∷ 67 ∷ []) ∷ []
build_argv_example =
    build_argv_lem (99 ∷ 97 ∷ 116 ∷ []) ((65 ∷ []) ∷ (66 ∷ 67 ∷ []) ∷ []) refl refl (omega arith)

shell_round_example : shell_round (32 ∷ 108 ∷ 115 ∷ []) ≡ call_null
shell_round_example = shell_round_space (108 ∷ 115 ∷ [])
