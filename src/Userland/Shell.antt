-- ===== src/Userland/Shell.antt =====
-- userland/shell.c: what the shell makes of a command line. Strings are lists of characters.
pub mod Laws
use manux.Common.{
  ltb, ◌==◌, if◌then◌else◌, word, ℕ, ◌+◌, Bool, ◌&&◌, Option, none, some, List, [], ◌∷◌, ◌++◌,
}
use manux.Common.Text.{same_text, take}

-- The characters before the first space (strchr), which a NUL then ends.
unfoldable pub first_word : List ℕ → List ℕ
first_word [] = []
first_word (c ∷ cs) = let rest = first_word cs in if c == 32 then [] else c ∷ rest

-- The characters behind the first space; none if there is no space, and then `args` is NULL.
unfoldable pub behind_space : List ℕ → List ℕ
behind_space [] = []
behind_space (c ∷ cs) = let rest = behind_space cs in if c == 32 then cs else rest

-- strtok with " ", over and over: the words, with the characters of the one that has begun.
unfoldable pub words : List ℕ → List ℕ → List (List ℕ)
words [] [] = []
words [] (d ∷ word) = (d ∷ word) ∷ []
words (c ∷ cs) [] =
    let skipped = words cs [] in let begun = words cs (c ∷ []) in if c == 32 then skipped else begun
words (c ∷ cs) (d ∷ word) =
    let ended = words cs [] in
    let longer = words cs ((d ∷ word) ++ (c ∷ [])) in if c == 32 then (d ∷ word) ∷ ended else longer

-- argvv before its NULL: the command, and at most 15 words behind it (`argc < 16`).
unfoldable pub build_argv : List ℕ → List (List ℕ)
build_argv command = first_word command ∷ take 15 (words (behind_space command) [])

-- builtin_cmds: uname, ls, cat, clear, help, and three empty strings
abbrev pub builtin_cmds : List (List ℕ)
builtin_cmds =
    (117 ∷ 110 ∷ 97 ∷ 109 ∷ 101 ∷ [])
    ∷ (108 ∷ 115 ∷ [])
    ∷ (99 ∷ 97 ∷ 116 ∷ [])
    ∷ (99 ∷ 108 ∷ 101 ∷ 97 ∷ 114 ∷ [])
    ∷ (104 ∷ 101 ∷ 108 ∷ 112 ∷ [])
    ∷ []
    ∷ []
    ∷ []
    ∷ []

-- builtin_ptr[i] != NULL
abbrev pub has_builtin_ptr : ℕ → Bool
has_builtin_ptr i = ltb i 5

unfoldable pub search_builtin : List (List ℕ) → ℕ → List ℕ → Option ℕ
search_builtin [] i cmd = none
search_builtin (name ∷ names) i cmd =
    let rest = search_builtin names (i + 1) cmd in if same_text name cmd then some i else rest

-- `none` for -1
unfoldable pub get_builtin_cmd : List ℕ → Option ℕ
get_builtin_cmd cmd = search_builtin builtin_cmds 0 cmd

-- What one round of the shell's loop does with a line.
pub data Action : Type 0 where
  nothing : Action
  run_builtin : ℕ → List (List ℕ) → Action
  call_null : Action
  execute : List ℕ → List (List ℕ) → Action
  unknown_command : Action

-- strncmp("./", command, 2) == 0, and what stands behind
unfoldable pub program_name : List ℕ → Option (List ℕ)
program_name [] = none
program_name (a ∷ []) = none
program_name (a ∷ b ∷ name) = if (a == 46) && (b == 47) then some name else none

unfoldable pub shell_round : List ℕ → Action
shell_round [] = nothing
shell_round (c ∷ line) =
    let argv = build_argv (c ∷ line) in
    let command = first_word (c ∷ line) in
    elim (get_builtin_cmd command) [
      | some i ↦ if has_builtin_ptr i then run_builtin i argv else call_null
      | none ↦ elim (program_name command) [
        | some name ↦ execute name argv
        | none ↦ unknown_command
      ]
    ]
