-- ===== src/Userland/Shell/Laws.antt =====
-- The shell finds the words of a command line.
use manux.Common.{
  ◌==◌, length, ++-assoc, ++-nil, word, ℕ, zero, suc, ◌≤◌, ◌≡◌, refl, sym, ap, ◌∙◌, Bool, true,
  false, not, ◌&&◌, List, [], ◌∷◌, ◌++◌, arith,
}
use manux.Common.Text.{same_text, take}
use manux.Userland.Shell.{
  first_word, behind_space, words, build_argv, search_builtin, get_builtin_cmd, shell_round,
  call_null,
}

-- A word: no space in it.
abbrev pub no_space : List ℕ → Bool
no_space [] = true
no_space (c ∷ cs) = not (c == 32) && no_space cs

-- Words, none of them empty.
abbrev pub are_words : List (List ℕ) → Bool
are_words [] = true
are_words ([] ∷ args) = false
are_words ((c ∷ cs) ∷ args) = no_space (c ∷ cs) && are_words args

-- A command line: the command, and each argument behind a space.
abbrev pub spaced : List (List ℕ) → List ℕ
spaced [] = []
spaced (arg ∷ args) = 32 ∷ (arg ++ spaced args)

abbrev pub command_line : List ℕ → List (List ℕ) → List ℕ
command_line command args = command ++ spaced args

first_word-spaced :
    (command : List ℕ) (args : List (List ℕ))
    → no_space command ≡ true
    → first_word (command_line command args) ≡ command
unfolding first_word
first_word-spaced [] [] h = refl
first_word-spaced [] (arg ∷ args) h = refl
first_word-spaced (c ∷ cs) args h =
    let other : (c == 32) ≡ false = ground arith in
    rw other (ap (λ l. c ∷ l) (first_word-spaced cs args (ground arith)))

-- The words behind the first space, or nothing.
tail_of : List (List ℕ) → List ℕ
tail_of [] = []
tail_of (arg ∷ args) = arg ++ spaced args

behind_space-spaced :
    (command : List ℕ) (args : List (List ℕ))
    → no_space command ≡ true
    → behind_space (command_line command args) ≡ tail_of args
unfolding behind_space tail_of
behind_space-spaced [] [] h = refl
behind_space-spaced [] (arg ∷ args) h = refl
behind_space-spaced (c ∷ cs) args h =
    let other : (c == 32) ≡ false = ground arith in
    rw other (behind_space-spaced cs args (ground arith))

-- A word that has begun goes on to the next space.
words-word :
    (d : ℕ) (word cs : List ℕ) (args : List (List ℕ))
    → no_space cs ≡ true
    → words (cs ++ spaced args) (d ∷ word) ≡ ((d ∷ word) ++ cs) ∷ words (spaced args) []
unfolding words
words-word d word [] [] h = λ q. sym (++-nil (d ∷ word)) q ∷ []
words-word d word [] (arg ∷ args) h = λ q. sym (++-nil (d ∷ word)) q ∷ words (arg ++ spaced args) []
words-word d word (c ∷ cs) args h =
    let other : (c == 32) ≡ false = ground arith in
    rw (words, other)
      (words-word d (word ++ (c ∷ [])) cs args (ground arith) ∙ λ q.
        (d ∷ ++-assoc word (c ∷ []) cs q) ∷ words (spaced args) [])

words-spaced : (args : List (List ℕ)) → are_words args ≡ true → words (spaced args) [] ≡ args
unfolding words
words-spaced [] h = refl
words-spaced ([] ∷ args) h = absurd (ground arith)
words-spaced ((c ∷ cs) ∷ args) h =
    let other : (c == 32) ≡ false = ground arith in
    rw (words, other)
      (words-word c [] cs args (ground arith)
        ∙ ap (λ l. (c ∷ cs) ∷ l) (words-spaced args (ground arith)))

words-tail_of : (args : List (List ℕ)) → words (tail_of args) [] ≡ words (spaced args) []
unfolding words tail_of
words-tail_of [] = refl
words-tail_of (arg ∷ args) = refl

take-all : (n : ℕ) (xs : List (List ℕ)) → length xs ≤ n → take n xs ≡ xs
unfolding take
take-all zero [] h = refl
take-all zero (x ∷ xs) h = absurd (omega arith)
take-all (suc n) [] h = refl
take-all (suc n) (x ∷ xs) h = ap (λ l. x ∷ l) (take-all n xs (omega arith))

-- A command and at most 15 arguments, none of them empty and no space in any, each behind a space:
-- the vector that the shell builds has the command and the arguments, in order.
pub build_argv_lem :
    (command : List ℕ) (args : List (List ℕ))
    → no_space command ≡ true
    → are_words args ≡ true
    → length args ≤ 15
    → build_argv (command_line command args) ≡ command ∷ args
unfolding build_argv
build_argv_lem command args h ok few = λ q.
    first_word-spaced command args h q
    ∷ (ap (λ l. take 15 (words l [])) (behind_space-spaced command args h)
          ∙ ap (take 15) (words-tail_of args ∙ words-spaced args ok)
          ∙ take-all 15 args few)
        q

-- A line that begins with a space has an empty command, which is the sixth built-in command, and
-- the shell calls its function pointer, which is NULL.
pub shell_round_space : (line : List ℕ) → shell_round (32 ∷ line) ≡ call_null
unfolding shell_round first_word get_builtin_cmd search_builtin same_text
shell_round_space line = refl
