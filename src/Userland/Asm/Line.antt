-- ===== src/Userland/Asm/Line.antt =====
-- A line and the two passes of userland/m80asm.c.
use manux.Common.{
  leb, ◌==◌, if◌then◌else◌, length, word, ℕ, ◌-◌, Bool, true, false, ◌&&◌, ◌||◌, Option, none, some,
  List, [], ◌∷◌, ◌++◌,
}
use manux.Common.Text.{codes, take}
use manux.Userland.Asm.{Asm, emitb, done, failed}
use manux.Userland.Asm.Operand.{◌is◌, is_label, is_label_ptr}
use manux.Userland.Asm.Load.{ld}
use manux.Userland.Asm.Calc.{on_pair, step_by, operate, with_carry, add}
use manux.Userland.Asm.Flow.{emit_rel, jump, jump_relative, call, ret, rst, port_access, ex}

-- The operations without operands
abbrev pub plain_ops : List (List ℕ × ℕ)
plain_ops =
    (codes "NOP", 0x00)
    ∷ (codes "HALT", 0x76)
    ∷ (codes "DI", 0xF3)
    ∷ (codes "EI", 0xFB)
    ∷ (codes "CPL", 0x2F)
    ∷ (codes "SCF", 0x37)
    ∷ (codes "CCF", 0x3F)
    ∷ (codes "DAA", 0x27)
    ∷ (codes "RLCA", 0x07)
    ∷ (codes "RRCA", 0x0F)
    ∷ (codes "RLA", 0x17)
    ∷ (codes "RRA", 0x1F)
    ∷ (codes "EXX", 0xD9)
    ∷ []

unfoldable pub search_plain : List (List ℕ × ℕ) → List ℕ → Option ℕ
search_plain [] op = none
search_plain ((name, opcode) ∷ ops) op =
    let rest = search_plain ops op in if op is name then some opcode else rest

-- The operations with operands, behind their labels. No other operation has one of these names, so
-- one that finds no case of its own fails at the end.
unfoldable pub codegen_flow : Asm → (op arg1 arg2 : List ℕ) → Asm × Bool
codegen_flow s op arg1 arg2 =
    if op is codes "RST"
    then rst s arg1
    else if op is codes "JP"
    then jump s arg1 arg2
    else if op is codes "JR"
    then jump_relative s arg1 arg2
    else if op is codes "CALL"
    then call s arg1 arg2
    else if op is codes "RET"
    then ret s arg1
    else if op is codes "IN"
    then port_access s 0xDB arg1 arg2
    else if op is codes "OUT"
    then port_access s 0xD3 arg2 arg1
    else if op is codes "DJNZ"
    then emit_rel (emitb s 0x10) arg1 s.pc
    else if op is codes "EX"
    then ex s arg1 arg2
    else failed s

unfoldable pub codegen_logic : Asm → (op arg1 arg2 : List ℕ) → Asm × Bool
codegen_logic s op arg1 arg2 =
    if op is codes "AND"
    then operate s 0xA0 0xE6 arg1
    else if op is codes "OR"
    then operate s 0xB0 0xF6 arg1
    else if op is codes "XOR"
    then operate s 0xA8 0xEE arg1
    else if op is codes "CP"
    then operate s 0xB8 0xFE arg1
    else if op is codes "PUSH"
    then on_pair s 0xC5 0xE5 arg1
    else if op is codes "POP"
    then on_pair s 0xC1 0xE1 arg1
    else codegen_flow s op arg1 arg2

unfoldable pub codegen : Asm → (op arg1 arg2 : List ℕ) → Asm × Bool
codegen s op arg1 arg2 =
    if op is codes "LD"
    then ld s arg1 arg2
    else if op is codes "INC"
    then step_by s 0x04 0x03 0x23 arg1
    else if op is codes "DEC"
    then step_by s 0x05 0x0B 0x2B arg1
    else if op is codes "ADD"
    then add s arg1 arg2
    else if op is codes "ADC"
    then with_carry s 0x88 0xCE arg1 arg2
    else if op is codes "SUB"
    then operate s 0x90 0xD6 arg1
    else if op is codes "SBC"
    then with_carry s 0x98 0xDE arg1 arg2
    else codegen_logic s op arg1 arg2

-- is_label, then is_label_ptr, in the second pass
unfoldable pub resolve : Asm → List ℕ → List ℕ
resolve s arg = is_label_ptr s (is_label s arg)

unfoldable pub plain_or : Asm → Option ℕ → (op arg1 arg2 : List ℕ) → Asm × Bool
plain_or s (some opcode) op arg1 arg2 = done (emitb s opcode)
plain_or s none op arg1 arg2 = codegen s op (resolve s arg1) (resolve s arg2)

unfoldable pub operation : Asm → (op arg1 arg2 : List ℕ) → Asm × Bool
operation s op arg1 arg2 = plain_or s (search_plain plain_ops op) op arg1 arg2

-- The characters before a comment
unfoldable pub strip_comment : List ℕ → List ℕ
strip_comment [] = []
strip_comment (c ∷ cs) = let rest = strip_comment cs in if c == 59 then [] else c ∷ rest

unfoldable pub toupper : ℕ → ℕ
toupper c = if leb 97 c && leb c 122 then c - 32 else c

abbrev pub upper : List ℕ → List ℕ
upper [] = []
upper (c ∷ cs) = toupper c ∷ upper cs

-- strtok: what stands behind the delimiters, up to the next one; empty for NULL
unfoldable pub skip_delims : (ℕ → Bool) → List ℕ → List ℕ
skip_delims delim [] = []
skip_delims delim (c ∷ cs) = let rest = skip_delims delim cs in if delim c then rest else c ∷ cs

unfoldable pub token : (ℕ → Bool) → List ℕ → List ℕ × List ℕ
token delim [] = ([], [])
token delim (c ∷ cs) =
    let (word, rest) = token delim cs in if delim c then ([], cs) else (c ∷ word, rest)

unfoldable pub strtok : (ℕ → Bool) → List ℕ → List ℕ × List ℕ
strtok delim str = token delim (skip_delims delim str)

abbrev pub op_delim : ℕ → Bool
op_delim c = (c == 32) || (c == 9)

abbrev pub arg_delim : ℕ → Bool
arg_delim c = op_delim c || (c == 44)

-- The name before a colon at the end
unfoldable pub label_name : List ℕ → Option (List ℕ)
label_name [] = none
label_name (c ∷ []) = if c == 58 then some [] else none
label_name (c ∷ d ∷ cs) = elim (label_name (d ∷ cs)) [ none ↦ none | some l ↦ some (c ∷ l) ]

-- A label in the first pass; the second passes over it.
unfoldable pub define_label : Asm → List ℕ → Asm × Bool
define_label s name =
    if s.pass
    then done s
    else if leb 32 (length s.labels)
    then failed s
    else done (record s { labels = s.labels ++ ((name, s.pc) ∷ []) })

-- A line in its parts: nothing, a label, or an operation with its operands, each cut to 19
-- characters.
pub data Parts : Type 0 where
  blank : Parts
  label : List ℕ → Parts
  instruction : (op arg1 arg2 : List ℕ) → Parts

unfoldable pub parts : List ℕ → Parts
parts line =
    let (word, behind) = strtok op_delim (upper (strip_comment line)) in
    let (first, behind1) = strtok arg_delim behind in
    let (second, behind2) = strtok arg_delim behind1 in
    elim word [
      | [] ↦ blank
      | c ∷ cs ↦ elim (label_name (take 19 (c ∷ cs))) [
        | some name ↦ label name
        | none ↦ instruction (take 19 (c ∷ cs)) (take 19 first) (take 19 second)
      ]
    ]

unfoldable pub assemble_parts : Asm → Parts → Asm × Bool
assemble_parts s blank = done s
assemble_parts s (label name) = define_label s name
assemble_parts s (instruction op arg1 arg2) = operation s op arg1 arg2

unfoldable pub line_codegen : Asm → List ℕ → Asm × Bool
line_codegen s line = assemble_parts s (parts line)

-- The loop over the lines of one pass, which ends at the first that fails.
unfoldable pub run_pass : Asm → List (List ℕ) → Asm × Bool
run_pass s [] = done s
run_pass s (line ∷ lines) =
    let (next, ok) = line_codegen s line in
    let rest = run_pass next lines in if ok then rest else failed next

-- The second pass starts at the same address, with the labels that the first has collected.
unfoldable pub second_pass : Asm → (basepc : ℕ) → Asm
second_pass s basepc = record s { pass = true; pc = basepc }

-- main on the lines of a file: both passes, the second also where the first has failed.
unfoldable pub assemble : (basepc : ℕ) → List (List ℕ) → Asm × Bool
assemble basepc lines =
    let start : Asm = record { pass = false; pc = basepc; labels = []; out = [] } in
    run_pass (second_pass (run_pass start lines).0 basepc) lines
