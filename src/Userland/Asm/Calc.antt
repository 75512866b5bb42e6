-- ===== src/Userland/Asm/Calc.antt =====
-- The arithmetic and logic of userland/m80asm.c, PUSH and POP.
use manux.Common.{◌==◌, if◌then◌else◌, ℕ, ◌+◌, ◌*◌, Bool, not, ◌&&◌, List}
use manux.Common.Text.{codes}
use manux.Userland.Asm.{Asm, minus_one, emitb, done, failed}
use manux.Userland.Asm.Number.{strtol}
use manux.Userland.Asm.Operand.{◌is◌, reg8, reg16, index_reg}

-- INC, DEC, PUSH and POP: the opcodes of a register pair and of an index register
unfoldable pub on_pair : Asm → (pair_base index_op : ℕ) → List ℕ → Asm × Bool
on_pair s pair_base index_op arg1 =
    if not (reg16 arg1 == minus_one)
    then done (emitb s (pair_base + reg16 arg1 * 16))
    else if not (index_reg arg1 == minus_one)
    then done (emitb (emitb s (index_reg arg1)) index_op)
    else failed s

-- INC and DEC
unfoldable pub step_by : Asm → (base pair_base index_op : ℕ) → List ℕ → Asm × Bool
step_by s base pair_base index_op arg1 =
    if not (reg8 arg1 == minus_one)
    then done (emitb s (base + reg8 arg1 * 8))
    else on_pair s pair_base index_op arg1

-- An operation on the accumulator and a register or an immediate operand
unfoldable pub operate : Asm → (base imm_base : ℕ) → List ℕ → Asm × Bool
operate s base imm_base arg =
    if not (reg8 arg == minus_one)
    then done (emitb s (base + reg8 arg))
    else done (emitb (emitb s imm_base) (strtol arg))

-- ADC and SBC want A.
unfoldable pub with_carry : Asm → (base imm_base : ℕ) → (arg1 arg2 : List ℕ) → Asm × Bool
with_carry s base imm_base arg1 arg2 =
    if arg1 is codes "A" then operate s base imm_base arg2 else failed s

unfoldable pub add : Asm → (arg1 arg2 : List ℕ) → Asm × Bool
add s arg1 arg2 =
    if arg1 is codes "A"
    then operate s 0x80 0xC6 arg2
    else if (arg1 is codes "HL") && not (reg16 arg2 == minus_one)
    then done (emitb s (0x09 + reg16 arg2 * 16))
    else if not (index_reg arg1 == minus_one) && not (reg16 arg2 == minus_one)
    then done (emitb (emitb s (index_reg arg1)) (0x09 + reg16 arg2 * 16))
    else failed s
