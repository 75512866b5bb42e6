-- ===== src/Userland/Asm/Load.antt =====
-- LD of userland/m80asm.c: its cases in the order in which line_codegen tries them.
use manux.Common.{◌==◌, if◌then◌else◌, ℕ, ◌+◌, ◌*◌, Bool, not, ◌&&◌, Option, none, some, List}
use manux.Common.Text.{codes}
use manux.Userland.Asm.{Asm, minus_one, is_negative32, emitb, emitw, done, failed}
use manux.Userland.Asm.Number.{strtol}
use manux.Userland.Asm.Operand.{◌is◌, reg8, reg16, index_reg, mem_addr, index_addr}

-- LD r, (IX+d)
unfoldable pub load_indexed : Asm → (reg1 : ℕ) → ℕ × ℕ → Asm × Bool
load_indexed s reg1 (prefix, disp) = done (emitb (emitb (emitb s prefix) (0x46 + reg1 * 8)) disp)

-- LD (IX+d), r and LD (IX+d), n
unfoldable pub store_indexed : Asm → (reg2 : ℕ) → List ℕ → ℕ × ℕ → Asm × Bool
store_indexed s reg2 arg2 (prefix, disp) =
    let first = emitb s prefix in
    if not (reg2 == minus_one) && not (reg2 == 6)
    then done (emitb (emitb first (0x70 + reg2)) disp)
    else done (emitb (emitb (emitb first 0x36) disp) (strtol arg2))

-- Behind the registers: SP from an index register, and the immediate operands
unfoldable pub load_immediate : Asm → (arg1 arg2 : List ℕ) → Asm × Bool
load_immediate s arg1 arg2 =
    if (arg1 is codes "SP") && not (index_reg arg2 == minus_one)
    then done (emitb (emitb s (index_reg arg2)) 0xF9)
    else if not (reg16 arg1 == minus_one)
    then done (emitw (emitb s (0x01 + reg16 arg1 * 16)) (strtol arg2))
    else if not (index_reg arg1 == minus_one)
    then done (emitw (emitb (emitb s (index_reg arg1)) 0x21) (strtol arg2))
    else failed s

unfoldable pub load_registers : Asm → (arg1 arg2 : List ℕ) → Asm × Bool
load_registers s arg1 arg2 =
    let reg1 = reg8 arg1 in
    let reg2 = reg8 arg2 in
    if (arg1 is codes "SP") && (arg2 is codes "HL")
    then done (emitb s 0xF9)
    else if not (reg1 == minus_one) && not (reg2 == minus_one)
    then (if (reg1 == 6) && (reg2 == 6) then failed s else done (emitb s (0x40 + reg1 * 8 + reg2)))
    else if not (reg1 == minus_one)
    then done (emitb (emitb s (0x06 + reg1 * 8)) (strtol arg2))
    else load_immediate s arg1 arg2

-- An operand in parentheses counts as an absolute address, whatever stands in them.
unfoldable pub load_absolute : Asm → (arg1 arg2 : List ℕ) → Asm × Bool
load_absolute s arg1 arg2 =
    let from = mem_addr arg2 in
    let to = mem_addr arg1 in
    if (arg1 is codes "A") && not (is_negative32 from)
    then done (emitw (emitb s 0x3A) from)
    else if (arg1 is codes "HL") && not (is_negative32 from)
    then done (emitw (emitb s 0x2A) from)
    else if (arg2 is codes "A") && not (is_negative32 to)
    then done (emitw (emitb s 0x32) to)
    else if (arg2 is codes "HL") && not (is_negative32 to)
    then done (emitw (emitb s 0x22) to)
    else if not (index_reg arg2 == minus_one) && not (is_negative32 to)
    then done (emitw (emitb (emitb s (index_reg arg2)) 0x22) to)
    else load_registers s arg1 arg2

unfoldable pub load_pairs : Asm → (arg1 arg2 : List ℕ) → Asm × Bool
load_pairs s arg1 arg2 =
    if (arg1 is codes "A") && (arg2 is codes "(BC)")
    then done (emitb s 0x0A)
    else if (arg1 is codes "A") && (arg2 is codes "(DE)")
    then done (emitb s 0x1A)
    else if (arg1 is codes "(BC)") && (arg2 is codes "A")
    then done (emitb s 0x02)
    else if (arg1 is codes "(DE)") && (arg2 is codes "A")
    then done (emitb s 0x12)
    else load_absolute s arg1 arg2

-- With the index address of the first operand, if it is one
unfoldable pub store_to : Asm → Option (ℕ × ℕ) → (arg1 arg2 : List ℕ) → Asm × Bool
store_to s none arg1 arg2 = load_pairs s arg1 arg2
store_to s (some index) arg1 arg2 = store_indexed s (reg8 arg2) arg2 index

-- With that of the second
unfoldable pub load_from : Asm → Option (ℕ × ℕ) → (arg1 arg2 : List ℕ) → Asm × Bool
load_from s none arg1 arg2 = store_to s (index_addr arg1) arg1 arg2
load_from s (some index) arg1 arg2 =
    if not (reg8 arg1 == minus_one) && not (reg8 arg1 == 6)
    then load_indexed s (reg8 arg1) index
    else store_to s (index_addr arg1) arg1 arg2

unfoldable pub ld : Asm → (arg1 arg2 : List ℕ) → Asm × Bool
ld s arg1 arg2 = load_from s (index_addr arg2) arg1 arg2
