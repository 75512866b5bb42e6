-- ===== src/Userland/Asm/Flow.antt =====
-- The jumps, calls, ports and exchanges of userland/m80asm.c.
use manux.Common.{
  leb, ◌==◌, if◌then◌else◌, ℕ, ◌+◌, ◌-◌, ◌*◌, ◌%◌, ◌^◌, Bool, false, not, ◌&&◌, List, [], ◌∷◌,
}
use manux.Common.Text.{codes}
use manux.Userland.Asm.{Asm, minus_one, is_signed8, get_label_addr, emitb, emitw, done, failed}
use manux.Userland.Asm.Number.{strtol}
use manux.Userland.Asm.Operand.{◌is◌, jrcond, jpcond, mem_addr}

-- arg[0] != 0
abbrev pub is_given : List ℕ → Bool
is_given [] = false
is_given (c ∷ cs) = not (c == 0)

unfoldable pub emit_rel : Asm → List ℕ → (base_pc : ℕ) → Asm × Bool
emit_rel s addr base_pc =
    let num = strtol addr in
    let offset = (num + 2 ^ 32 - (base_pc + 2)) % 2 ^ 32 in
    if not s.pass
    then done (emitb s 0)
    else if is_signed8 num
    then done (emitb s num)
    else if leb num 0xFF
    then done (emitb s num)
    else if is_signed8 offset
    then done (emitb s offset)
    else failed s

-- An absolute jump, and the two forms with and without a condition
unfoldable pub jump : Asm → (arg1 arg2 : List ℕ) → Asm × Bool
jump s arg1 arg2 =
    if arg1 is codes "(HL)"
    then done (emitb s 0xE9)
    else if is_given arg2
    then (if jpcond arg1 == minus_one
        then failed s
        else done (emitw (emitb s (0xC2 + jpcond arg1 * 8)) (strtol arg2)))
    else if is_given arg1
    then done (emitw (emitb s 0xC3) (strtol arg1))
    else failed s

unfoldable pub jump_relative : Asm → (arg1 arg2 : List ℕ) → Asm × Bool
jump_relative s arg1 arg2 =
    if is_given arg2
    then (if jrcond arg1 == minus_one
        then failed s
        else emit_rel (emitb s (0x20 + jrcond arg1 * 8)) arg2 s.pc)
    else if is_given arg1
    then emit_rel (emitb s 0x18) arg1 s.pc
    else failed s

-- The address of a label, or a number
unfoldable pub call_target : Asm → List ℕ → ℕ
call_target s arg =
    let address = get_label_addr s arg in if address == minus_one then strtol arg else address

unfoldable pub call : Asm → (arg1 arg2 : List ℕ) → Asm × Bool
call s arg1 arg2 =
    if is_given arg2
    then (if jpcond arg1 == minus_one
        then failed s
        else done (emitw (emitb s (0xC4 + jpcond arg1 * 8)) (call_target s arg2)))
    else if is_given arg1
    then done (emitw (emitb s 0xCD) (call_target s arg1))
    else failed s

unfoldable pub ret : Asm → List ℕ → Asm × Bool
ret s arg1 =
    if is_given arg1
    then (if jpcond arg1 == minus_one then failed s else done (emitb s (0xC0 + jpcond arg1 * 8)))
    else done (emitb s 0xC9)

-- Every number up to 0x38 is accepted, a multiple of 8 or not.
unfoldable pub rst : Asm → List ℕ → Asm × Bool
rst s arg1 = if leb (strtol arg1) 0x38 then done (emitb s (0xC7 + strtol arg1)) else failed s

-- IN A, (n) and OUT (n), A: the accumulator and the port, in their operands' order
unfoldable pub port_access : Asm → (opcode : ℕ) → (accumulator port : List ℕ) → Asm × Bool
port_access s opcode accumulator port =
    if (accumulator is codes "A") && is_given port
    then done (emitb (emitb s opcode) (mem_addr port))
    else failed s

unfoldable pub ex : Asm → (arg1 arg2 : List ℕ) → Asm × Bool
ex s arg1 arg2 =
    if (arg1 is codes "AF") && (arg2 is codes "AF'")
    then done (emitb s 0x08)
    else if (arg1 is codes "DE") && (arg2 is codes "HL")
    then done (emitb s 0xEB)
    else if (arg1 is codes "(SP)") && (arg2 is codes "HL")
    then done (emitb s 0xE3)
    else failed s
