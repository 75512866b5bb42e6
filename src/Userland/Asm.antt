-- ===== src/Userland/Asm.antt =====
-- userland/m80asm.c, the assembler: its state and what it emits. An `int` is its pattern of 32
-- bits, as on the host the assembler is built for too.
pub mod Number
pub mod Operand
pub mod Load
pub mod Calc
pub mod Flow
pub mod Line
pub mod Passes
pub mod Names
pub mod Resolve
pub mod Labels
pub mod Encode
pub mod Tests
use manux.Common.{
  leb, if◌then◌else◌, add16, ℕ, ◌/◌, ◌%◌, Bool, true, false, ◌||◌, List, [], ◌∷◌, ◌++◌,
}
use manux.Common.Text.{same_text}

-- The global variables, and what was written to `outputfd`.
pub record Asm : Type 0 where
  pub pass : Bool
  pub pc : ℕ
  pub labels : List (List ℕ × ℕ)
  pub out : List ℕ

-- -1
abbrev pub minus_one : ℕ
minus_one = 0xFFFFFFFF

-- An `int` below 0
abbrev pub is_negative32 : ℕ → Bool
is_negative32 n = leb 0x80000000 n

-- An `int` from -128 to 127
abbrev pub is_signed8 : ℕ → Bool
is_signed8 n = leb n 127 || leb 0xFFFFFF80 n

unfoldable pub search_label : List (List ℕ × ℕ) → List ℕ → ℕ
search_label [] name = minus_one
search_label ((l, address) ∷ labels) name =
    let rest = search_label labels name in if same_text l name then address else rest

unfoldable pub get_label_addr : Asm → List ℕ → ℕ
get_label_addr s name = if s.pass then search_label s.labels name else minus_one

unfoldable pub emitb : Asm → ℕ → Asm
emitb s b = record s { pc = add16 s.pc 1; out = if s.pass then s.out ++ (b % 256 ∷ []) else s.out }

unfoldable pub emitw : Asm → ℕ → Asm
emitw s w = if s.pass then emitb (emitb s w) (w / 256) else record s { pc = add16 s.pc 2 }

-- The state, and whether the function returns 0 (or -1).
abbrev pub done : Asm → Asm × Bool
done s = (s, true)

abbrev pub failed : Asm → Asm × Bool
failed s = (s, false)
