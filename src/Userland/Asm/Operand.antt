-- ===== src/Userland/Asm/Operand.antt =====
-- The operands of userland/m80asm.c: registers, conditions, addresses and labels.
use manux.Common.{◌==◌, if◌then◌else◌, ℕ, Bool, ◌&&◌, ◌||◌, Option, none, some, List, [], ◌∷◌, ◌++◌}
use manux.Common.Text.{codes, same_text}
use manux.Userland.Asm.{Asm, minus_one, is_signed8, get_label_addr}
use manux.Userland.Asm.Number.{strtol, print_address}

-- strcmp(a, "...") == 0
infix 50 ◌is◌
abbrev pub ◌is◌ : List ℕ → List ℕ → Bool
a is b = same_text a b

unfoldable pub reg8 : List ℕ → ℕ
reg8 name =
    if name is codes "B"
    then 0
    else if name is codes "C"
    then 1
    else if name is codes "D"
    then 2
    else if name is codes "E"
    then 3
    else if name is codes "H"
    then 4
    else if name is codes "L"
    then 5
    else if name is codes "(HL)"
    then 6
    else if name is codes "A"
    then 7
    else minus_one

unfoldable pub reg16 : List ℕ → ℕ
reg16 name =
    if name is codes "BC"
    then 0
    else if name is codes "DE"
    then 1
    else if name is codes "HL"
    then 2
    else if (name is codes "SP") || (name is codes "AF")
    then 3
    else minus_one

unfoldable pub index_reg : List ℕ → ℕ
index_reg name = if name is codes "IX" then 0xDD else if name is codes "IY" then 0xFD else minus_one

unfoldable pub jrcond : List ℕ → ℕ
jrcond name =
    if name is codes "NZ"
    then 0
    else if name is codes "Z"
    then 1
    else if name is codes "NC"
    then 2
    else if name is codes "C"
    then 3
    else minus_one

unfoldable pub jpcond : List ℕ → ℕ
jpcond name =
    if name is codes "NZ"
    then 0
    else if name is codes "Z"
    then 1
    else if name is codes "NC"
    then 2
    else if name is codes "C"
    then 3
    else if name is codes "PO"
    then 4
    else if name is codes "PE"
    then 5
    else if name is codes "P"
    then 6
    else if name is codes "M"
    then 7
    else minus_one

-- What stands before a closing parenthesis at the end
unfoldable pub before_close : List ℕ → Option (List ℕ)
before_close [] = none
before_close (c ∷ []) = if c == 41 then some [] else none
before_close (c ∷ d ∷ cs) = elim (before_close (d ∷ cs)) [ none ↦ none | some l ↦ some (c ∷ l) ]

-- What stands between two parentheses
unfoldable pub in_parens : List ℕ → Option (List ℕ)
in_parens [] = none
in_parens (c ∷ cs) = if c == 40 then before_close cs else none

-- `len < 3` leaves out what is empty.
unfoldable pub addr_in : Option (List ℕ) → ℕ
addr_in (some (c ∷ cs)) = strtol (c ∷ cs)
addr_in _ = minus_one

unfoldable pub mem_addr : List ℕ → ℕ
mem_addr addr = addr_in (in_parens addr)

-- The prefix and the displacement of (IX+d) and (IY+d); `none` for -1.
unfoldable pub index_inside : List ℕ → Option (ℕ × ℕ)
index_inside (i ∷ x ∷ sign ∷ cs) =
    let disp = strtol (sign ∷ cs) in
    if (i == 73) && ((x == 88) || (x == 89)) && ((sign == 43) || (sign == 45)) && is_signed8 disp
    then some (if x == 88 then 0xDD else 0xFD, disp)
    else none
index_inside _ = none

unfoldable pub index_in : Option (List ℕ) → Option (ℕ × ℕ)
index_in none = none
index_in (some inside) = index_inside inside

unfoldable pub index_addr : List ℕ → Option (ℕ × ℕ)
index_addr str = index_in (in_parens str)

-- The operand after is_label: a label becomes its address in decimal.
unfoldable pub is_label : Asm → List ℕ → List ℕ
is_label s str =
    let address = get_label_addr s str in
    if address == minus_one then str else print_address address

-- The operand after is_label_ptr, with what stands in its parentheses
unfoldable pub label_in : Asm → List ℕ → Option (List ℕ) → List ℕ
label_in s str (some (c ∷ cs)) =
    let address = get_label_addr s (c ∷ cs) in
    if address == minus_one then str else 40 ∷ (print_address address ++ (41 ∷ []))
label_in s str _ = str

unfoldable pub is_label_ptr : Asm → List ℕ → List ℕ
is_label_ptr s str = label_in s str (in_parens str)
