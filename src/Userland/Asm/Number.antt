-- ===== src/Userland/Asm/Number.antt =====
-- The numbers of an operand in userland/m80asm.c: strtol with base 0, and sprintf with "%d".
pub mod Laws
use manux.Common.{
  ltb, leb, ◌==◌, if◌then◌else◌, ℕ, zero, suc, ◌+◌, ◌-◌, ◌*◌, ◌/◌, ◌%◌, ◌^◌, min, Bool, true, false,
  ◌&&◌, ◌||◌, List, [], ◌∷◌, ◌++◌,
}

-- The value of a digit or letter; 36 for any other character.
unfoldable pub digit_value : ℕ → ℕ
digit_value c =
    if leb 48 c && leb c 57
    then c - 48
    else if leb 65 c && leb c 90
    then c - 55
    else if leb 97 c && leb c 122
    then c - 87
    else 36

-- The digits from the front, as far as they go.
unfoldable pub read_digits : (base acc : ℕ) → List ℕ → ℕ
read_digits base acc [] = acc
read_digits base acc (c ∷ cs) =
    let more = read_digits base (acc * base + digit_value c) cs in
    if ltb (digit_value c) base then more else acc

unfoldable pub first_digit : List ℕ → ℕ
first_digit [] = 36
first_digit (e ∷ es) = digit_value e

-- 0x before a hexadecimal digit, or 0 before an octal number
unfoldable pub read_prefixed : List ℕ → ℕ
read_prefixed [] = 0
read_prefixed (c ∷ []) = read_digits 10 0 (c ∷ [])
read_prefixed (c ∷ d ∷ cs) =
    if c == 48
    then (if ((d == 120) || (d == 88)) && ltb (first_digit cs) 16
        then read_digits 16 0 cs
        else read_digits 8 0 (d ∷ cs))
    else read_digits 10 0 (c ∷ d ∷ cs)

unfoldable pub is_space : ℕ → Bool
is_space c = (c == 32) || (leb 9 c && leb c 13)

-- A `long` of 64 bits, at its bounds if the number is beyond them, as an `int`.
abbrev pub to_int : (minus : Bool) → ℕ → ℕ
to_int minus n =
    if minus then (2 ^ 32 - min n (2 ^ 63) % 2 ^ 32) % 2 ^ 32 else min n (2 ^ 63 - 1) % 2 ^ 32

-- (int)strtol(s, NULL, 0)
unfoldable pub strtol : List ℕ → ℕ
strtol [] = 0
strtol (c ∷ cs) =
    let skipped = strtol cs in
    if is_space c
    then skipped
    else if c == 45
    then to_int true (read_prefixed cs)
    else if c == 43
    then to_int false (read_prefixed cs)
    else to_int false (read_prefixed (c ∷ cs))

-- The decimal digits, for numbers of at most `fuel` of them.
unfoldable pub decimal : (fuel : ℕ) → ℕ → List ℕ
decimal zero n = []
decimal (suc fuel) n =
    let front = decimal fuel (n / 10) in
    if ltb n 10 then (48 + n) ∷ [] else front ++ ((48 + n % 10) ∷ [])

-- sprintf(str, "%d", address): an address has at most five digits.
unfoldable pub print_address : ℕ → List ℕ
print_address address = decimal 5 address
