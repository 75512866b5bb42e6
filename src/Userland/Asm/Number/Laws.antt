-- ===== src/Userland/Asm/Number/Laws.antt =====
-- Numbers that userland/m80asm.c prints are read back.
use manux.Common.{
  ltb, Bool-cases, ltb→lt, lt→ltb, ltb→ge, ne→==, ℕ, zero, suc, ◌+◌, ◌*◌, ◌/◌, ◌%◌, ◌≤◌, ◌<◌, ◌≡◌,
  refl, sym, ap, ◌∙◌, inl, inr, false, List, [], ◌∷◌, ◌++◌, arith,
}
use manux.Userland.Asm.Number.{
  digit_value, read_digits, read_prefixed, is_space, to_int, strtol, decimal, print_address,
}

-- Numbers of at most `fuel` digits
abbrev pub limit : ℕ → ℕ
limit zero = 1
limit (suc fuel) = limit fuel * 10

-- Only decimal digits
abbrev Digits : List ℕ → Type 0
Digits [] = Unit {0}
Digits (c ∷ cs) = (48 ≤ c) × (c ≤ 57) × Digits cs

Digits-snoc : (xs : List ℕ) (c : ℕ) → Digits xs → 48 ≤ c → c ≤ 57 → Digits (xs ++ (c ∷ []))
Digits-snoc [] c d lo hi = (lo, hi, tt)
Digits-snoc (x ∷ xs) c d lo hi = (d.0, d.1, Digits-snoc xs c d.2 lo hi)

-- A printed number begins with a digit, which is 0 only for the number 0.
pub record Printed (n : ℕ) (cs : List ℕ) : Type 0 where
  pub head : ℕ
  pub rest : List ℕ
  pub shape : cs ≡ head ∷ rest
  pub low : 48 ≤ head
  pub high : head ≤ 57
  pub leading : 0 < n → 49 ≤ head

decimal-Digits : (fuel n : ℕ) → Digits (decimal fuel n)
unfolding decimal
decimal-Digits zero n = tt
decimal-Digits (suc fuel) n = elim (Bool-cases (ltb n 10)) [
  | inl one ↦ rw one (omega arith, omega (arith, ltb→lt n 10 one), tt)
  | inr more ↦ rw more (
      Digits-snoc (decimal fuel (n / 10)) (48 + n % 10) (decimal-Digits fuel (n / 10)) (omega arith)
        (omega arith))
]

pub decimal-Printed : (fuel n : ℕ) → n < limit (suc fuel) → Printed n (decimal (suc fuel) n)
unfolding decimal
decimal-Printed zero n h = rw (lt→ltb n 10 (omega arith)) (record {
  head = 48 + n;
  rest = [];
  shape = refl;
  low = omega arith;
  high = omega arith;
  leading = λ pos. omega arith;
})
decimal-Printed (suc fuel) n h = elim (Bool-cases (ltb n 10)) [
  | inl one ↦ rw one (record {
    head = 48 + n;
    rest = [];
    shape = refl;
    low = omega arith;
    high = omega (arith, ltb→lt n 10 one);
    leading = λ pos. omega arith;
  })
  | inr more ↦
      let p = decimal-Printed fuel (n / 10) (omega arith) in
      rw (more, p.shape)
        (record {
          head = p.head;
          rest = p.rest ++ ((48 + n % 10) ∷ []);
          shape = refl;
          low = p.low;
          high = p.high;
          leading = λ pos. p.leading (omega (arith, ltb→ge n 10 more));
        })
]

read_digits-snoc :
    (acc : ℕ) (xs : List ℕ) (d : ℕ)
    → Digits xs
    → d < 10
    → read_digits 10 acc (xs ++ ((48 + d) ∷ [])) ≡ read_digits 10 acc xs * 10 + d
unfolding read_digits digit_value
read_digits-snoc acc [] d ok h = ground arith
read_digits-snoc acc (x ∷ xs) d ok h =
    let step = read_digits-snoc (acc * 10 + digit_value x) xs d ok.2 h in ground (arith, step, ok)

read_digits-decimal : (fuel n : ℕ) → n < limit fuel → read_digits 10 0 (decimal fuel n) ≡ n
unfolding decimal
read_digits-decimal zero n h = unfold read_digits in omega arith
read_digits-decimal (suc fuel) n h = elim (Bool-cases (ltb n 10)) [
  | inl one ↦ rw one (unfold read_digits digit_value in ground (arith, one))
  | inr more ↦ rw more (
      read_digits-snoc 0 (decimal fuel (n / 10)) (n % 10) (decimal-Digits fuel (n / 10))
        (omega arith)
      ∙ omega (arith, read_digits-decimal fuel (n / 10) (omega arith)))
]

read_prefixed-digits :
    (c : ℕ) (cs : List ℕ) → 49 ≤ c → read_prefixed (c ∷ cs) ≡ read_digits 10 0 (c ∷ cs)
unfolding read_prefixed
read_prefixed-digits c [] h = refl
read_prefixed-digits c (d ∷ cs) h = rw (ne→== c 48 (omega arith)) refl

-- What begins with no space and no sign is read from its first character on.
strtol-unsigned :
    (c : ℕ) (cs : List ℕ) → 48 ≤ c → strtol (c ∷ cs) ≡ to_int false (read_prefixed (c ∷ cs))
unfolding strtol is_space
strtol-unsigned c cs lo = ground arith

pub print_address-Printed : (n : ℕ) → n < 65536 → Printed n (print_address n)
unfolding print_address
print_address-Printed n h = decimal-Printed 4 n (omega arith)

-- strtol gives back the address that sprintf has printed.
pub strtol-print_address : (n : ℕ) → n < 65536 → strtol (print_address n) ≡ n
unfolding print_address
strtol-print_address zero h =
    unfold decimal strtol read_prefixed read_digits is_space digit_value in refl
strtol-print_address (suc n) h =
    let p = decimal-Printed 4 (suc n) (omega arith) in
    let whole = read_digits-decimal 5 (suc n) (omega arith) in
    let read : read_digits 10 0 (p.head ∷ p.rest) ≡ suc n =
      ap (read_digits 10 0) (sym p.shape) ∙ whole in
    ap strtol p.shape
    ∙ strtol-unsigned p.head p.rest p.low
    ∙ rw (read_prefixed-digits p.head p.rest (p.leading (omega arith)), read) (omega arith)

letter-value : (c : ℕ) → 65 ≤ c → c ≤ 95 → ltb (digit_value c) 10 ≡ false
unfolding digit_value
letter-value c lo hi = ground arith

-- A letter or an underscore begins no number.
pub strtol-letter : (c : ℕ) (cs : List ℕ) → 65 ≤ c → c ≤ 95 → strtol (c ∷ cs) ≡ 0
unfolding read_digits
strtol-letter c cs lo hi =
    strtol-unsigned c cs (omega arith)
    ∙ rw (read_prefixed-digits c cs (omega arith), letter-value c lo hi) (omega arith)
