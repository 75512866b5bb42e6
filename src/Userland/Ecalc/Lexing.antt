-- ===== src/Userland/Ecalc/Lexing.antt =====
-- The tokens of userland/ecalc.c in the text of a term.
use manux.Common.{
  ◌==◌, add16, mul16, Bool-cases, ℕ, suc, ◌+◌, ◌-◌, ◌*◌, ◌%◌, ◌<◌, ◌≡◌, refl, sym, ap, ◌∙◌, inl,
  inr, true, false, List, [], ◌∷◌, arith,
}
use manux.Userland.Ecalc.{
  Calc, Message, print, is_digit, is_ans, starts_with, drop, atoi, skip_digits, skip_spaces, scan,
  next_token, token_rpar, token_lpar, operator, token_num, token_ans,
}
use manux.Userland.Ecalc.Terms.{
  Sign, positive, negative, complement, sign_symbol, Op, power, times, over, conjunction, exclusive,
  disjunction, plus, minus, symbol, level, digits, decimal,
}

-- The state whose token is the first of a text.
abbrev pub ready : List ℕ → Calc → Calc
ready cs s = next_token (record s { src = cs })

-- The token and `src` are set without regard to what they were.
scan-any :
    (cs src : List ℕ) (token : ℕ) (s : Calc)
    → scan cs (record s { src = src; token = token }) ≡ scan cs s
unfolding scan
scan-any [] src token s = refl
scan-any (c ∷ cs) src token s = elim (Bool-cases (is_digit c)) [
  | inl digit ↦ rw digit refl
  | inr other ↦ elim (Bool-cases (is_ans (c ∷ cs))) [
    | inl ans ↦ rw (other, ans) refl
    | inr sign ↦ rw (other, sign) refl
  ]
]

scan-print : (cs : List ℕ) (m : Message) (s : Calc) → scan cs (print m s) ≡ print m (scan cs s)
unfolding scan print
scan-print [] m s = refl
scan-print (c ∷ cs) m s = elim (Bool-cases (is_digit c)) [
  | inl digit ↦ rw digit refl
  | inr other ↦ elim (Bool-cases (is_ans (c ∷ cs))) [
    | inl ans ↦ rw (other, ans) refl
    | inr sign ↦ rw (other, sign) refl
  ]
]

pub next_token-any :
    (cs : List ℕ) (token : ℕ) (s : Calc)
    → next_token (record s { src = cs; token = token }) ≡ ready cs s
unfolding next_token
next_token-any cs token s =
    scan-any (skip_spaces cs) cs token s ∙ sym (scan-any (skip_spaces cs) cs s.token s)

pub ready-print :
    (cs : List ℕ) (m : Message) (s : Calc) → print m (ready cs s) ≡ ready cs (print m s)
unfolding next_token print
ready-print cs m s = sym (scan-print (skip_spaces cs) m (record s { src = cs }))

-- What may stand behind a term of a level
pub data Follow : ℕ → List ℕ → Type 0 where
  at_end : (l : ℕ) → Follow l []
  at_rpar : (l : ℕ) (cs : List ℕ) → Follow l (41 ∷ cs)
  at_op : (l : ℕ) (op : Op) (cs : List ℕ) → l < level op → Follow l (32 ∷ symbol op ∷ 32 ∷ cs)

pub Follow-below : (l : ℕ) (cs : List ℕ) → Follow (suc l) cs → Follow l cs
Follow-below l _ (at_end _) = at_end l
Follow-below l _ (at_rpar _ cs) = at_rpar l cs
Follow-below l _ (at_op _ op cs h) = at_op l op cs (omega arith)

digit-is_digit : (d : ℕ) → is_digit (48 + d % 10) ≡ true
digit-is_digit d = ground arith

skip_digits-digits : (l : ℕ) (ds cs : List ℕ) → Follow l cs → skip_digits (digits ds cs) ≡ cs
unfolding skip_digits digits
skip_digits-digits l [] _ (at_end _) = refl
skip_digits-digits l [] _ (at_rpar _ cs) = refl
skip_digits-digits l [] _ (at_op _ op cs h) = refl
skip_digits-digits l (d ∷ ds) cs h = rw (digit-is_digit d) (skip_digits-digits l ds cs h)

atoi-digits :
    (l acc : ℕ) (ds cs : List ℕ)
    → Follow l cs
    → atoi (acc % 65536) (digits ds cs) ≡ decimal acc ds % 65536
unfolding atoi digits decimal
atoi-digits l acc [] _ (at_end _) = refl
atoi-digits l acc [] _ (at_rpar _ cs) = refl
atoi-digits l acc [] _ (at_op _ op cs h) = refl
atoi-digits l acc (d ∷ ds) cs h =
    let step : add16 (mul16 (acc % 65536) 10) ((48 + d % 10) - 48) ≡ (acc * 10 + d % 10) % 65536 =
      omega arith in
    rw (digit-is_digit d, step) (atoi-digits l (acc * 10 + d % 10) ds cs h)

-- The first token of a number, and what is behind it.
pub ready-number :
    (l d : ℕ) (ds cs : List ℕ) (s : Calc)
    → Follow l cs
    → ready (digits (d ∷ ds) cs) s
      ≡ record s { src = cs; token = token_num; num = decimal 0 (d ∷ ds) % 65536 }
unfolding next_token scan digits skip_spaces
ready-number l d ds cs s h =
    let no_space : ((48 + d % 10) == 32) ≡ false = ground arith in
    rw
      (
        no_space,
        digit-is_digit d,
        skip_digits-digits l (d ∷ ds) cs h,
        atoi-digits l 0 (d ∷ ds) cs h,
      )
      refl

pub ready-answer :
    (cs : List ℕ) (s : Calc)
    → ready (97 ∷ 110 ∷ 115 ∷ cs) s ≡ record s { src = cs; token = token_ans }
unfolding next_token scan skip_spaces starts_with drop
ready-answer cs s = refl

pub ready-open :
    (cs : List ℕ) (s : Calc) → ready (40 ∷ cs) s ≡ record s { src = cs; token = token_lpar }
unfolding next_token scan skip_spaces starts_with operator
ready-open cs s = refl

pub ready-close :
    (cs : List ℕ) (s : Calc) → ready (41 ∷ cs) s ≡ record s { src = cs; token = token_rpar }
unfolding next_token scan skip_spaces starts_with operator
ready-close cs s = refl

pub ready-sign :
    (g : Sign) (cs : List ℕ) (s : Calc)
    → ready (sign_symbol g ∷ cs) s ≡ record s { src = cs; token = operator (sign_symbol g) }
unfolding next_token scan skip_spaces starts_with operator
ready-sign positive cs s = refl
ready-sign negative cs s = refl
ready-sign complement cs s = refl

pub ready-op :
    (op : Op) (cs : List ℕ) (s : Calc)
    → ready (32 ∷ symbol op ∷ 32 ∷ cs) s ≡ record s { src = 32 ∷ cs; token = operator (symbol op) }
unfolding next_token scan skip_spaces starts_with operator
ready-op power cs s = refl
ready-op times cs s = refl
ready-op over cs s = refl
ready-op conjunction cs s = refl
ready-op exclusive cs s = refl
ready-op disjunction cs s = refl
ready-op plus cs s = refl
ready-op minus cs s = refl

-- Behind an operation
pub next_token-op :
    (op : Op) (cs : List ℕ) (s : Calc)
    → next_token (ready (32 ∷ symbol op ∷ 32 ∷ cs) s) ≡ ready cs s
unfolding skip_spaces next_token
next_token-op op cs s =
    ap next_token (ready-op op cs s)
    ∙ scan-any (skip_spaces cs) (32 ∷ cs) (operator (symbol op)) s
    ∙ sym (scan-any (skip_spaces cs) cs s.token s)
