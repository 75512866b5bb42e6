-- ===== src/Kernel/Kstdio.antt =====
-- kernel/kstdio.c over the terminal. Output is the list of characters sent, in order.
pub mod Laws
pub mod Lines
use manux.Common.{
  ltb, ◌==◌, if◌then◌else◌, is_negative, not, add16, Bytes, store, ℕ, zero, suc, ◌+◌, ◌-◌, ◌/◌, ◌%◌,
  ◌^◌, Bool, true, false, ◌&&◌, ◌||◌, Option, none, some, List, [], ◌∷◌, ◌++◌,
}

-- kputs: `while (*s)` with the rounds that are left; the count is a uint16_t.
unfoldable pub kputs_from : ℕ → Bytes → (s i : ℕ) → List ℕ → ℕ × List ℕ
kputs_from zero mem s i sent = (i, sent)
kputs_from (suc n) mem s i sent = elim (mem s == 0) [
  | true ↦ (i, sent)
  | false ↦ kputs_from n mem (s + 1) (add16 i 1) (sent ++ (mem s ∷ []))
]

-- Addresses are 16 bits, so a string ends within 65536 bytes.
unfoldable pub kputs : Bytes → ℕ → List ℕ → ℕ × List ℕ
kputs mem s sent = kputs_from 65536 mem s 0 sent

-- The loop of kputslen, with the rounds that are left.
unfoldable pub kputslen_from : ℕ → Bytes → ℕ → List ℕ → List ℕ
kputslen_from zero s i sent = sent
kputslen_from (suc n) s i sent = kputslen_from n s (i + 1) (sent ++ (s i ∷ []))

-- `len` is compared as an unsigned number.
unfoldable pub kputslen : Bytes → ℕ → List ℕ → ℕ × List ℕ
kputslen s len sent = (0, kputslen_from len s 0 sent)

abbrev pub is_newline : ℕ → Bool
is_newline c = (c == 13) || (c == 10)

abbrev pub is_backspace : ℕ → Bool
is_backspace c = (c == 8) || (c == 0x7F)

-- What kgetslen leaves: its result, the buffer, what was sent, and the characters not read yet.
pub record Got : Type 0 where
  pub result : ℕ
  pub s : Bytes
  pub sent : List ℕ
  pub rest : List ℕ

-- `i < len` for the `int` len, as its pattern of 16 bits; `i` is never negative here.
abbrev pub is_inside : (i len : ℕ) → Bool
is_inside i len = not (is_negative len) && ltb i len

-- The loop of kgetslen at `i`, on the characters that will be typed; `none` when it still waits
-- after the last of them. kgetchar echoes. `i -= 2` and the loop's `++i` make `i - 1`.
unfoldable pub kgetslen_from : List ℕ → (len i : ℕ) → Bytes → List ℕ → Option Got
kgetslen_from [] len i s sent =
    if is_inside i len
    then none
    else some (record { result = i; s = store s i 0; sent = sent; rest = [] })
kgetslen_from (c ∷ typed) len i s sent =
    let s1 = store s i c in
    let echoed = sent ++ (c ∷ []) in
    elim (is_inside i len) [
      | false ↦ some (record { result = i; s = store s i 0; sent = sent; rest = c ∷ typed })
      | true ↦ elim (is_newline c) [
        | true ↦
            some (record {
              result = i;
              s = store s1 i 0;
              sent = echoed ++ (10 ∷ 13 ∷ []);
              rest = typed;
            })
        | false ↦ elim (is_backspace c && ltb 0 i) [
          | true ↦ kgetslen_from typed len (i - 1) (store s1 i 0) (echoed ++ (8 ∷ 32 ∷ 8 ∷ []))
          | false ↦ kgetslen_from typed len (i + 1) s1 echoed
        ]
      ]
    ]

unfoldable pub kgetslen : List ℕ → Bytes → ℕ → List ℕ → Option Got
kgetslen typed s len sent = kgetslen_from typed len 0 s sent

-- One digit of kputh, at the shift `i`: the characters sent, and whether one was.
unfoldable pub kputh_digit : (n i : ℕ) → List ℕ × Bool → List ℕ × Bool
kputh_digit n i (sent, started) =
    let digit = n / 2 ^ i % 16 in
    let char_digit = if ltb digit 10 then 48 + digit else 65 + digit - 10 in
    if ltb 0 digit || started || (i == 0)
    then (sent ++ (char_digit ∷ []), true)
    else (sent, started)

unfoldable pub kputh : ℕ → List ℕ → List ℕ
kputh n sent =
    (kputh_digit n 0 (kputh_digit n 4 (kputh_digit n 8 (kputh_digit n 12 (sent, false))))).0
