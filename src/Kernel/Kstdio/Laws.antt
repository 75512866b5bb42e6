-- ===== src/Kernel/Kstdio/Laws.antt =====
-- What kernel/kstdio.c prints and reads.
use manux.Common.{
  ltb, ◌==◌, if◌then◌else◌, eq→==, ne→==, add16, ++-assoc, ++-nil, Bytes, ℕ, zero, suc, ◌+◌, ◌-◌,
  ◌*◌, ◌/◌, ◌%◌, ◌^◌, ◌<◌, ◌≡◌, refl, sym, ap, ◌∙◌, ◌≢◌, Bool, true, false, List, [], ◌∷◌, ◌++◌,
  arith,
}
use manux.Kernel.Kstdio.{kputs_from, kputs, kputslen_from, kputslen, kputh_digit, kputh}

-- The `n` bytes from `at` on
abbrev pub chars : Bytes → (at n : ℕ) → List ℕ
chars m at zero = []
chars m at (suc n) = m at ∷ chars m (at + 1) n

snoc : (xs : List ℕ) (c : ℕ) (ys : List ℕ) → (xs ++ (c ∷ [])) ++ ys ≡ xs ++ (c ∷ ys)
snoc xs c ys = ++-assoc xs (c ∷ []) ys

kputs_from-chars :
    (l n : ℕ) (mem : Bytes) (s i : ℕ) (sent : List ℕ)
    → l < n
    → i + l < 65536
    → ((k : ℕ) → k < l → mem (s + k) ≢ 0)
    → mem (s + l) ≡ 0
    → kputs_from n mem s i sent ≡ (i + l, sent ++ chars mem s l)
unfolding kputs_from
kputs_from-chars l zero mem s i sent h small live nul = absurd (omega arith)
kputs_from-chars zero (suc n) mem s i sent h small live nul =
    let stop : (mem s == 0) ≡ true = eq→== _ _ (ap mem {y = s + 0} (omega arith) ∙ nul) in
    let e : i ≡ i + 0 = omega arith in rw (kputs_from, stop) λ q. (e q, sym (++-nil sent) q)
kputs_from-chars (suc l) (suc n) mem s i sent h small live nul =
    let goes : (mem s == 0) ≡ false =
      ne→== _ _ λ e. live 0 (omega arith) (ap mem {y = s} (omega arith) ∙ e) in
    let next : add16 i 1 ≡ i + 1 = omega arith in
    let total : i + 1 + l ≡ i + suc l = omega arith in
    rw (kputs_from, goes, next)
      (kputs_from-chars l n mem (s + 1) (i + 1) (sent ++ (mem s ∷ [])) (omega arith) (omega arith)
          (λ k lt e. live (suc k) (omega arith) (ap mem (omega arith) ∙ e))
          (ap mem (omega arith) ∙ nul)
        ∙ λ q. (total q, snoc sent (mem s) (chars mem (s + 1) l) q))

-- kputs of a string of fewer than 65536 characters ends, sends exactly these characters and answers
-- how many they are.
pub kputs_lem :
    (mem : Bytes) (s l : ℕ) (sent : List ℕ)
    → l < 65536
    → ((k : ℕ) → k < l → mem (s + k) ≢ 0)
    → mem (s + l) ≡ 0
    → kputs mem s sent ≡ (l, sent ++ chars mem s l)
unfolding kputs
kputs_lem mem s l sent h live nul =
    kputs_from-chars l 65536 mem s 0 sent h (omega arith) live nul
    ∙ ap (λ k. (k, sent ++ chars mem s l)) (omega arith)

kputslen_from-chars :
    (n : ℕ) (s : Bytes) (i : ℕ) (sent : List ℕ) → kputslen_from n s i sent ≡ sent ++ chars s i n
unfolding kputslen_from
kputslen_from-chars zero s i sent = sym (++-nil sent)
kputslen_from-chars (suc n) s i sent =
    kputslen_from-chars n s (i + 1) (sent ++ (s i ∷ [])) ∙ snoc sent (s i) (chars s (i + 1) n)

-- kputslen sends exactly `len` characters, and answers 0 and not how many it sent.
pub kputslen_lem :
    (s : Bytes) (len : ℕ) (sent : List ℕ) → kputslen s len sent ≡ (0, sent ++ chars s 0 len)
unfolding kputslen
kputslen_lem s len sent = ap (λ out. (0, out)) (kputslen_from-chars len s 0 sent)

-- The value of the hexadecimal digits that a text ends with.
abbrev from_hex : ℕ → ℕ
from_hex c = if ltb c 65 then c - 48 else c - 55

abbrev pub hex_value : ℕ → List ℕ → ℕ
hex_value v [] = v
hex_value v (c ∷ cs) = hex_value (16 * v + from_hex c) cs

hex_value-snoc :
    (v : ℕ) (cs : List ℕ) (c : ℕ) → hex_value v (cs ++ (c ∷ [])) ≡ 16 * hex_value v cs + from_hex c
hex_value-snoc v [] c = refl
hex_value-snoc v (x ∷ xs) c = hex_value-snoc (16 * v + from_hex x) xs c

-- What the digits sent so far stand for
record Shown (v : ℕ) (r : List ℕ × Bool) : Type 0 where
  value : hex_value 0 r.0 ≡ v
  none_yet : r.1 ≡ false → v ≡ 0

kputh_digit-Shown :
    (n i v : ℕ) (r : List ℕ × Bool)
    → Shown v r
    → v ≡ n / 2 ^ i / 16
    → Shown (n / 2 ^ i) (kputh_digit n i r)
unfolding kputh_digit
kputh_digit-Shown n i v (sent, started) k e =
    let d = n / 2 ^ i % 16 in
    let c = if ltb d 10 then 48 + d else 65 + d - 10 in
    let decoded : from_hex c ≡ d = ground arith in
    record {
      value = ground (arith, hex_value-snoc 0 sent c, decoded, k.value, k.none_yet);
      none_yet = λ f. ground (arith, k.none_yet, f);
    }

-- kputh sends hexadecimal digits that stand for its argument, any number of 16 bits.
pub kputh_lem : (n : ℕ) → n < 65536 → hex_value 0 (kputh n []) ≡ n
unfolding kputh
kputh_lem n h =
    let a =
      kputh_digit-Shown n 12 0 ([], false) (record { value = refl; none_yet = λ _. refl })
        (omega arith) in
    let b = kputh_digit-Shown n 8 (n / 4096) _ a (omega arith) in
    let c = kputh_digit-Shown n 4 (n / 256) _ b (omega arith) in
    let d = kputh_digit-Shown n 0 (n / 16) _ c (omega arith) in d.value ∙ omega arith
