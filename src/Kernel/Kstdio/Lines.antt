-- ===== src/Kernel/Kstdio/Lines.antt =====
-- What kgetslen of kernel/kstdio.c makes of the characters typed.
use manux.Common.{
  ltb, leb, ◌==◌, if◌then◌else◌, length, ++-assoc, ++-nil, Bytes, IsBytes, store, text, ℕ, suc, ◌+◌,
  ◌-◌, ◌≤◌, ◌<◌, ◌≡◌, refl, sym, ◌∙◌, Bool, true, false, not, ◌&&◌, some, List, [], ◌∷◌, ◌++◌,
  arith,
}
use manux.Kernel.Kstdio.{is_inside, is_newline, is_backspace, Got, kgetslen_from, kgetslen}

-- No newline, no backspace.
abbrev pub all_plain : List ℕ → Bool
all_plain [] = true
all_plain (c ∷ cs) = not (is_newline c) && not (is_backspace c) && all_plain cs

-- The buffer with the characters from `i` on.
abbrev pub put_all : List ℕ → ℕ → Bytes → Bytes
put_all [] i s = s
put_all (c ∷ cs) i s = put_all cs (i + 1) (store s i c)

-- Ordinary characters are echoed and put into the buffer, one behind the other.
kgetslen_from-plain :
    (cs typed : List ℕ) (len i : ℕ) (s : Bytes) (sent : List ℕ)
    → all_plain cs ≡ true
    → i + length cs ≤ len
    → len < 32768
    → kgetslen_from (cs ++ typed) len i s sent
      ≡ kgetslen_from typed len (i + length cs) (put_all cs i s) (sent ++ cs)
unfolding kgetslen_from
kgetslen_from-plain [] typed len i s sent plain fits positive =
    let e : i ≡ i + 0 = omega arith in λ q. kgetslen_from typed len (e q) s (sym (++-nil sent) q)
kgetslen_from-plain (c ∷ cs) typed len i s sent plain fits positive =
    let inside : is_inside i len ≡ true = ground arith in
    let ordinary : is_newline c ≡ false = ground arith in
    let kept : is_backspace c ≡ false = ground arith in
    let more : i + 1 + length cs ≡ i + suc (length cs) = omega arith in
    rw (kgetslen_from, inside, ordinary, kept)
      (kgetslen_from-plain cs typed len (i + 1) (store s i c) (sent ++ (c ∷ [])) (ground arith)
          (omega arith) positive
        ∙ λ q.
            kgetslen_from typed len (more q) (put_all cs (i + 1) (store s i c))
              (++-assoc sent (c ∷ []) cs q))

put_all-get :
    (cs : List ℕ) (i : ℕ) (s : Bytes) (j : ℕ)
    → ((k : ℕ) → text cs k < 256)
    → put_all cs i s j ≡ (if leb i j && ltb j (i + length cs) then text cs (j - i) else s j)
unfolding store
put_all-get [] i s j ok = ground arith
put_all-get (c ∷ cs) i s j ok =
    ground (arith, put_all-get cs (i + 1) (store s i c) j (λ k. ground (arith, ok (k + 1))), ok 0)

-- A carriage return inside the buffer ends the line.
kgetslen_from-newline :
    (typed : List ℕ) (len i : ℕ) (s : Bytes) (sent : List ℕ)
    → is_inside i len ≡ true
    → kgetslen_from (13 ∷ typed) len i s sent
      ≡ some (record {
        result = i;
        s = store (store s i 13) i 0;
        sent = (sent ++ (13 ∷ [])) ++ (10 ∷ 13 ∷ []);
        rest = typed;
      })
unfolding kgetslen_from
kgetslen_from-newline typed len i s sent inside = rw (kgetslen_from, inside) refl

-- A full buffer ends it too.
kgetslen_from-full :
    (typed : List ℕ) (i : ℕ) (s : Bytes) (sent : List ℕ)
    → kgetslen_from typed i i s sent
      ≡ some (record { result = i; s = store s i 0; sent = sent; rest = typed })
unfolding kgetslen_from
kgetslen_from-full [] i s sent =
    let full : is_inside i i ≡ false = ground arith in rw (kgetslen_from, full) refl
kgetslen_from-full (c ∷ typed) i s sent =
    let full : is_inside i i ≡ false = ground arith in rw (kgetslen_from, full) refl

-- What a buffer holds: the characters, a NUL, and behind it what was there before.
abbrev pub Holds : List ℕ → Bytes → Bytes → Type 0
Holds cs before s =
    (j : ℕ)
    → s j ≡ (if ltb j (length cs) then text cs j else if j == length cs then 0 else before j)

put_all-Holds :
    (cs : List ℕ) (s : Bytes)
    → IsBytes (text cs)
    → Holds cs s (store (put_all cs 0 s) (length cs) 0)
unfolding store
put_all-Holds cs s ok j = ground (arith, put_all-get cs 0 s j ok)

-- A line of ordinary characters that is shorter than the buffer, whose size is below 32768, ended
-- by a carriage return: the answer is its length, the buffer holds it with a NUL behind it and is
-- otherwise as it was, and the characters typed behind it are still to be read.
pub kgetslen_line :
    (cs rest : List ℕ) (s : Bytes) (len : ℕ) (sent : List ℕ)
    → all_plain cs ≡ true
    → IsBytes (text cs)
    → length cs < len
    → len < 32768
    → (g : Got) × (kgetslen (cs ++ (13 ∷ rest)) s len sent ≡ some g)
      × (g.result ≡ length cs)
      × Holds cs s g.s
      × (g.sent ≡ ((sent ++ cs) ++ (13 ∷ [])) ++ (10 ∷ 13 ∷ []))
      × (g.rest ≡ rest)
unfolding kgetslen
kgetslen_line cs rest s len sent plain ok fits positive =
    let inside : is_inside (length cs) len ≡ true = ground arith in
    let z : 0 + length cs ≡ length cs = omega arith in
    (
      record {
        result = length cs;
        s = store (store (put_all cs 0 s) (length cs) 13) (length cs) 0;
        sent = ((sent ++ cs) ++ (13 ∷ [])) ++ (10 ∷ 13 ∷ []);
        rest = rest;
      },
      kgetslen_from-plain cs (13 ∷ rest) len 0 s sent plain (omega arith) positive
          ∙ rw z (kgetslen_from-newline rest len (length cs) (put_all cs 0 s) (sent ++ cs) inside),
      refl,
      (λ j. twice j ∙ put_all-Holds cs s ok j),
      refl,
      refl,
    )
  where
    twice :
        (j : ℕ)
        → store (store (put_all cs 0 s) (length cs) 13) (length cs) 0 j
          ≡ store (put_all cs 0 s) (length cs) 0 j
    twice j = unfold store in ground arith

-- As many ordinary characters, fewer than 32768, as the buffer holds end the line without a
-- newline. The answer is their number, and the NUL goes to the byte behind the buffer, whatever was
-- there.
pub kgetslen_overrun :
    (cs rest : List ℕ) (s : Bytes) (sent : List ℕ)
    → all_plain cs ≡ true
    → IsBytes (text cs)
    → length cs < 32768
    → (g : Got) × (kgetslen (cs ++ rest) s (length cs) sent ≡ some g)
      × (g.result ≡ length cs)
      × Holds cs s g.s
      × (g.s (length cs) ≡ 0)
      × (g.rest ≡ rest)
unfolding kgetslen
kgetslen_overrun cs rest s sent plain ok positive = (
  record {
    result = length cs;
    s = store (put_all cs 0 s) (length cs) 0;
    sent = sent ++ cs;
    rest = rest;
  },
  kgetslen_from-plain cs rest (length cs) 0 s sent plain (omega arith) positive ∙ ends rest,
  refl,
  put_all-Holds cs s ok,
  put_all-Holds cs s ok (length cs) ∙ ground arith,
  refl,
)
  where
    ends :
        (typed : List ℕ)
        → kgetslen_from typed (length cs) (0 + length cs) (put_all cs 0 s) (sent ++ cs)
          ≡ some (record {
            result = length cs;
            s = store (put_all cs 0 s) (length cs) 0;
            sent = sent ++ cs;
            rest = typed;
          })
    ends typed =
        let z : 0 + length cs ≡ length cs = omega arith in
        rw z (kgetslen_from-full typed (length cs) (put_all cs 0 s) (sent ++ cs))
