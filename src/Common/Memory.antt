-- ===== src/Common/Memory.antt =====
-- Memory as a function from an offset to a byte: stores, block copies and little-endian words, as
-- `memset`, `memcpy` and `*(uint16_t*)p` use them.
use Prim.Native.Nat.{ℕ, ◌+◌, ◌-◌, ◌*◌, ◌/◌, ◌%◌, ◌≤◌, ◌<◌}
use mathlib.Core.Path.{◌≡◌}
use mathlib.Core.Logic.{◌⊎◌, inl, inr}
use mathlib.Core.Bool.{◌&&◌}
use mathlib.Core.List.{List, [], ◌∷◌}
use native.Mathlib.Omega.{arith}
use manux.Common.Tests.{ltb, leb, Bool-cases, ltb→lt, ltb→ge, ◌==◌, if◌then◌else◌}

abbrev pub Bytes : Type 0
Bytes = ℕ → ℕ

abbrev pub IsBytes : Bytes → Type 0
IsBytes m = (i : ℕ) → m i < 256

-- `m[i] = v`
unfoldable pub store : Bytes → ℕ → ℕ → Bytes
store m i v j = if j == i then v % 256 else m j

-- `memcpy(m + at, src + from, n)`
unfoldable pub copy : Bytes → ℕ → Bytes → ℕ → ℕ → Bytes
copy m at src from n j = if leb at j && ltb j (at + n) then src (from + (j - at)) else m j

-- `memcpy((uint8_t *)at, src + from, n)` on the whole memory of 65536 bytes, where a pointer wraps
unfoldable pub copy_wrapped : Bytes → ℕ → Bytes → ℕ → ℕ → Bytes
copy_wrapped m at src from n j =
    if ltb j 65536 && ltb ((j + 65536 - at) % 65536) n
    then src (from + (j + 65536 - at) % 65536)
    else m j

-- Below the top of memory nothing wraps.
pub copy_wrapped-inside :
    (m : Bytes) (at : ℕ) (src : Bytes) (from n j : ℕ)
    → at < 65536
    → at + n ≤ 65536
    → copy_wrapped m at src from n j ≡ copy m at src from n j
unfolding copy_wrapped copy
copy_wrapped-inside m at src from n j low fits = elim (Bool-cases (ltb j at)) [
  | inl before ↦
      let lt = ltb→lt j at before in
      let distance : (j + 65536 - at) % 65536 ≡ j + 65536 - at = omega arith in
      rw distance (ground arith)
  | inr behind ↦
      let le = ltb→ge j at behind in
      elim (Bool-cases (ltb j 65536)) [
        | inl address ↦
            let lt = ltb→lt j 65536 address in
            let distance : (j + 65536 - at) % 65536 ≡ j - at = omega arith in
            rw distance (ground arith)
        | inr beyond ↦ let ge = ltb→ge j 65536 beyond in ground arith
      ]
]

-- `memset(m + at, 0, n)`
unfoldable pub clear : Bytes → ℕ → ℕ → Bytes
clear m at n j = if leb at j && ltb j (at + n) then 0 else m j

-- `*(uint16_t*)(m + i)` and a store through it
unfoldable pub word : Bytes → ℕ → ℕ
word m i = m i + 256 * m (i + 1)

unfoldable pub store_word : Bytes → ℕ → ℕ → Bytes
store_word m i w j = if j == i then w % 256 else if j == i + 1 then w / 256 % 256 else m j

-- The bytes of a text and zeros behind them.
abbrev pub text : List ℕ → Bytes
text [] i = 0
text (c ∷ cs) i = if i == 0 then c else text cs (i - 1)

pub word-store_word : (m : Bytes) (i w : ℕ) → w < 65536 → word (store_word m i w) i ≡ w
unfolding word store_word
word-store_word m i w h = ground arith

pub word-store_word_ne :
    (m : Bytes) (i j w : ℕ) → i + 2 ≤ j ⊎ j + 2 ≤ i → word (store_word m i w) j ≡ word m j
unfolding word store_word
word-store_word_ne m i j w h = ground arith

pub word-lt : (m : Bytes) (i : ℕ) → IsBytes m → word m i < 65536
unfolding word
word-lt m i h = omega (arith, h i, h (i + 1))

module _ {m : Bytes} (ok : IsBytes m) where
  pub store-IsBytes : (i v : ℕ) → IsBytes (store m i v)
  unfolding store
  store-IsBytes i v j = ground (arith, ok j)

  pub store_word-IsBytes : (i w : ℕ) → IsBytes (store_word m i w)
  unfolding store_word
  store_word-IsBytes i w j = ground (arith, ok j)

  pub copy-IsBytes :
      (at : ℕ) {src : Bytes} (from n : ℕ) → IsBytes src → IsBytes (copy m at src from n)
  unfolding copy
  copy-IsBytes at from n h j = ground (arith, ok j, h (from + (j - at)))

  pub clear-IsBytes : (at n : ℕ) → IsBytes (clear m at n)
  unfolding clear
  clear-IsBytes at n j = ground (arith, ok j)

pub clear-inside : (m : Bytes) (at n i : ℕ) → i < n → clear m at n (at + i) ≡ 0
unfolding clear
clear-inside m at n i h = ground arith

pub clear-outside : (m : Bytes) (at n i : ℕ) → i < at ⊎ at + n ≤ i → clear m at n i ≡ m i
unfolding clear
clear-outside m at n i h = ground arith
