-- ===== src/Userland/Edit/Laws.antt =====
-- How the editor loads a text of lines.
use manux.Common.{
  ltb, ◌==◌, ne→==, ==-refl, length, ++-assoc, ++-nil, ℕ, zero, suc, ◌+◌, ◌≤◌, ◌<◌, ◌≡◌, refl, sym,
  ap, ◌∙◌, Bool, true, false, not, ◌&&◌, ◌||◌, List, [], ◌∷◌, ◌++◌, arith,
}
use manux.Userland.Edit.{
  Editor, max_lines, until_nul, put_line, add_line, Loading, load_char, load_chars,
}

-- No NUL, no line feed, no carriage return.
abbrev pub plain : List ℕ → Bool
plain [] = true
plain (c ∷ cs) = not ((c == 0) || (c == 10) || (c == 13)) && plain cs

pub length-++ : (xs ys : List ℕ) → length (xs ++ ys) ≡ length xs + length ys
length-++ [] ys = omega arith
length-++ (x ∷ xs) ys = omega (arith, length-++ xs ys)

pub until_nul-plain : (cs : List ℕ) → plain cs ≡ true → until_nul cs ≡ cs
unfolding until_nul
until_nul-plain [] h = refl
until_nul-plain (c ∷ cs) h =
    let other : (c == 0) ≡ false = ground arith in
    rw other (ap (λ l. c ∷ l) (until_nul-plain cs (ground arith)))

load_char-plain :
    (ed : Editor) (buf : List ℕ) (c : ℕ)
    → plain (c ∷ []) ≡ true
    → length buf < 95
    → load_char (record { editor = ed; buf = buf }) c
      ≡ record { editor = ed; buf = buf ++ (c ∷ []) }
unfolding load_char
load_char-plain ed buf c h room = ground arith

pub load_chars-plain :
    (cs rest : List ℕ) (ed : Editor) (buf : List ℕ)
    → plain cs ≡ true
    → length buf + length cs ≤ 95
    → load_chars (cs ++ rest) (record { editor = ed; buf = buf })
      ≡ load_chars rest (record { editor = ed; buf = buf ++ cs })
unfolding load_chars
load_chars-plain [] rest ed buf h fits =
    λ q. load_chars rest (record { editor = ed; buf = sym (++-nil buf) q })
load_chars-plain (c ∷ cs) rest ed buf h fits =
    let here : plain (c ∷ []) ≡ true = ground arith in
    let room : length (buf ++ (c ∷ [])) + length cs ≤ 95 = omega (arith, length-++ buf (c ∷ [])) in
    ap (load_chars (cs ++ rest)) (load_char-plain ed buf c here (omega arith))
    ∙ load_chars-plain cs rest ed (buf ++ (c ∷ [])) (ground arith) room
    ∙ λ q. load_chars rest (record { editor = ed; buf = ++-assoc buf (c ∷ []) cs q })

-- One line and its line feed.
load_chars-line :
    (cs rest : List ℕ) (ed : Editor)
    → plain cs ≡ true
    → length cs ≤ 95
    → ed.num_lines < 150
    → load_chars (cs ++ (10 ∷ rest)) (record { editor = ed; buf = [] })
      ≡ load_chars rest (record {
        editor = record { lines = put_line ed.lines ed.num_lines cs; num_lines = ed.num_lines + 1 };
        buf = [];
      })
unfolding add_line
load_chars-line cs rest ed h fits room =
    let more : ltb ed.num_lines max_lines ≡ true = ground arith in
    load_chars-plain cs (10 ∷ rest) ed [] h (omega arith)
    ∙ (unfold load_chars load_char in rw more (rw (until_nul-plain cs h) refl))

-- What loading `n` lines from line `i` on makes of an editor.
pub record Loaded (ed : Editor) (n i : ℕ) (lines : ℕ → List ℕ) (r : Loading) : Type 0 where
  pub buf : r.buf ≡ []
  pub count : r.editor.num_lines ≡ ed.num_lines + n
  pub new : (k : ℕ) → k < n → r.editor.lines (ed.num_lines + k) ≡ lines (i + k)
  pub old : (k : ℕ) → k < ed.num_lines → r.editor.lines k ≡ ed.lines k

-- The editor behind one more line.
abbrev with_line : Editor → List ℕ → Editor
with_line ed cs = record { lines = put_line ed.lines ed.num_lines cs; num_lines = ed.num_lines + 1 }

Loaded-later :
    (ed : Editor) (n i : ℕ) (lines : ℕ → List ℕ) (r : Loading)
    → Loaded (with_line ed (lines i)) n (i + 1) lines r
    → Loaded ed (suc n) i lines r
Loaded-later ed n i lines r k = record {
  buf = k.buf;
  count = omega (arith, k.count);
  new = added;
  old = λ j h. k.old j (omega arith) ∙ rw (ne→== j ed.num_lines (omega arith)) refl;
}
  where
    added : (j : ℕ) → j < suc n → r.editor.lines (ed.num_lines + j) ≡ lines (i + j)
    added zero h =
        ap r.editor.lines {y = ed.num_lines} (omega arith)
        ∙ k.old ed.num_lines (omega arith)
        ∙ rw (==-refl ed.num_lines) (ap lines (omega arith))
    added (suc j) h =
        ap r.editor.lines {y = ed.num_lines + 1 + j} (omega arith)
        ∙ k.new j (omega arith)
        ∙ ap lines (omega arith)

-- The characters that the command `w` writes, from line `i` on
unfoldable pub written : ℕ → (i : ℕ) → (ℕ → List ℕ) → List ℕ
written zero i lines = []
written (suc n) i lines = lines i ++ (10 ∷ written n (i + 1) lines)

-- The lines are loaded first, whatever stands behind them.
pub load_chars-Loaded :
    (n i : ℕ) (lines : ℕ → List ℕ) (ed : Editor)
    → ((k : ℕ) → i ≤ k → k < i + n → (plain (lines k) ≡ true) × (length (lines k) ≤ 95))
    → ed.num_lines + n ≤ 150
    → (after : List ℕ)
    → (r : Loading) × Loaded ed n i lines r
      × (load_chars (written n i lines ++ after) (record { editor = ed; buf = [] })
          ≡ load_chars after r)
unfolding written
load_chars-Loaded zero i lines ed ok fits after = (
  record { editor = ed; buf = [] },
  record { buf = refl; count = omega arith; new = λ k h. absurd (omega arith); old = λ k h. refl },
  refl,
)
load_chars-Loaded (suc n) i lines ed ok fits after =
    let (is_plain, short) = ok i (omega arith) (omega arith) in
    let (r, k, e) =
      load_chars-Loaded n (i + 1) lines (with_line ed (lines i))
        (λ j lo hi. ok j (omega arith) (omega arith)) (omega arith) after in
    (
      r,
      Loaded-later ed n i lines r k,
      ap (λ cs. load_chars cs (record { editor = ed; buf = [] }))
            (++-assoc (lines i) (10 ∷ written n (i + 1) lines) after)
          ∙ load_chars-line (lines i) (written n (i + 1) lines ++ after) ed is_plain short
              (omega arith)
          ∙ e,
    )
