-- ===== src/Userland/Edit/Files.antt =====
-- What the editor writes to its file, it loads again, and the old end of a longer file with it.
use manux.Common.{
  length, ++-assoc, ++-nil, ℕ, zero, suc, ◌+◌, ◌≤◌, ◌<◌, ◌≡◌, refl, sym, ap, ◌∙◌, true, List, [],
  ◌∷◌, ◌++◌, arith,
}
use manux.Userland.Edit.{
  Editor, File, contents, rewind, rest_behind, write, write_from, write_lines,
}
use manux.Userland.Edit.Laws.{plain, written, length-++}

rest_behind-+ : (n m : ℕ) (cs : List ℕ) → rest_behind m (rest_behind n cs) ≡ rest_behind (n + m) cs
unfolding rest_behind
rest_behind-+ zero m cs = ap (λ k. rest_behind k cs) (omega arith)
rest_behind-+ (suc n) zero [] = let e : suc n + 0 ≡ suc (n + 0) = omega arith in rw e refl
rest_behind-+ (suc n) (suc m) [] =
    let e : suc n + suc m ≡ suc (n + suc m) = omega arith in rw e refl
rest_behind-+ (suc n) m (c ∷ cs) =
    let e : suc n + m ≡ suc (n + m) = omega arith in rw e (rest_behind-+ n m cs)

-- The loop of `w` puts the lines in the place of as many characters.
write_from-written :
    (n i : ℕ) (lines : ℕ → List ℕ) (f : File)
    → write_from n i lines f ≡ record {
      front = f.front ++ written n i lines;
      back = rest_behind (length (written n i lines)) f.back;
    }
unfolding write_from written rest_behind
write_from-written zero i lines f = λ q. record { front = sym (++-nil f.front) q; back = f.back }
write_from-written (suc n) i lines f =
    let more = written n (i + 1) lines in
    let line = lines i in
    let long : length line + (1 + length more) ≡ length (line ++ (10 ∷ more)) =
      omega (arith, length-++ line (10 ∷ more)) in
    let fronts = ++-assoc (f.front ++ line) (10 ∷ []) more ∙ ++-assoc f.front line (10 ∷ more) in
    let backs =
      ap (rest_behind (length more)) (rest_behind-+ (length line) 1 f.back)
      ∙ rest_behind-+ (length line + 1) (length more) f.back
      ∙ ap (λ k. rest_behind k f.back) (omega arith ∙ long) in
    write_from-written n (i + 1) lines (write (write f line) (10 ∷ [])) ∙ λ q. record {
      front = fronts q;
      back = backs q;
    }

-- The file behind `w`: the lines, and what was behind as many characters.
pub contents-write_lines :
    (ed : Editor) (f : File)
    → contents (write_lines ed f)
      ≡ written ed.num_lines 0 ed.lines
        ++ rest_behind (length (written ed.num_lines 0 ed.lines)) (contents f)
unfolding write_lines
contents-write_lines ed f = ap contents (write_from-written ed.num_lines 0 ed.lines (rewind f))

-- The lines of an editor that its file can hold
abbrev pub CanSave : Editor → Type 0
CanSave ed = (k : ℕ) → k < ed.num_lines → (plain (ed.lines k) ≡ true) × (length (ed.lines k) ≤ 95)
