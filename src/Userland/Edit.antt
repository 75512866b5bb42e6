-- ===== src/Userland/Edit.antt =====
-- userland/edit.c. A line is a C string, as the list of its characters; what `read` gives from the
-- terminal is a line, and from the file one character at a time.
pub mod Laws
pub mod Files
use manux.Common.{
  ltb, leb, ◌==◌, if◌then◌else◌, length, ℕ, zero, suc, ◌+◌, ◌-◌, Bool, false, ◌&&◌, ◌||◌, List, [],
  ◌∷◌, ◌++◌,
}

-- `lines` and `num_lines`
pub record Editor : Type 0 where
  pub lines : ℕ → List ℕ
  pub num_lines : ℕ

-- MAX_LINE_LEN
abbrev pub max_line_len : ℕ
max_line_len = 96

-- MAX_LINES
abbrev pub max_lines : ℕ
max_lines = 150

-- strcpy copies up to the first NUL.
unfoldable pub until_nul : List ℕ → List ℕ
until_nul [] = []
until_nul (c ∷ cs) = let rest = until_nul cs in if c == 0 then [] else c ∷ rest

abbrev pub put_line : (ℕ → List ℕ) → ℕ → List ℕ → ℕ → List ℕ
put_line lines i line j = if j == i then line else lines j

-- `strcpy(lines[num_lines++], buf)`
unfoldable pub add_line : Editor → List ℕ → Editor
add_line ed buf = record {
  lines = put_line ed.lines ed.num_lines (until_nul buf);
  num_lines = ed.num_lines + 1;
}

-- strcmp(buf, ".") == 0
abbrev pub is_dot : List ℕ → Bool
is_dot [] = false
is_dot (c ∷ []) = c == 46
is_dot (c ∷ d ∷ cs) = false

-- append, on the lines that are typed.
unfoldable pub append : List (List ℕ) → Editor → Editor
append [] ed = ed
append (buf ∷ typed) ed =
    let more = append typed (add_line ed buf) in
    if is_dot buf then ed else if leb max_lines ed.num_lines then ed else more

-- edit_line, with the new line that is typed.
unfoldable pub edit_line : Editor → (line : ℕ) → List ℕ → Editor
edit_line ed line buf =
    if ltb line 1 || ltb max_lines line
    then ed
    else record ed { lines = put_line ed.lines (line - 1) (until_nul buf) }

-- The variables of load_file: the editor, and the first `i` characters of `buf`.
pub record Loading : Type 0 where
  pub editor : Editor
  pub buf : List ℕ

-- One character of the file.
unfoldable pub load_char : Loading → ℕ → Loading
load_char r c =
    if c == 13
    then r
    else if c == 10
    then record {
      editor = if ltb r.editor.num_lines max_lines then add_line r.editor r.buf else r.editor;
      buf = [];
    }
    else if ltb (length r.buf) (max_line_len - 1)
    then record r { buf = r.buf ++ (c ∷ []) }
    else r

unfoldable pub load_chars : List ℕ → Loading → Loading
load_chars [] r = r
load_chars (c ∷ cs) r = load_chars cs (load_char r c)

-- The open file `filefd`: the characters before its position, and those from there on.
pub record File : Type 0 where
  pub front : List ℕ
  pub back : List ℕ

-- All characters of the file
abbrev pub contents : File → List ℕ
contents f = f.front ++ f.back

-- lseek(filefd, 0, SEEK_SET)
abbrev pub rewind : File → File
rewind f = record { front = []; back = contents f }

-- What a write of `n` characters leaves behind the position
unfoldable pub rest_behind : ℕ → List ℕ → List ℕ
rest_behind zero cs = cs
rest_behind (suc n) [] = []
rest_behind (suc n) (c ∷ cs) = rest_behind n cs

-- write(filefd, ...): the characters at the position are replaced, and the file is not cut.
abbrev pub write : File → List ℕ → File
write f cs = record { front = f.front ++ cs; back = rest_behind (length cs) f.back }

-- load_file reads all characters from the position 0.
unfoldable pub load_file : File → Editor → Editor
load_file file ed =
    let r =
      load_chars (contents file) (record { editor = record ed { num_lines = 0 }; buf = [] }) in
    if ltb 0 (length r.buf) && ltb r.editor.num_lines max_lines
    then add_line r.editor r.buf
    else r.editor

-- The loop of the command `w` from line `i` on, with the rounds that are left
unfoldable pub write_from : ℕ → (i : ℕ) → (ℕ → List ℕ) → File → File
write_from zero i lines f = f
write_from (suc n) i lines f = write_from n (i + 1) lines (write (write f (lines i)) (10 ∷ []))

-- The command `w`
unfoldable pub write_lines : Editor → File → File
write_lines ed f = write_from ed.num_lines 0 ed.lines (rewind f)
