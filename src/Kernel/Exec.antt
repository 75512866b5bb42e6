-- ===== src/Kernel/Exec.antt =====
-- kernel/kernel.c: execv, which loads a program and lays out its arguments, and the system calls
-- that choose between the terminal and a file.
pub mod Laws
use manux.Common.{
  ltb, ◌==◌, if◌then◌else◌, length, Bytes, store, copy, clear, store_word, text, ℕ, zero, suc, ◌+◌,
  ◌-◌, ◌*◌, Bool, true, false, ◌||◌, Option, none, some, List, [], ◌∷◌,
}
use manux.Fs.Layout.{size_of}
use manux.Fs.State.{type_stdin, type_stdout, type_stderr, State}
use manux.Fs.Names.{find_file}
use manux.Fs.Read.{mfs_read, load_executable}
use manux.Fs.Write.{mfs_write}
use manux.Kernel.Kstdio.{kputslen, kgetslen}

-- The fields of PIH_t that the kernel writes; `argv` is the table of ARGV_SIZE bytes.
pub record Pih : Type 0 where
  pub size : ℕ
  pub argc : ℕ
  pub argv : Bytes

-- ARGV_SIZE, PIH_ARGV and USER_CODE_AREA
abbrev pub argv_size : ℕ
argv_size = 242

abbrev pub pih_argv : ℕ
pih_argv = 0x4F0C

abbrev pub user_code_area : ℕ
user_code_area = 0x5000

-- `argc`, `strpos`, the table, and `offsets`.
pub record Copying : Type 0 where
  pub argc : ℕ
  pub strpos : ℕ
  pub table : Bytes
  pub offsets : ℕ → ℕ

-- Steps 1 and 2, on the strings of `argv` before its NULL.
unfoldable pub copy_args : List (List ℕ) → Copying → Copying
copy_args [] r = r
copy_args (arg ∷ args) r =
    let len = length arg + 1 in
    let copied = copy_args args (record {
      argc = r.argc + 1;
      strpos = r.strpos + len;
      table = copy r.table r.strpos (text arg) 0 len;
      offsets = store r.offsets r.argc r.strpos;
    }) in
    if ltb r.argc 16 then (if ltb (argv_size - 32) (r.strpos + len) then r else copied) else r

-- Step 3, with the rounds that are left.
unfoldable pub set_pointers : ℕ → (i ptrpos : ℕ) → (ℕ → ℕ) → Bytes → Bytes
set_pointers zero i ptrpos offsets table = table
set_pointers (suc n) i ptrpos offsets table =
    set_pointers n (i + 1) ptrpos offsets (store_word table (ptrpos + i * 2) (pih_argv + offsets i))

-- `argc` and the table, from an `argv` that is not NULL.
unfoldable pub lay_out : List (List ℕ) → Bytes → ℕ × Bytes
lay_out argv table =
    let r =
      copy_args argv
        (record { argc = 0; strpos = 0; table = clear table 0 argv_size; offsets = λ _. 0 }) in
    let ptrpos = argv_size - (r.argc + 1) * 2 in
    (r.argc, store_word (set_pointers r.argc 0 ptrpos r.offsets r.table) (ptrpos + r.argc * 2) 0)

-- The result (`false` is -1), the file system, the user's memory and the header. load_executable
-- has found the file when find_file is asked for its size.
unfoldable pub execv :
    State → Bytes → Option (List (List ℕ)) → Bytes → Pih → Bool × State × Bytes × Pih
execv s fname argv mem pih =
    let (loaded, s1, mem1) = load_executable s fname user_code_area mem in
    let sized : Pih = elim (find_file s1 fname) [
      | none ↦ pih
      | some f ↦ record pih { size = size_of s1.files f }
    ] in
    if loaded
    then elim argv [
      | none ↦ (true, s1, mem1, record sized { argc = 0; argv = clear pih.argv 0 argv_size })
      | some args ↦
          (let laid = lay_out args pih.argv in
            (true, s1, mem1, record sized { argc = laid.0; argv = laid.1 }))
    ]
    else (false, s1, mem1, pih)

-- The kernel as the system calls see it: the file system, what was sent to the terminal, and what
-- will be typed.
pub record System : Type 0 where
  pub fs : State
  pub sent : List ℕ
  pub typed : List ℕ

-- -1 as a bit pattern is the descriptor 0xFFFF. The result -1 is `none`.
unfoldable pub sysc_write : System → (fd count : ℕ) → Bytes → Option ℕ × System
sysc_write y fd count buf =
    let type = (y.fs.fd_table fd).type in
    let (status, sent) = kputslen buf count y.sent in
    let (result, fs) = mfs_write y.fs fd buf count in
    if fd == 0xFFFF
    then (none, y)
    else if (type == type_stdout) || (type == type_stderr)
    then (some status, record y { sent = sent })
    else (result, record y { fs = fs })

-- `none` while the call waits for the terminal; then the result, the kernel and the buffer.
unfoldable pub sysc_read : System → (fd count : ℕ) → Bytes → Option (Option ℕ × System × Bytes)
sysc_read y fd count buf =
    let (result, fs, filled) = mfs_read y.fs fd buf count in
    if fd == 0xFFFF
    then some (none, y, buf)
    else if (y.fs.fd_table fd).type == type_stdin
    then elim (kgetslen y.typed buf count y.sent) [
      | none ↦ none
      | some g ↦ some (some g.result, record y { sent = g.sent; typed = g.rest }, g.s)
    ]
    else some (result, record y { fs = fs }, filled)
