-- ===== src/Fs/Fd.antt =====
-- fs/fd.c: the table of open files. mfs_close of fs/mfs.c stands here too, since it and fd_close
-- call each other. An `int` result -1 is `none`.
pub mod Laws
use manux.Common.{
  ltb, leb, ◌==◌, if◌then◌else◌, add16, sub16, is_negative, ℕ, zero, suc, ◌+◌, Bool, true, false,
  ◌&&◌, ◌||◌, Option, none, some,
}
use manux.Fs.Disk.{disk_write}
use manux.Fs.Layout.{bitmap_sector, fentry_sector}
use manux.Fs.State.{
  FdEntry, fd_max, type_none, type_stdin, type_stdout, type_stderr, type_file, flags_read,
  flags_write, empty_entry, State, set_fd,
}

pub fd_init : State → State
fd_init s = record s {
  fd_table =
      set_fd
        (set_fd
          (set_fd (λ _. empty_entry) 0
            (record empty_entry { type = type_stdin; flags = flags_read }))
          1 (record empty_entry { type = type_stdout; flags = flags_write }))
        2 (record empty_entry { type = type_stderr; flags = flags_write });
  fd_count = 3;
}

-- The entry's index, `none` for NULL. A descriptor is an `int`, as a bit pattern: a negative one is
-- 32768 or more.
unfoldable pub fd_get : ℕ → Option ℕ
fd_get fd = if is_negative fd || leb fd_max fd then none else some fd

-- for (i = 3; i < FD_MAX; ++i), with the rounds that are left.
unfoldable pub fd_search : ℕ → ℕ → (ℕ → FdEntry) → Option ℕ
fd_search zero i table = none
fd_search (suc n) i table =
    let rest = fd_search n (i + 1) table in if (table i).type == type_none then some i else rest

unfoldable pub fd_alloc : State → Option ℕ
fd_alloc s = fd_search 5 3 s.fd_table

unfoldable pub fd_create : State → FdEntry → Option ℕ × State
fd_create s entry = elim (fd_alloc s) [
  | none ↦ (none, s)
  | some fd ↦
      (some fd, record s { fd_table = set_fd s.fd_table fd entry; fd_count = add16 s.fd_count 1 })
]

-- The three cached sectors, written back.
unfoldable pub write_changes : State → State
write_changes s = record s {
  disk =
      disk_write (disk_write (disk_write s.disk s.root 0) s.bitmap (bitmap_sector s.root)) s.files
        (fentry_sector s.root);
}

-- The end of fd_close: memset of the entry, --fd_count.
pub fd_release : State → ℕ → State
fd_release s fd = record s {
  fd_table = set_fd s.fd_table fd empty_entry;
  fd_count = sub16 s.fd_count 1;
}

-- `entry->type == FD_TYPE_FILE && entry->file != NULL`
unfoldable pub is_open_file : FdEntry → Bool
is_open_file e = (e.type == type_file) && elim e.file [ none ↦ false | some _ ↦ true ]

-- fd < 3 || fd >= FD_MAX, on an `int`
pub is_reserved : ℕ → Bool
is_reserved fd = is_negative fd || ltb fd 3 || leb fd_max fd

-- The status is 0, or 1 for a descriptor that may not be closed; `none` is -1. fd_close and
-- mfs_close call each other: the fuel counts the calls that are still allowed, and a call that is
-- not made answers `none`.
mutual
  pub fd_close : ℕ → State → ℕ → Option ℕ × State
  fd_close zero s fd = (none, s)
  fd_close (suc n) s fd =
      let inner = (mfs_close n s fd).1 in
      if is_reserved fd
      then (some 1, s)
      else (some 0, fd_release (if is_open_file (s.fd_table fd) then inner else s) fd)

  pub mfs_close : ℕ → State → ℕ → Option ℕ × State
  mfs_close zero s fd = (none, s)
  mfs_close (suc n) s fd = elim (fd_get fd) [
    | none ↦ (none, s)
    | some i ↦
        let entry = s.fd_table i in
        let saved = if entry.type == type_file then write_changes s else s in
        fd_close n
          (record saved { fd_table = set_fd saved.fd_table i (record entry { file = none }) }) fd
  ]
