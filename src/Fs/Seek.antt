-- ===== src/Fs/Seek.antt =====
-- mfs_seek of fs/mfs.c.
pub mod Laws
use manux.Common.{
  ltb, leb, ◌==◌, if◌then◌else◌, add16, sub16, Bytes, while, ℕ, ◌+◌, Bool, not, ◌&&◌, Option, none,
  some,
}
use manux.Fs.Disk.{Disk, disk_read}
use manux.Fs.Layout.{
  total_sectors, size_of, block_of, data_size, next_block, seek_set, seek_cur, seek_end,
}
use manux.Fs.State.{FdEntry, type_file, State, set_fd}
use manux.Fs.Fd.{fd_get}

-- The variables of the loop of mfs_seek.
pub record Seeking : Type 0 where
  pub block : ℕ
  pub offset : ℕ
  pub temp : Bytes

pub seek_test : (total : ℕ) → Seeking → Bool
seek_test total r = leb data_size r.offset && (not (r.block == 0) && ltb r.block total)

pub seek_round : Disk → Seeking → Seeking
seek_round d r =
    let temp = disk_read d r.temp r.block in
    record { block = next_block temp; offset = sub16 r.offset data_size; temp = temp }

-- Each round takes 508 from the offset.
pub seek_loop : Disk → (total : ℕ) → ℕ → Seeking → Seeking
unfolding seek_test seek_round
seek_loop d total fuel = while fuel (seek_test total) (seek_round d)

-- `junk` is what the local `offset` holds before it is set; another `whence` leaves it.
unfoldable pub seek_offset : (junk : ℕ) → FdEntry → (size pos whence : ℕ) → ℕ
seek_offset junk e size pos whence =
    if whence == seek_set
    then pos
    else if whence == seek_cur
    then add16 e.pos pos
    else if whence == seek_end
    then add16 size pos
    else junk

-- The result is `pos`, `none` for -1.
pub mfs_seek : (junk : ℕ) → State → (fd pos whence : ℕ) → Option ℕ × State
mfs_seek junk s fd pos whence = elim (fd_get fd) [
  | none ↦ (none, s)
  | some i ↦
      let e = s.fd_table i in
      elim e.file [
        | none ↦ (none, s)
        | some f ↦
            let offset = seek_offset junk e (size_of s.files f) pos whence in
            let done =
              seek_loop s.disk (total_sectors s.root) (offset + 1)
                (record { block = block_of s.files f; offset = offset; temp = s.tempbuf }) in
            if not (e.type == type_file) then (none, s) else (
              some pos,
              record s {
                tempbuf = done.temp;
                fd_table =
                    set_fd s.fd_table i
                      (record e { pos = pos; cur_block = done.block; block_offset = done.offset });
              },
            )
      ]
]
