-- ===== src/Fs/Write.antt =====
-- mfs_write and mfs_sync of fs/mfs.c.
pub mod Blocks
pub mod Round
pub mod Append
pub mod Laws
use manux.Common.{
  ltb, leb, ◌==◌, if◌then◌else◌, add16, sub16, Bytes, copy, while, ℕ, ◌+◌, bit_and, Bool, true,
  false, not, ◌&&◌, ◌||◌, Option, none, some,
}
use manux.Fs.Disk.{disk_read, disk_write}
use manux.Fs.Layout.{
  total_sectors, size_of, set_size, set_block, header_size, data_size, next_block, set_next_block,
}
use manux.Fs.State.{FdEntry, type_file, flags_write, State, set_fd}
use manux.Fs.Bitmap.{alloc_block}
use manux.Fs.Fd.{fd_get, write_changes}
use manux.Fs.Open.{blank_block}

-- The loop of mfs_write works on the state, the descriptor and its file. `failed` is the return
-- with -1 when no block is free.
pub record Writing : Type 0 where
  pub st : State
  pub entry : FdEntry
  pub written : ℕ
  pub remaining : ℕ
  pub failed : Bool

-- `*(uint16_t*)(temp + 1) = block` on the block at `prev`, through a local buffer.
pub link_block : State → (prev block : ℕ) → State
link_block s prev block =
    let temp = disk_read s.disk (λ _. 0) prev in
    record s { disk = disk_write s.disk (set_next_block temp block) prev }

-- The branch that takes a new block, for the file at index `f`.
pub extend : ℕ → Writing → Writing
extend f w =
    let (block, s1) = alloc_block w.st in
    let s2 = blank_block s1 block in
    let s3 =
      if w.entry.prev_block == 0
      then record s2 { files = set_block s2.files f block }
      else link_block s2 w.entry.prev_block block in
    if block == 0
    then record w { st = s1; failed = true }
    else record w { st = s3; entry = record w.entry { cur_block = block; block_offset = 0 } }

-- The rest of a round: the bytes go into the current block.
pub write_block : ℕ → Bytes → Writing → Writing
write_block f buf w =
    let e = w.entry in
    let s = w.st in
    let block = disk_read s.disk s.tempbuf e.cur_block in
    let space_left = sub16 data_size e.block_offset in
    let to_write = if ltb w.remaining space_left then w.remaining else space_left in
    let filled = copy block (header_size + e.block_offset) buf w.written to_write in
    let pos = add16 e.pos to_write in
    let offset = add16 e.block_offset to_write in
    let at_end = leb data_size offset in
    record {
      st = record s {
        tempbuf = filled;
        disk = disk_write s.disk filled e.cur_block;
        files = if ltb (size_of s.files f) pos then set_size s.files f pos else s.files;
      };
      entry = record e {
        pos = pos;
        prev_block = if at_end then e.cur_block else e.prev_block;
        cur_block = if at_end then next_block filled else e.cur_block;
        block_offset = if at_end then 0 else offset;
      };
      written = add16 w.written to_write;
      remaining = sub16 w.remaining to_write;
      failed = false;
    }

-- entry->cur_block == 0 || entry->cur_block >= fs->total_sectors
pub needs_block : Writing → Bool
needs_block w = (w.entry.cur_block == 0) || leb (total_sectors w.st.root) w.entry.cur_block

pub write_round : ℕ → Bytes → Writing → Writing
unfolding needs_block extend write_block
write_round f buf w =
    let ready = if needs_block w then extend f w else w in
    if ready.failed then ready else write_block f buf ready

pub write_test : Writing → Bool
write_test w = ltb 0 w.remaining && not w.failed

-- `count` rounds are enough: each takes a byte or fails.
pub write_loop : ℕ → Bytes → ℕ → Writing → Writing
unfolding write_test write_round
write_loop f buf fuel = while fuel write_test (write_round f buf)

-- What mfs_write returns when the loop has ended.
pub after_write : ℕ → Writing → Option ℕ × State
after_write fd w = (
  if w.failed then none else some w.written,
  record w.st { fd_table = set_fd w.st.fd_table fd w.entry },
)

pub mfs_write : State → ℕ → Bytes → ℕ → Option ℕ × State
mfs_write s fd buf count = elim (fd_get fd) [
  | none ↦ (none, s)
  | some i ↦
      let e = s.fd_table i in
      elim e.file [
        | none ↦ (none, s)
        | some f ↦
            if (bit_and e.flags flags_write == 0) || not (e.type == type_file)
            then (none, s)
            else after_write i (
                write_loop f buf (count + 1)
                  (record { st = s; entry = e; written = 0; remaining = count; failed = false }))
      ]
]

pub mfs_sync : State → ℕ × State
mfs_sync s = (0, write_changes s)
