-- ===== src/Fs/Read.antt =====
-- mfs_read and load_executable of fs/mfs.c: the loops that follow the chain of a file's blocks.
pub mod Chain
pub mod Round
pub mod Laws
pub mod Load
use manux.Common.{
  ltb, leb, ◌==◌, if◌then◌else◌, add16, sub16, is_negative, Bytes, copy, copy_wrapped, while, ℕ,
  ◌+◌, bit_and, Bool, true, false, not, ◌&&◌, ◌||◌, Option, none, some,
}
use manux.Fs.Disk.{Disk, disk_read}
use manux.Fs.Layout.{total_sectors, size_of, block_of, header_size, data_size, next_block}
use manux.Fs.State.{FdEntry, type_file, flags_read, State, set_fd}
use manux.Fs.Names.{get_file_index}
use manux.Fs.Fd.{fd_get}

-- The variables of the loop of mfs_read.
pub record Reading : Type 0 where
  pub entry : FdEntry
  pub temp : Bytes
  pub buf : Bytes
  pub written : ℕ
  pub remaining : ℕ

-- The loop's condition, for a file of `size` bytes on a disk of `total` sectors.
pub read_test : (total size : ℕ) → Reading → Bool
read_test total size r =
    ltb 0 r.remaining
    && (not (r.entry.cur_block == 0) && (ltb r.entry.cur_block total && ltb r.entry.pos size))

-- `to_read`
pub read_amount : (size : ℕ) → Reading → ℕ
read_amount size r =
    let available = sub16 data_size r.entry.block_offset in
    let wanted = if ltb r.remaining available then r.remaining else available in
    let bytes_left = sub16 size r.entry.pos in if ltb bytes_left wanted then bytes_left else wanted

pub read_round : (d : Disk) (size : ℕ) → Reading → Reading
unfolding read_amount
read_round d size r =
    let e = r.entry in
    let temp = disk_read d r.temp e.cur_block in
    let to_read = read_amount size r in
    let offset = add16 e.block_offset to_read in
    let at_end = leb data_size offset in
    record {
      entry = record e {
        pos = add16 e.pos to_read;
        block_offset = if at_end then 0 else offset;
        cur_block = if at_end then next_block temp else e.cur_block;
      };
      temp = temp;
      buf = copy r.buf r.written temp (header_size + e.block_offset) to_read;
      written = add16 r.written to_read;
      remaining = sub16 r.remaining to_read;
    }

-- Every round of a descriptor whose offset lies in its block takes a byte or more, so `count`
-- rounds are enough.
pub read_loop : Disk → (total size : ℕ) → ℕ → Reading → Reading
unfolding read_test read_round
read_loop d total size fuel = while fuel (read_test total size) (read_round d size)

-- The result (`none` is -1), the state, and the buffer. An open file whose pointer is NULL does not
-- arise: fd_close clears the type with it.
pub mfs_read : State → ℕ → Bytes → ℕ → Option ℕ × State × Bytes
mfs_read s fd buf count = elim (fd_get fd) [
  | none ↦ (none, s, buf)
  | some i ↦
      let e = s.fd_table i in
      elim e.file [
        | none ↦ (none, s, buf)
        | some f ↦
            if (bit_and e.flags flags_read == 0) || not (e.type == type_file)
            then (none, s, buf)
            else if leb (size_of s.files f) e.pos
            then (some 0, s, buf)
            else (let start : Reading = record {
              entry = e;
              temp = s.tempbuf;
              buf = buf;
              written = 0;
              remaining = count;
            } in
                let done =
                  read_loop s.disk (total_sectors s.root) (size_of s.files f) (count + 1) start in
                (
                  some done.written,
                  record s { tempbuf = done.temp; fd_table = set_fd s.fd_table i done.entry },
                  done.buf,
                ))
      ]
]

-- The variables of the loop of load_executable. `remaining` is an `int16_t`, as a bit pattern.
pub record Loading : Type 0 where
  pub remaining : ℕ
  pub sector : ℕ
  pub offset : ℕ
  pub temp : Bytes
  pub mem : Bytes

pub load_test : (total : ℕ) → Loading → Bool
load_test total r = not (r.remaining == 0) && (not (r.sector == 0) && ltb r.sector total)

-- A negative `remaining` is not above 508, and goes on as the unsigned number of the same bits.
pub load_round : (d : Disk) (addr : ℕ) → Loading → Loading
load_round d addr r =
    let bytes_in_block =
      if not (is_negative r.remaining) && ltb data_size r.remaining
      then data_size
      else r.remaining in
    let temp = disk_read d r.temp r.sector in
    record {
      remaining = sub16 r.remaining bytes_in_block;
      sector = next_block temp;
      offset = add16 r.offset bytes_in_block;
      temp = temp;
      mem = copy_wrapped r.mem (add16 addr r.offset) temp header_size bytes_in_block;
    }

pub load_loop : Disk → (total addr : ℕ) → ℕ → Loading → Loading
unfolding load_test load_round
load_loop d total addr fuel = while fuel (load_test total) (load_round d addr)

-- Whether the file was found, the state, and the memory with the program at `addr`.
pub load_executable : State → Bytes → ℕ → Bytes → Bool × State × Bytes
load_executable s fname addr mem =
    let i = get_file_index s fname in
    let size = size_of s.files i in
    let start : Loading = record {
      remaining = size;
      sector = block_of s.files i;
      offset = 0;
      temp = s.tempbuf;
      mem = mem;
    } in
    let done = load_loop s.disk (total_sectors s.root) addr (size + 1) start in
    if i == 0xFF then (false, s, mem) else (true, record s { tempbuf = done.temp }, done.mem)
