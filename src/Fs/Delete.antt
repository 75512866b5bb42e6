-- ===== src/Fs/Delete.antt =====
-- mfs_delete and mfs_init of fs/mfs.c.
pub mod Laws
pub mod Reload
use manux.Common.{
  ltb, ◌==◌, if◌then◌else◌, sub8, Bytes, while, ℕ, ◌+◌, Bool, true, false, not, ◌&&◌, none, some,
}
use manux.Fs.Disk.{Disk, disk_read, disk_write}
use manux.Fs.Layout.{
  checksum, total_sectors, bitmap_sector, fentry_sector, filecount, set_filecount, block_of,
  clear_entry, next_block, mfs_checksum,
}
use manux.Fs.State.{State}
use manux.Fs.Bitmap.{bitmap_clear}
use manux.Fs.Names.{find_file}
use manux.Fs.Fd.{write_changes}

-- The variables of the loop of mfs_delete.
pub record Deleting : Type 0 where
  pub current : ℕ
  pub temp : Bytes
  pub bitmap : Bytes
  pub disk : Disk

pub delete_test : (total : ℕ) → Deleting → Bool
delete_test total r = not (r.current == 0) && ltb r.current total

-- The block is read for its successor, zeroed, and freed.
pub delete_round : Deleting → Deleting
delete_round r =
    let temp = disk_read r.disk r.temp r.current in
    record {
      current = next_block temp;
      temp = temp;
      bitmap = bitmap_clear r.bitmap r.current;
      disk = disk_write r.disk (λ _. 0) r.current;
    }

pub delete_loop : (total : ℕ) → ℕ → Deleting → Deleting
unfolding delete_test delete_round
delete_loop total fuel = while fuel (delete_test total) delete_round

-- memset of the entry, --filecount and write_changes, when the loop has ended.
pub after_delete : State → ℕ → Deleting → State
after_delete s f r = write_changes (record s {
  root = set_filecount s.root (sub8 (filecount s.root) 1);
  files = clear_entry s.files f;
  bitmap = r.bitmap;
  tempbuf = r.temp;
  disk = r.disk;
})

-- Whether the file was there (-1 if not). A block that the loop has passed is zero and ends the
-- chain there, so `total` rounds and one are enough.
pub mfs_delete : State → Bytes → Bool × State
unfolding delete_loop
mfs_delete s fname = elim (find_file s fname) [
  | none ↦ (false, s)
  | some f ↦ (
    true,
    after_delete s f (
        delete_loop (total_sectors s.root) (total_sectors s.root + 1) (record {
          current = block_of s.files f;
          temp = s.tempbuf;
          bitmap = s.bitmap;
          disk = s.disk;
        })),
  )
]

-- Whether the file system was loaded (-1 if not).
unfoldable pub mfs_init : State → Bool × State
mfs_init s =
    let loaded = record s { root = disk_read s.disk s.root 0 } in
    let mapped = record loaded {
      bitmap = disk_read loaded.disk loaded.bitmap (bitmap_sector loaded.root);
    } in
    let ready = record mapped {
      files = disk_read mapped.disk mapped.files (fentry_sector mapped.root);
    } in
    if not (s.disk.status == 0)
    then (false, loaded)
    else if not (checksum loaded.root == mfs_checksum)
    then (false, loaded)
    else (true, ready)
