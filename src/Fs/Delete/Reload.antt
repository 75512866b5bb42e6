-- ===== src/Fs/Delete/Reload.antt =====
-- What write_changes saves, mfs_init loads.
use manux.Common.{◌==◌, if◌then◌else◌, word, ℕ, ◌+◌, ◌*◌, ◌<◌, ◌≡◌, refl, ap, ◌∙◌, ◌≢◌, true, arith}
use manux.Fs.Disk.{disk_read, disk_write}
use manux.Fs.Layout.{checksum, bitmap_sector, fentry_sector, mfs_checksum}
use manux.Fs.State.{State}
use manux.Fs.Fd.{write_changes}
use manux.Fs.Read.Chain.{disk_read-get}
use manux.Fs.Write.Blocks.{disk_write-get, status-disk_write}
use manux.Fs.Delete.{mfs_init}

-- A formatted file system: its three tables lie in different sectors, and it has the checksum.
pub record IsFormatted (s : State) : Type 0 where
  pub disk_ready : s.disk.status ≡ 0
  pub checksum_set : checksum s.root ≡ mfs_checksum
  pub bitmap_elsewhere : bitmap_sector s.root ≢ 0
  pub files_elsewhere : fentry_sector s.root ≢ 0
  pub apart : bitmap_sector s.root ≢ fentry_sector s.root

module _ (s : State) (f : IsFormatted s) where
  saved_ready : (write_changes s).disk.status ≡ 0
  unfolding write_changes
  saved_ready =
      status-disk_write _ s.files (fentry_sector s.root)
      ∙ status-disk_write _ s.bitmap (bitmap_sector s.root)
      ∙ status-disk_write s.disk s.root 0
      ∙ f.disk_ready

  -- Each sector has the table that was written to it last.
  saved :
      (b i : ℕ)
      → i < 512
      → (write_changes s).disk.sectors b i ≡ (
          if b == fentry_sector s.root
          then s.files i
          else if b == bitmap_sector s.root
          then s.bitmap i
          else if b == 0
          then s.root i
          else s.disk.sectors b i)
  unfolding write_changes
  saved b i h =
      let d1 = disk_write s.disk s.root 0 in
      let r1 : d1.status ≡ 0 = status-disk_write s.disk s.root 0 ∙ f.disk_ready in
      let d2 = disk_write d1 s.bitmap (bitmap_sector s.root) in
      let r2 : d2.status ≡ 0 = status-disk_write d1 s.bitmap (bitmap_sector s.root) ∙ r1 in
      rw (disk_write-get d2 s.files b (fentry_sector s.root) i r2 h) (
        rw (disk_write-get d1 s.bitmap b (bitmap_sector s.root) i r1 h)
          (rw (disk_write-get s.disk s.root b 0 i f.disk_ready h) refl))

  module _ (t : State) where
    started : State
    started = record t { disk = (write_changes s).disk }

    root_read : (i : ℕ) → i < 512 → disk_read (write_changes s).disk t.root 0 i ≡ s.root i
    root_read i h =
        disk_read-get (write_changes s).disk t.root 0 i saved_ready h
        ∙ saved 0 i h
        ∙ ground (arith, f.bitmap_elsewhere, f.files_elsewhere)

    word_read :
        (i : ℕ) → i < 511 → word (disk_read (write_changes s).disk t.root 0) i ≡ word s.root i
    unfolding word
    word_read i h = λ q. root_read i (omega arith) q + 256 * root_read (i + 1) (omega arith) q

    loads : mfs_init started ≡ (
      true,
      record started {
        root = disk_read started.disk t.root 0;
        bitmap = disk_read started.disk t.bitmap (bitmap_sector (disk_read started.disk t.root 0));
        files = disk_read started.disk t.files (fentry_sector (disk_read started.disk t.root 0));
      },
    )
    unfolding mfs_init started
    loads =
        let sum : checksum (disk_read (write_changes s).disk t.root 0) ≡ mfs_checksum =
          word_read 3 (omega arith) ∙ f.checksum_set in
        rw (saved_ready, sum) refl

    -- After write_changes on a formatted file system, mfs_init on the same disk, whatever was in
    -- memory, succeeds and has the root, the bitmap and the file table that were saved.
    pub mfs_init-write_changes :
        let (ok, loaded) = mfs_init (record t { disk = (write_changes s).disk }) in
        (ok ≡ true)
        × ((i : ℕ) → i < 512 → loaded.root i ≡ s.root i)
        × ((i : ℕ) → i < 512 → loaded.bitmap i ≡ s.bitmap i)
        × ((i : ℕ) → i < 512 → loaded.files i ≡ s.files i)
    unfolding mfs_init started
    mfs_init-write_changes =
        let d = (write_changes s).disk in
        let sum : checksum (disk_read d t.root 0) ≡ mfs_checksum =
          word_read 3 (omega arith) ∙ f.checksum_set in
        (
          ground (arith, saved_ready, sum),
          (λ i h. ap (λ u. u.1.root i) loads ∙ root_read i h),
          (λ i h.
              ap (λ u. u.1.bitmap i) loads
              ∙ ap (λ b. disk_read d t.bitmap b i) (word_read 7 (omega arith))
              ∙ disk_read-get d t.bitmap (bitmap_sector s.root) i saved_ready h
              ∙ saved (bitmap_sector s.root) i h
              ∙ ground (arith, f.apart)),
          (λ i h.
              ap (λ u. u.1.files i) loads
              ∙ ap (λ b. disk_read d t.files b i) (word_read 9 (omega arith))
              ∙ disk_read-get d t.files (fentry_sector s.root) i saved_ready h
              ∙ saved (fentry_sector s.root) i h
              ∙ ground arith),
        )
