-- ===== src/MfsUtil/Format.antt =====
-- What mfs_format of mfs-util.c writes is what mfs_init of fs/mfs.c mounts.
use manux.MfsUtil.Wipe.{
  IsImage, disk_write-IsImage, disk_read-IsBytes, wipe-IsImage, status-wipe, wipe-get, is_free-same,
  cleared, format_bitmap-free,
}
use manux.Common.{
  ltb, leb, ◌==◌, if◌then◌else◌, Bytes, IsBytes, store, store_word, word, clear, clear-IsBytes,
  store-IsBytes, store_word-IsBytes, ℕ, ◌+◌, ◌*◌, ◌/◌, ◌≤◌, ◌<◌, ◌≡◌, refl, sym, ◌∙◌, ◌&&◌, true,
  arith,
}
use manux.Fs.Disk.{Disk, disk_read, disk_write}
use manux.Fs.Layout.{
  checksum, total_sectors, bitmap_sector, fentry_sector, data_start_sector, max_files, filecount,
  used, mfs_checksum,
}
use manux.Fs.State.{State, IsMounted}
use mathlib.Core.Path.{subst}
use manux.Fs.Bitmap.{is_free}
use manux.Fs.Bitmap.Laws.{bitmap_set-IsBytes}
use manux.Fs.Read.Chain.{disk_read-get}
use manux.Fs.Write.Blocks.{disk_write-get, status-disk_write}
use manux.Fs.Delete.{mfs_init}
use manux.MfsUtil.{Util, format_root, format_bitmap, mfs_format}

-- The image, the tool's memory and the kernel's memory hold bytes, and the image can be written.
pub record CanFormat (u : Util) (t : State) : Type 0 where
  pub ready : u.disk.status ≡ 0
  pub image : IsImage u.disk
  pub blank_bytes : IsBytes u.tempbuf
  pub root_bytes : IsBytes u.root
  pub bitmap_bytes : IsBytes u.bitmap
  pub files_bytes : IsBytes u.files
  pub kernel_root : IsBytes t.root
  pub kernel_bitmap : IsBytes t.bitmap
  pub kernel_files : IsBytes t.files

format_root-IsBytes : (root : Bytes) → IsBytes root → IsBytes (format_root root)
unfolding format_root
format_root-IsBytes root ok =
    store-IsBytes
      (store_word-IsBytes
        (store_word-IsBytes
          (store_word-IsBytes
            (store_word-IsBytes
              (store_word-IsBytes (store_word-IsBytes (clear-IsBytes ok 0 512) 3 mfs_checksum) 5
                2877)
              7 1)
            9 2)
          11 3)
        13 24)
      15 0

module _ (u : Util) (t : State) (can : CanFormat u t) where
  formatted : Disk
  formatted = (mfs_format u).disk

  formatted_ready : formatted.status ≡ 0
  unfolding formatted mfs_format
  formatted_ready =
      status-wipe 2874 3 _ _
      ∙ status-disk_write _ (clear u.files 0 512) 2
      ∙ status-disk_write _ (format_bitmap u.bitmap) 1
      ∙ status-disk_write u.disk (format_root u.root) 0
      ∙ can.ready

  -- What each sector of the disk has
  formatted-get :
      (b i : ℕ)
      → i < 512
      → formatted.sectors b i ≡ (
          if leb 3 b && ltb b 2877
          then 0
          else if b == 2
          then 0
          else if b == 1
          then format_bitmap u.bitmap i
          else if b == 0
          then format_root u.root i
          else u.disk.sectors b i)
  unfolding formatted mfs_format
  formatted-get b i h =
      let d1 = disk_write u.disk (format_root u.root) 0 in
      let r1 : d1.status ≡ 0 = status-disk_write u.disk (format_root u.root) 0 ∙ can.ready in
      let d2 = disk_write d1 (format_bitmap u.bitmap) 1 in
      let r2 : d2.status ≡ 0 = status-disk_write d1 (format_bitmap u.bitmap) 1 ∙ r1 in
      let d3 = disk_write d2 (clear u.files 0 512) 2 in
      let r3 : d3.status ≡ 0 = status-disk_write d2 (clear u.files 0 512) 2 ∙ r2 in
      wipe-get 2874 3 (clear u.tempbuf 0 512) d3 b i r3 h
      ∙ rw
          (
            cleared u.tempbuf i h,
            disk_write-get d2 (clear u.files 0 512) b 2 i r2 h,
            cleared u.files i h,
            disk_write-get d1 (format_bitmap u.bitmap) b 1 i r1 h,
            disk_write-get u.disk (format_root u.root) b 0 i can.ready h,
          )
          refl

  formatted-IsImage : IsImage formatted
  unfolding formatted mfs_format format_bitmap
  formatted-IsImage =
      wipe-IsImage 2874 3 _ _
        (disk_write-IsImage _ _ 2
          (disk_write-IsImage _ _ 1
            (disk_write-IsImage _ _ 0 can.image (format_root-IsBytes u.root can.root_bytes))
            (bitmap_set-IsBytes 2
              (bitmap_set-IsBytes 1 (bitmap_set-IsBytes 0 (clear-IsBytes can.bitmap_bytes 0 512)))))
          (clear-IsBytes can.files_bytes 0 512))
        (clear-IsBytes can.blank_bytes 0 512)

  root_read : (i : ℕ) → i < 512 → disk_read formatted t.root 0 i ≡ format_root u.root i
  root_read i h =
      disk_read-get formatted t.root 0 i formatted_ready h ∙ formatted-get 0 i h ∙ ground arith

  word_read :
      (i : ℕ) → i < 511 → word (disk_read formatted t.root 0) i ≡ word (format_root u.root) i
  unfolding word
  word_read i h = λ q. root_read i (omega arith) q + 256 * root_read (i + 1) (omega arith) q

  started : State
  started = record t { disk = formatted }

  mounted : State
  mounted = record started {
    root = disk_read formatted t.root 0;
    bitmap = disk_read formatted t.bitmap 1;
    files = disk_read formatted t.files 2;
  }

  root_words :
      (checksum mounted.root ≡ mfs_checksum)
      × (total_sectors mounted.root ≡ 2877)
      × (bitmap_sector mounted.root ≡ 1)
      × (fentry_sector mounted.root ≡ 2)
      × (data_start_sector mounted.root ≡ 3)
      × (max_files mounted.root ≡ 24)
      × (filecount mounted.root ≡ 0)
  unfolding mounted format_root word store_word store clear
  root_words = (
    word_read 3 (omega arith),
    word_read 5 (omega arith),
    word_read 7 (omega arith),
    word_read 9 (omega arith),
    word_read 11 (omega arith),
    word_read 13 (omega arith),
    root_read 15 (omega arith),
  )

  loads : mfs_init started ≡ (true, mounted)
  unfolding mfs_init started mounted
  loads =
      let (sum, total, bitmap, fentry, start, files, count) = root_words in
      rw (sum, bitmap, fentry, formatted_ready) refl

  mounted-IsMounted : IsMounted mounted
  unfolding mounted formatted
  mounted-IsMounted =
      let (sum, total, bitmap, fentry, start, files, count) = root_words in
      record {
        root_bytes = disk_read-IsBytes formatted t.root 0 formatted-IsImage can.kernel_root;
        bitmap_bytes = disk_read-IsBytes formatted t.bitmap 1 formatted-IsImage can.kernel_bitmap;
        files_bytes = disk_read-IsBytes formatted t.files 2 formatted-IsImage can.kernel_files;
        data_after_tables = omega arith;
        data_in_disk = omega arith;
        bitmap_covers = omega arith;
        files_fit = omega arith;
        counted = omega arith;
      }

  mounted-free : (b : ℕ) → b < 4096 → is_free mounted.bitmap b ≡ leb 3 b
  unfolding mounted
  mounted-free b h =
      is_free-same (disk_read formatted t.bitmap 1) (format_bitmap u.bitmap) b (
        disk_read-get formatted t.bitmap 1 (b / 8) formatted_ready (omega arith)
        ∙ formatted-get 1 (b / 8) (omega arith)
        ∙ ground arith)
      ∙ format_bitmap-free u.bitmap b can.bitmap_bytes h

  mounted-unused : (i : ℕ) → i < 24 → used mounted.files i ≡ 0
  unfolding mounted
  mounted-unused i h =
      disk_read-get formatted t.files 2 (21 * i) formatted_ready (omega arith)
      ∙ formatted-get 2 (21 * i) (omega arith)
      ∙ ground arith

  blank : (b i : ℕ) → 3 ≤ b → b < 2877 → i < 512 → mounted.disk.sectors b i ≡ 0
  unfolding mounted started
  blank b i lo hi h = formatted-get b i h ∙ ground arith

  -- When mfs_format can write to the image, mfs_init on it succeeds, whatever bytes were in the
  -- kernel's memory: the file system is mounted, it has no file and all its 24 entries are unused,
  -- of the blocks below 4096 exactly the sectors 0, 1 and 2 are used, and every data block is zero.
  pub mfs_init-mfs_format :
      let (ok, k) = mfs_init (record t { disk = (mfs_format u).disk }) in
      (ok ≡ true)
      × IsMounted k
      × (filecount k.root ≡ 0)
      × ((i : ℕ) → i < 24 → used k.files i ≡ 0)
      × ((b : ℕ) → b < 4096 → is_free k.bitmap b ≡ leb 3 b)
      × ((b i : ℕ) → 3 ≤ b → b < 2877 → i < 512 → k.disk.sectors b i ≡ 0)
  unfolding started formatted
  mfs_init-mfs_format =
      subst
        (λ r.
          (r.0 ≡ true)
          × IsMounted r.1
          × (filecount r.1.root ≡ 0)
          × ((i : ℕ) → i < 24 → used r.1.files i ≡ 0)
          × ((b : ℕ) → b < 4096 → is_free r.1.bitmap b ≡ leb 3 b)
          × ((b i : ℕ) → 3 ≤ b → b < 2877 → i < 512 → r.1.disk.sectors b i ≡ 0))
        (sym loads)
        (
          refl,
          mounted-IsMounted,
          (let (sum, total, bitmap, fentry, start, files, count) = root_words in count),
          mounted-unused,
          mounted-free,
          blank,
        )
