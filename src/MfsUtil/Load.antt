-- ===== src/MfsUtil/Load.antt =====
-- What load_to_memory and mfs_read of mfs-util.c make of a file on the image.
use manux.Common.{ne→==, Bytes, copy, ℕ, ◌+◌, ◌≤◌, ◌<◌, ◌≡◌, refl, some, arith}
use manux.Fs.Layout.{size_of, block_of}
use manux.Fs.Names.{search_name}
use manux.Fs.Read.Chain.{content, IsChain}
use manux.Fs.Read.Load.{load_start, load_loop_lem}
use manux.Fs.Read.{load_loop}
use manux.MfsUtil.{Util, fs_max_sectors, table_index, load_to_memory, read_program}

index :
    (u : Util) (fname : Bytes) (f : ℕ)
    → search_name 24 0 u.files fname ≡ some f
    → table_index u fname ≡ f
unfolding table_index
index u fname f found = rw (found, table_index) refl

-- The loop runs for the file that is found.
loads :
    (u : Util) (fname : Bytes) (f : ℕ)
    → search_name 24 0 u.files fname ≡ some f
    → f < 24
    → load_to_memory u fname ≡ (
        let done =
          load_loop u.disk fs_max_sectors 0
            (size_of u.files f + 1)
            (load_start (size_of u.files f) (block_of u.files f) u.tempbuf u.program) in
        (0, record u { tempbuf = done.temp; program = done.mem }))
unfolding load_to_memory
loads u fname f found small = rw (index u fname f found, ne→== f 0xFF (omega arith)) refl

-- A file of at most 0x4000 bytes, which fs_program_buf holds, whose name is in the table, at entry
-- `f`, and whose blocks lie on the disk: load_to_memory answers 0, and when `current_file` is set,
-- mfs_read of its size answers 0 and gives exactly the bytes along its chain of blocks. It leaves
-- the buffer behind them and the disk alone.
pub read_program-load_to_memory :
    (u : Util) (fname buf : Bytes) (f : ℕ)
    → search_name 24 0 u.files fname ≡ some f
    → f < 24
    → u.disk.status ≡ 0
    → size_of u.files f ≤ 0x4000
    → IsChain u.disk fs_max_sectors (block_of u.files f) (size_of u.files f)
    → let (code, loaded) = load_to_memory u fname in
      let (answer, got) =
        read_program (record loaded { current_file = some f }) buf (size_of u.files f) in
      (code ≡ 0)
      × (answer ≡ 0)
      × ((i : ℕ) → i < size_of u.files f → got i ≡ content u.disk (block_of u.files f) i)
      × ((i : ℕ) → size_of u.files f ≤ i → got i ≡ buf i)
      × (loaded.disk ≡ u.disk)
unfolding read_program copy
read_program-load_to_memory u fname buf f found small ready positive chain =
    let size = size_of u.files f in
    let first = block_of u.files f in
    let (bytes, outside) =
      load_loop_lem u.disk fs_max_sectors first size 0 u.tempbuf u.program ready (omega arith)
        (omega arith) chain in
    rw (loads u fname f found small)
      (refl, refl, (λ i h. ground (arith, bytes i h)), (λ i h. ground arith), refl)
