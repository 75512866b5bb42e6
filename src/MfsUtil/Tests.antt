-- ===== src/MfsUtil/Tests.antt =====
-- mfs_format and load_to_memory of mfs-util.c at concrete images.
use manux.Common.{
  none, some, ◌==◌, if◌then◌else◌, word, zero, suc, [], ◌∷◌, text, leb, ◌+◌, ◌*◌, ◌%◌, ◌≤◌, ◌<◌, ℕ,
  ◌≡◌, refl, true, arith,
}
use manux.Fs.Disk.{Disk}
use manux.Fs.Layout.{filecount, used, size_of, block_of}
use manux.Fs.State.{State, IsMounted, empty_entry}
use manux.Fs.Bitmap.{is_free}
use manux.Fs.Delete.{mfs_init}
use manux.MfsUtil.{Util, mfs_format, fs_max_sectors, load_to_memory, read_program}
use manux.MfsUtil.Load.{read_program-load_to_memory}
use manux.Fs.Names.{search_name, has_name, strncmp_eq}
use manux.Fs.Read.Chain.{content, IsChain}
use manux.MfsUtil.Format.{CanFormat, mfs_init-mfs_format}

-- An image with old content
abbrev old_image : Disk
old_image = record { status = 0; sectors = λ b i. (b + 3 * i) % 256 }

abbrev tool : Util
tool = record {
  tempbuf = λ i. 0;
  root = λ i. i % 7;
  bitmap = λ i. 255;
  files = λ i. 1;
  disk = old_image;
  program = λ i. 0;
  current_file = none;
}

-- A kernel whose memory was not cleared
abbrev kernel : State
kernel = record {
  root = λ i. 170;
  bitmap = λ i. 85;
  files = λ i. i % 256;
  tempbuf = λ i. 0;
  disk = old_image;
  fd_table = λ j. empty_entry;
  fd_count = 0;
}

tool-CanFormat : CanFormat tool kernel
tool-CanFormat = record {
  ready = refl;
  image = λ b i. omega arith;
  blank_bytes = λ i. omega arith;
  root_bytes = λ i. omega arith;
  bitmap_bytes = λ i. omega arith;
  files_bytes = λ i. omega arith;
  kernel_root = λ i. omega arith;
  kernel_bitmap = λ i. omega arith;
  kernel_files = λ i. omega arith;
}

mfs_format_example :
    let (ok, k) = mfs_init (record kernel { disk = (mfs_format tool).disk }) in
    (ok ≡ true)
    × IsMounted k
    × (filecount k.root ≡ 0)
    × ((i : ℕ) → i < 24 → used k.files i ≡ 0)
    × ((b : ℕ) → b < 4096 → is_free k.bitmap b ≡ leb 3 b)
    × ((b i : ℕ) → 3 ≤ b → b < 2877 → i < 512 → k.disk.sectors b i ≡ 0)
mfs_format_example = mfs_init-mfs_format tool kernel tool-CanFormat

-- An image with one file, "A", which has two bytes in block 10.
abbrev one_file : Util
one_file = record tool {
  files =
      text
        (1 ∷ 1 ∷ 0 ∷ 65 ∷ 0 ∷ 0 ∷ 0 ∷ 0 ∷ 0 ∷ 0 ∷ 0 ∷ 0 ∷ 0 ∷ 0 ∷ 0 ∷ 2 ∷ 0 ∷ 1 ∷ 0 ∷ 10 ∷ 0 ∷ []);
  disk = record {
    status = 0;
    sectors = λ b. if b == 10 then text (1 ∷ 0 ∷ 0 ∷ 0 ∷ 72 ∷ 105 ∷ []) else text [];
  };
}

one_file-IsChain :
    IsChain one_file.disk fs_max_sectors (block_of one_file.files 0) (size_of one_file.files 0)
unfolding word
one_file-IsChain zero h = (λ e. omega arith, omega arith)
one_file-IsChain (suc k) h = absurd (omega arith)

read_program_example :
    let (code, loaded) = load_to_memory one_file (text (65 ∷ [])) in
    let (answer, got) = read_program (record loaded { current_file = some 0 }) (λ i. 7) 2 in
    (code ≡ 0)
    × (answer ≡ 0)
    × ((i : ℕ) → i < 2 → got i ≡ content one_file.disk 10 i)
    × ((i : ℕ) → 2 ≤ i → got i ≡ 7)
    × (loaded.disk ≡ one_file.disk)
unfolding word search_name has_name strncmp_eq
read_program_example =
    read_program-load_to_memory one_file (text (65 ∷ [])) (λ i. 7) 0 refl (omega arith) refl
      (omega arith) one_file-IsChain
