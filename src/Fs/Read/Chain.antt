-- ===== src/Fs/Read/Chain.antt =====
-- What the blocks of a file stand for: the chain of next pointers, and the bytes along it. This is
-- the description of a file that doc/filesystem.md gives, independent of the code's loops.
use manux.Common.{Bytes, copy, word, ℕ, zero, suc, ◌+◌, ◌*◌, ◌/◌, ◌%◌, ◌<◌, ◌≡◌, ap, ◌≢◌, arith}
use manux.Fs.Disk.{Disk, disk_read}
use manux.Fs.Layout.{next_block}

-- The `k`-th block of the chain that starts at `first`
abbrev pub block_at : Disk → ℕ → ℕ → ℕ
block_at d first zero = first
block_at d first (suc k) = next_block (d.sectors (block_at d first k))

-- The byte at position `p` of the file
abbrev pub content : Disk → ℕ → ℕ → ℕ
content d first p = d.sectors (block_at d first (p / 508)) (4 + p % 508)

-- The first `size` bytes lie in blocks that are data blocks of the disk.
abbrev pub IsChain : Disk → (total first size : ℕ) → Type 0
IsChain d total first size =
    (k : ℕ) → 508 * k < size → (block_at d first k ≢ 0) × (block_at d first k < total)

pub disk_read-get :
    (d : Disk) (buf : Bytes) (sector i : ℕ)
    → d.status ≡ 0
    → i < 512
    → disk_read d buf sector i ≡ d.sectors sector i
unfolding disk_read copy
disk_read-get d buf sector i ready h = ground arith

pub disk_read-next :
    (d : Disk) (buf : Bytes) (sector : ℕ)
    → d.status ≡ 0
    → next_block (disk_read d buf sector) ≡ next_block (d.sectors sector)
unfolding word
disk_read-next d buf sector ready =
    ground (arith, disk_read-get d buf sector 1 ready, disk_read-get d buf sector 2 ready)

-- Inside one block, the content runs on.
pub content-add :
    (d : Disk) (first p k : ℕ)
    → p % 508 + k < 508
    → content d first (p + k) ≡ d.sectors (block_at d first (p / 508)) (4 + p % 508 + k)
content-add d first p k h =
    let q : (p + k) / 508 ≡ p / 508 = omega arith in
    let r : 4 + (p + k) % 508 ≡ 4 + p % 508 + k = omega arith in
    λ i. d.sectors (block_at d first (q i)) (r i)

-- The end of a block is the start of the next one.
pub block_at-next :
    (d : Disk) (first p k : ℕ)
    → p % 508 + k ≡ 508
    → block_at d first ((p + k) / 508) ≡ next_block (d.sectors (block_at d first (p / 508)))
block_at-next d first p k h =
    let q : (p + k) / 508 ≡ suc (p / 508) = omega arith in ap (block_at d first) q

pub block_at-same :
    (d : Disk) (first p k : ℕ)
    → p % 508 + k < 508
    → block_at d first ((p + k) / 508) ≡ block_at d first (p / 508)
block_at-same d first p k h =
    let q : (p + k) / 508 ≡ p / 508 = omega arith in ap (block_at d first) q
