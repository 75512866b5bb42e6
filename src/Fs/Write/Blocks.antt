-- ===== src/Fs/Write/Blocks.antt =====
-- Blocks of a file on the disk, and what write_block puts into one.
use manux.Common.{
  ltb, leb, ◌==◌, if◌then◌else◌, Bytes, copy, word, ℕ, zero, suc, ◌+◌, ◌-◌, ◌<◌, ◌≡◌, refl, ◌≢◌,
  ◌&&◌, arith,
}
use manux.Fs.Disk.{Disk, disk_write}
use manux.Fs.Read.Chain.{block_at, disk_read-get}
use manux.Fs.Write.{Writing, write_block}

-- A chain of `n` data blocks, no two of them the same.
pub record HasBlocks (d : Disk) (total first n : ℕ) : Type 0 where
  pub valid : (k : ℕ) → k < n → (block_at d first k ≢ 0) × (block_at d first k < total)
  pub distinct : (j k : ℕ) → j < n → k < n → block_at d first j ≡ block_at d first k → j ≡ k

-- Two disks whose blocks have the same headers have the same chains.
pub block_at-headers :
    (d d' : Disk) (first : ℕ)
    → ((b i : ℕ) → i < 4 → d'.sectors b i ≡ d.sectors b i)
    → (k : ℕ) → block_at d' first k ≡ block_at d first k
unfolding word
block_at-headers d d' first same zero = refl
block_at-headers d d' first same (suc k) = ground (
  arith,
  block_at-headers d d' first same k,
  same (block_at d first k) 1,
  same (block_at d first k) 2,
)

pub disk_write-get :
    (d : Disk) (buf : Bytes) (b sector i : ℕ)
    → d.status ≡ 0
    → i < 512
    → (disk_write d buf sector).sectors b i ≡ (if b == sector then buf i else d.sectors b i)
unfolding disk_write copy
disk_write-get d buf b sector i ready h = ground arith

pub status-disk_write :
    (d : Disk) (buf : Bytes) (sector : ℕ) → (disk_write d buf sector).status ≡ d.status
unfolding disk_write
status-disk_write d buf sector = ground arith

-- The amount of a round that stays in its block.
unfoldable pub write_amount : Writing → ℕ
write_amount w =
    if ltb w.remaining (508 - w.entry.block_offset) then w.remaining else 508 - w.entry.block_offset

-- What one round writes: those bytes of the current block, and nothing else.
pub write_block-get :
    (f : ℕ) (buf : Bytes) (w : Writing) (b i : ℕ)
    → w.st.disk.status ≡ 0
    → w.entry.block_offset < 508
    → i < 512
    → (write_block f buf w).st.disk.sectors b i ≡ (
        if (b == w.entry.cur_block)
          && (leb (4 + w.entry.block_offset) i && ltb i (4 + w.entry.block_offset + write_amount w))
        then buf (w.written + (i - (4 + w.entry.block_offset)))
        else w.st.disk.sectors b i)
unfolding write_block write_amount copy
write_block-get f buf w b i ready ho hi =
    rw (disk_write-get w.st.disk _ b w.entry.cur_block i ready hi)
      (ground (arith, disk_read-get w.st.disk w.st.tempbuf w.entry.cur_block i ready hi))
