-- ===== src/MfsUtil/Wipe.antt =====
-- The sectors that mfs_format of mfs-util.c writes, and its bitmap.
use manux.Common.{
  ltb, leb, if◌then◌else◌, Bytes, IsBytes, copy, clear, clear-IsBytes, ℕ, zero, suc, ◌+◌, ◌/◌, ◌%◌,
  ◌^◌, ◌<◌, ◌≡◌, refl, ap, ◌∙◌, ◌&&◌, true, arith,
}
use manux.Fs.Disk.{Disk, disk_read, disk_write}
use Prim.Native.Nat.{bit_and}
use manux.Fs.Bitmap.{is_free, bitmap_get}
use manux.Fs.Bitmap.Laws.{bitmap_set-IsBytes, is_free-bitmap_set}
use manux.Fs.Write.Blocks.{disk_write-get, status-disk_write}
use manux.MfsUtil.{format_bitmap, wipe}

-- Every sector of a disk holds bytes.
abbrev pub IsImage : Disk → Type 0
IsImage d = (b : ℕ) → IsBytes (d.sectors b)

pub disk_write-IsImage :
    (d : Disk) (buf : Bytes) (sector : ℕ)
    → IsImage d
    → IsBytes buf
    → IsImage (disk_write d buf sector)
unfolding disk_write copy
disk_write-IsImage d buf sector h k b i = ground (arith, h b i, k i)

pub disk_read-IsBytes :
    (d : Disk) (buf : Bytes) (sector : ℕ)
    → IsImage d
    → IsBytes buf
    → IsBytes (disk_read d buf sector)
unfolding disk_read copy
disk_read-IsBytes d buf sector h k i = ground (arith, h sector i, k i)

pub wipe-IsImage :
    (n i : ℕ) (buf : Bytes) (d : Disk) → IsImage d → IsBytes buf → IsImage (wipe n i buf d)
unfolding wipe
wipe-IsImage zero i buf d h k = h
wipe-IsImage (suc n) i buf d h k =
    wipe-IsImage n (i + 1) buf (disk_write d buf i) (disk_write-IsImage d buf i h k) k

pub status-wipe : (n i : ℕ) (buf : Bytes) (d : Disk) → (wipe n i buf d).status ≡ d.status
unfolding wipe
status-wipe zero i buf d = refl
status-wipe (suc n) i buf d =
    status-wipe n (i + 1) buf (disk_write d buf i) ∙ status-disk_write d buf i

-- The sectors of the range have the buffer, and the others what they had.
pub wipe-get :
    (n at : ℕ) (buf : Bytes) (d : Disk) (b i : ℕ)
    → d.status ≡ 0
    → i < 512
    → (wipe n at buf d).sectors b i ≡ (if leb at b && ltb b (at + n) then buf i else d.sectors b i)
unfolding wipe
wipe-get zero at buf d b i ready h = ground arith
wipe-get (suc n) at buf d b i ready h =
    wipe-get n (at + 1) buf (disk_write d buf at) b i (status-disk_write d buf at ∙ ready) h
    ∙ ground (arith, disk_write-get d buf b at i ready h)

-- A bitmap decides on its 4096 blocks by its 512 bytes.
pub is_free-same :
    (bm bm' : Bytes) (b : ℕ) → bm (b / 8) ≡ bm' (b / 8) → is_free bm b ≡ is_free bm' b
unfolding is_free
is_free-same bm bm' b e = rw e refl

pub cleared : (m : Bytes) (i : ℕ) → i < 512 → clear m 0 512 i ≡ 0
unfolding clear
cleared m i h = ground arith

zero_bit : (j : ℕ) → j < 8 → bit_and 0 (2 ^ j) ≡ 0
zero_bit zero h = refl
zero_bit (suc zero) h = refl
zero_bit (suc (suc zero)) h = refl
zero_bit (suc (suc (suc zero))) h = refl
zero_bit (suc (suc (suc (suc zero)))) h = refl
zero_bit (suc (suc (suc (suc (suc zero))))) h = refl
zero_bit (suc (suc (suc (suc (suc (suc zero)))))) h = refl
zero_bit (suc (suc (suc (suc (suc (suc (suc zero))))))) h = refl
zero_bit (suc (suc (suc (suc (suc (suc (suc (suc j)))))))) h = absurd (omega arith)

is_free-clear : (bm : Bytes) (b : ℕ) → b < 4096 → is_free (clear bm 0 512) b ≡ true
unfolding is_free bitmap_get
is_free-clear bm b h =
    let empty : clear bm 0 512 (b / 8) ≡ 0 = cleared bm (b / 8) (omega arith) in
    rw (ap (λ w. bit_and w (2 ^ (b % 8))) empty ∙ zero_bit (b % 8) (omega arith)) refl

pub format_bitmap-free :
    (bm : Bytes) (b : ℕ) → IsBytes bm → b < 4096 → is_free (format_bitmap bm) b ≡ leb 3 b
unfolding format_bitmap
format_bitmap-free bm b ok h =
    let c0 = clear-IsBytes ok 0 512 in
    let c1 = bitmap_set-IsBytes 0 c0 in
    let c2 = bitmap_set-IsBytes 1 c1 in
    rw (is_free-bitmap_set c2 2 b) (
      rw (is_free-bitmap_set c1 1 b)
        (rw (is_free-bitmap_set c0 0 b) (rw (is_free-clear bm b h) (ground arith))))
