-- ===== src/Fs/Bitmap.antt =====
-- The block bitmap of fs/mfs.c: bitmap_get, bitmap_set, bitmap_clear and alloc_block.
pub mod Laws
use manux.Common.{
  ◌==◌, if◌then◌else◌, Bytes, store, ℕ, zero, suc, ◌+◌, ◌-◌, ◌/◌, ◌%◌, ◌^◌, bit_and, bit_or, Bool,
}
use manux.Fs.Layout.{total_sectors, data_start_sector}
use manux.Fs.State.{State}

unfoldable pub bitmap_get : Bytes → ℕ → ℕ
bitmap_get bm block = bit_and (bm (block / 8)) (2 ^ (block % 8))

unfoldable pub bitmap_set : Bytes → ℕ → Bytes
bitmap_set bm block = store bm (block / 8) (bit_or (bm (block / 8)) (2 ^ (block % 8)))

-- `~(1 << n)` is an `int`.
pub bitmap_clear : Bytes → ℕ → Bytes
bitmap_clear bm block = store bm (block / 8) (bit_and (bm (block / 8)) (65535 - 2 ^ (block % 8)))

-- What a caller tests.
unfoldable pub is_free : Bytes → ℕ → Bool
unfolding bitmap_get
is_free bm block = bitmap_get bm block == 0

-- The loop, with the rounds that are left. `block` stays below `total_sectors`, so its increment
-- does not wrap.
unfoldable pub alloc_from : ℕ → ℕ → Bytes → ℕ × Bytes
alloc_from zero block bm = (0, bm)
alloc_from (suc n) block bm =
    let rest = alloc_from n (block + 1) bm in
    if is_free bm block then (block, bitmap_set bm block) else rest

-- The block, 0 if none is free.
unfoldable pub alloc_block : State → ℕ × State
alloc_block s =
    let start = data_start_sector s.root in
    let found = alloc_from (total_sectors s.root - start) start s.bitmap in
    (found.0, record s { bitmap = found.1 })
