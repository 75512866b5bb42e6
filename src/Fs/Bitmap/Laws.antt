-- ===== src/Fs/Bitmap/Laws.antt =====
-- The bitmap is a set of blocks, and alloc_block takes its first free block.
use manux.Common.{
  ◌==◌, if◌then◌else◌, Bool-cases, ==→eq, ==→ne, Bytes, IsBytes, store, store-IsBytes, ℕ, zero, suc,
  ◌+◌, ◌-◌, ◌/◌, ◌%◌, ◌≤◌, ◌<◌, ◌≡◌, refl, ◌≢◌, inl, inr, true, false, arith,
}
use manux.Common.Bits.{bit_or_bit, bit_and_mask, bit_byte}
use manux.Fs.Layout.{total_sectors, data_start_sector, used}
use manux.Fs.Layout.{total_sectors, data_start_sector, used}
use manux.Fs.State.{State, IsMounted}
use manux.Fs.Bitmap.{bitmap_set, bitmap_clear, is_free, alloc_from, alloc_block}

pub bitmap_set-IsBytes : {bm : Bytes} (b : ℕ) → IsBytes bm → IsBytes (bitmap_set bm b)
unfolding bitmap_set
bitmap_set-IsBytes b ok = store-IsBytes ok _ _

pub bitmap_clear-IsBytes : {bm : Bytes} (b : ℕ) → IsBytes bm → IsBytes (bitmap_clear bm b)
unfolding bitmap_clear
bitmap_clear-IsBytes b ok = store-IsBytes ok _ _

same_bit : (b c : ℕ) → (c == b) ≡ (if c / 8 == b / 8 then c % 8 == b % 8 else false)
same_bit b c = ground arith

module _ {bm : Bytes} (ok : IsBytes bm) (b c : ℕ) where
  -- After bitmap_set the block is used, and every other block is as before.
  pub is_free-bitmap_set : is_free (bitmap_set bm b) c ≡ (if c == b then false else is_free bm c)
  unfolding is_free bitmap_set store
  is_free-bitmap_set =
      let byte = bit_byte (b % 8) (bm (b / 8)) (omega arith) (ok _) in
      let bit = bit_or_bit (c % 8) (b % 8) (bm (b / 8)) (omega arith) (omega arith) (ok _) in
      rw (same_bit b c) (ground (arith, byte, bit))

  -- After bitmap_clear the block is free, and every other block is as before.
  pub is_free-bitmap_clear : is_free (bitmap_clear bm b) c ≡ (if c == b then true else is_free bm c)
  unfolding is_free bitmap_clear store
  is_free-bitmap_clear =
      let byte = bit_byte (b % 8) (bm (b / 8)) (omega arith) (ok _) in
      let bit = bit_and_mask (c % 8) (b % 8) (bm (b / 8)) (omega arith) (omega arith) (ok _) in
      rw (same_bit b c) (ground (arith, byte, bit))

-- `b` is the first free block in a range of `n` blocks from `start`.
pub record FirstFree (bm : Bytes) (start n b : ℕ) : Type 0 where
  pub from : start ≤ b
  pub below : b < start + n
  pub free : is_free bm b ≡ true
  pub first : (c : ℕ) → start ≤ c → c < b → is_free bm c ≡ false

-- What the loop answers: the first free block, which it marks, or 0 where every block is used.
pub data Allocated (bm : Bytes) (start n : ℕ) : ℕ × Bytes → Type 0 where
  got : {b : ℕ} → FirstFree bm start n b → Allocated bm start n (b, bitmap_set bm b)
  full : ((c : ℕ) → start ≤ c → c < start + n → is_free bm c ≡ false) → Allocated bm start n (0, bm)

alloc_from-later :
    {bm : Bytes} {start n : ℕ} {r : ℕ × Bytes}
    → is_free bm start ≡ false
    → Allocated bm (start + 1) n r
    → Allocated bm start (suc n) r
alloc_from-later {start} used (got f) = got (record {
  from = omega (arith, f.from);
  below = omega (arith, f.below);
  free = f.free;
  first = λ c lo hi. elim (Bool-cases (c == start)) [
    | inl e ↦ rw (==→eq c start e) used
    | inr e ↦ f.first c (omega (arith, ==→ne c start e)) hi
  ];
})
alloc_from-later {start} used (full all) = full λ c lo hi. elim (Bool-cases (c == start)) [
  | inl e ↦ rw (==→eq c start e) used
  | inr e ↦ all c (omega (arith, ==→ne c start e)) (omega arith)
]

pub alloc_from-Allocated : (n start : ℕ) (bm : Bytes) → Allocated bm start n (alloc_from n start bm)
unfolding alloc_from
alloc_from-Allocated zero start bm = full λ c lo hi. absurd (omega arith)
alloc_from-Allocated (suc n) start bm = elim (Bool-cases (is_free bm start)) [
  | inl free ↦ rw free (
      got (record {
        from = omega arith;
        below = omega arith;
        free = free;
        first = λ c lo hi. absurd (omega arith);
      }))
  | inr used ↦ rw used (alloc_from-later used (alloc_from-Allocated n (start + 1) bm))
]

-- What alloc_block promises its callers.
pub record Allocation (s : State) (r : ℕ × State) : Type 0 where
  pub taken :
      r.0 ≢ 0
      → FirstFree s.bitmap
          (data_start_sector s.root)
          (total_sectors s.root - data_start_sector s.root)
          r.0
        × ((c : ℕ) → is_free r.1.bitmap c ≡ (if c == r.0 then false else is_free s.bitmap c))
  pub refused :
      r.0 ≡ 0
      → ((c : ℕ)
          → data_start_sector s.root ≤ c
          → c < total_sectors s.root
          → is_free s.bitmap c ≡ false)
        × (r.1.bitmap ≡ s.bitmap)

Allocated-Allocation :
    {s : State} {r : ℕ × Bytes}
    → IsMounted s
    → Allocated s.bitmap
        (data_start_sector s.root)
        (total_sectors s.root - data_start_sector s.root)
        r
    → Allocation s (r.0, record s { bitmap = r.1 })
Allocated-Allocation m (got {b} f) = record {
  taken = λ _. (f, is_free-bitmap_set m.bitmap_bytes b);
  refused = λ e. absurd (omega (arith, f.from, m.data_after_tables));
}
Allocated-Allocation m (full all) = record {
  taken = λ ne. absurd (ne refl);
  refused = λ _. ((λ c lo hi. all c lo (omega (arith, m.data_in_disk))), refl);
}

-- On a mounted file system alloc_block answers the first free data block and marks it, and no
-- other block changes; it answers 0 only if every data block is used, and then changes nothing.
pub alloc_block_lem : (s : State) → IsMounted s → Allocation s (alloc_block s)
unfolding alloc_block
alloc_block_lem s m = Allocated-Allocation m (alloc_from-Allocated _ _ s.bitmap)
