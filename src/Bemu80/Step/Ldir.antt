-- ===== src/Bemu80/Step/Ldir.antt =====
-- LDIR of bemu80/bemu80.c, which the processor fetches again until BC is 0, copies a block of
-- memory.
use manux.Common.{
  leb, if◌then◌else◌, ne→==, add16, ℕ, zero, suc, ◌+◌, ◌%◌, ◌≤◌, ◌≡◌, refl, sym, ap, ◌∙◌, ◌≢◌, ◌⊎◌,
  arith,
}
use mathlib.Core.Path.{subst}
use manux.Bemu80.Machine.{Cpu, mem_size, mread8, f_byte, de}
use manux.Bemu80.Devices.{Machine}
use manux.Bemu80.Ops.{op_block_instruction}
use manux.Bemu80.Ops.Block.{
  ldir, CanCopy, Round, BlockCopied, ldir-Round, next-CanCopy, last-BlockCopied, more-BlockCopied,
}
use manux.Bemu80.Prefix.{prefix_ed}
use manux.Bemu80.Step.{x3_prefixes, group_x3, dispatch, step}

-- So many instructions, with no interrupt between them
unfoldable pub steps : ℕ → Machine → Machine
steps zero k = k
steps (suc n) k = steps n (step k)

-- The machine stands at an LDIR in memory that can copy `n` bytes and does not write over itself.
pub record AtLdir (k : Machine) (n : ℕ) : Type 0 where
  pub can : CanCopy k.ram k.cpu n
  pub first : mread8 k.ram k.cpu.pc ≡ 0xED
  pub second : mread8 k.ram (add16 k.cpu.pc 1) ≡ 0xB0
  pub below_top : k.cpu.pc + 2 ≤ 0xFFFF
  pub apart : k.cpu.pc + 2 ≤ de k.cpu ⊎ de k.cpu + n ≤ k.cpu.pc

-- The processor behind the count of the refresh register
abbrev refreshed : Cpu → Cpu
refreshed cpu = record cpu { r = (cpu.r + 1) % 128 }

step-ldir :
    (k : Machine) (n : ℕ)
    → AtLdir k n
    → step k ≡ record k {
      ram = (ldir (k.ram, refreshed k.cpu)).0;
      cpu = (ldir (k.ram, refreshed k.cpu)).1;
    }
unfolding step dispatch group_x3 x3_prefixes prefix_ed op_block_instruction f_byte
step-ldir k n a =
    let two : add16 (add16 k.cpu.pc 1) 1 ≡ add16 k.cpu.pc 2 = omega arith in
    rw (a.first, a.second, two) refl

step-Round :
    (k : Machine) (n : ℕ) → AtLdir k (suc n) → Round k.ram k.cpu ((step k).ram, (step k).cpu)
step-Round k n a =
    let c = a.can in
    let again : CanCopy k.ram (refreshed k.cpu) (suc n) = record {
      counter = c.counter;
      source = c.source;
      behind_rom = c.behind_rom;
      target = c.target;
      pc = c.pc;
      bytes = c.bytes;
      order = c.order;
    } in
    let r = ldir-Round k.ram (refreshed k.cpu) n again in
    subst (λ (s : Machine). Round k.ram k.cpu (s.ram, s.cpu)) (sym (step-ldir k (suc n) a))
      (record {
        source = r.source;
        target = r.target;
        counter = r.counter;
        pc = r.pc;
        bytes = r.bytes;
        rom_size = r.rom_size;
      })

-- A round leaves the instruction where it is.
step-AtLdir : (k : Machine) (n : ℕ) → AtLdir k (suc (suc n)) → AtLdir (step k) (suc n)
step-AtLdir k n a =
    let c = a.can in
    let r = step-Round k (suc n) a in
    let here : (step k).cpu.pc ≡ k.cpu.pc = ground (arith, r.pc, c.counter) in
    let kept : (j : ℕ) → j ≢ de k.cpu → mread8 (step k).ram j ≡ mread8 k.ram j = λ j ne.
      unfold mread8 in
      let byte : (step k).ram.bytes j ≡ k.ram.bytes j =
        r.bytes j ∙ rw (ne→== j (de k.cpu) ne) refl in
      ap (λ v. if leb mem_size j then 0 else v) byte in
    record {
      can = next-CanCopy r n c;
      first =
          ap (mread8 (step k).ram) here ∙ kept k.cpu.pc (λ e. omega (arith, e, a.apart)) ∙ a.first;
      second =
          ap (λ pc. mread8 (step k).ram (add16 pc 1)) here
          ∙ kept (add16 k.cpu.pc 1) (λ e. omega (arith, e, a.apart, a.below_top))
          ∙ a.second;
      below_top = omega (arith, here, a.below_top);
      apart = ground (arith, here, a.apart, r.target);
    }

-- The machine stands at an LDIR (ED B0) with a count of `n + 1`. The instruction, the source and
-- the target end below the last address, the target is in RAM, no byte of the source is written
-- before it is read, and the instruction itself is not written. Then `n + 1` instructions, without
-- an interrupt between them, copy as many bytes from HL to DE as a block copy does, HL and DE are
-- behind them, BC is 0, and the program goes on behind the two bytes.
pub steps-ldir :
    (n : ℕ) (k : Machine)
    → AtLdir k (suc n)
    → BlockCopied k.ram k.cpu (suc n) ((steps (suc n) k).ram, (steps (suc n) k).cpu)
unfolding steps
steps-ldir zero k a = last-BlockCopied (step-Round k zero a) a.can
steps-ldir (suc n) k a =
    more-BlockCopied (step-Round k (suc n) a) n
      ((steps (suc n) (step k)).ram, (steps (suc n) (step k)).cpu) a.can
      (steps-ldir n (step k) (step-AtLdir k n a))
