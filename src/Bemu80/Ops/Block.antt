-- ===== src/Bemu80/Ops/Block.antt =====
-- One execution of LDIR of bemu80/bemu80.c, and how executions add up to the copy of a block.
use manux.Common.{
  ◌==◌, if◌then◌else◌, add16, sub16, IsBytes, store, copy, ℕ, suc, ◌+◌, ◌-◌, ◌≤◌, ◌<◌, ◌≡◌, refl,
  ap, ◌∙◌, ◌⊎◌, Bool, true, false, not, arith,
}
use manux.Bemu80.Machine.{Ram, Cpu, reg_b, reg_d, reg_h, mwrite8, mread8, pair, bc, de, hl}
use manux.Bemu80.Ops.{repeat, move_hl, move_de, count_bc, block_load}

-- One round behind the fetch of the two bytes of the instruction
abbrev pub ldir : Ram × Cpu → Ram × Cpu
ldir (m, cpu) = block_load m (record cpu { pc = add16 cpu.pc 2 }) 0 1

-- A block of `n` bytes that HL and DE can pass over: it is read below the last address, written to
-- RAM, and not written before it is read.
pub record CanCopy (m : Ram) (cpu : Cpu) (n : ℕ) : Type 0 where
  pub counter : bc cpu ≡ n
  pub source : hl cpu + n ≤ 0xFFFF
  pub behind_rom : m.rom_size ≤ de cpu
  pub target : de cpu + n ≤ 0xFFFF
  pub pc : cpu.pc < 65536
  pub bytes : IsBytes m.bytes
  pub order : de cpu ≤ hl cpu ⊎ hl cpu + n ≤ de cpu

-- What one round does.
pub record Round (m : Ram) (cpu : Cpu) (r : Ram × Cpu) : Type 0 where
  pub source : hl r.1 ≡ hl cpu + 1
  pub target : de r.1 ≡ de cpu + 1
  pub counter : bc r.1 ≡ bc cpu - 1
  pub pc : r.1.pc ≡ (if bc cpu == 1 then add16 cpu.pc 2 else cpu.pc)
  pub bytes : (j : ℕ) → r.0.bytes j ≡ (if j == de cpu then m.bytes (hl cpu) else m.bytes j)
  pub rom_size : r.0.rom_size ≡ m.rom_size

regs-repeat : (cpu : Cpu) (again : Bool) → (repeat cpu again).regs ≡ cpu.regs
regs-repeat cpu true = refl
regs-repeat cpu false = refl

pc-repeat :
    (cpu : Cpu) (again : Bool) → (repeat cpu again).pc ≡ (if again then sub16 cpu.pc 2 else cpu.pc)
pc-repeat cpu true = refl
pc-repeat cpu false = refl

pub ldir-Round : (m : Ram) (cpu : Cpu) (n : ℕ) → CanCopy m cpu (suc n) → Round m cpu (ldir (m, cpu))
unfolding block_load
ldir-Round m cpu n c = record {
  source = ap (λ regs. pair regs reg_h) (regs-repeat moved again) ∙ omega (arith, c.source);
  target = ap (λ regs. pair regs reg_d) (regs-repeat moved again) ∙ omega (arith, c.target);
  counter = ap (λ regs. pair regs reg_b) (regs-repeat moved again) ∙ left;
  pc = pc-repeat moved again ∙ stays;
  bytes = written;
  rom_size = same_rom;
}
  where
    moved : Cpu
    moved = count_bc (move_de (move_hl (record cpu { pc = add16 cpu.pc 2 }) 0) 0)

    again : Bool
    again = not (bc moved == 0)

    left : bc moved ≡ bc cpu - 1
    left = omega (arith, c.counter, c.source)

    stays :
        (if again then sub16 moved.pc 2 else moved.pc)
        ≡ (if bc cpu == 1 then add16 cpu.pc 2 else cpu.pc)
    stays = rw left (ground (arith, c.counter, c.pc))

    written :
        (j : ℕ)
        → (mwrite8 m (de cpu) (mread8 m (hl cpu))).bytes j
          ≡ (if j == de cpu then m.bytes (hl cpu) else m.bytes j)
    written j =
        unfold mwrite8 mread8 store in
        ground (arith, c.behind_rom, c.target, c.source, c.bytes (hl cpu))

    same_rom : (mwrite8 m (de cpu) (mread8 m (hl cpu))).rom_size ≡ m.rom_size
    same_rom = unfold mwrite8 in ground arith

-- What the repeated instruction leaves of a block of `n` bytes.
pub record BlockCopied (m : Ram) (cpu : Cpu) (n : ℕ) (r : Ram × Cpu) : Type 0 where
  pub bytes : (j : ℕ) → r.0.bytes j ≡ copy m.bytes (de cpu) m.bytes (hl cpu) n j
  pub source : hl r.1 ≡ hl cpu + n
  pub target : de r.1 ≡ de cpu + n
  pub counter : bc r.1 ≡ 0
  pub pc : r.1.pc ≡ add16 cpu.pc 2

module _ {m : Ram} {cpu : Cpu} {out : Ram × Cpu} (r : Round m cpu out) where
  -- Behind a round that is not the last, the rest of the block can be copied.
  pub next-CanCopy : (n : ℕ) → CanCopy m cpu (suc (suc n)) → CanCopy out.0 out.1 (suc n)
  next-CanCopy n c = record {
    counter = omega (arith, r.counter, c.counter);
    source = omega (arith, r.source, c.source);
    behind_rom = omega (arith, r.rom_size, r.target, c.behind_rom);
    target = omega (arith, r.target, c.target);
    pc = ground (arith, r.pc, c.pc);
    bytes = λ j. ground (arith, r.bytes j, c.bytes j, c.bytes (hl cpu));
    order = ground (arith, r.source, r.target, c.order);
  }

  -- The last round
  pub last-BlockCopied : CanCopy m cpu 1 → BlockCopied m cpu 1 out
  unfolding copy
  last-BlockCopied c = record {
    bytes = λ j. r.bytes j ∙ ground arith;
    source = r.source;
    target = r.target;
    counter = omega (arith, r.counter, c.counter);
    pc = r.pc ∙ ground (arith, c.counter);
  }

  -- A round and the rest of the block
  pub more-BlockCopied :
      (n : ℕ) (end : Ram × Cpu)
      → CanCopy m cpu (suc (suc n))
      → BlockCopied out.0 out.1 (suc n) end
      → BlockCopied m cpu (suc (suc n)) end
  unfolding copy
  more-BlockCopied n end c k = record {
    bytes = λ j.
        k.bytes j
        ∙ ground
            (arith, r.source, r.target, r.bytes j, r.bytes (hl out.1 + (j - de out.1)), c.order);
    source = omega (arith, k.source, r.source);
    target = omega (arith, k.target, r.target);
    counter = k.counter;
    pc = k.pc ∙ ground (arith, r.pc, c.counter);
  }
