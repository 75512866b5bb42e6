-- ===== src/Bemu80/Step/Kept.antt =====
-- The instructions of bemu80/bemu80.c that reach no port keep the ROM.
use manux.Common.{
  if◌then◌else◌, store, store_word, ℕ, ◌<◌, ◌≡◌, refl, ◌∙◌, Bool, true, false, arith,
}
use manux.Bemu80.Machine.{Ram, Cpu, mwrite8, mwrite16, push, set_r8}
use manux.Bemu80.Devices.{Machine}
use manux.Bemu80.Ops.{op_load, x0_memory, group_x0}
use manux.Bemu80.Prefix.{write_back, prefix_cb}
use manux.Bemu80.Index.{
  IndexReg, index_memory, index_step, index_immediate, index_load, index_exchange, prefix_dd_fd,
}

-- The bytes below `rom_size` are the same.
pub record SameRom (m m' : Ram) : Type 0 where
  pub rom_size : m'.rom_size ≡ m.rom_size
  pub bytes : (j : ℕ) → j < m.rom_size → m'.bytes j ≡ m.bytes j

pub same : (m : Ram) → SameRom m m
same m = record { rom_size = refl; bytes = λ j h. refl }

pub then_same : {m m1 m2 : Ram} → SameRom m m1 → SameRom m1 m2 → SameRom m m2
then_same a b = record {
  rom_size = b.rom_size ∙ a.rom_size;
  bytes = λ j h. b.bytes j (omega (arith, a.rom_size)) ∙ a.bytes j h;
}

pub mwrite8-SameRom : (m : Ram) (address value : ℕ) → SameRom m (mwrite8 m address value)
unfolding mwrite8 store
mwrite8-SameRom m address value = record { rom_size = ground arith; bytes = λ j h. ground arith }

pub mwrite16-SameRom : (m : Ram) (address value : ℕ) → SameRom m (mwrite16 m address value)
unfolding mwrite16 store_word store
mwrite16-SameRom m address value = record { rom_size = ground arith; bytes = λ j h. ground arith }

-- What an instruction leaves has the ROM of `m`. The memory is a part `ram` of it.
pub record KeepsRom {A : Type 0} (ram : A → Ram) (m : Ram) (left : A) : Type 0 where
  pub rom : SameRom m (ram left)

module _ {A : Type 0} {ram : A → Ram} {m : Ram} where
  pub pick :
      (b : Bool) {x y : A}
      → KeepsRom ram m x
      → KeepsRom ram m y
      → KeepsRom ram m (if b then x else y)
  pick true hx hy = hx
  pick false hx hy = hy

  pub leaf : {x : A} → SameRom m (ram x) → KeepsRom ram m x
  leaf h = record { rom = h }

abbrev pub Leaves : Ram → Ram × Cpu → Type 0
Leaves m r = KeepsRom (λ (k : Ram × Cpu). k.0) m r

abbrev pub LeavesMachine : Ram → Machine → Type 0
LeavesMachine m r = KeepsRom (λ (k : Machine). k.ram) m r

pub set_r8-SameRom : (m : Ram) (cpu : Cpu) (reg val : ℕ) → SameRom m (set_r8 m cpu reg val).0
unfolding set_r8
set_r8-SameRom m cpu reg val =
    let all : Leaves m (set_r8 m cpu reg val) = search (pick, leaf, same, mwrite8-SameRom) in
    all.rom

pub ruleset keeping = (pick, leaf, same, mwrite8-SameRom, mwrite16-SameRom)

x0_memory-SameRom : (m : Ram) (cpu : Cpu) (p q : ℕ) → SameRom m (x0_memory m cpu p q).0
unfolding x0_memory
x0_memory-SameRom m cpu p q =
    let all : Leaves m (x0_memory m cpu p q) = search keeping depth 12 in all.rom

pub group_x0-SameRom : (m : Ram) (cpu : Cpu) (opcode : ℕ) → SameRom m (group_x0 m cpu opcode).0
unfolding group_x0
group_x0-SameRom m cpu opcode =
    let all : Leaves m (group_x0 m cpu opcode) =
      search (keeping, set_r8-SameRom, x0_memory-SameRom) depth 12 in
    all.rom

pub op_load-SameRom : (m : Ram) (cpu : Cpu) (opcode : ℕ) → SameRom m (op_load m cpu opcode).0
unfolding op_load
op_load-SameRom m cpu opcode =
    let all : Leaves m (op_load m cpu opcode) = search (keeping, set_r8-SameRom) depth 12 in all.rom

pub prefix_cb-SameRom : (m : Ram) (cpu : Cpu) → SameRom m (prefix_cb m cpu).0
unfolding prefix_cb write_back
prefix_cb-SameRom m cpu =
    let all : Leaves m (prefix_cb m cpu) = search (keeping, set_r8-SameRom) depth 12 in all.rom

pub prefix_dd_fd-SameRom : (m : Ram) (i : IndexReg) (cpu : Cpu) → SameRom m (prefix_dd_fd m i cpu).0
unfolding prefix_dd_fd index_memory index_step index_immediate index_load index_exchange push
prefix_dd_fd-SameRom m i cpu =
    let all : Leaves m (prefix_dd_fd m i cpu) = search (keeping, set_r8-SameRom) depth 16 in all.rom
