-- ===== src/Bemu80/Index.antt =====
-- The prefixes DD and FD of bemu80/bemu80.c, which put IX or IY for HL, and the bit instructions
-- behind them.
use manux.Common.{◌==◌, if◌then◌else◌, ℕ, ◌/◌, ◌%◌, ◌&&◌}
use manux.Bemu80.Machine.{
  Ram, Cpu, mwrite8, mread8, mwrite16, mread16, f_byte, f_word, get_index_addr, push, pop, get_r8,
  set_r8, get_r8_index, set_r8_index, get_r16_index,
}
use manux.Bemu80.Alu
use manux.Bemu80.Alu.{inc16, dec16}
use manux.Bemu80.Ops.{tick, with_flags, field_y, field_z, alu_by}
use manux.Bemu80.Prefix.{shifted}

-- The pointer `index_reg`
pub data IndexReg : Type 0 where
  to_ix to_iy : IndexReg

abbrev pub get_index : IndexReg → Cpu → ℕ
get_index to_ix cpu = cpu.ix
get_index to_iy cpu = cpu.iy

abbrev pub put_index : IndexReg → Cpu → ℕ → Cpu
put_index to_ix cpu v = record cpu { ix = v }
put_index to_iy cpu v = record cpu { iy = v }

-- set_r8_index through the pointer
abbrev pub set_through : IndexReg → Cpu → (reg val : ℕ) → Cpu
set_through i cpu reg val =
    let (done, v) = set_r8_index cpu reg val (get_index i cpu) in put_index i done v

-- x = 0, z = 1: ADD IX, rr and LD IX, nn
unfoldable pub index_pairs : Ram → IndexReg → Cpu → (p q : ℕ) → Cpu
index_pairs m i cpu p q =
    let v = get_index i cpu in
    let (sum, flags) = Alu.add16 cpu.flags v (get_r16_index cpu p v) in
    let (value, next) = f_word m cpu in
    if q == 1
    then tick (put_index i (with_flags cpu flags) sum) 15
    else if p == 2
    then tick (put_index i next value) 14
    else cpu

-- x = 0, z = 2: LD (nn), IX and LD IX, (nn)
unfoldable pub index_memory : Ram → IndexReg → Cpu → (p q : ℕ) → Ram × Cpu
index_memory m i cpu p q =
    let (address, next) = f_word m cpu in
    if (q == 0) && (p == 2)
    then (mwrite16 m address (get_index i next), tick next 20)
    else if (q == 1) && (p == 2)
    then (m, tick (put_index i next (mread16 m address)) 20)
    else (m, cpu)

-- x = 0, z = 3: INC IX and DEC IX
unfoldable pub index_count : IndexReg → Cpu → (p q : ℕ) → Cpu
index_count i cpu p q =
    let v = get_index i cpu in
    tick
      (if (q == 1) && (p == 2)
        then put_index i cpu (dec16 v)
        else if (q == 0) && (p == 2)
        then put_index i cpu (inc16 v)
        else cpu)
      10

-- x = 0, z = 4 and 5: INC and DEC of a byte, by `f`
unfoldable pub index_step : (ℕ → ℕ → ℕ × ℕ) → Ram → IndexReg → Cpu → (y : ℕ) → Ram × Cpu
index_step f m i cpu y =
    let (address, next) = get_index_addr m cpu (get_index i cpu) in
    let (stepped, flags) = f next.flags (mread8 m address) in
    let (val, fetched) = get_r8_index m cpu y (get_index i cpu) in
    let (res, flags1) = f fetched.flags val in
    if y == 6
    then (mwrite8 m address stepped, tick (with_flags next flags) 23)
    else (m, tick (set_through i (with_flags fetched flags1) y res) 8)

-- x = 0, z = 6: LD r, n and LD (IX+d), n
unfoldable pub index_immediate : Ram → IndexReg → Cpu → (y : ℕ) → Ram × Cpu
index_immediate m i cpu y =
    let (address, next) = get_index_addr m cpu (get_index i cpu) in
    let (far, behind) = f_byte m next in
    let (near, after) = f_byte m cpu in
    if y == 6
    then (mwrite8 m address far, tick behind 19)
    else (m, tick (set_through i after y near) 11)

-- x = 1: the loads
unfoldable pub index_load : Ram → IndexReg → Cpu → (y z : ℕ) → Ram × Cpu
index_load m i cpu y z =
    let (address, next) = get_index_addr m cpu (get_index i cpu) in
    let (m1, loaded) = set_r8 m next y (mread8 m address) in
    let (val, fetched) = get_r8_index m cpu z (get_index i cpu) in
    if (y == 6) && (z == 6)
    then (m, tick cpu 8)
    else if y == 6
    then (mwrite8 m address (get_r8 m next z), tick next 19)
    else if z == 6
    then (m1, tick loaded 19)
    else (m, tick (set_through i fetched y val) 8)

-- x = 2
unfoldable pub index_alu : Ram → IndexReg → Cpu → (y z : ℕ) → Cpu
index_alu m i cpu y z =
    let (b, fetched) = get_r8_index m cpu z (get_index i cpu) in
    tick (alu_by fetched y b) (if z == 6 then 19 else 8)

-- The write behind the switch cannot be reached: every case breaks or returns before it.
unfoldable pub prefix_cb_index : Ram → IndexReg → Cpu → Cpu
prefix_cb_index m i cpu =
    let (address, next) = get_index_addr m cpu (get_index i cpu) in
    let (opcode, behind) = f_byte m next in
    let x = opcode / 64 in
    let y = field_y opcode in
    let val = mread8 m address in
    let (result, flags) = shifted y behind.flags val in
    if x == 0
    then with_flags behind flags
    else if x == 1
    then tick (with_flags behind (Alu.bit8 behind.flags val y)) 20
    else behind

-- x = 3, z = 1: POP IX, JP (IX) and LD SP, IX
unfoldable pub index_stack : Ram → IndexReg → Cpu → (p q : ℕ) → Cpu
index_stack m i cpu p q =
    let v = get_index i cpu in
    let (value, above) = pop m cpu in
    if (q == 0) && (p == 2)
    then tick (put_index i above value) 14
    else if (q == 1) && (p == 2)
    then tick (record cpu { pc = v }) 8
    else if (q == 1) && (p == 3)
    then tick (record cpu { sp = v }) 10
    else cpu

-- x = 3, z = 3, y = 4: EX (SP), IX
unfoldable pub index_exchange : Ram → IndexReg → Cpu → Ram × Cpu
index_exchange m i cpu =
    let v = get_index i cpu in
    (mwrite16 m cpu.sp v, tick (put_index i (record cpu { wz = v }) (mread16 m cpu.sp)) 23)

unfoldable pub prefix_dd_fd : Ram → IndexReg → Cpu → Ram × Cpu
prefix_dd_fd m i cpu0 =
    let (opcode, cpu) = f_byte m cpu0 in
    let x = opcode / 64 in
    let y = field_y opcode in
    let z = field_z opcode in
    let p = y / 2 in
    let q = y % 2 in
    let (pushed, below) = push m cpu (get_index i cpu) in
    if x == 0
    then (if z == 1
        then (m, index_pairs m i cpu p q)
        else if z == 2
        then index_memory m i cpu p q
        else if z == 3
        then (m, index_count i cpu p q)
        else if z == 4
        then index_step Alu.inc8 m i cpu y
        else if z == 5
        then index_step Alu.dec8 m i cpu y
        else if z == 6
        then index_immediate m i cpu y
        else (m, cpu))
    else if x == 1
    then index_load m i cpu y z
    else if x == 2
    then (m, index_alu m i cpu y z)
    else if z == 1
    then (m, index_stack m i cpu p q)
    else if z == 3
    then (if y == 1
        then (m, prefix_cb_index m i cpu)
        else if y == 4
        then index_exchange m i cpu
        else (m, cpu))
    else if (z == 5) && (q == 0) && (p == 2)
    then (pushed, tick below 15)
    else (m, cpu)
