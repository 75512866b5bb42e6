-- ===== src/Bemu80/Step/Tests.antt =====
-- Whole instructions of bemu80/bemu80.c on a concrete machine.
use manux.Common.{
  ltb, leb, if◌then◌else◌, text, ℕ, ◌+◌, ◌-◌, ◌*◌, ◌%◌, bit_or, ◌≡◌, refl, inl, inr, ◌==◌, true,
  false, ◌&&◌, none, List, [], ◌∷◌, arith,
}
use manux.Bemu80.Machine.{mread8, mread16}
use manux.Bemu80.Alu
use manux.Bemu80.Devices.{Machine, receive_char}
use manux.Bemu80.Prefix.{with_cpu}
use manux.Bemu80.Step.{return_by, step, execute_round}
use manux.Bemu80.Step.Kept.{SameRom}
use manux.Bemu80.Step.Rom.{begin, round, receive, Execution-keeps_rom}
use manux.Bemu80.Ops.Block.{BlockCopied}
use manux.Bemu80.Step.Ldir.{AtLdir, steps, steps-ldir}
use manux.Bemu80.Step.Calls.{step-call, cb_opcode, step-rr, step-set_index}

-- The program counter stands in RAM, at the four bytes of `code`.
abbrev machine_at : (code : List ℕ) → Machine
machine_at code = record {
  ram = record {
    bytes = λ i. if leb 0x5000 i && ltb i 0x5004 then text code (i - 0x5000) else 0;
    rom_size = 0x2000;
  };
  cpu = record {
    regs = λ i. i + 1;
    shadow_regs = λ _. 0;
    flags = 1;
    shadow_flags = 0;
    ix = 0x6000;
    iy = 0;
    pc = 0x5000;
    sp = 0x9000;
    wz = 0;
    i = 0;
    r = 0;
    im = 1;
    iff1 = true;
    iff2 = true;
    halt = false;
    cycles = 0;
  };
  fdc = record { status = 0; count = 0; lba = 0; dma = 0; disk = none };
  acia = record { ctrl = 0; status = 2; transmit = 0; receive = 0 };
  printed = [];
  interrupt_pending = false;
  old_format = true;
}

-- CALL 0x1234
abbrev calling : Machine
calling = machine_at (0xCD ∷ 0x34 ∷ 0x12 ∷ [])

call_code : mread8 calling.ram 0x5000 ≡ 0xCD
unfolding mread8
call_code = refl

step-call_example :
    let called = step calling in
    let back = return_by called.ram called.cpu in
    (called.cpu.pc ≡ mread16 calling.ram 0x5001) × (back.pc ≡ 0x5003) × (back.sp ≡ 0x9000)
step-call_example = step-call calling call_code (omega arith) (omega arith) (omega arith)

-- RR C
abbrev rotating : Machine
rotating = machine_at (0xCB ∷ 0x19 ∷ [])

rotating_code : (mread8 rotating.ram 0x5000 ≡ 0xCB) × (mread8 rotating.ram 0x5001 ≡ cb_opcode 0 3 1)
unfolding mread8
rotating_code = (refl, refl)

step-rr_example : (step rotating).cpu.regs 1 ≡ bit_or (2 * 2) (Alu.get_flag 1 Alu.flag_c) % 256
step-rr_example =
    step-rr rotating 1 (omega arith) (λ e. omega arith) rotating_code.0 rotating_code.1

-- SET 0, (IX+5)
abbrev setting : Machine
setting = machine_at (0xDD ∷ 0xCB ∷ 5 ∷ 0xC6 ∷ [])

setting_code :
    (mread8 setting.ram 0x5000 ≡ 0xDD)
    × (mread8 setting.ram 0x5001 ≡ 0xCB)
    × (mread8 setting.ram 0x5003 ≡ cb_opcode 3 0 6)
unfolding mread8
setting_code = (refl, refl, refl)

step-set_index_example : step setting ≡ with_cpu setting (record setting.cpu { pc = 0x5004; r = 1 })
step-set_index_example =
    step-set_index setting 3 0 6 (inr refl) (omega arith) (omega arith) setting_code.0
      setting_code.1 setting_code.2

-- A round and a character that is typed
Execution-keeps_rom_example : SameRom calling.ram (receive_char (execute_round calling) 65).ram
Execution-keeps_rom_example = Execution-keeps_rom (receive 65 (round begin refl))

-- LDIR copies itself and the byte behind it to 0x3000.
abbrev copying : Machine
copying =
    let m = machine_at (0xED ∷ 0xB0 ∷ 7 ∷ []) in
    record m {
      cpu = record m.cpu {
        regs = λ i. if i == 1 then 3 else if i == 2 then 0x30 else if i == 4 then 0x50 else 0;
      };
    }

copying-AtLdir : AtLdir copying 3
unfolding mread8
copying-AtLdir = record {
  can = record {
    counter = refl;
    source = omega arith;
    behind_rom = omega arith;
    target = omega arith;
    pc = omega arith;
    bytes = λ i. ground arith;
    order = inl (omega arith);
  };
  first = refl;
  second = refl;
  below_top = omega arith;
  apart = inr (omega arith);
}

ldir_example : BlockCopied copying.ram copying.cpu 3 ((steps 3 copying).ram, (steps 3 copying).cpu)
ldir_example = steps-ldir 2 copying copying-AtLdir
