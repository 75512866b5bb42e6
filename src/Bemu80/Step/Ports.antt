-- ===== src/Bemu80/Step/Ports.antt =====
-- The devices of bemu80/bemu80.c keep the ROM.
use manux.Common.{add16, ℕ, zero, suc, ◌+◌, Option, none, some}
use manux.Bemu80.Machine.{Ram, mwrite8}
use manux.Bemu80.Devices.{
  Image, Fdc, Machine, status_ok, status_err, sector_size, fgetc, read_sector, transfer, transfers,
  fdc_cmd, acia_write_data, output_handler, input_handler,
}
use manux.Bemu80.Step.Kept.{
  SameRom, same, then_same, mwrite8-SameRom, KeepsRom, pick, leaf, LeavesMachine,
}

read_sector-SameRom :
    (n : ℕ) (disk : Image) (offset dma i : ℕ) (m : Ram)
    → SameRom m (read_sector n disk offset dma i m)
unfolding read_sector
read_sector-SameRom zero disk offset dma i m = same m
read_sector-SameRom (suc n) disk offset dma i m =
    go (fgetc disk (offset + i))
      (λ byte. read_sector-SameRom n disk offset dma (i + 1) (mwrite8 m (add16 dma i) byte))
  where
    go :
        (byte : Option ℕ)
        → ((c : ℕ)
            → SameRom
                (mwrite8 m (add16 dma i) c)
                (read_sector n disk offset dma (i + 1) (mwrite8 m (add16 dma i) c)))
        → SameRom m (elim byte [
          | none ↦ m
          | some c ↦ read_sector n disk offset dma (i + 1) (mwrite8 m (add16 dma i) c)
        ])
    go none later = same m
    go (some c) later = then_same (mwrite8-SameRom m (add16 dma i) c) (later c)

transfers-SameRom :
    (n cmd : ℕ) (disk : Image) (lba dma : ℕ) (m : Ram)
    → SameRom m (transfers n cmd disk lba dma m).1
unfolding transfers transfer
transfers-SameRom zero cmd disk lba dma m = same m
transfers-SameRom (suc n) cmd disk lba dma m =
    let first : KeepsRom (λ (k : Image × Ram). k.1) m (transfer cmd disk lba dma m) =
      search (pick, leaf, same, read_sector-SameRom) in
    let (disk1, m1) = transfer cmd disk lba dma m in
    then_same first.rom (transfers-SameRom n cmd disk1 (add16 lba 1) (add16 dma sector_size) m1)

pub fdc_cmd-SameRom : (cmd : ℕ) (fdc : Fdc) (m : Ram) → SameRom m (fdc_cmd cmd fdc m).1
unfolding fdc_cmd
fdc_cmd-SameRom cmd fdc m = go fdc.disk
  where
    go :
        (disk : Option Image)
        → SameRom m
            (elim disk as (λ _. Fdc × Ram) [
              | none ↦ (record fdc { status = status_err }, m)
              | some disk ↦
                  let (disk1, m1) = transfers fdc.count cmd disk fdc.lba fdc.dma m in
                  (
                    record { status = status_ok; count = 0; lba = 0; dma = 0; disk = some disk1 },
                    m1,
                  )
            ]).1
    go none = same m
    go (some disk) = transfers-SameRom fdc.count cmd disk fdc.lba fdc.dma m

pub output_handler-SameRom :
    (k : Machine) (port value : ℕ) → LeavesMachine k.ram (output_handler k port value)
unfolding output_handler acia_write_data
output_handler-SameRom k port value = search (pick, leaf, same, fdc_cmd-SameRom) depth 14

pub input_handler-SameRom :
    (k : Machine) (port : ℕ) → KeepsRom (λ (r : ℕ × Machine). r.1.ram) k.ram (input_handler k port)
unfolding input_handler
input_handler-SameRom k port = search (pick, leaf, same) depth 12
