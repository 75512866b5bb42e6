-- ===== src/Bemu80/Devices.antt =====
-- The devices of bemu80/bemu80.c: the floppy controller, the serial interface, and the ports that
-- the processor reaches them by. A handler runs under its mutex, so it is one step.
pub mod Laws
pub mod Contract
use manux.Common.{
  ltb, ◌==◌, if◌then◌else◌, add16, Bytes, store, ℕ, zero, suc, ◌+◌, ◌-◌, ◌*◌, ◌%◌, bit_and, bit_or,
  Bool, true, not, ◌&&◌, Option, none, some, List, ◌∷◌,
}
use manux.Bemu80.Machine.{Ram, Cpu, mwrite8, mread8, set_high, set_low}

-- The disk image, an open `FILE` of the C library: its bytes, and how many there are. Bytes behind
-- the end are 0, as fseek and fputc leave them when they extend the file.
pub record Image : Type 0 where
  pub bytes : Bytes
  pub length : ℕ

-- FDC_t. `disk` is `none` for NULL.
pub record Fdc : Type 0 where
  pub status : ℕ
  pub count : ℕ
  pub lba : ℕ
  pub dma : ℕ
  pub disk : Option Image

-- ACIA_t
pub record Acia : Type 0 where
  pub ctrl : ℕ
  pub status : ℕ
  pub transmit : ℕ
  pub receive : ℕ

-- The global variables; `printed` is what printf has put out, last character first.
pub record Machine : Type 0 where
  pub ram : Ram
  pub cpu : Cpu
  pub fdc : Fdc
  pub acia : Acia
  pub printed : List ℕ
  pub interrupt_pending : Bool
  pub old_format : Bool

abbrev pub status_ok : ℕ
status_ok = 0

abbrev pub status_err : ℕ
status_err = 1

abbrev pub status_busy : ℕ
status_busy = 2

abbrev pub sector_size : ℕ
sector_size = 512

-- fgetc at a position; `none` is EOF.
abbrev pub fgetc : Image → ℕ → Option ℕ
fgetc disk at = if ltb at disk.length then some (disk.bytes at) else none

-- fputc at a position of a file that can grow.
abbrev pub fputc : Image → ℕ → ℕ → Image
fputc disk at c = record {
  bytes = store disk.bytes at c;
  length = if ltb at disk.length then disk.length else at + 1;
}

-- The inner loop of a read, with the rounds that are left; it breaks at the end of the file.
unfoldable pub read_sector : ℕ → Image → (offset dma i : ℕ) → Ram → Ram
read_sector zero disk offset dma i m = m
read_sector (suc n) disk offset dma i m = elim (fgetc disk (offset + i)) [
  | none ↦ m
  | some byte ↦ read_sector n disk offset dma (i + 1) (mwrite8 m (add16 dma i) byte)
]

-- The inner loop of a write.
unfoldable pub write_sector : ℕ → Image → (offset dma i : ℕ) → Ram → Image
write_sector zero disk offset dma i m = disk
write_sector (suc n) disk offset dma i m =
    write_sector n (fputc disk (offset + i) (mread8 m (add16 dma i))) offset dma (i + 1) m

-- One sector of a command. fseek to an offset in the range of an `int` succeeds.
unfoldable pub transfer : ℕ → Image → (lba dma : ℕ) → Ram → Image × Ram
transfer cmd disk lba dma m =
    if cmd == 1
    then (disk, read_sector sector_size disk (lba * sector_size) dma 0 m)
    else if cmd == 2
    then (write_sector sector_size disk (lba * sector_size) dma 0 m, m)
    else (disk, m)

-- The loop over the sectors, with the rounds that are left.
unfoldable pub transfers : ℕ → ℕ → Image → (lba dma : ℕ) → Ram → Image × Ram
transfers zero cmd disk lba dma m = (disk, m)
transfers (suc n) cmd disk lba dma m =
    let (disk1, m1) = transfer cmd disk lba dma m in
    transfers n cmd disk1 (add16 lba 1) (add16 dma sector_size) m1

unfoldable pub fdc_cmd : ℕ → Fdc → Ram → Fdc × Ram
fdc_cmd cmd fdc m = elim fdc.disk [
  | none ↦ (record fdc { status = status_err }, m)
  | some disk ↦
      let (disk1, m1) = transfers fdc.count cmd disk fdc.lba fdc.dma m in
      (record { status = status_ok; count = 0; lba = 0; dma = 0; disk = some disk1 }, m1)
]

-- A disk image that could be opened
unfoldable pub fdc_init : Image → Fdc
fdc_init disk = record { status = status_ok; count = 0; lba = 0; dma = 0; disk = some disk }

unfoldable pub fdc_close : Fdc → Fdc
fdc_close fdc = record fdc { disk = none; status = status_ok }

abbrev pub acia_rdrf : ℕ
acia_rdrf = 0x01

abbrev pub acia_thre : ℕ
acia_thre = 0x02

abbrev pub acia_ovrn : ℕ
acia_ovrn = 0x20

abbrev pub acia_rie : ℕ
acia_rie = 0x80

unfoldable pub acia_init : Acia
acia_init = record { ctrl = 0; status = 2; transmit = 0; receive = 0 }

unfoldable pub acia_write_cmd : Acia → ℕ → Acia
acia_write_cmd acia value =
    if bit_and value 0x03 == 0x03
    then record acia { ctrl = 0; status = acia_thre }
    else record acia { ctrl = value }

unfoldable pub acia_read_data : Acia → ℕ × Acia
acia_read_data acia = (
  acia.receive,
  record acia { receive = 0; status = bit_and acia.status (255 - (acia_rdrf + acia_ovrn)) },
)

unfoldable pub acia_write_data : Machine → ℕ → Machine
acia_write_data m value = record m {
  acia = record m.acia { transmit = value };
  printed = value ∷ m.printed;
}

-- One round of input_thread: the character getchar has read arrives.
unfoldable pub receive_char : Machine → ℕ → Machine
receive_char m ch =
    let c = if m.old_format && (ch == 10) then 13 else ch in
    let full = not (bit_and m.acia.status acia_rdrf == 0) in
    let status = if full then bit_or m.acia.status acia_ovrn else m.acia.status in
    record m {
      acia = record m.acia { receive = c % 256; status = bit_or status acia_rdrf };
      interrupt_pending = if bit_and m.acia.ctrl acia_rie == 0 then m.interrupt_pending else true;
    }

-- The ports: FDC_PORT_CMD to FDC_PORT_COUNT, PORT_ACIA_CMD and PORT_ACIA_DATA
abbrev pub port_acia_cmd : ℕ
port_acia_cmd = 0x80

abbrev pub port_acia_data : ℕ
port_acia_data = 0x81

unfoldable pub output_handler : Machine → (port value : ℕ) → Machine
output_handler m port value =
    let (fdc, ram) = fdc_cmd value m.fdc m.ram in
    if port == 0x10
    then record m { fdc = fdc; ram = ram }
    else if port == 0x11
    then record m { fdc = record m.fdc { lba = set_low m.fdc.lba value } }
    else if port == 0x12
    then record m { fdc = record m.fdc { lba = set_high m.fdc.lba value } }
    else if port == 0x13
    then record m { fdc = record m.fdc { dma = set_low m.fdc.dma value } }
    else if port == 0x14
    then record m { fdc = record m.fdc { dma = set_high m.fdc.dma value } }
    else if port == 0x16
    then record m { fdc = record m.fdc { count = if value == 0 then 1 else value } }
    else if port == port_acia_cmd
    then record m { acia = acia_write_cmd m.acia value }
    else if port == port_acia_data
    then acia_write_data m value
    else m

-- The value that the processor reads, and the machine behind it.
unfoldable pub input_handler : Machine → ℕ → ℕ × Machine
input_handler m port =
    let (received, acia) = acia_read_data m.acia in
    if port == port_acia_data
    then (received, record m { acia = acia })
    else if port == port_acia_cmd
    then (m.acia.status, m)
    else if port == 0x15
    then (m.fdc.status, m)
    else (0, m)
