-- ===== src/Lib.antt =====
-- Manux, a small Unix-like system for the Z80, and bemu80, the emulator it runs on.
--
-- The parts and how they interact. The kernel (kernel/kernel.c) starts programs and answers system
-- calls. A call on a descriptor goes to the terminal (kernel/kstdio.c over driver/tty.c) or to the
-- file system (fs/mfs.c with the descriptors of fs/fd.c), which keeps three sectors of the disk in
-- memory and reads and writes others through the disk driver. The emulator (bemu80/bemu80.c)
-- provides the processor, the memory, the floppy controller and the serial interface.
--
-- Fs/ is fs/mfs.c and fs/fd.c. Fs/State is the kernel's memory: the sectors with the root, the
-- bitmap and the file table, the scratch sector, the table of descriptors, and the disk, each
-- structure at its byte offsets (Fs/Layout, include/fs/mfs.h). Fs/Disk is the contract of the disk
-- driver, which is assembly: a read or a write moves one sector if the device answers 0. Fs/Bitmap,
-- Fs/Names, Fs/Fd, Fs/Open, Fs/Read, Fs/Write, Fs/Seek and Fs/Delete have one definition for each
-- function of the same name, and one for the body of each loop. Fs/Read/Chain says what a file is:
-- the bytes along the chain of its blocks. A pointer to a file entry is the entry's index. `junk`
-- stands for a local variable that the code reads before it sets it.
--
-- Kernel/ is the terminal driver (Kernel/Tty, driver/tty.c), the kernel's output and input
-- (Kernel/Kstdio, kernel/kstdio.c) and its program start and system calls (Kernel/Exec,
-- kernel/kernel.c). A call that waits for a character answers `none`.
--
-- Bemu80/ is bemu80/bemu80.c: memory, registers and stack (Bemu80/Machine), the arithmetic and logic
-- unit (Bemu80/Alu), the devices and ports (Bemu80/Devices), the instruction groups group_x0,
-- op_load, op_alu and the block instructions (Bemu80/Ops), the instructions behind the prefixes CB
-- and ED (Bemu80/Prefix) and DD and FD (Bemu80/Index), and group_x3, the dispatch of one instruction
-- and one round of the main loop (Bemu80/Step). Step/Rom has runs of the machine as a relation, with
-- characters that arrive between two rounds.
--
-- Userland/ is the editor, userland/edit.c (Userland/Edit): its lines, and how it loads them from a
-- file and writes them over it (a write replaces characters and does not cut the file); the shell,
-- userland/shell.c (Userland/Shell): the words of a command line, and what is run; the assembler,
-- userland/m80asm.c (Userland/Asm), the tool the programs are built with on the host: one
-- definition for each function, the operands in Asm/Operand, the instructions in Asm/Load, Asm/Calc
-- and Asm/Flow, a line in Asm/Line and the two passes over the lines in Asm/Passes; and the
-- calculator, userland/ecalc.c (Userland/Ecalc), with its parser in Ecalc/Parse and the terms that
-- a line can write in Ecalc/Terms. In the assembler an `int` of the host is the 32-bit pattern that
-- stands for it, the lines of the source are given as a list, and the answer of a function is
-- `true` for 0 and `false` for -1. In the calculator what the machine makes of a division by zero
-- is a parameter, the function `by_zero`.
--
-- MfsUtil is mfs-util.c, the tool of the host for disk images: how it formats an image, and how it
-- reads a file of it.
--
-- Common/ has the Boolean tests, the machine integers (a number modulo 2 ^ 8 or 2 ^ 16, its
-- wrap-around written out), memory as a function from addresses to bytes, loops on fuel, the
-- binary digits of numbers, and texts as lists of codes (Common/Text). Each part has a module
-- Examples or Tests with its theorems at concrete values.
--
-- Fuel. A loop over bytes gets one round more than there are bytes, a search over blocks one more
-- than the disk has sectors, kputs one for every address, and the calculator two more than the line
-- has characters. fd_close and mfs_close, which call each other, get three calls. The theorems prove
-- that these are enough.
--
-- Not modelled: the assembly of the kernel and of the drivers, the emulator's debugger, its clock
-- and its terminal set-up, dump_fs, which only prints, the port of the C library under
-- userland/, and how mfs-util.c creates, stores and deletes files.
pub mod Common
pub mod Fs
pub mod Bemu80
pub mod Kernel
pub mod Userland
pub mod MfsUtil
