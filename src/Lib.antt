-- ===== src/Lib.antt =====
-- A verification of tlibc: a small C library with its utilities and a shell (tlibc/), the tools
-- that make a bootable disk, a GPT generator, a FAT32 formatter and an installer (gpt/), a boot
-- loader (bootloader/), and two kernel modules (device/).
--
-- The parts and how they meet. The utilities of tlibc/ print through the number writers and the
-- formatter of tlibc/stdio.c, and read lines through its buffered reader; the calculator
-- tlibc/eval.c stands on both. The disk tools write packed structs into a buffer through the macros
-- of gpt/endian.h: gpt/gpt.c lays out partitions, gpt/fat.c formats one, mounts what it has
-- formatted and copies files into it; gpt/installer.c and gpt/mkgpt.c
-- call both for one disk. The boot loader
-- reads the sectors of such a disk: bootloader/vmlinux.c loads an ELF kernel by its program
-- headers, bootloader/bzimage.c a bzImage. The shell cuts a line into commands and jobs, and
-- tlibc/system.c starts the jobs of a command, joined by pipes.
--
-- The files, and the code that each is about:
--   Base       names that all modules share; Base.Mem is a flat memory with what memset, memcpy and
--              single stores do to it, Base.Bits reads `&` and `|` of disjoint fields as arithmetic
--   Str        tlibc/string.c (Strlen, Memset, Strcpy) and tlibc/atoi.c
--   Stdio      tlibc/stdio.c: putint, putuint, puthex, putptr, putl, putul, putstr, Sprintf,
--              Printf; Stdio.Reader is fill_buf, copy_buf and fdgets
--   Eval       tlibc/eval.c: eval_simple, eval_recur and eval; Eval.Value says what its operators
--              stand for, without its functions
--   Endian     gpt/endian.h: __swap_16 to __swap_64, the loads and stores, for both byte orders
--   Fields     a struct as a list of stores, with what is read back after all of them
--   Fat        gpt/fat.c and gpt/fat.h: Fat.Time is FAT32Date and FAT32Time, Fat.Layout the packed
--              structs, Fat.Create createFAT32, Fat.Data numSectorDataRegion and
--              clusterToFATEntry, Fat.Mount the functions FAT32Super..., Fat.Copyin FAT32Copyin, and
--              Fat.Volume what a mounted volume is and which files it holds
--   Gpt        gpt/gpt.c and gpt/gpt.h: Gpt.Crc is crc32 with its table, Gpt.Layout the structs, and
--              Gpt itself createProtectGPT, writePartitionName and GPTGenerate
--   Boot       bootloader/: Boot.Disk is read_disk of serial.h, Boot.Mbr mbr.c, Boot.ReadFile __k_readfile and
--              Boot.Vmlinux __elf_main of vmlinux.c, Boot.Header the struct of bz_image.h,
--              Boot.BzImage __elf_main of bzimage.c, Boot.Payload getpayload.c, Boot.GetText
--              gettext.c
--   Shell      tlibc/sh.c: contains, Strcmp, system_single and system; Shell.Exec is
--              tlibc/system.c: Execve, exec_single, exec_recur_noret and exec_job
--   Util       Util.Wc, Util.Seq, Util.Mkdir, Util.Kill and Util.Cat are the programs of that name
--              in tlibc/, the last with echo
--   Install    gpt/installer.c: the argument loop, basename, fdsize, mkpart, copyin and main
--   Mkgpt      gpt/mkgpt.c: main, with the offsets that it prints, and what the boot sector reads
--   Device     the handlers of device/zero/init.c and device/null/init.c
--   Tests      theorems at concrete inputs
--
-- State. A buffer is a memory from addresses to bytes, and a pointer is an address; a function
-- that writes takes a memory and returns one. The sum of a pointer and an offset does not wrap
-- around; the offset is computed as the code does it, `% 2 ^ 32` in a uint32_t and `% 2 ^ 64` in a
-- size_t. A failed assertion, a division by 0 and an access through NULL are results of their own.
--
-- Fuel. Strlen, Strcpy, Memset and the digit loops run on fuel, and the theorems say how much is
-- enough: the length of the string or the number of digits, and one. eval runs on the length of its
-- text. The walk along the root directory's chain takes its fuel as an argument, since a cyclic
-- FAT makes FAT32SuperInit loop; one round is enough for a fresh volume, and two for one that
-- files were copied to, since they never lengthen the root directory. The loops of the shell,
-- of __k_readfile, xfcopy and the zero device consume a byte or more in a round, so the number of
-- bytes is enough; seq takes a round for each number, the loop over the installer's arguments one
-- for each option.
--
-- Outside the source: what sys_read delivers to fdgets is a list of chunks, and what fstat, lseek
-- and read return to FAT32Copyin is the record HostFile; what open, mmap, read and write return to
-- main of mkgpt.c is the record Calls. sys_write of Printf returns what it is
-- given. An ATA drive is a function from its registers to the words that it delivers; the record
-- IsLba28 says what a drive in 28-bit LBA mode delivers. The files of getpayload and gettext, the
-- kernel under the shell and under mkdir, the results of fstat and copy_to_user, and the atoi of
-- the C library in the installer are parameters too.
--
-- Not modelled: the system call stubs, the utilities that are one system call each, the prompt
-- loops of the shell and the calculator, blockdev.c and init.c of gpt/, the serial port and the
-- console, the BIOS assembly, bootloader/elf.h, which is a copy, and the registration of the kernel
-- modules. Of an array whose end is passed, the shell, mkdir and Printf report it. The number
-- writers take the digits from a loop that does not know the size of its local array, and
-- fill_digits is the same loop with that size. Of the path buffer of Execve nothing is said, nor of
-- the NULL that argv needs behind 64 arguments. eval reports a read behind the NUL, which an open
-- bracket leads to, and goes no further. Where C leaves the negative of the least int or long
-- undefined, the model wraps around.
pub mod Base
pub mod Str
pub mod Stdio
pub mod Eval
pub mod Endian
pub mod Fields
pub mod Fat
pub mod Gpt
pub mod Boot
pub mod Shell
pub mod Util
pub mod Install
pub mod Mkgpt
pub mod Device
mod Tests
