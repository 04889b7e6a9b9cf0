-- ===== src/Lib.antt =====
-- A hobby ARM kernel that runs a NES emulator: a model of the emulator, of the FAT32 driver, of
-- the virtual file system, the console and the page allocator.
--
-- The program: kernel/src/kmain.c brings up memory, display, SD card and file system, loads a
-- cartridge, resets the emulated 6502 and clocks it. The 6502 core reads and writes through the
-- bus; the bus answers from RAM, from the ports of the PPU, or through the mapper of the
-- cartridge. The cartridge is a file: the C library reads it through stdio.c and the virtual file
-- system, which asks the FAT32 driver, which reads blocks of the SD card.
--
-- The files:
--   Common              shared names: native numbers, C integer truncation, Boolean tests, bit lemmas
--   Nes/Machine         the globals of nes6502.c, nesbus.c and nescart.c as one record, and the
--                       actions on it: state passing with a fault for a bad pointer or index
--   Nes/Bus             kernel/src/nesbus.c, nes_mapper.c and the CPU ports of nesppu.c
--   Nes/Registers       `nes_setflag` and `nes_getflag`
--   Nes/Instruction     the table that `init_nes_6502` fills, in four quarters of 64 entries
--   Nes/AddrMode        `nes_fetch` and the twelve addressing modes
--   Nes/Ops             every `nes_XXX` operation, with IRQ and NMI in Nes/Ops/Stack
--   Nes/Clock           `nes_clock`, `nes_reset`, `nes_ins_complete`, and runs of clock cycles
--   Nes/Cart            kernel/src/nescart.c, `nes_get_mapper`, and the part of kernel/src/kmain.c
--                       that loads and runs a cartridge
--   Nes/Cart/Image      what is loaded from a file in the iNES format
--   Nes/Cart/Boot       load, reset and clock together
--   Nes/Cart/Errors     the errors of the load
--   Nes/Keeps           rules for actions that return and keep an invariant
--   Nes/Safety          the invariant of the machine, for every mode, operation and clock cycle
--   Nes/Laws            what single modes and operations compute
--   Nes/Disassembler    `nes_dissasemble_display`; Nes/Disassembler/Steps has its steps, and Overrun
--                       its block
--   Nes/Tests           a sample cartridge, runs of it, and the theorems at it
--   Fat/Bytes           the little-endian numbers that the drivers read out of buffers
--   Fat/Records         kernel/src/mbr.c, and the boot sector loaders of kernel/src/fat32.c
--   Fat/Volume          the volume structure, cluster chains, `fat_getdata` and `fat_fread`; the block
--                       device as an interface, and the multi-block read over any single-block read
--   Fat/Mount           `init_fatfs`
--   Fat/Dir             directory entries of kernel/src/fat32.c, reading through a directory
--   Fat/Dir/Path        `fat_opendir`, `fat_fopen`, `fat_fclose`, `fat_fstat`
--   Fat/Dir/Reading     one call of `fat_readdir`; Fat/Dir/Listing has many
--   Fat/Dir/Opening     `fat_fopen` on the root directory, with Names and Search before it
--   Fat/Dir/Descent     the loop of `fat_opendir` goes into a folder; Fat/Dir/Below has `fat_fopen` there
--   Fat/Tests           a sample disk, and the theorems at it
--   Pmm                 kernel/src/pmm.c: chunks of free pages, with their headers in memory
--   Pmm/Alloc           what `allocPage` gives, from a free list of one chunk
--   Pmm/Free            what `freePage` brings back
--   Pmm/Hooks           kernel/src/malloc.c: the hooks of the heap
--   Pmm/Tests           the theorems at 16 pages
--   Vfs                 kernel/src/vfs.c: mount points, `vfs_mount`
--   Vfs/Files           the calls on files; Vfs/Dirs has those on directories
--   Vfs/Opening         `vfsfopen` against a search through a list of mounts
--   Vfs/Descriptor      what the descriptor of an open file stands for
--   Vfs/Mounting        `vfs_mount`, and where it does not come back
--   Vfs/Listing         `opendir` against a search through a list of mounts
--   Vfs/Directory       what the result of `opendir` stands for
--   Vfs/Tables          what each call leaves of the table of files; Vfs/Session has sequences of calls
--   Vfs/Tests           two mounts of a small driver, and the theorems at them
--   Console             kernel/src/console.c: the frame buffer as an array of pixels
--   Console/Cell        where `console_write_at` draws; Console/Edges has what is outside
--   Console/Tests       a small screen, and the theorems at it
--   Console/Pl110       kernel/src/pl110.c: the registers and the frame buffer
--   Stdio               kernel/src/stdio.c; Stdio/Descriptors follows a file from open to close
--   Bmp                 kernel/src/bmp.c: a 16-bit bitmap file
--   Sd                  kernel/src/pl181.c: the registers and the commands to the card
--   Sd/Reading          the reads of blocks; Sd/Probe has the search for a card
--   Sd/Card             what the driver relies on of the interface and of a card, as laws
--   Sd/Sending          a command comes to its end; Sd/Blocks has the reads, and Sd/Found the search
--   Sd/Serving          the search and the reads after it; Sd/Ignored has commands that never start
--   Sd/Bench            a small interface with a card; Sd/Tests has the theorems at it
--   Storage             the FAT32 driver as the virtual file system calls it, and its mount in `kmain`
--   Storage/Reading     a file read through the virtual file system; Storage/Boot adds the mount
--   Storage/Tests       a file in a folder, opened through `kmain`; Storage/Disk is its disk
--   Bmp/Pixels          which pixels it brings
--   Bmp/Tests           a bitmap of 2 by 2 pixels
--
-- Names are the C names in lower case. A `uint8_t` or `uint16_t` is a native number, truncated
-- where C truncates it: at an assignment, a parameter or a cast. The function pointers of the
-- instruction table are the tags `Op` and `Mode`, called by `run_operation` and `run_mode`. A
-- fault stands for a call or read through a pointer that is NULL, freed, or past its block; heap
-- blocks are functions with a size. The machine starts after `init_nes_bus` and `init_nes_6502`.
-- That table has a block of 255 entries, and the entry of opcode 0xFF is written behind it: a
-- read of it is a fault.
--
-- The emulator needs no fuel: an instruction is straight-line code, and `clocks` recurses on the
-- number of calls. The count of clusters recurses on fuel, of which one unit per cluster of a
-- chain is enough; the loops of the page allocator recurse on fuel, of which one unit is enough
-- wherever they end at all, since no round changes anything. To the FAT32 driver a block device
-- is a record of functions from a buffer, an offset in it and a block address to the number of
-- bytes read and the buffer then; what `malloc` finds in a block is a parameter. The SD card
-- driver works on a state of the hardware, and its loops recurse on fuel, of which one unit more
-- than the hardware takes reads of its status for a command, and one more than the words of a
-- block, are enough. Nothing in it waits for the words of a transfer: that they come faster than
-- they are read is a hypothesis of its own, `Prompt`, beside the laws of the interface.
--
-- A pointer that is only passed on is a number, and 0 is NULL. The drivers of the virtual file
-- system are records of functions on a state that the file system knows nothing of, and Storage
-- has that of the FAT32 driver; its loops recurse on fuel, of which one unit more than there are
-- mounts is enough. The loops over directories recurse on fuel too; one unit for each cluster and
-- each entry is enough. `Outcome` (Common) is a result, a fault, or a loop still running at the
-- end of the fuel. The C library functions of `nes_load_cart` are a record of functions; `malloc`
-- always gives a block, and what `free` gives back is not tracked but for the cartridge.
-- `fat_fopen` stores an end mark one byte behind a block: the model does not make that a fault.
--
-- Not modelled: messages on the console, the font, and the heap, which is a copy of the liballoc
-- library.
pub mod Common
pub mod Nes
pub mod Fat
pub mod Pmm
pub mod Vfs
pub mod Console
pub mod Bmp
pub mod Stdio
pub mod Sd
pub mod Storage
