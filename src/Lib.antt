-- ===== src/Lib.antt =====
-- The laboratory programs of an operating systems course: a file system for FUSE (lab4_fs), a
-- memory allocator (lab5_mm), a machine with a page table (lab3_vm) and a shell (lab1_shell).
-- They are programs of their own and share no code.
--
-- Fs: lab4_fs. rawdisk.c reads and writes blocks of 512 bytes of a disk image by system calls;
--   fs_support.c keeps the directory (block 1) and the block map (block 0) in two buffers, looks
--   entries up and allocates blocks from a free list that is threaded through the map;
--   ssfs.c has the FUSE operations over these; format_myfs.c makes an empty disk.
--   * Fs.Posix, Fs.Rawdisk: the system calls as a parameter with the laws of a regular file, and
--     rawdisk.c over them. Fs.Device is the interface that the rest is written against: blocks
--     that are read back as they were written.
--   * Fs.Bytes, Fs.Layout, Fs.Text: a block as bytes, the fields of fs_support.h's fs_block and
--     dir_entry in it (little endian, as on x86-64), and the string functions on these bytes.
--   * Fs.Support: fs_support.c. Fs.Ssfs: ssfs.c, each handler whole (do_write, do_read, do_create,
--     do_truncate, do_getattr, do_readdir and the stubs), and sequences of
--     them (Fs.Ssfs.Reachable). Fs.Format: format_myfs.c. Fs.Info: the
--     counting loops of info_myfs.c.
--   * Fs.Run: commands on the state, which return, report a negative errno, or leave the bounds
--     of the block map (a fault). Fs.Chain, Fs.Consistent: chains of blocks in the map, and what
--     a consistent disk is: files and the free list share no block.
-- Mm: lab5_mm/ll-mm.c. Headers are a map from addresses, sbrk is a parameter (Mm.Break) with what
--   its manual page says. Mm.Layout relates the headers to a plain list of flags and data sizes,
--   and the list operations are stated on that list. malloc, free and realloc are the empty
--   bodies of the source.
-- Vm: lab3_vm/c/machine.c. Instruction words, translate, read_memory and write_memory with the
--   page table, the replacement algorithms as far as they are written, and the loop of run with
--   each instruction. Vm.Program has read_program, with sscanf and the file as parameters, main, and
--   the copies between RAM and swap. The processor and read_program take their two accesses to the
--   memory as parameters, for which main gives read_memory and write_memory; with the source's
--   replacement algorithms no page gets into RAM, so there each program stops (Vm.Program.Aborts),
--   and what holds over any memory is stated apart: Vm.Encoding is about the words of instructions,
--   Vm.Program.Assembles about those that a program's file becomes. Vm.Arithmetic compares the
--   instructions that compute with integers (Common.Int), Vm.Rounds has their rounds. Signed
--   overflow, which C leaves undefined, wraps.
-- Shell: lab1_shell/list.c, the circular list of the shell, on nodes that are maps from addresses.
--   malloc's result is an argument, the nodes that are freed are in the result. Shell.Links relates
--   the nodes to a plain list, Shell.Rings and Shell.Frees have the operations on rings.
-- Sh: lab1_shell/sh.c. The buffers input_buf, token_buf and argv are maps from indices, the pointers
--   into them indices; an access beyond them is a result of its own (Sh.Access). Sh.Line is
--   fetch_line on the bytes that getchar returns, Sh.Lexer gettoken, Sh.Parser parse_line with open
--   as a parameter, Sh.Session the loop of main. run_program is empty in the source: its calls and
--   the messages of error are events in a trace. Sh.Parser.Commands is the reading of a command
--   line that parse_line is compared with. Sh.SearchPath is init_search_path, over Shell.
-- Common: the names and the lemmas on tests, lists and words that these share.
--
-- Fuel. The loops of ll-mm.c go through the list of blocks; each block takes at least its header,
-- so sbrk(0) bounds the rounds, and the theorems show that they end within it. The loops of
-- fs_support.c and ssfs.c are counted loops with the source's bounds. The processor's loop need
-- not end; its runs are of a given number of rounds. The loop of list.c's length has as many
-- rounds as the ring has nodes, and so has that of free_list. Each round of gettoken's loops and of
-- parse_line takes a byte of input_buf, which has 512; a line takes a byte of the shell's input.
-- init_search_path takes a result of malloc for each round.
--
-- Machine integers: uint16_t block numbers, 32-bit words and size_t wrap at their widths, and so
-- does the int that rawdisk.c multiplies for the offset of a block (Fs.Rawdisk.seek_offset), which
-- C leaves undefined. do_write's size_t becomes an int in its result, of which the model has the 32
-- bits, and new_block's size becomes the intptr_t of sbrk (Mm.Break.Increment).
--
-- Not modelled: lab2_sig (undefined behaviour on purpose), the Zig programs, rdoff.c (it prints the
-- bytes at an offset), the printing in the others, coremap of machine.c, which no function uses, and
-- display_list of ll-mm.c, which prints.
pub mod Common
pub mod Fs
pub mod Mm
pub mod Vm
pub mod Shell
pub mod Sh
