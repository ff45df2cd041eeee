-- ===== src/Lib.antt =====
-- Verification library of the YoRHa kernel: its allocators, page tables, strings, formatted
-- output, terminal, keyboard, drivers, file system and shell, translated from the C sources.
--
-- The parts, from the bottom up:
-- * Bitmap (src/util.c, include/util.h): first-fit allocation of ranges in a bitmap of 32-bit words.
--   `apply_bitrange`, `alloc_bitrange` and `dealloc_bitrange` have the C functions' names; `scan_words`,
--   `scan_bits` and `visit` are the loops and the loop body of `alloc_bitrange`, `apply_words` and
--   `coeff` those of `apply_bitrange`. The heap, the pages, the inodes, the disk blocks and the file
--   descriptors are allocated with it.
-- * Heap (src/alloc.c, include/alloc.h): `kmalloc`, `kfree`, `kcalloc`, `krealloc`, `allocate_page` and
--   `free_page`. `AllocArray` is the global `kernel_allocator` or `page_allocator`; an entry keeps the
--   pointer and the range of a block. Bytes are in Memory (src/string.c: `memcpy`, `memset`,
--   `memmove`), a function from addresses. Heap.Client has the calls that a client can make one after
--   the other, as a step relation on the heap and the client's blocks.
-- * Cstring (src/string.c): `strlen`, `strcmp`, `strcpy`, `strcat` on byte arrays. Format (the same
--   file): `buff_to_hexstring`, `buff_to_binstring`, `intlen` and `int_to_string`. Printf (src/vga.c):
--   `kputint`, `kprintf` and `fmt`; Printf.Pieces is what a format shows, piece by piece.
-- * Ring (include/file_handlers.h, src/io.c, src/file_handlers.c) and Keyboard (src/io.c): the
--   interrupt handlers fill a ring of characters that the terminal's handler empties. Ring.Queue is
--   the bounded queue, Keyboard.Decode the decoder of scan codes that they are compared with.
-- * Vga (src/vga.c, include/vga.h): cells, cursor and colour of the text screen. Port is the trace of
--   the bytes written to ports (include/asm/cpu_io.h). Tty (src/tty.c, src/file_handlers.c): the
--   terminal's buffer, `render_terminal` and the write branch of `tty_handler`.
-- * Fs (src/fs.c, include/fs.h): State has the globals as one record, with the disk as a function from
--   block numbers to bytes. Path, Directory, Inode, Create and File follow the order of fs.c.
--   `make_path` is the C function `Path`, and `open_file` is `open`. Fs.State.Entries and
--   Fs.Directory.Contents see the bytes of a directory as the list of its entries.
-- * Paging (src/paging.c): `map_page` and `get_physaddr`, which reach the tables through the last entry
--   of the page directory. Physical memory is the words of frames. The translation of addresses is the
--   processor's, a parameter `mmu`; `IsTwoLevel` says that it walks the two levels of tables.
-- * Startup (src/alloc.c): `initialize_allocator`, which sets up the pages and the heap and maps the
--   heap's page.
-- * Strings (include/alloc.h, src/alloc.c): the growing strings, `APPEND` of a character as `append`, and
--   `concat`, over the heap and the memory. Strings.Growing has `APPEND` for arrays of any elements, as
--   `push`: the heap keeps the blocks, and the elements stand in a list. Strings.Split is
--   `string_split`, and Strings.Split.Pieces the pieces of a text that it is compared with.
-- * System (src/fs.c, src/file_handlers.c): `read` and `write` with the special files and their handlers,
--   over the file system, the keyboard's ring, the terminal and the devices. System.Start is
--   `initalize_file_system` and `shutdown`; Fs.Metadata has the blocks that they read and write, and
--   Fs.Listing the directory listings.
-- * Shell (src/kernel.c): the commands (`exec_ls` and the others), Shell.Transfer is `exec_sget`, and
--   Shell.Loop the loop of `shell`: `shell_char` is what it does with one character, `process_line`
--   what it does at a newline. Shell.Edit types the characters of a line.
-- * Ata (src/ata.c) and Serial (src/serial.c, `serial_handler` of src/file_handlers.c): the drivers, over
--   a device behind the ports, which is the parameter `ports` (a record `Ports` of the four accesses).
-- * Interrupts (src/interrupts.c, include/interrupts.h): the entries of the GDT and the IDT, the table
--   of routines and `irq_handler`; `set_gates` stands for the runs of calls of `idt_set_gate`.
--
-- Base has what the modules share. A C function that can fail returns an `Outcome`: `ok`, `panicked`
-- for `panic` and a failed assertion, `fault` for an access outside an array, and `diverges`. Unsigned
-- numbers are native numbers with their reduction modulo 2 ^ 8, 2 ^ 16, 2 ^ 32 or 2 ^ 64 written out;
-- a negative `int` that is returned is the unsigned number of its bits. `size_t` has 32 bits.
--
-- Loops are structural recursion on the number of rounds that are left. The inner loop of
-- `alloc_bitrange` sets its own counter back to a multiple of four and goes on below it: it has 32
-- rounds of fuel, which is enough because each round goes on with a lower bit of the 32. The loops of
-- `int_to_string` have ten rounds, as many as a 32-bit number has digits. A loop that waits for a device
-- has fuel for the questions that it asks: the theorems about it say after how many answers the device
-- is ready. The loops over the sectors of a transfer have one round for each sector and one to end.
--
-- The commands `cat` and `sget` have fuel for the rounds of their loops. Whole blocks are written of the
-- superblock and of the inode table: what stands behind them in memory is an argument (`Behind`), and what
-- a read overwrites there is left out.
--
-- Not modelled: the boot code, the port reads of the interrupt handlers (their answers are arguments),
-- the loading of the tables and of the control registers, load_process, `sleep`, `main`, and `exec_run`,
-- which calls machine code and is an argument of the shell. The characters of the error messages, which
-- name files and lines of the build, are an argument too. An interrupt inside another function is not
-- modelled: the shell reads the ring as it is between interrupts, and the timer like a device.
pub mod Base
pub mod Bitmap
pub mod Memory
pub mod Heap
pub mod Ring
pub mod Keyboard
pub mod Port
pub mod Vga
pub mod Tty
pub mod Cstring
pub mod Fs
pub mod Interrupts
pub mod Format
pub mod Printf
pub mod Paging
pub mod Ata
pub mod Serial
pub mod Startup
pub mod Strings
pub mod System
pub mod Shell
