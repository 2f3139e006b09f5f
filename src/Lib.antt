-- ===== src/Lib.antt =====
-- A verification of the kernel OS_from_scratch: a 32-bit x86 kernel in C++ that is loaded by a
-- Multiboot loader. The modelled parts are its memory management, its C library, its interrupts, and
-- its drivers.
--
-- Parts, and the files that model them:
-- - boot/multiboot_helpers.cpp, the memory map of the loader: Multiboot.antt. What a read of an entry
--   finds is a function of its address.
-- - kernel/mem/pmm.cpp, the physical page allocator: Pmm.antt, and init_pmm in Pmm/Init.antt. Pmm is
--   the record of the globals bitmap, max_frames and bitmap_size; pmm_alloc_page, pmm_free_page,
--   free_region and pmm_reserve_region take it and return it. mset is in Memory.antt, on memory as
--   32-bit words.
-- - kernel/mem/vmm.cpp, the page tables: Vmm.antt, and init_vmm in Vmm/Init.antt. It calls the page
--   allocator directly. The tables lie in a memory of words, and get_physical_address walks them.
-- - kernel/mem/heap.cpp, kmalloc and kfree: Heap.antt. What it calls of the two parts above is the
--   record Pages, which its section takes. A state has the block headers by address.
-- - kernel/kernel.cpp, kernel_main: Startup.antt has the calls of init_pmm, init_vmm and init_heap, and
--   fills the record Pages with the page allocator and the page tables; start_interrupts of
--   Interrupts.antt has the calls that set the interrupts up.
-- - cpu/int.cpp, the descriptor table and the entry points of the interrupts: Interrupts.antt, whose
--   Machine has the state of the clock, the keyboard and the disks, and the handlers that serve
--   them. The stubs of the assembly are addresses, a parameter.
-- - libc/string.cpp: Libc.antt. A string is the memory behind its pointer; printk returns the
--   characters that it hands to the console, and has its text arguments by value. libc/mem.cpp: Bytes.antt, on a memory of bytes.
-- - arch/x86/io/ports.c: Ports.antt, a history of port events. A device is a function of the history.
-- - arch/x86/interrupts/pic.c: Pic.antt; Pic/Masks.antt has an 8259 as its data
--   sheet describes it. arch/x86/time/pit.cpp and rtc.cpp: Time.antt.
-- - drivers/keyboard.cpp: Keyboard.antt. Keyboard/Reader.antt has get_input_buffer as a step relation,
--   with interrupts between its accesses.
-- - drivers/clock/clock.cpp: Clock.antt. What a call of a callback pointer does to
--   the clock is a parameter, the call of NULL included.
-- - drivers/blocks/ata/ata_pio.c: Ata.antt for the transfers, Ata/Identify.antt for ata_identify and
--   ata_init. drivers/blocks/block_device.c: Blocks.antt.
-- - drivers/display/console.cpp: Console.antt. drivers/display/vbe.cpp and font.cpp: Display.antt, on a
--   memory of bytes. drivers/screen.cpp: Screen.antt.
-- - includes/kernel/cpp/unique_ptr.hpp, and swap of types.hpp: Unique.antt, a step relation on pointers
--   by number.
-- - kernel/kernel.cpp, the loop of kernel_main: Shell.antt, a round of it up to the choice of the
--   command.
-- Common.antt has the shared notation and the lemmas on lists, words and bits.
--
-- Numbers are natural numbers; a cast to a width w and each sum that can wrap is written with
-- `% 2 ^ w`. Loops over a counter recurse on the rounds that are left. The other loops take fuel, and
-- give `none` or `out_of_fuel` when it runs out: kmalloc, kfree, map_region, len, strcmp and the walk
-- over the memory map are shown to end with fuel for the blocks, the pages, the characters or the
-- entries that they walk over; the waits of the ATA driver, those that a run comes to, and of
-- init_keyboard end when the device answers, which is a hypothesis. In Time.antt the wait for an update
-- of the clock chip takes fuel as well, without a theorem.
--
-- Not modelled: assembly, single instructions, printing of debug information and log output (among
-- it the message of vbe_put_pixel for a pixel outside of the screen, which is drawn in its turn), an
-- interrupt inside another, what a write past the arrays of 32 regions does, what the
-- commands of kernel_main print, the heap behind the calls of kmalloc in the drivers, and vbe_init. The shapes of the characters are data of others, and a parameter.
pub mod Common
pub mod Memory
pub mod Multiboot
pub mod Pmm
pub mod Vmm
pub mod Heap
pub mod Startup
pub mod Libc
pub mod Bytes
pub mod Ports
pub mod Pic
pub mod Keyboard
pub mod Clock
pub mod Time
pub mod Blocks
pub mod Ata
pub mod Interrupts
pub mod Console
pub mod Display
pub mod Screen
pub mod Unique
pub mod Shell
