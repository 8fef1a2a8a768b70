-- ===== src/Lib.antt =====
-- The teaching kernel OSlab-NJU: the processes, the file system and the console of `kernel/`, and
-- the user library `lib/`.
--
-- The program. An interrupt enters `irqHandle` (kernel/kernel/irqHandle.c), which goes to the
-- handler of the clock, the keyboard or the system calls. The clock and the calls `sleep`, `exit`
-- and `sem_wait` may end in `schedule`, which moves PCBs between linked lists and picks the next
-- process. The calls on files work on a table of open files, on the descriptors of the current
-- process and on a file system in memory; those on the terminal work on the text screen and on a
-- buffer of keys.
--
-- The files.
--   Prelude  results, 32-bit words and lists. `Run` is what C code may do: return (`ok`), fail an
--            assertion (`abort`), leave its arrays or follow a null pointer (`fault`), or use up
--            the fuel of a loop (`spin`).
--   Text     strlen, strcpy and strcmp of kernel/kernel/lib.c; a memory is a function.
--   Print    print_dec, print_hex and printk of kernel/kernel/lib.c, as the text that they send, the
--            same functions over any place that the characters go to, and kernel/lib/abort.c.
--   Proc     struct ProcessControlBlock of kernel/include/x86/memory.h, and kernel/kernel/list.c. A
--            pointer is a number: 0 is NULL, 1 `idle`, 2 to 4 the heads dummy1 to dummy3, 5
--            `dummysem`, and 6 + i is `pcb[i]`. `Proc.Queues` is the abstract view: a list of PCBs
--            for each head.
--   Sched    schedule, try_to_wakeup and timerHandle of kernel/kernel/irqHandle.c.
--   Sem      kernel/kernel/sem.c.
--   Fs       kernel/kernel/fs.c and kernel/include/x86/fs.h. Directory, Search and Linking look at a
--            directory as a function from entries to names; Resolve, Walking and LastName at a path
--            as a list of names; Holding, Keeping, Creating, Folders, MakingDirs, Removing and Removal
--            are about new and removed files and directories.
--   Console  kernel/kernel/screen.c, kernel/kernel/keyboard.c, printQ and the buffer of keys.
--   Kernel   the whole state, and the system calls: Files (open_aux to lseek_aux of irqHandle.c),
--            Process (kernel/kernel/process.c), Trap (irqHandle and syscallHandle), Boot (initPcb
--            and preparePCB of kernel/kernel/kvm.c), Runs (sequences of interrupts
--            and calls), Terminal (reading keys), SavedFile (a file written and read), OpenPath
--            (open_aux with the file system below it), and FileTable (the links of the table of open
--            files, and what opening, closing and forks do to them).
--   User     lib/syscall.c: the calls, printf and scanf; and app/main.c (Program), whose calls go to the
--            handlers directly.
--   Disk     kernel/kernel/disk.c on a drive that is a parameter (`Ports` and its rules `Drive`), and
--            what loads from it: loadUMain and loadFS of kernel/kernel/kvm.c, bootloader/boot.c, and
--            writeBack.
--   Tables   the gates of kernel/kernel/idt.c, the segments of initSeg, and the registers that the
--            kernel loads.
--   Start    kEntry (kernel/main.c) up to the loop of `idle`, with the set-up of the devices, and
--            putChar of kernel/kernel/serial.c (Serial) on a line that is a parameter.
--   Tests    the theorems at concrete inputs.
--
-- Numbers. `int` and `uint32_t` are the numbers below 2 ^ 32, with the wrap-around of `add32` and
-- `sub32` and the sign of `is_neg` and `slt`; -1 is `minus_one`.
--
-- Fuel. A walk over a list of PCBs has `walk_fuel`, more than there are PCBs; the theorems about
-- `list_add`, `list_delete`, `try_to_wakeup`, `schedule` and `timerHandle` state that it is enough on
-- well-formed lists. The scan of a directory has as much as a directory has entries and faults
-- behind the last one. A walk along a path has the length of the path. Digits have ten rounds for
-- decimal and eight for hexadecimal numbers, which is all that 32 bits need.
--
-- Waiting for the disk has the fuel `patience`, more rounds than the drive is ever busy; the loop over
-- the sectors has three rounds more than the bytes fill whole sectors.
--
-- The serial line has the same kind of fuel: more rounds than it is ever busy.
--
-- Not modelled: the assembly code. The messages of the loaders are left out; what the kernel sends to the serial port, the writes of the cursor's ports
-- and the file systems written to the disk are traces in the state, and `Tables.Registers` and
-- `Start.Serial` stand apart from that state. The second copy of the disk's reading half in
-- bootloader/boot.c is not modelled again. The file system that the system calls work on
-- is the view through the pointers of initFS of the memory at the end of kEntry, and no other part of memory. Semaphores lie in the user's
-- memory; the model keeps them in a map of their own by address, which a program that uses a
-- semaphore's bytes otherwise would not see. The scan codes of the keys are an argument of the handlers that wait for them.
pub mod Prelude
pub mod Print
pub mod Text
pub mod Proc
pub mod Sched
pub mod Sem
pub mod Fs
pub mod Disk
pub mod Tables
pub mod Start
pub mod Console
pub mod Kernel
pub mod User
mod Tests
