-- ===== src/Lib.antt =====
-- A verification library of the OSAL, an operating system abstraction layer with one interface
-- (include/) and two implementations: linux_user, on the C library, and linux_kernel, on the Linux
-- kernel. Both give drivers locks, events, threads, lists, clocks, interrupts, memory maps and PCI
-- access.
--
-- Types: include/osal_type.h and linux_user/include/os/osal_type.h, the result codes and states.
--
-- User.Pci: linux_user/src/osal_pci.c. Device has the handle, the macros PCI_BUS, PCI_DEV and PCI_FUNC
-- and the file name that snprintf makes; Config the seven configuration accesses; Scan the searches by
-- id and by class through /proc/bus/pci/devices; Address the conversions between handles and addresses.
-- The calls of the C library are the parameter Posix, on a state W that the library does not look into:
-- a call takes the state and returns a new one. `Counts` states the documented balance of the calls
-- that open, close, allocate and free. A line of the device file is the list of numbers that sscanf
-- converts from what one fgets reads. Header is the structure that os_pci_read_config_header fills, of
-- include/osal_pci.h: Structs has its records, Members the compiler's layout, for an unsigned long of 32
-- bits, Registers the offsets and widths of the OS_PCI_ constants, and Reads compares the two ways to
-- a register.
--
-- User.Trace: linux_user/src/osal_trace.c, with the types of include/osal_trace.h, and Kernel.Trace:
-- linux_kernel/src/osal_trace.c. A message is the list of its characters, formatted; the variable
-- `priority` is passed on from call to call.
--
-- User.Event: linux_user/src/osal_event.c. An operation is none where an assertion of the source fails.
-- The wait on the condition variable is an argument: how it ends, and the event as it is then, so that
-- a theorem for every such argument covers every interleaving of other threads. Waiters is the step
-- relation of any number of threads that share an event, with the threads that sleep counted.
--
-- User.Thread: linux_user/src/osal_thread.c. The results of the pthread calls are arguments. Start is
-- the step relation of os_thread_resume and __osal_thread_wrapper, each step one access to the mutex,
-- to the condition variable or to the field `state`; Joins counts the calls of pthread_join.
--
-- User.Irq: linux_user/src/osal_irq.c, over the parameter IrqApi. Reader is the thread that reads
-- /proc/irqproxy, on top of Kernel.IrqProxy; one round of its loop says when the device raises its line
-- and how the sleep in the kernel ends.
--
-- User.Firmware: linux_user/src/osal_firmware.c, over the parameter FileApi.
--
-- User.Sema: linux_user/src/osal_sema.c, a step relation in which each part that holds the mutex is one
-- step, and the state counts the threads that wait or are woken; the count has 32 bits and a put that
-- overflows it is noted.
--
-- User.List: linux_user/include/os/osal_list.h. A node is its address and the heap gives its two links;
-- an assignment through a pointer writes the heap, in the order of the statements.
--
-- User.MemMap: linux_user/src/raw/memmap.c, over the parameter MapApi, and Kernel.MemMap:
-- linux_kernel/src/raw/memmap.c, over RemapApi. The size of a page is a parameter; Base.Pages has the
-- arithmetic of pages. PreSilicon below each is the same code as it is compiled for PRE_SILICON, which
-- looks for emulating cards through User.Pci and Kernel.Pci; Cards has the shape of the two lists of
-- cards and where they are expected to lead.
--
-- Memory: _os_memcmp of include/osal_memory.h. Div64: the divisions of os/osal_div64.h below
-- linux_user/include and linux_kernel/include.
--
-- User.Clock and Kernel.Clock: linux_user/src/osal_clock.c and linux_kernel/include/os/osal_clock.h.
-- User.Alarm and Kernel.Alarm: the alarms of include/os/osal_sched.h below linux_user and linux_kernel;
-- Kernel.Alarm.Fires compares them. The time of day and the kernel's counter are arguments.
--
-- Locks: include/osal_lock.h as an interface, its operations and what they promise, and threads that
-- share a lock. User.Lock (linux_user/src/lock.c) and Kernel.Lock (linux_kernel/src/osal_lock.c and
-- osal_sema.c) fill it. A call that sleeps is a step that cannot be taken yet.
--
-- Locks.Sections: include/osal_irqlock.h as an interface, and sections that nest and follow each other.
-- User.IrqLock (linux_user/src/osal_irqlock.c) and Kernel.IrqLock (linux_kernel/src/osal_irqlock.c) have
-- the functions, over the thread library and over the kernel's spin locks.
--
-- Kernel.Module: the entry points of linux_kernel/src/osal_linux_driver.c, with Kernel.Firmware's device
-- and the file /proc/irqproxy of linux_kernel/src/osal_irq.c, over the parameters ProcApi and
-- FirmwareApi.
--
-- Kernel.Event: linux_kernel/src/osal_event.c. Sleeping is an argument, as in User.Event. An operation
-- that holds the spin lock of the event is one step. Waiters is the step relation of any number of
-- tasks that share an event, with the wait queue, the timers and the signals of the process.
--
-- Kernel.Firmware: linux_kernel/src/osal_firmware.c, over the parameter FirmwareApi.
--
-- Kernel.Irq and Kernel.IrqProxy: linux_kernel/src/osal_irq.c. Irq registers and releases handlers over
-- the parameter KernelApi; Irq.Deferred is the step relation of linux_interrupt_handler,
-- kthread_wrapper and os_release_interrupt, where each access of the thread to shared state is a step, and
-- an interrupt, with all that its handler does, is one that can come between any of them while the line
-- is not masked. os_release_interrupt takes its steps there too;
-- Deferred.Masked is about its reachable states and Irq.Stop about the end of the thread. IrqProxy is
-- the file /proc/irqproxy, which uses Kernel.Event, with the depth of disable_irq that the kernel counts.
--
-- Kernel.Pci: linux_kernel/src/osal_pci.c, over the parameter PciApi. Enable is the loop of
-- os_pci_enable_device and Addresses the conversions between slots and addresses, with those of User.Pci.
--
-- Kernel.Thread: linux_kernel/src/osal_thread.c. The thread's end sets the event that os_thread_wait
-- sleeps on, which is a Kernel.Event; sleeping is an argument, as there.
--
-- Bounds: the significant hexadecimal digits of a 32-bit number are at most 8 and its decimal digits at
-- most 10, which is the fuel of the two conversions; `collect` iterates over found devices, and its
-- theorem asks for more fuel than there are devices. The loops over a list and over the devices that
-- os_pci_enable_device finds run on fuel, of which more than the nodes or devices is enough, since each
-- round takes one. Numbers are natural numbers, and where the source works on 32 or 64 bits the
-- remainder is written out. Bytes are put together as on a little-endian
-- machine, which is what the files below /proc/bus/pci assume.
--
-- Not modelled: the debug output of the functions and how a message is formatted; backtraces; the
-- version string; the code below `#if 0`, and the functions for DEBUG_MEM, which do not compile, since
-- macros above them have their names; the macros of the other headers, each of which stands for one call
-- of the C library or of the kernel, or for one access to memory.
-- Base has the names and lemmas that the modules share, with Slices for the parts of a list.
pub mod Base
pub mod Cards
pub mod Div64
pub mod Memory
pub mod Locks
pub mod Types
pub mod Kernel
pub mod User
