-- ===== src/Lib.antt =====
-- etaos: a small operating system for AVR microcontrollers. This library models its memory allocator,
-- its scheduler with events and timers, what threads synchronise with on top of them, its interrupt
-- lines, the directories, files and descriptors of its file systems, some of its device drivers, and much
-- of its C library.
--
-- Parts, and how they interact. Each file's comment names the code that it is about.
-- * Heap (mm/heap.c, mm/best-fit.c, mm/first-fit.c, mm/worst-fit.c). The state is `Memory`: the free
--   list `mm_free_list` as a list of nodes (address and size), and the size word in front of each
--   block, by address. `raw_heap_alloc` is `raw_mm_heap_alloc` with a comparator of one of the three
--   policies, `raw_heap_free` is `raw_mm_heap_free`. Sizes and addresses are 16 bit wide, as on AVR, and
--   the additions wrap. Heap/Ordered has the list's invariant, Heap/Search the policies, Heap/Free the
--   release, Heap/Alloc and Heap/Contract the two together.
-- * Time (kernel/time/timer.c, the timer list of kernel/time/clocksource.c, and the same loop in
--   kernel/time/hrtimer.c). The state is the list of timers, and the handles act on a state of their
--   own. Time/Order is about insertions, Time/Process about the walk at a tick.
-- * Sched (kernel/sched/rr-shared.c, rr.c, fifo.c, edf.c and core.c of the same directory). Threads are
--   numbers, and `Threads` maps them to `struct thread`. Sched/Queue has the thread queues: SIGNALED or
--   the chain of threads. Sched/Kernel has `Kernel`, which is `struct rq` with the event queues and the
--   clock, and the three classes' operations on the run queue. Sched/Core has the functions of core.c
--   that move threads between queues and choose the next one, and Sched/Control those of thread.c and clock.c
--   that a thread calls, or a tick.
-- * Event (kernel/sched/event.c). `event_wait` and `event_notify` call Sched/Core; a time out is the
--   handle of a timer of Time.
-- * Schedule (`__schedule` of kernel/sched/core.c): one pass over the expired timers, the signals from
--   interrupts, and the switch to the next thread.
-- * Sched/Lottery (kernel/sched/lottery.c): the class whose threads hold tickets. The numbers that
--   `random_m` draws are an argument. Sched/Lottery/Tickets has where each ticket is, and
--   Sched/Lottery/Draw the choice of a thread.
-- * Irq (kernel/irq/irq.c, handle.c and irqchip.c of the same directory, the threads of interrupts in
--   kernel/sched/core.c, and `cpu_trigger_irq` of arch/avr/kernel/irq.c). `Irqs` is the table of lines, what
--   stands at the addresses, the chip's list, the pins and the scheduler's `Kernel`.
-- * Sync (kernel/sched/mutex.c, ipm.c, semaphore.c and condition.c of the same directory), on top of
--   Event.
-- * Crt (lib/crt/strtol.c, ltoa.c, itoa.c, atoi.c and ctype.c of the same directory). Crt/Strings has the
--   functions on strings (strcmp.c, strcat.c and their neighbours): a string that is read is a list of
--   characters, and a region that is written a list of bytes. Crt/Memory has memcpy.c, memset.c, memcmp.c
--   and memchr.c, on a memory that is a function of the address. Crt/Printf has vfprintf.c, snprintf.c,
--   fputc.c and fputs.c, on a file with a buffer.
-- * Calendar (lib/crt/gmtime.c, mktime.c and localtime.c of the same directory, kernel/time/time.c).
--   Calendar/Zone has daylight saving time.
-- * Fs. Fs/Path has fs/basename.c and fs/util.c with `strtok_r`. Fs/Dir has the tree of directories:
--   fs/dirent.c, the path functions of fs/vfs.c, and mkdir.c, mount.c, unlink.c and readdir_r.c of lib/crt.
--   A directory is an address, and `Vfs` says what stands there. Fs/Ram has fs/ramfs.c, and Fs/Iob the
--   table of open files of fs/vfs.c with fs/open_close.c and fs/read_write.c, over the drivers'
--   functions as a record, which Fs/Disk fills with those of fs/ramfs.c. Fs/Rom has fs/romfs.c.
-- * Drivers. Drivers/Device has drivers/core/core.c, the list of devices and their files in "/dev", on top of
--   Fs/Dir; Drivers/Gpio drivers/gpio/gpiolib.c with the
--   chip of atmega-gpio.c beside it; Drivers/Dht11 drivers/sensors/dht11.c; Drivers/I2c the bus
--   and the clients of drivers/i2c (bus.c and client.c there); Drivers/Eeprom drivers/eeprom (eeprom.c and
--   24c02.c there). What is wired to them is a parameter: the functions of a chip or of a bus on a state of
--   their own, and the levels of a wire as a list. Where a theorem needs it, hypotheses say what such a
--   device is documented to do.
-- * Prelude has the shared names and lemmas. The modules called Tests hold runs and the theorems at
--   concrete states.
--
-- Choices. There is one CPU, and a section that the source guards with a lock or with disabled
-- interrupts is one step. A function that gives up the CPU in its middle is modelled up to that point,
-- and what follows as a function of its own (`raw_event_wait` and `wait_result`). The flags of a thread
-- are Boolean fields. Ticks and deadlines do not wrap. CONFIG_PREEMPT and CONFIG_EVENT_MUTEX
-- are set; `event_notify_broadcast` is modelled without its `yield`. A list of files is linked
-- through the files: adding one that stands in a list already is no operation of the model. An `int`
-- has 16 bits; where one could leave its range, the model wraps or the theorem has a bound, which its entry
-- gives. The scheduling class, CONFIG_SCHED_FAIR and CONFIG_DYN_PRIO are in `Config`.
--
-- Fuel. `timer_process` gets one more than the length of the list, and `timer_process-total` shows that
-- it always has a result. The loop of a broadcast gets the length of the queue, and
-- `event_notify_broadcast_lem` shows that it ends at the mark SIGNALED. `mutex_lock` gets two rounds,
-- which `mutex_lock-event_wait` shows to be enough. `ltoa` gets the number itself, and the round trips
-- show that all its digits are written. `find_month` gets twelve rounds, one for each month, and the
-- loop of `path_split` as many as the string has characters; the round trips of the calendar and of paths
-- show that to be enough. `fill_digits` gets the 15 places of the source's buffer, and
-- `convert_to_num-ltoa` says for which numbers they are enough. `transfer_from` gets the bus's number of
-- retries. The draws of the lottery are a list, and a list that ends before one wins leaves the
-- result `drawing`.
--
-- Not modelled: the context switch and the interrupt entry (arch/avr); the locks of devices; the drivers
-- that are not named above, which are mostly stores to registers; the Python virtual machine, the
-- build scripts, the stacks and names of threads, spin locks, devfs, the conversions of `vfprintf` for
-- floating point, whose printing is an argument, streams but for their buffers, and the rest of the C
-- library. The heap's state is no part of the file systems, of the drivers or of the interrupts: whether memory
-- is left is an argument there, and directories and new files always get theirs.
pub mod Prelude
pub mod Heap
pub mod Sched
pub mod Time
pub mod Event
pub mod Schedule
pub mod Sync
pub mod Crt
pub mod Calendar
pub mod Fs
pub mod Drivers
pub mod Irq
