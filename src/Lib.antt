-- ===== src/Lib.antt =====
-- Verification of the C library template in template-v1/src: a memory pool, init and exit hooks, a
-- work queue with its worker thread, a manager over several queues, and a file reader.
--
-- Prelude passes the library's names on. Prelude/Outcome has the ways in which a run of C code
-- ends: a result, a failed `assert`, an access outside the program's memory, a thread that waits
-- for itself, or a model that ran out of fuel. `Returns P r` is total correctness. Prelude/Lists
-- and Prelude/Tests have lists, and Boolean tests, over the native numbers.
--
-- Mempool models template-v1/src/mempool/mempool.c. `State` is `struct mempool` and the heap, as
-- far as the pool looks at it: the word `magic` of each block. `alloc`, `free`, `recycle`, `init`
-- and `exit` are the functions `mempool_...`; `alloc_slice`, `free_slice` and `recycle_unlocked`
-- are the static ones. What `malloc` answers is an argument, `ctor` and `dtor` are functions on the
-- heap. `list.h` is the interface ListHead; the file is a copy of the Linux kernel's. Counters wrap
-- as `unsigned long`. There a call runs from its start to its end; in Mempool/Threads any number of
-- threads is in the calls at once, and each access to what they share is one step.
--
-- Initops models template-v1/src/initops/initops.c. The table of the linker section is a list, each
-- `init` stands for its answer, and the functions return the hooks called, in order.
--
-- Threadwq models template-v1/src/threadwq/threadwq.h and threadwq.c for one queue, as the header
-- configures it (THREADWQ_BLOCKED_ENQUEUE). `Work`, `Add` and `Kill` are the steps of
-- `thread_func`, of the threads that add jobs, and of `threadwq_exit`; `Step` joins them with the
-- grace periods of RCU, and `Reach` is every interleaving, under sequential consistency. The
-- lock-free queue of userspace-rcu is the interface Lfq. `create_all_cpu_call_rcu_data` is not
-- modelled. A `NULL` job ends the program before it is queued, so the steps queue other jobs only.
-- Threadwq/Table has `threadwq_set_ops`, `threadwq_exec` and the functions that start a table of queues
-- (`..._multi`), where a queue has a worker or not; the table that is shut down is part of Main/Client.
-- Threadwq/Ending has the runs without spurious wake-ups, and Threadwq/Rounds those of `kill_online_worker`. Threadwq/Jobs is what a queue promises to
-- those that use it, without its threads and their mutex, and Threadwq/Jobs/Refines relates the
-- two.
--
-- Manager models template-v1/src/threadwq/threadwq_man.c and threadwq_man_rr.c. A queue is there
-- the list of the jobs added to it, and in Manager/Threads only what its callers make of `twq_idx` is
-- seen, any number of them at once. The search for an idle queue runs on fuel: one more than the
-- number of the attempt that succeeds is enough.
--
-- Fio models template-v1/src/lgu/fio/fio_easyrw.c. `Kernel` has what `stat`, `malloc`, `open` and
-- each `read` answer. `simple_loop` and `block_loop` are the read loops, on fuel: each round
-- delivers a byte, so one round more than the size, or than the limit, is enough. The process
-- counts its descriptors and buffers.
--
-- Fio/Lock models template-v1/src/lgu/fio/fio_lock.c over the open descriptors of all processes.
-- The calls `open`, `flock` and `close` are the interface `Files`, with what their manual pages say
-- as `Lawful`; Fio/Lock/Table is an instance.
--
-- Main models template-v1/src/main.c, from `argparse` to the handlers of `atexit`, with the lock
-- file of Fio/Lock and the hooks of Initops. What `getopt_long`, `setsid` and `daemon` answer is an
-- argument, and so is the run of the benchmarks. Main/Client models the jobs of the benchmarks: a
-- writer takes them from a pool of Mempool and adds them to queues of Threadwq, and RCU hands them
-- to `cb_finish`, which gives them back. A call of the pool is one step there, and the writer may
-- add to any queue at any time. Main/Writer has the writers themselves, `threadfunc2` and
-- `threadfunc3`, with the thread that creates them, step by step: their loops, the choice of the
-- queue, the locks of a call that adds a job, and the clock. `Go` is a step of any thread. A job
-- that `threadfunc2` allocates is counted in `accl` too, which only `threadfunc3` has. A whole test
-- is `Ran`, after which callbacks of RCU may still be to run; `threadwq_exit_multi` may shut the queues
-- down in any order there. Main/Solo is `test_threadwq`, on fuel: one round more than those that are in time
-- is enough, and the search of `cb_start`.
--
-- Lgu models the helpers in template-v1/src/lgu. Lgu/Hexdump is `hexdump_f` of hexdump.c, with its
-- two arrays and their sizes; a call of `fprintf` is an event with its arguments. Lgu/Asciidump
-- does the same for asciidump.h, on non-negative limits, and Lgu/Asciidump/Text has the characters.
-- Lgu/Tm is tm.c; what the C library does with times is the interface `Libc`. Lgu/Atomic is the
-- counter of atomic.h as the 32 bits of an `int`. Lgu/Stdmsg has the message level of stdmsg.h, and
-- Lgu/Stdmsg/Messages the macros that print, with what `printf` makes of the arguments as the text. The
-- `..._example` theorems in the modules named Examples apply the others to concrete inputs.
--
-- Not modelled: of main.c `print_help`, the texts with the counters, and the registration of the
-- threads with RCU; of threadwq.h `threadwq_job_init`, which only sets the fields of a job; and the
-- build files.
mod Prelude
pub mod ListHead
pub mod Lfq
pub mod Mempool
pub mod Initops
pub mod Threadwq
pub mod Manager
pub mod Fio
pub mod Lgu
pub mod Main
