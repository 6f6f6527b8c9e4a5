-- ===== src/Lib.antt =====
-- The exercises of an operating systems course, one directory each, as models with proofs. What each
-- should do is written in hw1/pagetable.pdf, hw2/shell.pdf, hw3/msgslot.pdf, hw4/queue.pdf and
-- hw5/pcc.pdf.
--
-- Page tables, hw1/pt.c over hw1/os.c. PageTable.Memory is the simulated physical memory: `Memory`
-- is the array `pages` with the counter `nalloc`, `Outcome` tells a result from `exit` and from an
-- access through an invalid pointer, and `mmap` is a parameter that may fail; that anonymous
-- mappings are zero is the hypothesis `MmapZeroes`. PageTable.Walk has `get_index`,
-- `page_table_update` and `page_table_query`, whose loops recur on the level. PageTable.Tree says
-- when the frames form trees of tables: a ghost label gives each frame its root, level and the
-- digits on the way to it. Query, Link, Ensure, Update and Leaf prove one part of the walk each,
-- Laws puts them together, and Contract and Root state the results for single calls. Calls runs the
-- statements of `main` in hw1/os.c, which Main lists; Spec is the abstract state of the tables,
-- Refine, Growth and Runs show that any such client runs as on the abstract tables, and Loops and
-- Passes apply it to `main`.
--
-- The blocking queue, hw4/queue.c. Queue.Chain is the linked list in a store that items and waiting
-- threads share, Queue.State the operations `enqueue`, `dequeue`, `tryDequeue`, `size`, `visited`
-- and `waiting` as critical sections, where `dequeue` stops at `cnd_wait` and `resume` goes on from
-- there. The result of `malloc` is an argument. Queue.System interleaves threads that call the
-- operations in any order; a return of `cnd_wait` may be spurious. Rep, Waiters and Threads say
-- what each section does to the list of items, the list of waiting threads and the signalled
-- threads, and Operations, Outcomes and Changes put them together. Spec is the abstract queue,
-- without nodes and pointers, and the steps that it promises; Refine is the step of the refinement,
-- and Invariant and Runs follow it along an interleaving. Laws, Wakeups and Destroy state what a
-- program that uses the queue relies on. Programs has the test programs of hw4/test2.c that use the
-- queue from one thread, Single what the operations do then, Passes that the programs pass, and
-- Mixed the one whose calls depend on what earlier ones return.
-- `destroyQueue` has fuel for its loops: any number above the number of items is enough. `free` of a
-- `WaitingThread` is no valid call, since it is a local variable of `dequeue`.
--
-- The programs that use the queue from many threads, hw4/test2.c and hw4/test_queue.c.
-- Clients.Programs has what each thread has still to do, Threads the moves of the threads over the
-- steps of Queue.System, which has the interleavings, and Suites the programs themselves. Steps
-- says what a step of the queue means for the threads, Invariant what holds while they run.
-- Progress and Ends state that such programs never get stuck, end, and what they leave, and Groups
-- and Fairness apply this to the programs. Main runs those of hw4/test_queue.c one after the other, as
-- its `main` does. A polling loop and a return of `cnd_wait` with no signal may repeat without bound;
-- these moves are not counted.
--
-- The message slot driver, hw3/message_slot.c. MessageSlot.Driver has the lists of `devices` and
-- the file operations `device_open`, `device_ioctl`, `device_read` and `device_write`; which
-- allocations and copies succeed is an argument of each call. A pointer to a node is its place in
-- the list. Place and Write say what a write does to a list, Content what each channel holds then,
-- Reach the states that the calls reach; Contract, Failed and Reading state the results. Cleanup
-- has the release of the lists when the module is unloaded. Users has hw3/message_sender.c and
-- hw3/message_reader.c as clients of the driver, and Programs states what goes from one to the
-- other.
--
-- The character counter, hw5/pcc_server.c and hw5/pcc_client.c. Counter.Wire has the numbers on the
-- wire, Counter.Server `count_printable_characters`, the loop of `main` and the handler of SIGINT,
-- Counter.Client the sending of a file, and Counter.Main the client around it. The answers of
-- `accept`, `recv`, `read` and `send` are lists that the loops recur on, so a loop without an
-- answer waits; which calls of the set-up succeed is an argument. Count and Laws prove the loops,
-- Contract and Serve state the results for the server, Interrupt what SIGINT in the middle of a
-- connection leaves, and Whole the results for a client and the server together. The handler may run
-- between two steps of the loops; inside `printf` or one addition it is not modelled. Tester has the test program hw5/tester2.c, Files its files, Meetings what one run of
-- the client does, and Passes that the tests pass.
--
-- The shell, hw2/shell.c and hw2/myshell.c. Shell.Words has the special words, Shell.Process
-- `process_arglist`, which turns a line into the calls of the parent and of its children, and
-- Shell.Main the loop over lines with `prepare`, `finalize` and the handler of SIGCHLD. Which calls
-- succeed is an argument, and so is what `strtok` makes of a line. Scan proves what the loop over
-- the words finds. Spec is what hw2/shell.pdf demands for each form of a line; Laws, Waiting and Session
-- state the results.
--
-- Not modelled: what stands around the calls in the sources: the printing of messages, the start of
-- processes in the tests, and in the kernel module the registration of the device; and
-- `test_fifo_order` of hw4/test2.c, which `main` there has commented out: its `assert` is about which
-- thread gets which item.
pub mod Common
pub mod PageTable
pub mod Queue
pub mod Clients
pub mod MessageSlot
pub mod Counter
pub mod Shell
