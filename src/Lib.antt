-- ===== src/Lib.antt =====
-- Models of the C programs of this repository: small programs, each in a file of its own, on
-- arrays, heaps, lists, trees and bits, and small drivers. They share no code, so each part below
-- stands alone; what the models share is in the first files.
--
-- Shared files:
-- - Prelude.antt with Prelude/: native numbers, lists on them, Boolean tests, and how often an
--   entry occurs in a list.
-- - Run.antt: what a run of C code does. `done` is a result, `fault` is undefined behaviour (an
--   access outside an array or through NULL or a pointer to nothing, and where its definition says
--   so an overflow of `int` or a bad shift), and `no_fuel` a loop that is cut off. `Returns P r`
--   says that `r` is `done` with a result that has the property `P`. `for_up` and `for_down` are
--   counted loops.
-- - Ascending.antt: ascending lists, for the trees.
-- - Array.antt: an array in C is a list; `load` and `store` fault outside it.
-- - Memory.antt: the store of linked nodes, a function from addresses to nodes, with NULL at
--   address 0. malloc is a parameter: the address of the new node is an argument of the operation.
--   A freed address holds nothing.
-- - Word.antt with Word/: the binary digits of numbers and the operators of C on `uint32_t`.
--
-- Parts:
-- - Sorting.antt with Sorting/ is sorting.c. Bubble, Insertion, Selection, Shell, Heap, Quick and
--   Merge are bubblesort, insertionsort, selectionsort, shellsort, heapsort with siftDown,
--   quicksort with quicksortroutine, and mergesort with m_sort and merge; Simple gathers those
--   that sort any array.
-- - BucketSort.antt with BucketSort/ is bucketsort.c: insertsort, hash and bucketsort, whose
--   buckets are the lists of their data. Insertsort compares its insertsort with insertionsort of
--   sorting.c.
-- - PriorityQueue.antt is priorityqueue_heap.c: pq_new, pq_push, pq_pop with pq_adjusttree,
--   pq_changepriority and pq_haskey. The record `Pq` is `struct pq`; `junk` is what the memory
--   that malloc and realloc return contains. Order has the invariant, Push, Lift, Pop and Change
--   the operations.
-- - SingleList.antt with SingleList/ is the first half of alllinkedlists.c: insert_single,
--   insert_single2, reverse_single, insert_singlecircular (without TRAVERSE) and
--   reverse_singlecircular. Segment says which nodes a list consists of.
-- - DoubleList.antt with DoubleList/ is its second half: insert_double (without TWOSTEPS),
--   insert_double_circular, reverse_double and reverse_double_circular. Splice and Relink are
--   about a node linked in between two others.
-- - ListProblems.antt with ListProblems/ is linkedlistproblems.c, on the nodes of SingleList:
--   nodefromend (FromEnd), detectloop (Loop), ispalindrome (Palindrome), remove_node, print_list
--   and readbackwards (Removal). Hops has where the pointers lead after a number of steps.
-- - SearchTree.antt with SearchTree/ is binarysearchtree.c (insert, findnode) and bstproblems.c
--   (find_key, the traversals, mindepth, maxdepth, isbalanced). No node is shared there and each
--   operation follows one path, so a tree is a value and not a store.
-- - BTree.antt with BTree/ is btree.c, a B-tree of order 5: `insert_helper` is insertHelper, with
--   the parts for a node with room (add_key) and a full node (make_room, split), `search_pos`
--   searchPos, `traverse` traverse, and `read_file` the loop of main on the numbers that fscanf
--   gives. The arrays of a node are functions that are read and written within their bounds;
--   `Fresh` is what the memory of malloc contains. Contents has the keys and the shape of a tree,
--   Flat and Order the keys around a child and their order, Node one node, Insert the whole tree,
--   and Program the loop of main.
-- - Turns.antt with Turns/ is concurrency/printoddseven.c: `Move` is a step of even or odd, with
--   the semaphore that it waits for and the one that it posts as numbers.
-- - Strings.antt with Strings/ is stringproblems.c: removechars1 and hascharacter (Removal),
--   reversestring (Reverse for the array, Part for the list) and reversewords (Skip, Words),
--   uniqueCharac1 and uniqueCharac2 (Unique; their characters are bytes below 128). A string is an
--   array of bytes up to the first 0.
-- - Bitwise.antt with Bitwise/ is bitwise_macros.c: the macros on a bit (Update) and on fields
--   with merge_m_into_n (Fields), swapbits and swaporderbits (Exchange), changeendianessint and
--   its macro (Bytes), numberbitssettoone, indexhighestbitset and indexlowestbitset (Scan).
-- - CharDevice.antt with CharDevice/ is kernel/chardevice.c, and CharDevice2.antt
--   kernel/chardevice2.c, which registers the same device in two ways: the record `Device` has the
--   buffer and the counters, and a call takes what the kernel gives it and returns what it gives
--   the kernel.
-- - PollDevice.antt with PollDevice/ is kernel/blockingIO_polling/module.c, a ring of bytes
--   between readers and writers: device_read, device_write, device_poll, device_open and
--   device_release, and my_init and my_exit (Setup). Ring has the invariant and the bytes that the
--   ring holds.
-- - KernelModule.antt: the calls of the kernel that the setup of these modules makes, and what the
--   kernel holds after them.
-- - ProducerConsumer.antt with ProducerConsumer/ is concurrency/producerconsumer_condv.c (Condv)
--   and producerconsumer_condv2.c (Condv2). A thread stands at a point of its loop, `Move` is what
--   it does next, `Step` a step of any thread, and `Reach` what the program can come to.
--   `Signalled` is pthread_cond_signal, which wakes one sleeper if there is one, and `Spurious` a
--   wake-up without a signal; the mutex is free or held. What the threads do while they hold it is
--   one step. The numbers of producers and consumers are equal, as in main, but otherwise any.
--   Census counts threads by where they stand, which the invariants are about (Balance,
--   Invariant); Moving, Progress and Finish are about the end of the program, Values about the
--   lines printed, Schedule runs threads in a given order.
-- - Diamond.antt with Diamond/ is printdiamond.c, as the text that is printed.
--
-- The kernel. A call of the kernel is a parameter: copy_to_user and copy_from_user are functions
-- from the bytes to how many of them are not copied, with the hypothesis that these are at most
-- all; what alloc_chrdev_region and the like return is an argument; waiting for an event or a
-- semaphore is a function that says whether a signal came and what the device is like then, with
-- the hypothesis that it keeps the invariant, since other tasks run the same operations. Between
-- these waits a call is one step: is_buffer_full, which the calls look at without the semaphore,
-- stores `ih = ir - 1` before it adds `N`, and another task that reads `ih` just then is not
-- modelled.
--
-- Numbers. The routines on arrays, lists and trees, but for bucketsort, whose values are taken to
-- be not negative, only compare and copy the `int`s that they are given, so an `int` v is the
-- number v + 2^31 there, and its order is kept. Indices and sizes are numbers; an index that could
-- be -1 is written out. Sizes are taken to be small enough for `int`. In Bitwise an `int` or
-- `uint32_t` is its bit pattern, a number below 2^32, and results are cut off by `% 2 ^ 32`.
-- `1<<31` on `int`, and a mask that is shifted into the sign, are the bit patterns that GCC gives
-- them. The mask `(1<<k)-1` of the fields is a `fault` for k of 31 or more, where the subtraction
-- leaves `int` or the shift is undefined; where another shift by 32 or more could occur the
-- theorems exclude it. The `int cont` of numberbitssettoone is a number, since it could only
-- overflow on a negative argument, for which the loop does not end. The number of lines in
-- Diamond, the `loff_t` positions of the two character devices and the k of nodefromend are taken
-- to be not negative.
--
-- Fuel. Counted loops and loops that go through a list run on it. The other loops have a fuel,
-- which the operation itself passes where it knows a bound: the distance of the ends in quicksort,
-- the size of the array in siftDown and in pq_push, the gap in shellsort. insertHelper and
-- traverse follow the tree. The list and string operations and numberbitssettoone take their fuel
-- as an argument, and the theorems say how much is enough; detectloop needs two rounds more than
-- there are nodes.
--
-- Threads. A thread is a point in its function with the values of its variables there, and the
-- calls of pthread_mutex_lock, pthread_cond_wait, pthread_cond_signal, sem_wait and sem_post do
-- what POSIX says of them: a mutex is taken when it is free, a wait gives up the mutex and has it
-- again when it returns, a signal wakes one sleeper if there is one, and a sleeper may wake up by
-- itself. A run is a sequence of steps of any of the threads.
--
-- Not modelled. Printing, but for what the threads and the traversals print, and the main programs
-- but for the loop of that of btree.c and the threads that those under concurrency/ start. insert
-- and sumleafnodes of bstproblems.c, the rest of bitwise_macros.c, commonchar.c and
-- reverseorderwords.c under cproblems/, and the removal of duplicates in linkedlistproblems.c are
-- left out so far, as are the lock-free queues, the schedulers and careercup/. uniqueCharac3 of
-- stringproblems.c rests on a sort and a search that are stubs. producerconsumer_semaphore.c,
-- doublelock_queue.c and diningphilosophers.c under concurrency/ use names that they do not
-- declare or stop half way. The other drivers under kernel/ are copies from Linux, firmware/ and
-- most of freertos/ only write device registers, and the Python, C++ and assembly programs are in
-- other languages.
pub mod Array
pub mod Ascending
pub mod BTree
pub mod Bitwise
pub mod BucketSort
pub mod CharDevice
pub mod CharDevice2
pub mod Diamond
pub mod DoubleList
pub mod KernelModule
pub mod ListProblems
pub mod Memory
pub mod PollDevice
pub mod Prelude
pub mod PriorityQueue
pub mod ProducerConsumer
pub mod Run
pub mod SearchTree
pub mod SingleList
pub mod Sorting
pub mod Strings
pub mod Turns
pub mod Word
