-- ===== src/Lib.antt =====
-- Verification of the C utilities of this repository: linked list, queue, stack, ring buffer, string
-- and hexadecimal helpers, file locks, IPv6 arithmetic, message log, directory creation, hash table,
-- thread pool, a socket filter, and of the DPDK example that answers ARP requests on a bonded port.
--
-- How the parts fit together. queue.c and stack.c are thin clients of link_list.c: an element goes in at
-- the back or at the front, and comes out at the front through `llist_fetch` with a comparison that
-- always matches. The hash table of hash_map.cpp keeps its entries in lists of link_list.c, one for each
-- remainder of the hash code; the thread pool of threadpool.cpp keeps its tasks in a queue of queue.c.
-- The ring of x_ring/x_ring.c is used by the logger of x_ring/x_log.c.
-- utils.c and ipv6_add.c are collections of functions without state. In dpdk-examples/bond-kni, `main` sets
-- up the ports and launches `lcore_main` on every core; the commands of cmd.c run in a thread of their
-- own, and reach the loops through the flags of main.h, under a spin lock.
--
-- Where what is modelled.
-- - Prelude and its children: Boolean tests, lists on the native numbers, signed integers, bit masks,
--   positions on a circle, partial functions.
-- - LinkList (link_list.c, link_list.h): LinkList.Memory is the heap of nodes (`struct llist_node_st`,
--   field by field) and commands on it, LinkList has one definition per function, named as in the
--   source, and a loop per `for`. The data of a node is any type, callbacks are functions on it, and a
--   callback that writes `p->data` returns the new element. LinkList.Chain and LinkList.Invariant say
--   what a well-formed list is, and the others prove the functions in groups.
-- - Queue, Stack (queue.c, stack.c): the functions by name. Container is the contract they share: an
--   interface with the laws of an insertion and a removal, and Container.Client the calls of a client.
-- - HashMap (hash_map.cpp, hash_map.h): the methods by name, over lists of entries. `find_entry`,
--   `delete_entry` and `store_value` are the calls of `llist_find` and `llist_delet` and the store through
--   `e->value`; HashMap.Bucket.InMemory compares the first two, the insertion and the clearing with the
--   functions of link_list.c on the heap. HashMap.Dict is the dictionary that clients may expect.
-- - ThreadPool (threadpool.cpp, threadpool.h): `add_task` and `work` cut into steps at each access that
--   other threads see, the mutex as the number of its owner, and turns of any number of threads in any
--   order. A thread that waits on a condition may wake up at any time; signals are not needed for what
--   is shown, and not modelled. A task is a value of any type; only threads that are not inside the pool
--   call `add_task`, so a task that adds tasks itself is not modelled.
-- - Ring (x_ring/x_ring.c, x_ring/x_ring.h): `x_ring_t` as a record with 32-bit indices, the creation, the
--   single-producer and single-consumer operations, the queries. Ring.Queue is the bounded queue of
--   messages that they are compared with, Ring.Invariant relates the two.
-- - Ring.Threads: the single-producer and the single-consumer operation as two threads that take turns in
--   any order, with sequentially consistent accesses. A step is the test of the other thread's index with
--   the move of the own head, a copy, or the move of the own tail. Ring.Multi: the operations
--   for several threads, with what the others do to the ring as a parameter, printing and destruction.
-- - XLog (x_ring/x_log.c): a write of a message into the ring, and the rounds of the thread that empties it.
--   XLog.Lifetime: the creation and the destruction of a logger, with what is allocated, open or running.
-- - Utils (utils.c): texts are lists of character codes, with the terminator behind the last one.
--   `bytes2str_h` is `bytes2strH`. Flock: the file locks at the end of the file.
-- - Ipv6 (ipv6_add.c): an address is four words of four bytes each, in the order of memory.
-- - Mylog (mylog.c): the static variables and what has been written are the state.
-- - DebugPrint (debug_print.cpp, debug_print.h): the static level and what has been written are the state.
-- - LinuxUtils (linux_utils.c): the path buffer is a text that is scanned with a cursor.
-- - Bond (dpdk-examples/bond-kni): Bond.Frame is a frame as bytes, and the replies as assignments to them,
--   Bond.Frame.Tags its VLAN headers told by their bytes alone;
--   Bond.Flags (main.h) the shared flags and their lock; Bond.Lcore (main-bond-kni.c) the packet loop and
--   its argument; Bond.Commands (cmd.c) the commands; Bond.Setup (main-bond-kni.c) the initialisation of
--   the ports, and Bond.Main `main`, Bond.Main.Ready what
--   it needs before the launch. What the program does to buffers, cores and ports is recorded as a
--   list of events or calls. What other threads do to the flags before each access is a function of
--   the number of the access, as is what they do to a ring in Ring.Multi. `lcore_main` and
--   `LcoreMainIsRunning` keep their names, in lower case; printed text is a constructor for each message.
-- - Bpf (bpf/bpf_demo.cpp): the filter `code_tcp` as a list of instructions, with the meaning that the manual
--   of the socket filters gives each that it uses, and a round of the loop of `main` on a packet.
-- - Tests: examples.
--
-- Bounds and fuel. A loop over a list takes fuel that counts its rounds; one more than the number of
-- nodes is enough, and the results are total: they say that the run ends without a fault. The loop of
-- `strcmp_nocase` is given as much fuel as both texts have characters, and two more; that of
-- `roundup_power_of_two` the 64 bits of a word; that of `create_path` the length of its buffer; those over
-- the cores have RTE_MAX_LCORE, as each step goes to a higher core. `lcore_main` is given the rounds that it
-- receives. The filter of Bpf has a step for each instruction, as no jump goes back. The loops that wait
-- for other threads take any fuel, and one round where there is none. Arithmetic on `uint32_t` and
-- `unsigned long` wraps where it is written; sizes that are `int` are never negative here, and counters of
-- elements (`size` and the loop counters of link_list.c, `size` of the hash table) are natural numbers
-- without a bound.
--
-- Parameters. `malloc` is any function that gives an address not in use, or null (LinkList.Memory), or a
-- buffer of any content, or null (Ring). The file system of LinuxUtils and the kernel of Flock are
-- records of their calls, with what the manual pages say of them as laws. DPDK is the records Eal, Driver
-- and Machine, and the rounds of a packet loop: its answers may be any, but that a loop over the cores
-- goes to a higher core at each step. The hash code of a key is any function, and the comparison of the
-- hash table one that returns 0 exactly on the entry of its key; InsertMemory says which allocations of an
-- `insert` succeed, and a copy without memory makes it undefined, since the code does not check it. The array of
-- lists that `init` allocates has memory.
-- What the calls of `x_log_create` meet is the record World.
--
-- Not modelled: several producers or consumers as threads, the part of utils.c that is switched off, the
-- test programs, the calls by which bpf/bpf_demo.cpp opens its socket; the destructor of the thread pool,
-- and a constructor of it whose calls fail. Of bond-kni: the command-line
-- library that reads the prompt, pthreads, and the texts that are printed. A buffer that the port does not
-- take from `rte_eth_tx_burst` counts as sent, since the code does not look at the result.
pub mod Prelude
pub mod LinkList
pub mod Container
pub mod Queue
pub mod Stack
pub mod Ring
pub mod Utils
pub mod Ipv6
pub mod Mylog
pub mod LinuxUtils
pub mod Bond
pub mod DebugPrint
pub mod Bpf
pub mod HashMap
pub mod ThreadPool
pub mod Flock
pub mod XLog
pub mod Tests
