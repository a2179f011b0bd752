-- ===== src/Lib.antt =====
-- Sapphire OS: models of modules of the operating system, and proofs about them.
--
-- The system is a cooperative, single-threaded kernel for an 8-bit microcontroller. Its modules keep
-- their state in static variables and call each other directly. A model passes that state on: a
-- module's variables are a record, and a C function that reads or writes them takes the record and
-- returns it.
--
-- Parts, and the files that model them (a file X.antt has children in X/):
--   Prelude    numbers, lists and tests that all share. A C function that can fail an ASSERT, or reach
--              outside an array, returns a `Run`: `assert_failed` is the failed ASSERT, and
--              `out_of_bounds` the access. `add8` to `mul32` are the wrapping operations of C.
--   System     src/statistics.c and the error and warning words of src/system.c, the state that the
--              other modules update. Calls of the log are output and are left out.
--   Memory     src/memory.c, the heap: `alloc` is mem2_h_alloc, `free` mem2_v_free, `verify`
--              mem2_b_verify_handle. Memory/Collect has the thread mem2_garbage_collector_thread: `defrag`
--              is its body, `collect` one pass. Memory/Blocks is the specification: a heap is the
--              list of its blocks in the order of their addresses, and `IsValid` ties the variables to it.
--   DateTime   src/datetime.c: `seconds_to_datetime` and `increment_seconds`. DateTime/Calendar is the
--              calendar that they are measured against, as sums of the lengths of years and months.
--   FfsBlock   src/ffs_block.c, the lists of free blocks, of dirty blocks and of each file's blocks in
--              memory. The specification is FfsBlock/Layout: each name stands for a list of block
--              numbers, no block is on two lists, and the counters are the lengths.
--   FfsFlash   src/ffs_block.c, what it keeps in flash: `read_flags`, `set_dirty`, `read_meta`, `write_meta`,
--              `read_index`, `get_index_info`, and the mount ffs_block_v_init as `mount`. The flash driver
--              is a parameter, `FlashDevice`; its reads may give anything, and another thing each time.
--              `IsReliable` is what a working device promises.
--   Random     src/random.c: `get_int` is rnd_u16_get_int, `lfsr_step` one step of its register.
--   Crypt      src/crypt.c: `xcbc_mac_96`, against RFC 3566 in Crypt/Mac, and `cbc_encrypt` and `cbc_decrypt`. The
--              block cipher of the radio is a parameter; `IsBlockCipher` is what is relied on.
--   MacSec     src/wcom_mac_sec.c: `sign_message` and `verify_message`, over the table of neighbours of
--              src/wcom_neighbors.c. MacSec/Replay runs the check over a sequence of frames.
--   Threading  src/threading.c: `pass` is one round of the loop of thread_start, `run_thread`,
--              `process_signalled_threads`, and the signals. The bodies of the threads, the heap that
--              gives their nodes and the sleep of the processor are parameters, `Machine`.
--   Udp        src/udp.c: `create` is udp_nm_create, `udp_checksum` udp_u16_checksum. It uses the IP header and
--              the sum of Ip.
--   Icmp       src/icmp.c: `recv` is icmp_v_recv, and the error messages `send_ttl_exceeded` and
--              `send_dest_unreachable`, whose common part is `send_error`.
--   Arp        gateway/arp.c: `recv` is arp_v_recv, `get_address` arp_b_get_address, `age_all` one round of
--              arp_aging_thread. It uses the addresses of Ip.
--   Config     src/config.c, and src/eeprom.c: `write_param` and `read_param`, the index (`seek_block`), the
--              keys, the defaults and the start. `write_param` takes fuel, since a block that is written
--              badly is tried again; on a working EEPROM one round for each of the 65 blocks of the longest
--              value, and one more, are enough. Types is src/types.c.
--   KeyValue   src/keyvalue.c: `lookup_meta` is kv_i8_lookup_meta, `kv_set`, `kv_get`, `batch_set` and `batch_get`.
--              src/fs.c is an interface, and the table of the items and their handlers are parameters.
--              Config answers to it by `kv_handler`, and asks it for the types of its parameters.
--   Sockets    src/sockets.c: `create`, `sendto`, `recv_netmsg`, `recvfrom` and a round of each thread that
--              counts the time. A memory object that a socket owns is its bytes.
--   NetMsg     src/netmsg.c: `create_message`, the transmit and the receive queue, a round of each thread
--              (`tx_round`, `rx_round`) and `local_receive`, which gives a message to Icmp or to Sockets.
--   Routes     src/routing2.c: the table (`get`, `add`, `delete`, `traffic`), in Routes/Discovery the requests
--              and replies (route2_i8_process_rreq, route2_i8_process_rrep), in Routes/Errors the errors and
--              what follows from each message, in Routes/Ages a round of route_age_thread. What
--              src/wcom_neighbors.c tells is an interface.
--   Timers     src/timers.c: `elapsed_time`, `compare_times`, `get_ticks`, and `overflow`, the interrupt.
--   Ip         src/ip.c: `init_header` is ip_v_init_header, `verify_header` ip_b_verify_header, `checksum`
--              ip_u16_checksum. A header is a record, and `header_bytes` is how it lies in memory.
--   Crc        src/crc.c: `crc_block` is crc_u16_block. Crc/Polynomial has the bit by bit remainder that its
--              table is measured against, Crc/Blocks the division of a message.
--   NodeList   src/list.c, doubly linked lists of memory objects: `insert_tail`, `insert_head`, `remove`. A
--              list stands for the list of its handles (NodeList/Segments).
--
-- Memory copies a block with a `memcpy`, which is a parameter: `CopiesUp` says that it copies from the
-- lowest byte up, since the block may overlap its new place. The counter of Timers runs during the
-- interrupt, and what it counts there is an argument. Memory counts its events in the counters of System. The list heads that src/ffs_page.c hands to
-- src/ffs_block.c are values of `ListName`. MacSec computes its tags
-- with Crypt, and Udp, Icmp and Arp use the headers and addresses of Ip.
--
-- Loops run on fuel, and a result `out_of_fuel` says that it ended. The loops of the defragmenter get
-- one round more than there are bytes in use, and each of their rounds passes a block of five bytes or
-- more. The walks along a block list get one round more than there are blocks. The
-- rounds of a walk along a node list are an argument. The loop over the years
-- gets 200 rounds; 32 bits of seconds are fewer than 137 years. The interrupt of the timer gets four; a
-- 16-bit register holds less than four times what a round takes off. The loops of the scheduler
-- get one round more than there are threads, where no thread is made meanwhile. The theorems about the
-- functions state that they return, so these rounds are enough.
--
-- Not modelled: drivers, which are accesses to registers; the output of the log; the threads' stacks,
-- whose depth is an argument of the defragmenter; and of the modules above, the printing and parsing of
-- dates, the making, release and flattening of list nodes, the notifications and the start of
-- src/keyvalue.c, the sending of route requests, and what shows the threads, the routes and the cache
-- of addresses as files. The file system above src/ffs_block.c, the wireless protocols of
-- src/wcom_mac.c, src/wcom_ipv4.c and src/wcom_neighbors.c, and the servers are not modelled but for
-- the functions that the list above names.
pub mod Prelude
pub mod System
pub mod Memory
pub mod NetMsg
pub mod DateTime
pub mod FfsBlock
pub mod Timers
pub mod Ip
pub mod Crc
pub mod NodeList
pub mod FfsFlash
pub mod Random
pub mod MacSec
pub mod Types
pub mod Config
pub mod KeyValue
pub mod Icmp
pub mod Udp
pub mod Sockets
pub mod Routes
pub mod Arp
pub mod Threading
pub mod Crypt
