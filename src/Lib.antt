-- ===== src/Lib.antt =====
-- The kernel side of fuse4x: requests from the file system to a user daemon and its answers.
--
-- A thread that serves a file operation fills a ticket with a request (fuse_ipc.c), queues it for
-- the daemon and sleeps. The daemon reads requests from its device and writes answers to it
-- (fuse_device.c); an answer finds its ticket by the identifier, runs the ticket's callback and
-- wakes the thread. The tickets, their queues and the flags of one device are its `struct
-- fuse_data`, which is made when the daemon opens the device and freed by whoever lets it go last,
-- the daemon or the mount (fuse_vfsops.c).
--
-- Prelude passes the library's names on and has Boolean tests, lists and integers over the native
-- numbers. Errno and Opcode are the errno values and `enum fuse_opcode` of fuse_kernel.h.
--
-- Iov: `struct fuse_iov` and the fiov_* functions of fuse_ipc.c. A buffer is its sizes;
-- `capacity` is what the allocator was asked for, which FU_AT_LEAST, by libkern's `max`, and
-- FUSE_OSMalloc (fuse.h) cut to 32 bits. Whether the allocator has memory is a parameter. Bounds
-- and Credit prove.
--
-- Ipc/State: the structures of fuse_ipc.h, with tickets in a heap by address and each queue of
-- <sys/queue.h> as the list of the linked addresses. Ipc/Monad: state with panics and with faults,
-- a fault being an access to a ticket that is not allocated. Ipc/Tickets: fuse_ticket_alloc,
-- _refresh, _destroy, _fetch, _drop, _kill, _drop_invalid, the queues of free and of all tickets,
-- and fuse_data_kill. Ipc/Audit: fuse_body_audit. Ipc/Dispatcher: fuse_setup_ihead,
-- fuse_insert_callback, fuse_insert_message, fuse_dispatcher_make and its variant that can fail,
-- and the sending of FORGET and INTERRUPT (fuse_internal.c). Ipc/Answer: fuse_ticket_pull,
-- fuse_ticket_aw_pull_uio, fuse_standard_callback and the callback of fsync. Ipc/Callbacks: the
-- handshake fuse_send_init and fuse_internal_init_callback, and the other callbacks. Ipc/Wait:
-- fuse_ticket_wait_answer and fuse_dispatcher_wait_answer. Ipc/WellFormed is the invariant of the
-- tickets; its children, and Ipc/Ensures, carry the proofs.
--
-- Device/Reading and Device/Writing: fuse_device_read and fuse_device_write. Device/Lifecycle:
-- opening, closing and killing a device, fuse_data_alloc and fuse_data_destroy, and the parts of
-- mount and unmount that claim and release the data; whether there is memory for new data is a
-- parameter, and without it opening a device panics. Device/Table: fuse_devices_start and
-- fuse_devices_stop. RoundTrip joins the two sides. Locking: fuse_locking.c, the order in which
-- the locks of several nodes are taken; a thread that asks for a lock of its own is marked as
-- deadlocked, and the wrappers of BigLock then have no result. What the theorems on locks say of
-- a state holds as long as that mark is not set. BigLock: the macros of fuse_biglock_vnops.h,
-- which run an operation under the big lock of its mount and the locks of its nodes; in its child
-- Entries each wrapper of fuse_biglock_vnops.c. The operation is an argument there.
--
-- Node: fuse_node.c. Node/State has what the code relies on as records of operations: the
-- kernel's calls on vnodes, the tree of compat/tree.h, the allocator, and what other threads do
-- to the shared state where they may run in between. Node/Laws names the laws these obey.
-- Node/Create and Node/Get are FSNodeGetOrCreateFileVNodeByID
-- (`fs_node_get_or_create_file_vnode_by_id`), part by part, and fuse_vget_i; they run in the
-- monad of BigLock, since they drop and take the big lock.
--
-- Mount: the options of fuse_vfsop_mount, with what the kernel says of groups and mounts as a
-- parameter.
--
-- Vnode: the operations on one vnode (fuse_vnops.c, fuse_file.c, fuse_internal.h). Vnode/State is
-- `struct fuse_vnode_data` with its file handles, the flags of its mount and the session;
-- Vnode/Monad is state with panics. There, a request with its answer is the one step `ask`: what
-- fuse_dispatcher_make and fuse_dispatcher_wait_answer, which Ipc models in full, do for their
-- caller. On a live device the parameter `reply` gives the errno and the body, depending on all
-- that was asked before, and may let the device die; on a dead one nothing is sent and the answer
-- is ENOTCONN. While an operation runs nobody else changes the vnode. Vnode/Session: the
-- predicates of fuse_internal.h, fuse_blanket_deny and fuse_skip_apple_double_mp. Vnode/Round:
-- fuse_round_powerof2 and fuse_round_size. Vnode/Time: fuse_timespec_add and fuse_timespec_cmp.
-- Vnode/Attr: fuse_internal_attr_fat2vat and cache_attrs. Vnode/Files: fuse_file.c and
-- fuse_file.h. Vnode/Open: fuse_vnop_open, _close, _inactive and _reclaim, in its child Mapping
-- _mmap and _mnomap; the other children carry the account of the file handles, in History over
-- sequences of calls. Calls of the kernel that change what it keeps of the vnode are noted in
-- `calls`; that cluster_push and ubc_msync may call back into the file system is not modelled. A
-- use count has no bound here, an int32_t in the source. Vnode/Readdir: fuse_internal_readdir and
-- fuse_internal_readdir_processdata on the bytes of the daemon's answers; the layout of the
-- kernel's `struct dirent`, uiomove and the allocator are parameters. Vnode/Directory:
-- fuse_vnop_readdir, which panics without memory for its buffer. Vnode/Transfer: the read and the
-- write loop of fuse_internal_strategy; offsets and what is left are 64-bit words there, and a
-- parameter says whether size_t has 64 bits too. Vnode/Blocks: fuse_vnop_blktooff, _offtoblk and
-- _blockmap. Vnode/Setattr: fuse_vnop_setattr and fuse_internal_attr_vat2fsai; the buffer of the
-- request is a parameter, and so are the kernel's numbers of types. Vnode/Getattr:
-- fuse_vnop_getattr, fuse_internal_attr_loadvap and fuse_internal_loadxtimes. Vnode/Access:
-- fuse_vnop_access, fuse_vnop_fsync, fuse_internal_access and fuse_internal_fsync, with the bits
-- KAUTH_VNODE_* of <sys/kauth.h>.
--
-- Loops. The loop of fuse_device_read runs on fuel, one unit for each time it looks at the queue;
-- the result `none` says that the daemon still sleeps. The loop of fuse_data_destroy gets one
-- round more than there are tickets as fuel, and says whether it has ended. The merge of
-- fusefs_lockfour gets 4 rounds as fuel, one for each argument. The loop of fuse_round_powerof2
-- gets 22 rounds: from 512 so many doublings reach 2^31, which no clipped size exceeds. The loop
-- over an answer in fuse_internal_readdir_processdata gets one round more than the answer has
-- bytes, since each entry takes at least 24, and that of fuse_internal_readdir one more than
-- there is room in the reader's buffer, which each round but the last makes smaller. The loops of
-- fuse_internal_strategy get one round more than there are bytes to move, which is enough for a
-- daemon that moves some in each round. The other loops run over a list, or over the three types
-- of file handles.
--
-- What a thread does between two sleeps is one step: a sleep is the parameter `msleep`, which
-- gives the code with which the thread wakes and the state that the others have left. The C code
-- takes locks for smaller sections than that, and reads the flag `dead` outside them; such
-- interleavings are not modelled. Also left out: the counters of statistics but those of file
-- handles, nodes in devfs, wakeups, and of a request's body everything but its
-- length and the size of a read.
mod Prelude
mod Errno
pub mod Opcode
pub mod Iov
pub mod Ipc
pub mod Device
pub mod RoundTrip
pub mod Locking
pub mod BigLock
pub mod Node
pub mod Mount
pub mod Vnode
mod Tests
