-- ===== src/Lib.antt =====
-- Synchronisation objects and shared memory of a Wine build for Android.
--
-- The repository holds files that replace files of Wine, and one library of its own. What is modelled
-- is how threads of several processes synchronise, without asking the Wine server each time in the ways
-- that the files offer and by waiting in the server, the System V shared memory that runs on a server of
-- memory files, and the buffer between a client and PulseAudio.
--
-- Fsync keeps each object in four ints of a memory section that the server and every process map: two
-- for the object's state, a reference count, and the process that waits or created it. The server
-- hands out the index of a slot when it makes an object, and frees it with the last reference; a
-- process finds the index of a handle in a table of its own, or asks the server; then it changes the
-- ints by atomic operations and waits on them by futexes.
--   ServerFsync       server/fsync_pro10.c. Defs: shm_idx_free_map, the search hint and the size of the
--                     section as the record Shm, with fsync_alloc_shm, fsync_free_shm_idx and
--                     fsync_cleanup_process_shm_indices. Objects: struct fsync and mutex_list, with
--                     create_fsync, fsync_destroy, the events and fsync_abandon_mutexes.
--   NtdllFsync        dlls/ntdll/unix/fsync_pro10.c. Cache: fsync_list with add_to_list, the load of
--                     get_cached_object, and fsync_close. Defs: references, semaphores, events and
--                     mutexes over the server's section, so that the last reference that is put back
--                     reaches the server's fsync_free_shm_idx. Wait and WaitAll:
--                     __fsync_wait_objects for any and for all objects.
-- Esync gives each object an eventfd, and two ints of shared memory that mirror it.
--   Esync             server/esync_pro10.c and dlls/ntdll/unix/esync_pro10.c. Defs: one object, the
--                     server's calls on it and those of a process, with what a wait does to one object.
--                     WaitAll: __esync_wait_objects for all objects. Agreement: what the eventfd and the
--                     shared memory have to do with each other.
-- In-process synchronisation offers the server one interface over fsync, a userspace library and the
-- kernel's driver.
--   ServerInproc      server/inproc_sync_pro11.c. Device: get_inproc_device_fd, which decides what is
--                     used. Syncs: struct inproc_sync and inproc_mutexes, with the four creations,
--                     signal_inproc_sync, reset_inproc_sync, inproc_sync_destroy,
--                     abandon_inproc_mutexes and the request get_inproc_sync_fd. Lifetime: from the
--                     creation of a sync to its end. The library and the driver are the parameter
--                     Provider, and the functions of fsync.h, whose file of this version the repository
--                     does not have, FsyncCalls.
-- Threads wait in the server for what is not synchronised otherwise.
--   ServerThread      server/thread_pro11.c. Defs: a thread with its stack of waits, and the wait queues
--                     of the objects. Waits: wait_on, check_wait and end_wait. Wakeups: wake_thread and
--                     what else ends a wait, kill_thread, suspend_thread and resume_thread. Queues:
--                     wake_up over the threads of a queue, on fuel, one for each wait. Select:
--                     select_on. Apcs: the two APC queues with queue_apc. Inflight: the descriptors in
--                     flight. Links tells which entry stands in which queue, Keeps is the rule by which
--                     an operation keeps what its steps keep, Reach has any sequence of steps. The
--                     methods of the objects' syncs, which other files of the server define, are the
--                     parameter SyncOps; signal_object is an argument of select_on.
-- System V shared memory.
--   Sysvshm           path/android_sysvshm.c. Defs: the table shmemories with shmget, shmat, shmdt and
--                     shmctl. Lookup: the table as a map from ids to segments. Lifecycle:
--                     any sequence of calls.
-- Sound.
--   Pulse             dlls/winepulse.drv/11_17pulse.c. Defs: the ring of a render stream as the record
--                     Stream, with pulse_get_render_buffer, pulse_release_render_buffer, pulse_write
--                     and the periods of pulse_timer_loop; each memset, copy and write is listed with
--                     its buffer's size. Bounds, Lent, Lends and Stays: the bounds; Aligned and Agrees:
--                     the two ends of the data. Capture and Packets: the packets of a capture stream,
--                     with pulse_get_capture_buffer and the lists of pulse_read. What libpulse and the
--                     allocator answer are arguments.
-- Prelude has C's comparisons and conditional, lists over native numbers, and the bits of a 64-bit word.
--
-- State is passed explicitly. A failed assert, a spinlock that nobody will release, and fuel that ran
-- out are `none`. Numbers are those of C with their wrap-around written out (`% 2 ^ 32`); pointers into
-- shared memory are indices. Uninitialised memory, results of allocations, replies of the server and of
-- the kernel, and what other threads do between two atomic operations are arguments. An eventfd is what
-- Linux documents: a counter that a read takes as a whole, or one of it.
--
-- Bounds and fuel: the map of free indices may grow to 2 ^ 21 words, so that an index fits into 32 bits.
-- The search of the map and the growth of a section have a theorem that their fuel is enough. A
-- compare-and-swap loop, and the loops of the waits, run on fuel since other threads may keep them going
-- for ever; that they end without disturbance is proved.
--
-- Not modelled: opening and mapping the sections, sockets, the object manager behind the request
-- handlers, tracing, and sleeps that only yield. In esync, the loop around the checks of a wait for any
-- object. Of the threads, priorities, affinity, contexts and the creation of threads; of kill_thread,
-- what it calls in other files is one step on the objects' states. Objects whose methods act on the wait
-- of another thread, such as keyed events, are outside of SyncOps. Of a stream, the bytes themselves, the
-- clock and what pulse_read peeks; a call that gives up the lock while it waits for PulseAudio is one step. The other
-- files of the repository, which are not about these objects or only pack requests.
pub mod Prelude
pub mod ServerFsync
pub mod NtdllFsync
pub mod ServerInproc
pub mod ServerThread
pub mod Sysvshm
pub mod Esync
pub mod Pulse
