-- ===== src/NtdllFsync/Abandoned.antt =====
-- __fsync_wait_objects of dlls/ntdll/unix/fsync_pro10.c: a wait for all objects and an abandoned mutex.
