-- ===== src/ServerFsync/ObjectTests.antt =====
-- The theorems on the fsync objects of server/fsync_pro10.c at concrete states.
use menano.Prelude.{ℕ, ◌≡◌, refl, subst, true, false, not, ◌&&◌, some, none, [], ◌∷◌, arith, ◌==◌}
use menano.Prelude.Words.{test_bit}
use menano.ServerFsync.Objects.{
  Server, Fsync, mutex, semaphore, created, failed, object_type_mismatch, create_fsync,
  fsync_destroy, fsync_abandon_mutexes,
}
use menano.ServerFsync.Mutexes.{contains, abandoned_slot, fsync_abandon_mutexes_slots}
use menano.ServerFsync.Lifetime.{
  IsConsistent, IsObject, create_fsync-IsConsistent, create_fsync_existing,
  fsync_destroy-IsConsistent,
}
use menano.ServerFsync.Free.{Dereferenced}
use menano.ServerFsync.Invariant.{is_free}
use menano.ServerFsync.Tests.{small, small-IsValid}

-- A server with one mutex, of index 2.
abbrev one_mutex : Server
one_mutex = record { shm = small; mutex_list = 2 ∷ [] }

abbrev the_mutex : Fsync
the_mutex = record { shm_idx = 2; type = mutex }

one_mutex-listed : (k : ℕ) → contains (2 ∷ []) k ≡ true → is_free small k ≡ false
unfolding test_bit
one_mutex-listed k h =
    let e : 2 ≡ k = ground arith in subst (λ (j : ℕ). is_free small j ≡ false) e refl

one_mutex-IsConsistent : IsConsistent one_mutex
one_mutex-IsConsistent = record {
  allocator = small-IsValid;
  listed = one_mutex-listed;
  distinct = (refl, tt);
}

the_mutex-IsObject : IsObject one_mutex the_mutex
unfolding test_bit
the_mutex-IsObject = record {
  nonzero = omega arith;
  inside = omega arith;
  used = refl;
  on_list = refl;
}

create_fsync-IsConsistent_example :
    let r = create_fsync 9 true none 0 4 semaphore one_mutex in
    (o : Fsync) × (r.0 ≡ created o)
    × (o.type ≡ semaphore)
    × (r.1.shm.slots o.shm_idx ≡ record { low = 0; high = 4; ref = 1; last_pid = 0 })
    × IsObject r.1 o
    × IsConsistent r.1
create_fsync-IsConsistent_example =
    create_fsync-IsConsistent one_mutex one_mutex-IsConsistent 9 0 4 semaphore refl (omega arith)
      (omega arith)

create_fsync_existing_example :
    create_fsync 9 true (some the_mutex) 0 4 semaphore one_mutex
    ≡ (failed object_type_mismatch, one_mutex)
create_fsync_existing_example = create_fsync_existing 9 0 4 true the_mutex semaphore one_mutex

fsync_destroy-IsConsistent_test :
    (s' : Server) × (fsync_destroy the_mutex one_mutex ≡ some s')
    × ((k : ℕ) → contains s'.mutex_list k ≡ (contains (2 ∷ []) k && not (2 == k)))
    × Dereferenced small 2 s'.shm
    × IsConsistent s'
fsync_destroy-IsConsistent_test =
    fsync_destroy-IsConsistent one_mutex one_mutex-IsConsistent the_mutex the_mutex-IsObject

fsync_abandon_mutexes_slots_example :
    let s' = fsync_abandon_mutexes 0 one_mutex in
    (s'.shm.slots 2 ≡ abandoned_slot (small.slots 2))
    × (s'.shm.free_map ≡ small.free_map)
    × (s'.mutex_list ≡ 2 ∷ [])
fsync_abandon_mutexes_slots_example = fsync_abandon_mutexes_slots 0 one_mutex 2 (omega arith)
