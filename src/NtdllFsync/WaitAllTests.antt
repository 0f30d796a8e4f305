-- ===== src/NtdllFsync/WaitAllTests.antt =====
-- The theorems on waits for all objects, dlls/ntdll/unix/fsync_pro10.c, at concrete states.
use menano.Prelude.{
  ◌≡◌, refl, ◌≢◌, inl, inr, true, false, none, some, [], ◌∷◌, List, Option, arith, if◌then◌else◌,
  ◌==◌, Bool-cases,
}
use menano.ServerFsync.Defs.{Slot}
use menano.ServerFsync.Objects.{auto_event, semaphore, mutex}
use menano.NtdllFsync.Defs.{Object, success, user_apc, mutant_not_owned, release_mutex}
use menano.NtdllFsync.Wait.{Caller, World, woken, at}
use menano.NtdllFsync.PutBack.{Held, occurrences}
use menano.NtdllFsync.WaitAll.{Kernel, slept, wait_all, grab_all, too_slow, put_back}
use menano.NtdllFsync.PutsBack.{put_back_loses_mutex}
use menano.NtdllFsync.WaitAll.{expired}
use menano.ServerFsync.Objects.{abandoned_tid}
use menano.NtdllFsync.Completes.{wait_all_succeeds}

abbrev shared : Slot
shared = record { low = 1; high = 2; ref = 2; last_pid = 7 }

abbrev world : World
world = record {
  client = record {
    shm = record {
      is_fsync_initialized = true;
      free_map = 0 ∷ [];
      hint = 0;
      shm_size = 4096;
      slots = λ _. shared;
    };
    cache = λ _. none;
    woken = [];
  };
  time = 0;
}

-- The thread 1, with nobody else at work.
abbrev quiet_caller : Caller
quiet_caller = record {
  current_tid = 1;
  current_pid = 7;
  apc_futex = 9;
  yield_to_waiters = false;
  others = λ _ f. f;
  kernel = λ _ _. woken;
  server_wait = user_apc;
}

abbrev sleeps : Kernel
sleeps _ _ = slept

abbrev event_3 : Object
event_3 = record { type = auto_event; shm_idx = 3 }

abbrev semaphore_4 : Object
semaphore_4 = record { type = semaphore; shm_idx = 4 }

abbrev both : List (Option Object)
both = some event_3 ∷ some semaphore_4 ∷ []

both-Held : Held both world.client
both-Held j n = elim (Bool-cases (3 == j)) [
  | inr miss ↦ elim (Bool-cases (4 == j)) [
    | inl hit ↦ rw (miss, hit, occurrences) (omega arith, omega arith)
    | inr other ↦ rw (miss, other, occurrences) (omega arith, omega arith)
  ]
  | inl hit ↦
      let differs : (4 == j) ≡ false = ground (arith, hit) in
      rw (hit, differs, occurrences) (omega arith, omega arith)
]

tid_nonzero : quiet_caller.current_tid ≢ 0
tid_nonzero = omega arith

wait_all_succeeds_example :
    (w' : World) × (wait_all quiet_caller sleeps 2 false both world ≡ some (success, w'))
wait_all_succeeds_example =
    wait_all_succeeds quiet_caller (λ _ _. refl) tid_nonzero sleeps false 0 both world
      (refl, refl, (refl, refl, tt)) both-Held

-- Another thread takes the event 4 before each step of the thread 1, which owns the mutex 3.
abbrev thief : Caller
thief = record quiet_caller { others = λ _ f j. if j == 4 then record (f j) { low = 0 } else f j }

abbrev mutex_3 : Object
mutex_3 = record { type = mutex; shm_idx = 3 }

abbrev event_4 : Object
event_4 = record { type = auto_event; shm_idx = 4 }

put_back_loses_mutex_example :
    (w' : World) × (grab_all thief 1 false [] (some mutex_3 ∷ some event_4 ∷ []) world
      ≡ some (too_slow (mutex_3 ∷ []), w'))
    × ((at (put_back thief (mutex_3 ∷ []) w') 3).low ≡ 0)
    × (release_mutex 1 mutex_3 (put_back thief (mutex_3 ∷ []) w').client
        ≡ some ((mutant_not_owned, none), (put_back thief (mutex_3 ∷ []) w').client))
put_back_loses_mutex_example =
    put_back_loses_mutex thief 3 4 1 world tid_nonzero (λ n f e. e) refl refl

-- The owner of the mutex 3 has died.
abbrev after_death : World
after_death = record world {
  client = record (world.client) {
    shm = record (world.client.shm) {
      slots = λ _. record shared { low = abandoned_tid; high = 0 };
    };
  };
}

abbrev runs_out : Kernel
runs_out _ _ = expired
