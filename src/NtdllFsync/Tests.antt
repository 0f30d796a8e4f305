-- ===== src/NtdllFsync/Tests.antt =====
-- The theorems on dlls/ntdll/unix/fsync_pro10.c at concrete states, and runs of the code.
use menano.Prelude.{
  ℕ, ◌-◌, ◌^◌, ◌<◌, ◌≡◌, refl, ◌≢◌, inl, inr, true, false, none, some, [], ◌∷◌, arith,
  if◌then◌else◌, ◌==◌, Bool-cases,
}
use menano.ServerFsync.Defs.{Slot, Shm}
use menano.ServerFsync.Objects.{FsyncType, semaphore, auto_event, manual_event, mutex}
use menano.NtdllFsync.Cache.{
  IsHandle, handle_to_index, load, add_to_list, fsync_close, empty_entry, read, load-add_to_list,
  load-fsync_close,
}
use menano.NtdllFsync.Defs.{
  Client, Object, Status, success, semaphore_limit_exceeded, user_apc, refused, with_slot, with_low,
  wake, get_object, fsync_set_event, fsync_reset_event, fsync_release_mutex,
  fsync_release_semaphore,
}
use menano.NtdllFsync.Defs.{object, index, with_ref}
use menano.NtdllFsync.Learns.{learnt, get_object-get_object}
use menano.NtdllFsync.References.{IsCached}
use menano.NtdllFsync.Operations.{
  fsync_set_event_lem, fsync_reset_event_lem, fsync_release_mutex_lem, fsync_release_semaphore_lem,
  fsync_release_semaphore_wraps,
}
use menano.NtdllFsync.Wait.{
  Caller, World, woken, immediate, infinite, wait_any, leave, try_object, put_objects,
}
use menano.NtdllFsync.Grab.{Sound, try_object-Sound}
use menano.NtdllFsync.WaitAny.{Meaning, wait_any-Meaning}
use menano.NtdllFsync.Progress.{Answer, wait_any_immediate}
use menano.NtdllFsync.PutBack.{Held, Returned, occurrences, put_objects-Returned}

abbrev filled : ℕ → Slot
filled _ = record { low = 1; high = 2; ref = 1; last_pid = 0 }

abbrev memory : Shm
memory = record {
  is_fsync_initialized = true;
  free_map = 0 ∷ [];
  hint = 0;
  shm_size = 4096;
  slots = filled;
}

-- An object at the index 3.
abbrev third : FsyncType → Object
third t = record { type = t; shm_idx = 3 }

-- Every handle of the first block names it.
abbrev client : FsyncType → Client
client t = record {
  shm = memory;
  cache = λ b. if 0 == b then some (λ _. record { type = some t; shm_idx = 3 }) else none;
  woken = [];
}

client-IsCached : (t : FsyncType) → IsCached (client t) 4 (third t)
unfolding load read handle_to_index
client-IsCached t = record {
  known = refl;
  nonzero = omega arith;
  referenced = omega arith;
  countable = omega arith;
}

fourth-IsHandle : IsHandle 4
fourth-IsHandle = (refl, omega arith, omega arith)

eighth-IsHandle : IsHandle 8
eighth-IsHandle = (refl, omega arith, omega arith)

load-add_to_list_test :
    load 8 (add_to_list true 4 semaphore 9 (client mutex).cache)
    ≡ record { type = some mutex; shm_idx = 3 }
unfolding load read handle_to_index
load-add_to_list_test =
    load-add_to_list 4 8 semaphore 9 (client mutex).cache fourth-IsHandle eighth-IsHandle

load-fsync_close_test : load 4 (fsync_close 4 (client mutex).cache).1 ≡ empty_entry
load-fsync_close_test = load-fsync_close 4 4 (client mutex).cache fourth-IsHandle fourth-IsHandle

fsync_set_event_lem_test :
    fsync_set_event (get_object 1 true (refused 0) 4) (client auto_event)
    ≡ some ((success, some 1), with_low (client auto_event) 3 1)
fsync_set_event_lem_test =
    fsync_set_event_lem (client auto_event) 4 (third auto_event) (client-IsCached auto_event) 0 true
      (refused 0)

fsync_reset_event_lem_test :
    fsync_reset_event (get_object 1 true (refused 0) 4) (client manual_event)
    ≡ some ((success, some 1), with_low (client manual_event) 3 0)
fsync_reset_event_lem_test =
    fsync_reset_event_lem (client manual_event) 4 (third manual_event)
      (client-IsCached manual_event) 0 true (refused 0)

-- The thread 1 owns the mutex twice.
fsync_release_mutex_lem_example :
    fsync_release_mutex (get_object 1 true (refused 0) 4) 1 (client mutex)
    ≡ some (
      (success, some 2),
      with_slot (client mutex) 3 (record { low = 1; high = 1; ref = 1; last_pid = 0 }),
    )
fsync_release_mutex_lem_example =
    fsync_release_mutex_lem (client mutex) 4 (third mutex) (client-IsCached mutex) 0 true
      (refused 0) 1 (omega arith) (omega arith)

-- A count of 1 of at most 2 semaphores: one more can be released, two can not.
fsync_release_semaphore_lem_test :
    fsync_release_semaphore (get_object 1 true (refused 0) 4) [] 2 (client semaphore)
    ≡ some ((semaphore_limit_exceeded, none), client semaphore)
fsync_release_semaphore_lem_test =
    fsync_release_semaphore_lem (client semaphore) 4 (third semaphore) (client-IsCached semaphore) 0
      true (refused 0) 2

fsync_release_semaphore_wraps_example :
    (less : ℕ) × (less < 1)
    × (fsync_release_semaphore (get_object 1 true (refused 0) 4) [] (2 ^ 32 - 1) (client semaphore)
        ≡ some ((success, some 1), wake (with_low (client semaphore) 3 less) 3))
fsync_release_semaphore_wraps_example =
    fsync_release_semaphore_wraps (client semaphore) 4 (third semaphore) (client-IsCached semaphore)
      0 true (refused 0) (2 ^ 32 - 1) (omega arith) (omega arith) (omega arith) (omega arith)

-- Another thread takes one between the load and the swap of the first round.
abbrev taker : (ℕ → Slot) → ℕ → Slot
taker f j = record (f j) { low = 0 }

abbrev caller : Caller
caller = record {
  current_tid = 5;
  current_pid = 7;
  apc_futex = 9;
  yield_to_waiters = true;
  others = λ _ f. f;
  kernel = λ _ _. woken;
  server_wait = user_apc;
}

-- Two references to the index 3, so that a wait can give one back.
abbrev waiting : FsyncType → World
waiting t = record {
  client = with_slot (client t) 3 (record { low = 1; high = 2; ref = 2; last_pid = 7 });
  time = 0;
}

caller_tid : caller.current_tid ≢ 0
caller_tid = omega arith

try_object-Sound_example :
    Sound caller
      (third semaphore)
      (waiting semaphore)
      (try_object caller 2 false (third semaphore) (waiting semaphore))
try_object-Sound_example =
    try_object-Sound caller (third semaphore) 2 false (waiting semaphore) caller_tid

wait_any-Meaning_example :
    Meaning caller
      (some (third auto_event) ∷ [])
      (waiting auto_event)
      (wait_any caller 3 false infinite false (some (third auto_event) ∷ []) (waiting auto_event))
wait_any-Meaning_example =
    wait_any-Meaning caller 3 false infinite false (some (third auto_event) ∷ [])
      (waiting auto_event) caller_tid refl

wait_any_immediate_example :
    (status : Status) × (v : World) × (wait_any caller 2 false immediate false
        (some (third mutex) ∷ some (third semaphore) ∷ [])
        (waiting mutex)
      ≡ leave caller (some (third mutex) ∷ some (third semaphore) ∷ []) status v)
    × Answer caller
        (λ _ _. refl)
        (some (third mutex) ∷ some (third semaphore) ∷ [])
        (waiting mutex)
        status
wait_any_immediate_example =
    wait_any_immediate caller (λ _ _. refl) 0 false false
      (some (third mutex) ∷ some (third semaphore) ∷ []) (waiting mutex) refl

waiting-Held : Held (some (third mutex) ∷ []) (waiting mutex).client
waiting-Held j n = elim (Bool-cases (3 == j)) [
  | inl hit ↦ rw (hit, occurrences) (omega arith, omega arith)
  | inr miss ↦ rw (miss, occurrences) (omega arith, omega arith)
]

put_objects-Returned_test :
    (w' : World) × (put_objects caller (some (third mutex) ∷ []) (waiting mutex) ≡ some (tt, w'))
    × Returned (λ j. occurrences j (some (third mutex) ∷ [])) (waiting mutex).client w'.client
    × (w'.time ≡ 0)
put_objects-Returned_test =
    put_objects-Returned caller (some (third mutex) ∷ []) (waiting mutex) waiting-Held

-- A process that has not seen the handle 4.
abbrev newcomer : Client
newcomer = record { shm = memory; cache = λ _. none; woken = [] }

newcomer_unknown : load 4 newcomer.cache ≡ empty_entry
unfolding load read handle_to_index
newcomer_unknown = refl

get_object-get_object_test :
    (get_object 1 true (index mutex 3) 4 newcomer
      ≡ some (
        object (third mutex),
        learnt 4 3 0 mutex newcomer fourth-IsHandle newcomer_unknown (omega arith) (omega arith),
      ))
    × (get_object 1 true
          (refused 0)
          4
          (learnt 4 3 0 mutex newcomer fourth-IsHandle newcomer_unknown (omega arith) (omega arith))
        ≡ some (
          object (third mutex),
          with_ref
              (learnt 4 3 0 mutex newcomer fourth-IsHandle newcomer_unknown
                (omega arith)
                (omega arith))
              3
              3,
        ))
get_object-get_object_test =
    get_object-get_object 4 3 0 mutex newcomer fourth-IsHandle newcomer_unknown (omega arith)
      (omega arith) true (refused 0)
