-- ===== src/Esync/Defs.antt =====
-- server/esync_pro10.c and dlls/ntdll/unix/esync_pro10.c: one object, its eventfd and its two ints of
-- shared memory, which the server and the processes change. The eventfd is what Linux documents: a
-- counter below 2^64 - 1, which a read takes as a whole or one of it, and which no descriptor here
-- blocks on. A call runs with no other thread between its steps, so that a spinlock that is held is
-- never released: `none`.
use menano.Prelude.{
  ℕ, zero, suc, ◌+◌, ◌-◌, ◌*◌, ◌%◌, ◌^◌, Bool, true, false, not, ◌||◌, Option, none, some, ltb, leb,
  ◌==◌, if◌then◌else◌,
}
use menano.ServerFsync.Objects.{abandoned_tid}

pub data EsyncType : Type 0 where
  semaphore auto_event manual_event mutex auto_server manual_server queue : EsyncType

-- `first` is a semaphore's maximum, a mutex's tid or an event's signaled; `second` is the count, the
-- recursion count or locked.
pub record Esync : Type 0 where
  pub type : EsyncType
  pub counter : ℕ
  pub first : ℕ
  pub second : ℕ

pub data Status : Type 0 where
  success semaphore_limit_exceeded object_type_mismatch mutant_not_owned write_failed : Status

abbrev pub is_semaphore : EsyncType → Bool
is_semaphore semaphore = true
is_semaphore _ = false

abbrev pub is_event : EsyncType → Bool
is_event auto_event = true
is_event manual_event = true
is_event _ = false

abbrev pub is_auto : EsyncType → Bool
is_auto auto_event = true
is_auto _ = false

abbrev pub is_manual : EsyncType → Bool
is_manual manual_event = true
is_manual _ = false

-- EFD_SEMAPHORE takes one; `none` is EAGAIN.
unfoldable pub read_fd : Esync → Option Esync
read_fd o =
    if o.counter == 0
    then none
    else some (record o { counter = if is_semaphore o.type then o.counter - 1 else 0 })

-- A read whose result nobody looks at.
abbrev pub drain : Esync → Esync
drain o = elim (read_fd o) [ none ↦ o | some o' ↦ o' ]

-- EFD_NONBLOCK: `none` is EAGAIN.
unfoldable pub write_fd : ℕ → Esync → Option Esync
write_fd value o =
    if ltb (2 ^ 64 - 2) (o.counter + value)
    then none
    else some (record o { counter = o.counter + value })

-- A write whose failure is only reported.
abbrev pub post : Esync → Esync
post o = elim (write_fd 1 o) [ none ↦ o | some o' ↦ o' ]

-- The spinlock of a manual-reset event.
unfoldable pub lock : Esync → Option Esync
lock o =
    if not (is_manual o.type)
    then some o
    else if o.second == 0
    then some (record o { second = 1 })
    else none

unfoldable pub unlock : Esync → Esync
unlock o = if is_manual o.type then record o { second = 0 } else o

-- create_esync of the server: the index of the new object, which follows from its descriptor, and the
-- size of the shared memory once it holds that index.
unfoldable pub grow : ℕ → ℕ → ℕ → ℕ → Option ℕ
grow pagesize shm_idx zero shm_size = none
grow pagesize shm_idx (suc fuel) shm_size =
    let rest = grow pagesize shm_idx fuel (shm_size + pagesize) in
    if leb shm_size (shm_idx * 8) then rest else some shm_size

abbrev pub shm_index : ℕ → ℕ
shm_index fd = fd + 1

-- The type and values of a new object; `current` is the thread that creates it. A type of the server's
-- own fails an assert.
unfoldable pub create_esync : ℕ → EsyncType → ℕ → ℕ → Option Esync
create_esync current semaphore initval max =
    some (record { type = semaphore; counter = initval; first = max; second = initval })
create_esync current mutex initval max = some (record {
  type = mutex;
  counter = initval;
  first = if initval == 0 then current else 0;
  second = if initval == 0 then 1 else 0;
})
create_esync current auto_event initval max = some (record {
  type = auto_event;
  counter = initval;
  first = if initval == 0 then 0 else 1;
  second = 0;
})
create_esync current manual_event initval max = some (record {
  type = manual_event;
  counter = initval;
  first = if initval == 0 then 0 else 1;
  second = 0;
})
create_esync current t initval max = none

unfoldable pub type_matches : EsyncType → EsyncType → Bool
type_matches semaphore semaphore = true
type_matches mutex mutex = true
type_matches auto_event auto_event = true
type_matches auto_event manual_event = true
type_matches manual_event auto_event = true
type_matches manual_event manual_event = true
type_matches auto_server auto_server = true
type_matches manual_server manual_server = true
type_matches queue queue = true
type_matches _ _ = false

-- `always`: whether the write or the read is made whatever the state was, which the processes do for
-- auto-reset events and the server never does.
unfoldable pub signal : Bool → Esync → Esync
signal always o = let o' = record o { first = 1 } in if o.first == 0 || always then post o' else o'

unfoldable pub unsignal : Bool → Esync → Esync
unsignal always o =
    let o' = record o { first = 0 } in if not (o.first == 0) || always then drain o' else o'

-- esync_set_event and esync_reset_event of the server.
unfoldable pub server_set_event : Esync → Option Esync
server_set_event o = elim (lock o) [ none ↦ none | some o' ↦ some (unlock (signal false o')) ]

unfoldable pub server_reset_event : Esync → Option Esync
server_reset_event o = elim (lock o) [ none ↦ none | some o' ↦ some (unlock (unsignal false o')) ]

-- The loop body of esync_abandon_mutexes, for a mutex of the list.
unfoldable pub abandon : ℕ → Esync → Esync
abandon id o = if o.first == id then post (record o { first = abandoned_tid; second = 0 }) else o

-- The calls of a process.
unfoldable pub esync_set_event : Esync → Option (Status × Esync)
esync_set_event o =
    if not (is_event o.type) then some (object_type_mismatch, o) else elim (lock o) [
      | none ↦ none
      | some o' ↦ some (success, unlock (signal (is_auto o.type) o'))
    ]

unfoldable pub esync_reset_event : Esync → Option (Status × Esync)
esync_reset_event o =
    if not (is_event o.type) then some (object_type_mismatch, o) else elim (lock o) [
      | none ↦ none
      | some o' ↦ some (success, unlock (unsignal (is_auto o.type) o'))
    ]

unfoldable pub esync_pulse_event : Esync → Status × Esync
esync_pulse_event o =
    if not (is_event o.type)
    then (object_type_mismatch, o)
    else elim (write_fd 1 o) [ none ↦ (write_failed, o) | some o' ↦ (success, drain o') ]

-- Whether a poll finds the event's descriptor readable.
unfoldable pub esync_query_event : Esync → Bool
esync_query_event o = not (o.counter == 0)

unfoldable pub esync_release_semaphore : ℕ → Esync → Status × Esync
esync_release_semaphore count o =
    let sum = (count + o.second) % 2 ^ 32 in
    let o' = record o { second = sum } in
    if ltb o.first sum
    then (semaphore_limit_exceeded, o)
    else elim (write_fd count o') [ none ↦ (write_failed, o') | some o2 ↦ (success, o2) ]

unfoldable pub esync_release_mutex : ℕ → Esync → Status × Esync
esync_release_mutex current_tid o =
    let count = (o.second + 2 ^ 32 - 1) % 2 ^ 32 in
    let o' = record o { first = 0; second = count } in
    if not (o.first == current_tid)
    then (mutant_not_owned, o)
    else if count == 0
    then elim (write_fd 1 o') [ none ↦ (write_failed, o') | some o2 ↦ (success, o2) ]
    else (success, record o { second = count })

-- `1 - count` as a 32-bit pattern, whether the caller owns the mutex, and whether it is abandoned.
unfoldable pub esync_query_mutex : ℕ → Esync → ℕ × Bool × Bool
esync_query_mutex current_tid o =
    ((2 ^ 32 + 1 - o.second) % 2 ^ 32, o.first == current_tid, o.first == abandoned_tid)

unfoldable pub esync_query_semaphore : Esync → ℕ × ℕ
esync_query_semaphore o = (o.second, o.first)

-- What a thread gets of an object.
pub data Taken : Type 0 where
  taken taken_abandoned : Taken

-- The first check of a wait, which looks at the shared memory before it reads the descriptor. `none` is
-- an object to poll.
unfoldable pub check_now : ℕ → Esync → Option (Taken × Esync)
check_now current_tid o = elim o.type [
  | mutex ↦
      if o.first == current_tid
      then some (taken, record o { second = (o.second + 1) % 2 ^ 32 })
      else if not (o.second == 0)
      then none
      else elim (read_fd o) [
        | none ↦ none
        | some o' ↦ some (
          if o.first == abandoned_tid then taken_abandoned else taken,
          record o' { first = current_tid; second = (o.second + 1) % 2 ^ 32 },
        )
      ]
  | semaphore ↦ if o.second == 0 then none else elim (read_fd o) [
    | none ↦ none
    | some o' ↦ some (taken, record o' { second = (o.second + 2 ^ 32 - 1) % 2 ^ 32 })
  ]
  | auto_event ↦
      if o.first == 0
      then none
      else elim (read_fd o) [ none ↦ none | some o' ↦ some (taken, record o' { first = 0 }) ]
  | manual_event ↦ if o.first == 0 then none else some (taken, o)
  | _ ↦ none
]

-- What a wait writes down of an object whose descriptor it has read.
unfoldable pub update_grabbed_object : ℕ → Esync → Taken × Esync
update_grabbed_object current_tid o = elim o.type [
  | mutex ↦ (
    if o.first == abandoned_tid then taken_abandoned else taken,
    record o { first = current_tid; second = (o.second + 1) % 2 ^ 32 },
  )
  | semaphore ↦ (taken, record o { second = (o.second + 2 ^ 32 - 1) % 2 ^ 32 })
  | auto_event ↦ (taken, record o { first = 0 })
  | _ ↦ (taken, o)
]

-- An object that a wait only looks at.
abbrev pub only_looks : EsyncType → Bool
only_looks manual_event = true
only_looks manual_server = true
only_looks queue = true
only_looks _ = false

-- The object in the pass after a poll, where `readable` is its POLLIN.
unfoldable pub check_polled : ℕ → Bool → Esync → Option (Taken × Esync)
check_polled current_tid readable o =
    if only_looks o.type
    then (if readable then some (taken, o) else none)
    else elim (read_fd o) [ none ↦ none | some o' ↦ some (update_grabbed_object current_tid o') ]
