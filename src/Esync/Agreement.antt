-- ===== src/Esync/Agreement.antt =====
-- server/esync_pro10.c and dlls/ntdll/unix/esync_pro10.c: the eventfd of an object and its shared
-- memory tell the same, over calls of the server and of processes in any order.
use menano.Prelude.{ℕ, ◌-◌, ◌^◌, ◌≤◌, ◌<◌, ◌≡◌, ◌≢◌, ◌⊎◌, Bool, true, Option, none, some}
use menano.ServerFsync.Objects.{abandoned_tid}
use menano.Esync.Defs.{
  EsyncType, semaphore, auto_event, manual_event, mutex, Esync, Status, is_event, server_set_event,
  server_reset_event, abandon, esync_set_event, esync_reset_event, esync_pulse_event,
  esync_release_semaphore, esync_release_mutex, check_now, check_polled, Taken,
}

-- A thread that has the mutex, or nobody, or a thread that died.
abbrev pub Owned : ℕ → ℕ → ℕ → Type 0
Owned counter tid count =
    (0 < count) × (count < 2 ^ 32) × (counter ≡ 0) × (tid ≢ 0) × (tid ≢ abandoned_tid)

abbrev pub Free : ℕ → ℕ → ℕ → Type 0
Free counter tid count = (count ≡ 0) × (counter ≡ 1) × ((tid ≡ 0) ⊎ (tid ≡ abandoned_tid))

-- What the counter of an object's eventfd has to do with its two ints.
abbrev pub Agreement : EsyncType → ℕ → ℕ → ℕ → Type 0
Agreement semaphore counter max count = (counter ≡ count) × (count ≤ max) × (max < 2 ^ 31)
Agreement mutex counter tid count = Free counter tid count ⊎ Owned counter tid count
Agreement manual_event counter signaled locked =
    (locked ≡ 0) × (counter ≡ signaled) × (signaled < 2)
Agreement auto_event counter signaled locked =
    (counter < 2 ^ 64 - 1) × (((signaled ≡ 0) × (counter ≡ 0)) ⊎ ((signaled ≡ 1) × (0 < counter)))
Agreement _ counter first second = counter < 2 ^ 64 - 1

abbrev pub Agrees : Esync → Type 0
Agrees o = Agreement o.type o.counter o.first o.second

-- A call on an object: what the processes and the server have, but for a wait for all objects, which
-- takes and puts back several in between.
pub data Call : Type 0 where
  set_event reset_event pulse_event server_set server_reset : Call
  release_semaphore release_mutex thread_died wait_checks : ℕ → Call
  wait_polls : ℕ → Bool → Call

abbrev pub or_same : Esync → Option (Taken × Esync) → Option Esync
or_same o none = some o
or_same o (some (_, o')) = some o'

abbrev pub drop_status : Option (Status × Esync) → Option Esync
drop_status none = none
drop_status (some (_, o)) = some o

unfoldable pub run : Call → Esync → Option Esync
run set_event o = drop_status (esync_set_event o)
run reset_event o = drop_status (esync_reset_event o)
run pulse_event o = some (esync_pulse_event o).1
run server_set o = server_set_event o
run server_reset o = server_reset_event o
run (release_semaphore count) o = some (esync_release_semaphore count o).1
run (release_mutex tid) o = some (esync_release_mutex tid o).1
run (thread_died tid) o = some (abandon tid o)
run (wait_checks tid) o = or_same o (check_now tid o)
run (wait_polls tid readable) o = or_same o (check_polled tid readable o)

abbrev pub IsThread : ℕ → Type 0
IsThread tid = (tid ≢ 0) × (tid ≢ abandoned_tid)

-- What the callers see to: an event is pulsed when it is not signaled only, the server sets its own events only, a handle is of the kind that the call
-- is for, no thread acquires a mutex 2 ^ 32 - 1 times, and the 32-bit sum of a release does not wrap.
abbrev pub Allowed : Call → Esync → Type 0
Allowed set_event o = Unit {0}
Allowed reset_event o = Unit {0}
Allowed pulse_event o = is_event o.type ≡ true → o.first ≡ 0
Allowed server_set o = is_event o.type ≡ true
Allowed server_reset o = is_event o.type ≡ true
Allowed (release_semaphore count) o = (o.type ≡ semaphore) × (count < 2 ^ 31)
Allowed (release_mutex tid) o = (o.type ≡ mutex) × IsThread tid
Allowed (thread_died tid) o = (o.type ≡ mutex) × IsThread tid
Allowed (wait_checks tid) o = IsThread tid × (o.second < 2 ^ 32 - 1)
Allowed (wait_polls tid readable) o = IsThread tid × (o.second < 2 ^ 32 - 1)

-- The call returns, and what it leaves agrees.
abbrev pub Keeps : Call → Esync → Type 0
Keeps c o = (o' : Esync) × (run c o ≡ some o') × (o'.type ≡ o.type) × Agrees o'

abbrev pub of : EsyncType → ℕ → ℕ → ℕ → Esync
of t c f s = record { type = t; counter = c; first = f; second = s }
