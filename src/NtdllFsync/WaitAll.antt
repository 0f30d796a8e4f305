-- ===== src/NtdllFsync/WaitAll.antt =====
-- dlls/ntdll/unix/fsync_pro10.c: waiting for all of several objects. Other threads act before each
-- atomic operation, as in the wait for any object. `single` is the kernel's answer to a wait for one
-- futex, or for one and that of APCs.
use menano.Prelude.{
  ℕ, zero, suc, ◌+◌, ◌%◌, ◌^◌, Bool, true, false, not, ◌&&◌, ◌||◌, Option, none, some, List, [],
  ◌∷◌, ◌==◌, if◌then◌else◌,
}
use menano.ServerFsync.Defs.{Slot}
use menano.ServerFsync.Objects.{FsyncType, semaphore, auto_event, mutex, auto_server, abandoned_tid}
use menano.NtdllFsync.Defs.{Object, Status, success, timeout, abandoned}
use menano.NtdllFsync.Wait.{
  World, Caller, W, at, write, tick, Tried, grabbed, grabbed_abandoned, busy, try_semaphore,
  try_auto, leave, apc_status,
}

pub data SingleResult : Type 0 where
  slept expired interrupted : SingleResult

-- How a wait for one object ends: the object is looked at next, or the whole wait ends.
pub data Single : Type 0 where
  look_on timed_out alerted : Single

abbrev pub Kernel : Type 0
Kernel = List (ℕ × ℕ) → ℕ → SingleResult

abbrev pub is_alerted : Caller → Bool → World → Bool
is_alerted r alertable w = alertable && not ((at w r.apc_futex).low == 0)

-- do_single_wait, where `again` is the loop that it stands in.
unfoldable pub do_single_wait :
    Caller
    → Kernel
    → Bool
    → ℕ
    → ℕ
    → (World → Option (Single × World))
    → World
    → Option (Single × World)
do_single_wait r single alertable idx v again w =
    let futexes : List (ℕ × ℕ) =
      if alertable then (idx, v) ∷ (r.apc_futex, 0) ∷ [] else (idx, v) ∷ [] in
    let w' = tick r w in
    if is_alerted r alertable w
    then some (alerted, w)
    else if is_alerted r alertable w'
    then some (alerted, w')
    else elim (single futexes w.time) [
      | slept ↦ some (look_on, w')
      | expired ↦ some (timed_out, w')
      | interrupted ↦ again w'
    ]

-- Whether an object, not a mutex of the thread itself, keeps the first step waiting.
abbrev pub keeps_waiting : FsyncType → ℕ → Bool
keeps_waiting mutex low = not (low == 0)
keeps_waiting _ low = low == 0

unfoldable pub wait_single : Caller → Kernel → Bool → ℕ → Object → W Single
wait_single r single alertable zero o w = none
wait_single r single alertable (suc fuel) o w =
    let w' = tick r w in
    let v = (at w' o.shm_idx).low in
    let again = λ (u : World). wait_single r single alertable fuel o u in
    elim (keeps_waiting o.type v) [
      | false ↦ some (look_on, w')
      | true ↦ do_single_wait r single alertable o.shm_idx v again w'
    ]

abbrev pub is_mutex : FsyncType → Bool
is_mutex mutex = true
is_mutex _ = false

abbrev pub own : ℕ → Object → World → Bool
own tid o w = is_mutex o.type && (at w o.shm_idx).low == tid

-- The first step: wait for each object in turn.
unfoldable pub wait_each : Caller → Kernel → Bool → ℕ → List (Option Object) → W Single
wait_each r single alertable fuel [] w = some (look_on, w)
wait_each r single alertable fuel (none ∷ objs) w = wait_each r single alertable fuel objs w
wait_each r single alertable fuel (some o ∷ objs) w = elim (own r.current_tid o w) [
  | true ↦ wait_each r single alertable fuel objs w
  | false ↦ elim (wait_single r single alertable fuel o w) [
    | none ↦ none
    | some (look_on, w') ↦ wait_each r single alertable fuel objs w'
    | some (timed_out, w') ↦ some (timed_out, w')
    | some (alerted, w') ↦ some (alerted, w')
  ]
]

-- Whether the object may still be grabbed.
abbrev pub still_signaled : ℕ → FsyncType → ℕ → Bool
still_signaled tid mutex low = low == 0 || low == abandoned_tid || low == tid
still_signaled tid _ low = not (low == 0)

-- The second step: whether every object is still signaled, each loaded in turn.
unfoldable pub check_all : Caller → List (Option Object) → World → Bool × World
check_all r [] w = (true, w)
check_all r (none ∷ objs) w = check_all r objs w
check_all r (some o ∷ objs) w =
    let w' = tick r w in
    elim (still_signaled r.current_tid o.type (at w' o.shm_idx).low) [
      | false ↦ (false, w')
      | true ↦ check_all r objs w'
    ]

-- A load of the owner, and a compare-and-swap of the owner with the thread.
unfoldable pub grab_mutex : Caller → ℕ → World → Tried × World
grab_mutex r idx w =
    let w1 = tick r w in
    let tid = (at w1 idx).low in
    let w2 = tick r w1 in
    let w3 = write w2 idx (record (at w2 idx) { low = r.current_tid }) in
    if tid == r.current_tid
    then (grabbed, w1)
    else if not (tid == 0) && not (tid == abandoned_tid)
    then (busy tid, w1)
    else if not ((at w2 idx).low == tid)
    then (busy (at w2 idx).low, w2)
    else (if tid == abandoned_tid then grabbed_abandoned else grabbed, w3)

unfoldable pub grab_object_now : Caller → ℕ → FsyncType → ℕ → W Tried
grab_object_now r fuel mutex idx w = some (grab_mutex r idx w)
grab_object_now r fuel semaphore idx w =
    let w' = tick r w in try_semaphore r fuel idx (at w' idx).low w'
grab_object_now r fuel auto_event idx w = try_auto r idx w
grab_object_now r fuel auto_server idx w = try_auto r idx w
grab_object_now r fuel _ idx w = some (grabbed, w)

-- What the third step gives: everything, with or without an abandoned mutex, or the objects it has
-- passed before one that it could not grab, the last one first.
pub data Grab : Type 0 where
  all_grabbed : Bool → Grab
  too_slow : List Object → Grab

unfoldable pub grab_all : Caller → ℕ → Bool → List Object → List (Option Object) → W Grab
grab_all r fuel dead before [] w = some (all_grabbed dead, w)
grab_all r fuel dead before (none ∷ objs) w = grab_all r fuel dead before objs w
grab_all r fuel dead before (some o ∷ objs) w = elim (grab_object_now r fuel o.type o.shm_idx w) [
  | none ↦ none
  | some (grabbed, w') ↦ grab_all r fuel dead (o ∷ before) objs w'
  | some (grabbed_abandoned, w') ↦ grab_all r fuel true (o ∷ before) objs w'
  | some (busy v, w') ↦ some (too_slow before, w')
]

-- The slot once the object is put back.
abbrev pub given_back : FsyncType → Slot → Slot
given_back mutex m = record m { low = 0 }
given_back semaphore m = record m { low = (m.low + 1) % 2 ^ 32 }
given_back auto_event m = record m { low = 1 }
given_back auto_server m = record m { low = 1 }
given_back _ m = m

unfoldable pub put_back : Caller → List Object → World → World
put_back r [] w = w
put_back r (o ∷ before) w =
    let w' = tick r w in
    put_back r before (write w' o.shm_idx (given_back o.type (at w' o.shm_idx)))

-- Count the mutexes that were grabbed.
unfoldable pub count_mutexes : List (Option Object) → World → World
count_mutexes [] w = w
count_mutexes (none ∷ objs) w = count_mutexes objs w
count_mutexes (some o ∷ objs) w =
    let m = at w o.shm_idx in
    elim (is_mutex o.type) [
      | true ↦ count_mutexes objs (write w o.shm_idx (record m { high = (m.high + 1) % 2 ^ 32 }))
      | false ↦ count_mutexes objs w
    ]

unfoldable pub after_grab :
    Caller → List (Option Object) → Grab → (World → Option (Status × World)) → W Status
after_grab r objs (all_grabbed dead) again w =
    leave r objs (if dead then abandoned else success) (count_mutexes objs w)
after_grab r objs (too_slow before) again w = again (put_back r before w)

unfoldable pub after_check :
    Caller
    → ℕ
    → List (Option Object)
    → Bool × World
    → (World → Option (Status × World))
    → Option (Status × World)
after_check r fuel objs (false, w) again = again w
after_check r fuel objs (true, w) again = elim (grab_all r fuel false [] objs w) [
  | none ↦ none
  | some (g, w') ↦ after_grab r objs g again w'
]

unfoldable pub after_wait :
    Caller → ℕ → List (Option Object) → Single → (World → Option (Status × World)) → W Status
after_wait r fuel objs timed_out again w = leave r objs timeout w
after_wait r fuel objs alerted again w = leave r objs (apc_status r.server_wait) w
after_wait r fuel objs look_on again w = after_check r fuel objs (check_all r objs w) again

unfoldable pub wait_all : Caller → Kernel → ℕ → Bool → List (Option Object) → W Status
wait_all r single zero alertable objs w = none
wait_all r single (suc fuel) alertable objs w =
    let again = λ (u : World). wait_all r single fuel alertable objs u in
    elim (wait_each r single alertable fuel objs w) [
      | none ↦ none
      | some (s, w') ↦ after_wait r fuel objs s again w'
    ]
