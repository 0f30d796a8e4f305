-- ===== src/NtdllFsync/Wait.antt =====
-- dlls/ntdll/unix/fsync_pro10.c: waiting for any of several objects. Other threads act before each
-- atomic operation: `others n` is what they do to the slots before the n-th one. The kernel's answer
-- to a futex wait, the server's answer to server_wait and the options of the process are parameters.
-- `none` is fuel that ran out, in the loop of rounds or in a compare-and-swap loop.
use menano.Prelude.{
  ℕ, zero, suc, ◌+◌, ◌-◌, ◌%◌, ◌^◌, Bool, true, not, ◌&&◌, Option, none, some, List, [], ◌∷◌, ◌==◌,
  if◌then◌else◌,
}
use menano.ServerFsync.Defs.{Slot}
use menano.ServerFsync.Objects.{
  FsyncType, semaphore, auto_event, manual_event, mutex, auto_server, manual_server, queue,
  abandoned_tid,
}
use menano.NtdllFsync.Defs.{
  Client, Object, Status, timeout, user_apc, wait_0, abandoned_wait_0, slot, with_slot,
  put_object_from_wait,
}

pub data WaitResult : Type 0 where
  timed_out woken : WaitResult

pub data Timeout : Type 0 where
  infinite immediate later : Timeout

pub record World : Type 0 where
  pub client : Client
  pub time : ℕ

-- What the wait knows of its thread and of the outside.
pub record Caller : Type 0 where
  pub current_tid : ℕ
  pub current_pid : ℕ
  pub apc_futex : ℕ
  pub yield_to_waiters : Bool
  pub others : ℕ → (ℕ → Slot) → ℕ → Slot
  pub kernel : List (ℕ × ℕ) → ℕ → WaitResult
  pub server_wait : Status

abbrev pub W : Type 0 → Type 0
W A = World → Option (A × World)

abbrev pub pure : {A : Type 0} → A → W A
pure a w = some (a, w)

infixl 5 ◌>>=◌
abbrev pub ◌>>=◌ : {A B : Type 0} → W A → (A → W B) → W B
◌>>=◌ m f w = elim (m w) [ none ↦ none | some (a, w') ↦ f a w' ]

abbrev pub at : World → ℕ → Slot
at w idx = slot w.client idx

abbrev pub write : World → ℕ → Slot → World
write w idx v = record w { client = with_slot w.client idx v }

-- Other threads act.
abbrev pub tick : Caller → World → World
tick r w = record w {
  client = record (w.client) {
    shm = record (w.client.shm) { slots = r.others w.time w.client.shm.slots };
  };
  time = suc w.time;
}

-- What trying an object gives: it is ours, with or without an abandoned owner, or the value of its
-- futex to wait on.
pub data Tried : Type 0 where
  grabbed grabbed_abandoned : Tried
  busy : ℕ → Tried

-- `while ((current = new))` with a compare-and-swap that takes one.
unfoldable pub try_semaphore : Caller → ℕ → ℕ → ℕ → W Tried
try_semaphore r zero idx new w = none
try_semaphore r (suc fuel) idx new w =
    let w' = tick r w in
    let now = (at w' idx).low in
    let rest = try_semaphore r fuel idx now w' in
    if new == 0
    then some (busy 0, w)
    else if now == new
    then some (grabbed, write w' idx (record (at w' idx) { low = new - 1 }))
    else rest

-- Re-register as a waiter, where another thread has grabbed the mutex meanwhile.
abbrev pub reregister : Caller → Bool → ℕ → World → World
reregister r waited idx w =
    if r.yield_to_waiters && waited && (at w idx).last_pid == 0
    then write w idx (record (at w idx) { last_pid = r.current_pid })
    else w

-- The second compare-and-swap, on a mutex that was seen abandoned.
unfoldable pub try_abandoned : Caller → Bool → ℕ → W Tried
try_abandoned r waited idx w =
    let w' = tick r w in
    let tid = (at w' idx).low in
    if tid == abandoned_tid
    then some
        (grabbed_abandoned, write w' idx (record (at w' idx) { low = r.current_tid; high = 1 }))
    else some (busy tid, reregister r waited idx w')

unfoldable pub try_mutex : Caller → Bool → ℕ → W Tried
unfolding try_abandoned
try_mutex r waited idx w =
    let w' = tick r w in
    let tid = (at w' idx).low in
    if (at w idx).low == r.current_tid
    then some (grabbed, write w idx (record (at w idx) { high = ((at w idx).high + 1) % 2 ^ 32 }))
    else if tid == 0
    then some (grabbed, write w' idx (record (at w' idx) { low = r.current_tid; high = 1 }))
    else if tid == abandoned_tid
    then try_abandoned r waited idx w'
    else some (busy tid, reregister r waited idx w')

-- A compare-and-swap of 1 with 0, which succeeds on any value but 0.
unfoldable pub try_auto : Caller → ℕ → W Tried
try_auto r idx w =
    let w' = tick r w in
    let signaled = (at w' idx).low in
    if signaled == 0
    then some (busy 0, w')
    else some (grabbed, if signaled == 1 then write w' idx (record (at w' idx) { low = 0 }) else w')

unfoldable pub try_manual : Caller → ℕ → W Tried
try_manual r idx w =
    let w' = tick r w in if (at w' idx).low == 0 then some (busy 0, w') else some (grabbed, w')

-- The switch on the object's type.
unfoldable pub try_type : Caller → ℕ → Bool → FsyncType → ℕ → W Tried
unfolding try_semaphore try_mutex try_auto try_manual
try_type r fuel waited semaphore idx w =
    let w' = tick r w in try_semaphore r fuel idx (at w' idx).low w'
try_type r fuel waited mutex idx w = try_mutex r waited idx w
try_type r fuel waited auto_event idx w = try_auto r idx w
try_type r fuel waited auto_server idx w = try_auto r idx w
try_type r fuel waited manual_event idx w = try_manual r idx w
try_type r fuel waited manual_server idx w = try_manual r idx w
try_type r fuel waited queue idx w = try_manual r idx w

abbrev pub try_object : Caller → ℕ → Bool → Object → W Tried
try_object r fuel waited o = try_type r fuel waited o.type o.shm_idx

-- What one pass over the objects gives: the index of an object that is ours, or the futexes to wait
-- on, as pairs of an index and a value. An object that is only on the server has no futex of its own.
pub data Pass : Type 0 where
  done abandoned_at : ℕ → Pass
  contended : List (ℕ × ℕ) → Pass

abbrev pub also : ℕ × ℕ → Pass → Pass
also f (done i) = done i
also f (abandoned_at i) = abandoned_at i
also f (contended l) = contended (f ∷ l)

-- The rest of a pass, after an object whose futex `f` there is to wait on.
abbrev pub go_on : ℕ × ℕ → Option (Pass × World) → Option (Pass × World)
go_on f none = none
go_on f (some (p, w)) = some (also f p, w)

unfoldable pub try_all : Caller → ℕ → Bool → ℕ → List (Option Object) → W Pass
try_all r fuel waited i [] w = some (contended [], w)
try_all r fuel waited i (none ∷ objs) w = try_all r fuel waited (suc i) objs w
try_all r fuel waited i (some o ∷ objs) w = elim (try_object r fuel waited o w) [
  | none ↦ none
  | some (grabbed, w') ↦ some (done i, w')
  | some (grabbed_abandoned, w') ↦ some (abandoned_at i, w')
  | some (busy v, w') ↦ go_on (o.shm_idx, v) (try_all r fuel waited (suc i) objs w')
]

unfoldable pub put_objects : Caller → List (Option Object) → W (Unit {0})
put_objects r [] w = some (tt, w)
put_objects r (none ∷ objs) w = put_objects r objs w
put_objects r (some o ∷ objs) w = elim (put_object_from_wait r.current_pid o.shm_idx w.client) [
  | none ↦ none
  | some (_, c) ↦ put_objects r objs (record w { client = c })
]

-- Give every object back and return a status.
unfoldable pub leave : Caller → List (Option Object) → Status → W Status
leave r objs status w = elim (put_objects r objs w) [
  | none ↦ none
  | some (_, w') ↦ some (status, w')
]

-- After an APC the server is asked; its timeout counts as an APC.
abbrev pub apc_status : Status → Status
apc_status timeout = user_apc
apc_status other = other

unfoldable pub finish :
    Caller → List (Option Object) → Timeout → Pass → (World → Option (Status × World)) → W Status
finish r objs limit (done i) again w = leave r objs (wait_0 i) w
finish r objs limit (abandoned_at i) again w = leave r objs (abandoned_wait_0 i) w
finish r objs immediate (contended futexes) again w = leave r objs timeout w
finish r objs limit (contended futexes) again w = elim (r.kernel futexes w.time) [
  | timed_out ↦ leave r objs timeout w
  | woken ↦ again (tick r w)
]

-- An alertable wait also waits on the APC futex, after the others.
abbrev pub append_futex : List (ℕ × ℕ) → ℕ × ℕ → List (ℕ × ℕ)
append_futex [] f = f ∷ []
append_futex (g ∷ l) f = g ∷ append_futex l f

abbrev pub with_apc : Caller → Bool → Pass → Pass
with_apc r true (contended l) = contended (append_futex l (r.apc_futex, 0))
with_apc r alertable p = p

-- The loop of rounds. `alertable` waits look at the APC futex first.
unfoldable pub wait_any : Caller → ℕ → Bool → Timeout → Bool → List (Option Object) → W Status
wait_any r zero alertable limit waited objs w = none
wait_any r (suc fuel) alertable limit waited objs w =
    let again = λ (w' : World). wait_any r fuel alertable limit true objs w' in
    if alertable && not ((at w r.apc_futex).low == 0)
    then leave r objs (apc_status r.server_wait) w
    else elim (try_all r fuel waited 0 objs w) [
      | none ↦ none
      | some (p, w') ↦ finish r objs limit (with_apc r alertable p) again w'
    ]
