-- ===== src/NtdllFsync/Defs.antt =====
-- dlls/ntdll/unix/fsync_pro10.c: objects, reference counts, semaphores, events and mutexes. The
-- shared section and the server's free map are one state, so that a last reference that is put back
-- reaches the server's fsync_free_shm_idx. `none` is a failed assert of the server, or a retry loop
-- that runs out of fuel. A function runs with no other thread between its steps; what other threads
-- do in a compare-and-swap loop or during usleep is an argument.
use menano.Prelude.{
  ℕ, zero, suc, ◌+◌, ◌-◌, ◌%◌, ◌^◌, Bool, true, false, not, ◌||◌, Option, none, some, List, [], ◌∷◌,
  ltb, leb, ◌==◌, if◌then◌else◌,
}
use menano.ServerFsync.Defs.{Slot, Shm, update, free_shm_idx_request}
use menano.ServerFsync.Objects.{FsyncType, auto_event, type_eq, is_event, abandoned_tid}
use menano.NtdllFsync.Cache.{FsyncList, CacheEntry, load, add_to_list}

-- The futexes woken so far, newest first, beside the memory and the table of handles.
pub record Client : Type 0 where
  pub shm : Shm
  pub cache : FsyncList
  pub woken : List ℕ

pub record Object : Type 0 where
  pub type : FsyncType
  pub shm_idx : ℕ

pub data Status : Type 0 where
  success not_implemented invalid_handle semaphore_limit_exceeded : Status
  object_type_mismatch mutant_not_owned timeout user_apc abandoned : Status
  wait_0 abandoned_wait_0 server_error : ℕ → Status

-- What the server answers to the request get_fsync_idx.
pub data Reply : Type 0 where
  refused : ℕ → Reply
  index : FsyncType → ℕ → Reply

pub data Got : Type 0 where
  object : Object → Got
  error : Status → Got

abbrev pub M : Type 0 → Type 0
M A = Client → Option (A × Client)

abbrev pub pure : {A : Type 0} → A → M A
pure a c = some (a, c)

infixl 5 ◌>>=◌ ◌>>◌
abbrev pub ◌>>=◌ : {A B : Type 0} → M A → (A → M B) → M B
◌>>=◌ m f c = elim (m c) [ none ↦ none | some (a, c') ↦ f a c' ]

abbrev pub ◌>>◌ : {B : Type 0} → M (Unit {0}) → M B → M B
m >> k = m >>= λ _. k

abbrev pub slot : Client → ℕ → Slot
slot c idx = c.shm.slots idx

abbrev pub with_slot : Client → ℕ → Slot → Client
with_slot c idx v = record c { shm = record (c.shm) { slots = update c.shm.slots idx v } }

abbrev pub with_low : Client → ℕ → ℕ → Client
with_low c idx v = with_slot c idx (record (slot c idx) { low = v })

abbrev pub with_ref : Client → ℕ → ℕ → Client
with_ref c idx v = with_slot c idx (record (slot c idx) { ref = v })

abbrev pub wake : Client → ℕ → Client
wake c idx = record c { woken = idx ∷ c.woken }

unfoldable pub grab_object : ℕ → M (Unit {0})
grab_object idx c = some (tt, with_ref c idx (((slot c idx).ref + 1) % 2 ^ 32))

unfoldable pub put_object : ℕ → M (Unit {0})
put_object idx c =
    if (slot c idx).ref == 1
    then elim (free_shm_idx_request c.shm idx).0 [
      | none ↦ none
      | some shm ↦ some (tt, record c { shm = shm })
    ]
    else some (tt, with_ref c idx (((slot c idx).ref + 2 ^ 32 - 1) % 2 ^ 32))

-- `current_pid` is what the process stored when its wait began.
unfoldable pub put_object_from_wait : ℕ → ℕ → M (Unit {0})
put_object_from_wait current_pid idx c = put_object idx (
    if (slot c idx).last_pid == current_pid
    then with_slot c idx (record (slot c idx) { last_pid = 0 })
    else c)

-- Take a reference to the object that the entry names; `again` starts over, where the count shows
-- that the object was being freed. The entry is not changed between its two loads.
unfoldable pub grab_entry : M (Option Object) → CacheEntry → M (Option Object)
grab_entry again entry c = elim entry.type [
  | none ↦ pure none c
  | some type ↦
      let ref = ((slot c entry.shm_idx).ref + 1) % 2 ^ 32 in
      if entry.shm_idx == 0
      then pure none c
      else if ltb ref 2 || leb (2 ^ 31) ref
      then (do grab_object entry.shm_idx; put_object entry.shm_idx; again) c
      else (do
        grab_object entry.shm_idx
        pure (some (record { type = type; shm_idx = entry.shm_idx })))
          c
]

unfoldable pub get_cached_object : ℕ → ℕ → M (Option Object)
unfolding grab_entry
get_cached_object zero handle c = none
get_cached_object (suc fuel) handle c =
    grab_entry (λ c'. get_cached_object fuel handle c') (load handle c.cache) c

-- The server's handler of get_fsync_idx takes a reference; the table then learns the handle.
unfoldable pub ask_server : Bool → Reply → ℕ → M Got
ask_server memory (refused status) handle c = some (error (server_error status), c)
ask_server memory (index type idx) handle c =
    let c' = with_ref c idx (((slot c idx).ref + 1) % 2 ^ 32) in
    some (
      object (record { type = type; shm_idx = idx }),
      record c' { cache = add_to_list memory handle type idx c.cache },
    )

unfoldable pub get_object : ℕ → Bool → Reply → ℕ → M Got
get_object fuel memory reply handle = do
  first ← get_cached_object fuel handle
  elim first [
    | some o ↦ pure (object o)
    | none ↦
        if leb (2 ^ 63) handle
        then pure (error not_implemented)
        else if handle == 0
        then pure (error invalid_handle)
        else (do
          second ← get_cached_object fuel handle
          elim second [ some o ↦ pure (object o) | none ↦ ask_server memory reply handle ])
  ]

-- Take the object of a handle, run `body` on it, and put it back.
unfoldable pub with_object :
    {A : Type 0} → M Got → (Object → M (Status × Option A)) → M (Status × Option A)
with_object get body = do
  got ← get
  elim got [
    | error status ↦ pure (status, none)
    | object o ↦ do r ← body o; put_object o.shm_idx; pure r
  ]

-- The compare-and-swap loop of fsync_release_semaphore. Each entry of the list is what other threads
-- do to the slots between the load and the swap of one round; the last round is undisturbed.
unfoldable pub release_loop : List ((ℕ → Slot) → ℕ → Slot) → ℕ → ℕ → M (Status × Option ℕ)
release_loop [] idx count c =
    let current = (slot c idx).low in
    if ltb (slot c idx).high ((count + current) % 2 ^ 32)
    then some ((semaphore_limit_exceeded, none), c)
    else some ((success, some current), wake (with_low c idx ((count + current) % 2 ^ 32)) idx)
release_loop (others ∷ rest) idx count c =
    let current = (slot c idx).low in
    let c' = record c { shm = record (c.shm) { slots = others c.shm.slots } } in
    if ltb (slot c idx).high ((count + current) % 2 ^ 32)
    then some ((semaphore_limit_exceeded, none), c)
    else elim ((slot c' idx).low == current) [
      | true ↦
          some ((success, some current), wake (with_low c' idx ((count + current) % 2 ^ 32)) idx)
      | false ↦ release_loop rest idx count c'
    ]

unfoldable pub fsync_release_semaphore :
    M Got → List ((ℕ → Slot) → ℕ → Slot) → ℕ → M (Status × Option ℕ)
fsync_release_semaphore get others count = with_object get λ o. release_loop others o.shm_idx count

-- The current count and the maximum.
unfoldable pub fsync_query_semaphore : M Got → M (Status × Option (ℕ × ℕ))
fsync_query_semaphore get =
    with_object get
      λ o c. some ((success, some ((slot c o.shm_idx).low, (slot c o.shm_idx).high)), c)

-- `__atomic_exchange_n( &event->signaled, 1 )`, with a wake if it was 0.
unfoldable pub signal : ℕ → M ℕ
signal idx c =
    let current = (slot c idx).low in
    let c' = with_low c idx 1 in some (current, if current == 0 then wake c' idx else c')

-- Events only; another object is put back untouched.
unfoldable pub on_event : M ℕ → Object → M (Status × Option ℕ)
on_event action o =
    if not (is_event o.type)
    then pure (object_type_mismatch, none)
    else (do current ← action; pure (success, some current))

unfoldable pub fsync_set_event : M Got → M (Status × Option ℕ)
fsync_set_event get = with_object get λ o. on_event (signal o.shm_idx) o

unfoldable pub unsignal : ℕ → M ℕ
unsignal idx c = some ((slot c idx).low, with_low c idx 0)

unfoldable pub fsync_reset_event : M Got → M (Status × Option ℕ)
fsync_reset_event get = with_object get λ o. on_event (unsignal o.shm_idx) o

-- `others` is what other threads do during usleep.
unfoldable pub pulse : ((ℕ → Slot) → ℕ → Slot) → ℕ → M ℕ
unfolding signal unsignal
pulse others idx = do
  current ← signal idx
  λ c. some (tt, record c { shm = record (c.shm) { slots = others c.shm.slots } })
  _ ← unsignal idx
  pure current

unfoldable pub fsync_pulse_event : M Got → ((ℕ → Slot) → ℕ → Slot) → M (Status × Option ℕ)
fsync_pulse_event get others = with_object get λ o. on_event (pulse others o.shm_idx) o

-- The state, and whether the event is auto-reset.
unfoldable pub fsync_query_event : M Got → M (Status × Option (ℕ × Bool))
fsync_query_event get =
    with_object get
      λ o c. some ((success, some ((slot c o.shm_idx).low, type_eq o.type auto_event)), c)

-- `!--mutex->count`, which wraps.
unfoldable pub release_mutex : ℕ → Object → M (Status × Option ℕ)
release_mutex current_tid o c =
    let m = slot c o.shm_idx in
    let count = (m.high + 2 ^ 32 - 1) % 2 ^ 32 in
    if not (m.low == current_tid)
    then some ((mutant_not_owned, none), c)
    else if count == 0
    then some (
      (success, some m.high),
      wake (with_slot c o.shm_idx (record m { low = 0; high = count })) o.shm_idx,
    )
    else some ((success, some m.high), with_slot c o.shm_idx (record m { high = count }))

unfoldable pub fsync_release_mutex : M Got → ℕ → M (Status × Option ℕ)
fsync_release_mutex get current_tid = with_object get λ o. release_mutex current_tid o

-- `1 - count` as a 32-bit pattern, whether the caller owns the mutex, and whether it is abandoned.
unfoldable pub fsync_query_mutex : M Got → ℕ → M (Status × Option (ℕ × Bool × Bool))
fsync_query_mutex get current_tid = with_object get λ o c.
    let m = slot c o.shm_idx in
    some (
      (
        success,
        some ((2 ^ 32 + 1 - m.high) % 2 ^ 32, m.low == current_tid, m.low == abandoned_tid),
      ),
      c,
    )
