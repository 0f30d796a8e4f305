-- ===== src/NtdllFsync/Operations.antt =====
-- The operations on semaphores, events and mutexes whose handle is cached,
-- dlls/ntdll/unix/fsync_pro10.c: every branch, with the reference counts as they were.
use menano.Prelude.{
  ℕ, suc, ◌+◌, ◌-◌, ◌%◌, ◌^◌, ◌≤◌, ◌<◌, ◌≡◌, Bool, true, false, not, Option, none, some, [], arith,
  ltb, ◌==◌, ==_self, if◌then◌else◌, ap, Bool-cases, inl, inr, ◌∙◌,
}
use menano.ServerFsync.Defs.{Slot, update}
use menano.ServerFsync.Objects.{is_event}
use menano.NtdllFsync.Defs.{
  Client, Object, Status, success, semaphore_limit_exceeded, object_type_mismatch, mutant_not_owned,
  Reply, Got, M, slot, with_slot, with_low, with_ref, wake, get_object, with_object, on_event,
  signal, unsignal, release_loop, fsync_release_semaphore, fsync_set_event, fsync_reset_event,
  fsync_release_mutex, release_mutex,
}
use menano.NtdllFsync.References.{IsCached, update-update, update_same, held, with_object-cached}

module _ (c : Client) (handle : ℕ) (o : Object) (k : IsCached c handle o) (fuel : ℕ) (memory : Bool)
    (reply : Reply) where
  abbrev get : M Got
  get = get_object (suc fuel) memory reply handle

  abbrev before : Slot
  before = slot c o.shm_idx

  abbrev h : Client
  h = held c handle o k

  release_held : with_ref h o.shm_idx before.ref ≡ c
  release_held = rw (==_self o.shm_idx) (
      ap (λ f. record c { shm = record (c.shm) { slots = f } })
        (update-update c.shm.slots o.shm_idx _ _ ∙ update_same c.shm.slots o.shm_idx))

  kept : slot h o.shm_idx ≡ record before { ref = before.ref + 1 }
  kept = rw (==_self o.shm_idx)

  -- What an operation on an object in hand gives for the operation on its handle.
  given :
      {A : Type 0} (body : Object → M (Status × Option A)) (r : Status × Option A)
      → body o h ≡ some (r, h)
      → with_object get body c ≡ some (r, c)
  given body r ran =
      with_object-cached c handle o k fuel memory reply body r h ran (rw kept)
      ∙ ap (λ d. some (r, d)) release_held

  module _ {A : Type 0} (body : Object → M (Status × Option A)) (r : Status × Option A)
      (v : Slot) where
    abbrev written : Client
    written = with_slot h o.shm_idx (record v { ref = before.ref + 1 })

    written_back :
        with_ref written o.shm_idx before.ref
        ≡ with_slot c o.shm_idx (record v { ref = before.ref })
    written_back = rw (==_self o.shm_idx) (
        ap (λ f. record c { shm = record (c.shm) { slots = f } })
          (update-update (update c.shm.slots o.shm_idx _) o.shm_idx _ _
            ∙ update-update c.shm.slots o.shm_idx _ _))

    given_write :
        body o h ≡ some (r, written)
        → with_object get body c ≡ some (r, with_slot c o.shm_idx (record v { ref = before.ref }))
    given_write ran =
        with_object-cached c handle o k fuel memory reply body r written ran
          (rw (==_self o.shm_idx))
        ∙ ap (λ d. some (r, d)) written_back

    given_wake :
        body o h ≡ some (r, wake written o.shm_idx)
        → with_object get body c
          ≡ some (r, wake (with_slot c o.shm_idx (record v { ref = before.ref })) o.shm_idx)
    given_wake ran =
        with_object-cached c handle o k fuel memory reply body r (wake written o.shm_idx) ran
          (rw (==_self o.shm_idx))
        ∙ ap (λ d. some (r, wake d o.shm_idx)) written_back

  -- The state in which SetEvent leaves an event.
  abbrev signaled : Client
  signaled = let c' = with_low c o.shm_idx 1 in if before.low == 0 then wake c' o.shm_idx else c'

  -- On a cached object, fsync_set_event signals an event, tells its previous state, wakes the waiters
  -- exactly if it was not signaled, and refuses any other object without a change.
  pub fsync_set_event_lem :
      fsync_set_event get c
      ≡ some (
          if is_event o.type
          then ((success, some before.low), signaled)
          else ((object_type_mismatch, none), c))
  unfolding fsync_set_event on_event signal
  fsync_set_event_lem = elim (Bool-cases (is_event o.type)) [
    | inl event ↦ elim (Bool-cases (before.low == 0)) [
      | inl off ↦
          rw (event, off)
            (given_wake _ (success, some before.low) (record before { low = 1 })
              (rw (event, ==_self o.shm_idx) (rw off)))
      | inr on ↦
          rw (event, on)
            (given_write _ (success, some before.low) (record before { low = 1 })
              (rw (event, ==_self o.shm_idx) (rw on)))
    ]
    | inr other ↦ rw other (given _ (object_type_mismatch, none) (rw other))
  ]

  -- On a cached object, fsync_reset_event clears an event and tells its previous state, wakes nobody,
  -- and refuses any other object without a change.
  pub fsync_reset_event_lem :
      fsync_reset_event get c
      ≡ some (
          if is_event o.type
          then ((success, some before.low), with_low c o.shm_idx 0)
          else ((object_type_mismatch, none), c))
  unfolding fsync_reset_event on_event unsignal
  fsync_reset_event_lem = elim (Bool-cases (is_event o.type)) [
    | inl event ↦ rw event (
        given_write _ (success, some before.low) (record before { low = 0 })
          (rw (event, ==_self o.shm_idx)))
    | inr other ↦ rw other (given _ (object_type_mismatch, none) (rw other))
  ]

  -- On a cached object whose slot a thread other than the caller owns, fsync_release_mutex changes
  -- nothing; the owner lowers its recursion count by one and is told the count before; only the last
  -- release gives the mutex up and wakes the waiters.
  pub fsync_release_mutex_lem :
      (current_tid : ℕ)
      → before.high < 2 ^ 32
      → 0 < before.high
      → fsync_release_mutex get current_tid c
        ≡ some (
            if not (before.low == current_tid)
            then ((mutant_not_owned, none), c)
            else if before.high == 1
            then (
              (success, some before.high),
              wake (with_slot c o.shm_idx (record before { low = 0; high = 0 })) o.shm_idx,
            )
            else (
              (success, some before.high),
              with_slot c o.shm_idx (record before { high = before.high - 1 }),
            ))
  unfolding fsync_release_mutex release_mutex
  fsync_release_mutex_lem tid small positive =
      let less : (before.high + 2 ^ 32 - 1) % 2 ^ 32 ≡ before.high - 1 = omega arith in
      elim (Bool-cases (before.low == tid)) [
        | inr other ↦ rw other (given _ (mutant_not_owned, none) (rw (==_self o.shm_idx, other)))
        | inl mine ↦ elim (Bool-cases (before.high == 1)) [
          | inl last ↦
              let e : (before.high - 1 == 0) ≡ true = ground arith in
              let z : before.high - 1 ≡ 0 = ground arith in
              rw (mine, last)
                (given_wake _ (success, some before.high) (record before { low = 0; high = 0 })
                  (rw (==_self o.shm_idx) (rw (mine, less, z))))
          | inr more ↦
              let e : (before.high - 1 == 0) ≡ false = ground arith in
              rw (mine, more)
                (given_write _ (success, some before.high)
                  (record before { high = before.high - 1 })
                  (rw (==_self o.shm_idx) (rw (mine, less, e))))
        ]
      ]

  -- The count that a release of `count` gives, as the code adds it.
  abbrev sum : ℕ → ℕ
  sum count = (count + before.low) % 2 ^ 32

  -- On a cached object and with no other thread at work, fsync_release_semaphore fails without a
  -- change if the 32-bit sum exceeds the maximum, and otherwise stores that sum, tells the count
  -- before, and wakes the waiters.
  pub fsync_release_semaphore_lem :
      (count : ℕ)
      → fsync_release_semaphore get [] count c
        ≡ some (
            if ltb before.high (sum count)
            then ((semaphore_limit_exceeded, none), c)
            else ((success, some before.low), wake (with_low c o.shm_idx (sum count)) o.shm_idx))
  unfolding fsync_release_semaphore release_loop
  fsync_release_semaphore_lem count = elim (Bool-cases (ltb before.high (sum count))) [
    | inl over ↦
        rw over (given _ (semaphore_limit_exceeded, none) (rw (==_self o.shm_idx) (rw over)))
    | inr fits ↦ rw fits (
        given_wake _ (success, some before.low) (record before { low = sum count })
          (rw (==_self o.shm_idx) (rw fits)))
  ]

  -- A release of so many that the 32-bit sum wraps is not refused: it succeeds and lowers the count.
  pub fsync_release_semaphore_wraps :
      (count : ℕ)
      → count < 2 ^ 32
      → before.low ≤ before.high
      → before.high < 2 ^ 31
      → 2 ^ 32 ≤ count + before.low
      → (less : ℕ) × (less < before.low)
        × (fsync_release_semaphore get [] count c
            ≡ some ((success, some before.low), wake (with_low c o.shm_idx less) o.shm_idx))
  fsync_release_semaphore_wraps count small valid max wraps =
      let e : sum count ≡ count + before.low - 2 ^ 32 = omega arith in
      let fits : ltb before.high (sum count) ≡ false = ground arith in
      (sum count, omega arith, fsync_release_semaphore_lem count ∙ rw fits)
