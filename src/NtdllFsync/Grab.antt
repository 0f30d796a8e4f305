-- ===== src/NtdllFsync/Grab.antt =====
-- What it means that a wait took an object, dlls/ntdll/unix/fsync_pro10.c.
use menano.Prelude.{
  ℕ, zero, suc, ◌+◌, ◌-◌, ◌%◌, ◌^◌, ◌≡◌, refl, ◌≢◌, inl, inr, Bool, true, false, not, ◌||◌, Option,
  none, some, arith, ◌==◌, if◌then◌else◌, Bool-cases, ==_iff, ap, sym,
}
use menano.ServerFsync.Defs.{Slot}
use menano.ServerFsync.Objects.{
  FsyncType, semaphore, auto_event, manual_event, mutex, auto_server, manual_server, queue,
  abandoned_tid,
}
use menano.NtdllFsync.Defs.{Object}
use menano.NtdllFsync.Wait.{
  World, Caller, at, write, tick, Tried, grabbed, grabbed_abandoned, busy, try_semaphore,
  reregister, try_abandoned, try_mutex, try_auto, try_manual, try_type, try_object,
}

-- The thread `tid` may take an object whose slot is `m`.
abbrev pub ready : ℕ → FsyncType → Slot → Bool
ready tid mutex m = m.low == tid || m.low == 0
ready tid t m = not (m.low == 0)

-- The slot once the thread has taken the object.
abbrev pub consume : ℕ → FsyncType → Slot → Slot
consume tid semaphore m = record m { low = m.low - 1 }
consume tid mutex m =
    if m.low == tid
    then record m { high = (m.high + 1) % 2 ^ 32 }
    else record m { low = tid; high = 1 }
consume tid auto_event m = if m.low == 1 then record m { low = 0 } else m
consume tid auto_server m = if m.low == 1 then record m { low = 0 } else m
consume tid t m = m

-- The worlds that a wait comes through from `w` before it takes an object: other threads act, and the
-- wait registers itself again as a waiter of a mutex.
pub data Before (r : Caller) (w : World) : World → Type 0 where
  start : Before r w w
  acts : {v : World} → Before r w v → Before r w (tick r v)
  registers :
      {v : World} (waited : Bool) (idx : ℕ) → Before r w v → Before r w (reregister r waited idx v)

-- One atomic step from `w` to `w'` that takes the object: it was ready at that moment, its slot is
-- consumed, and no other slot changes; nobody else acts meanwhile.
pub record Takes (tid : ℕ) (o : Object) (w w' : World) : Type 0 where
  pub was_ready : ready tid o.type (at w o.shm_idx) ≡ true
  pub consumed :
      (j : ℕ) → at w' j ≡ (if o.shm_idx == j then consume tid o.type (at w o.shm_idx) else at w j)
  pub at_once : w'.time ≡ w.time

-- The same for a mutex whose owner died.
pub record TakesAbandoned (tid : ℕ) (o : Object) (w w' : World) : Type 0 where
  pub is_mutex : o.type ≡ mutex
  pub was_abandoned : (at w o.shm_idx).low ≡ abandoned_tid
  pub consumed :
      (j : ℕ)
      → at w' j
        ≡ (if o.shm_idx == j then record (at w o.shm_idx) { low = tid; high = 1 } else at w j)
  pub at_once : w'.time ≡ w.time

-- What a try that began in `w0` answers: it took the object in a world that it came through, or it
-- only came through some.
abbrev pub Sound : Caller → Object → World → Option (Tried × World) → Type 0
Sound r o w0 none = Unit {0}
Sound r o w0 (some (grabbed, w')) = (w : World) × Before r w0 w × Takes r.current_tid o w w'
Sound r o w0 (some (grabbed_abandoned, w')) =
    (w : World) × Before r w0 w × TakesAbandoned r.current_tid o w w'
Sound r o w0 (some (busy v, w')) = Before r w0 w'

module _ (tid : ℕ) (o : Object) (w : World) (t : FsyncType) (e : o.type ≡ t)
    (now : ready tid t (at w o.shm_idx) ≡ true) where
  write-Takes :
      (v : Slot) → consume tid t (at w o.shm_idx) ≡ v → Takes tid o w (write w o.shm_idx v)
  write-Takes v c = record { was_ready = rw e now; consumed = λ j. rw (e, c); at_once = refl }

  same-Takes : consume tid t (at w o.shm_idx) ≡ at w o.shm_idx → Takes tid o w w
  same-Takes c = record { was_ready = rw e now; consumed = λ j. rw (e, c) (same j); at_once = refl }
    where
      same : (j : ℕ) → at w j ≡ (if o.shm_idx == j then at w o.shm_idx else at w j)
      same j = elim (Bool-cases (o.shm_idx == j)) [
        | inl hit ↦
            let p : o.shm_idx ≡ j = (==_iff o.shm_idx j).0 hit in rw hit (ap (λ i. at w i) (sym p))
        | inr miss ↦ rw miss
      ]

module _ (r : Caller) (o : Object) (w0 : World) where
  try_semaphore-Sound :
      (fuel new : ℕ) (w : World)
      → o.type ≡ semaphore
      → Before r w0 w
      → Sound r o w0 (try_semaphore r fuel o.shm_idx new w)
  unfolding try_semaphore
  try_semaphore-Sound zero new w t b = tt
  try_semaphore-Sound (suc fuel) new w t b = elim (Bool-cases (new == 0)) [
    | inl gone ↦ rw (gone, try_semaphore) b
    | inr some_left ↦ elim (Bool-cases ((at (tick r w) o.shm_idx).low == new)) [
      | inl hit ↦
          let same : (at (tick r w) o.shm_idx).low ≡ new = (==_iff _ _).0 hit in
          rw (some_left, try_semaphore)
            (rw hit (
              tick r w,
              acts b,
              write-Takes r.current_tid o (tick r w) semaphore t (ground arith) _ (rw same),
            ))
      | inr miss ↦
          rw (some_left, try_semaphore)
            (rw miss (try_semaphore-Sound fuel (at (tick r w) o.shm_idx).low (tick r w) t (acts b)))
    ]
  ]

  try_auto-Sound :
      (w : World)
      → Before r w0 w
      → ((m : Slot) → ready r.current_tid o.type m ≡ not (m.low == 0))
      → ((m : Slot)
          → consume r.current_tid o.type m ≡ (if m.low == 1 then record m { low = 0 } else m))
      → Sound r o w0 (try_auto r o.shm_idx w)
  unfolding try_auto
  try_auto-Sound w b a c = elim (Bool-cases ((at (tick r w) o.shm_idx).low == 0)) [
    | inl off ↦ rw off (acts b)
    | inr on ↦ elim (Bool-cases ((at (tick r w) o.shm_idx).low == 1)) [
      | inl one ↦ rw on (
          rw one (
            tick r w,
            acts b,
            write-Takes r.current_tid o (tick r w) o.type refl
                (rw (a (at (tick r w) o.shm_idx), on)) _ (rw (c (at (tick r w) o.shm_idx), one)),
          ))
      | inr other ↦ rw on (
          rw other (
            tick r w,
            acts b,
            same-Takes r.current_tid o (tick r w) o.type refl (rw (a (at (tick r w) o.shm_idx), on))
                (rw (c (at (tick r w) o.shm_idx), other)),
          ))
    ]
  ]

  try_manual-Sound :
      (w : World)
      → Before r w0 w
      → ((m : Slot) → ready r.current_tid o.type m ≡ not (m.low == 0))
      → ((m : Slot) → consume r.current_tid o.type m ≡ m)
      → Sound r o w0 (try_manual r o.shm_idx w)
  unfolding try_manual
  try_manual-Sound w b a c = elim (Bool-cases ((at (tick r w) o.shm_idx).low == 0)) [
    | inl off ↦ rw off (acts b)
    | inr on ↦ rw on (
      tick r w,
      acts b,
      same-Takes r.current_tid o (tick r w) o.type refl (rw (a (at (tick r w) o.shm_idx), on))
          (c (at (tick r w) o.shm_idx)),
    )
  ]

  try_abandoned-Sound :
      (waited : Bool) (w : World)
      → o.type ≡ mutex
      → Before r w0 w
      → Sound r o w0 (try_abandoned r waited o.shm_idx w)
  unfolding try_abandoned
  try_abandoned-Sound waited w t b =
      elim (Bool-cases ((at (tick r w) o.shm_idx).low == abandoned_tid)) [
        | inl dead ↦ rw dead (
          tick r w,
          acts b,
          record {
            is_mutex = t;
            was_abandoned = (==_iff _ _).0 dead;
            consumed = λ j. refl;
            at_once = refl;
          },
        )
        | inr live ↦ rw live (registers waited o.shm_idx (acts b))
      ]

  try_mutex-Sound :
      (waited : Bool) (w : World)
      → o.type ≡ mutex
      → r.current_tid ≢ 0
      → Before r w0 w
      → Sound r o w0 (try_mutex r waited o.shm_idx w)
  unfolding try_mutex
  try_mutex-Sound waited w t tid b = elim (Bool-cases ((at w o.shm_idx).low == r.current_tid)) [
    | inl mine ↦ rw mine (w, b, write-Takes r.current_tid o w mutex t (rw mine) _ (rw mine))
    | inr other ↦ elim (Bool-cases ((at (tick r w) o.shm_idx).low == 0)) [
      | inl free ↦
          let z : (at (tick r w) o.shm_idx).low ≡ 0 = (==_iff _ _).0 free in
          let n : ((at (tick r w) o.shm_idx).low == r.current_tid) ≡ false = ground arith in
          rw other (
            rw free (
              tick r w,
              acts b,
              write-Takes r.current_tid o (tick r w) mutex t (rw (n, free)) _ (rw n),
            ))
      | inr held ↦ elim (Bool-cases ((at (tick r w) o.shm_idx).low == abandoned_tid)) [
        | inl dead ↦ rw other (rw held (rw dead (try_abandoned-Sound waited (tick r w) t (acts b))))
        | inr live ↦ rw other (rw held (rw live (registers waited o.shm_idx (acts b))))
      ]
    ]
  ]

  try_type-Sound :
      (fuel : ℕ) (waited : Bool) (w : World) (t : FsyncType)
      → o.type ≡ t
      → r.current_tid ≢ 0
      → Before r w0 w
      → Sound r o w0 (try_type r fuel waited t o.shm_idx w)
  unfolding try_type
  try_type-Sound fuel waited w semaphore e tid b =
      try_semaphore-Sound fuel (at (tick r w) o.shm_idx).low (tick r w) e (acts b)
  try_type-Sound fuel waited w mutex e tid b = try_mutex-Sound waited w e tid b
  try_type-Sound fuel waited w auto_event e tid b = try_auto-Sound w b (λ m. rw e) (λ m. rw e)
  try_type-Sound fuel waited w auto_server e tid b = try_auto-Sound w b (λ m. rw e) (λ m. rw e)
  try_type-Sound fuel waited w manual_event e tid b = try_manual-Sound w b (λ m. rw e) (λ m. rw e)
  try_type-Sound fuel waited w manual_server e tid b = try_manual-Sound w b (λ m. rw e) (λ m. rw e)
  try_type-Sound fuel waited w queue e tid b = try_manual-Sound w b (λ m. rw e) (λ m. rw e)

-- Whatever other threads do, a try of a thread with an id other than 0 comes from its world `w` only
-- through steps of other threads and registrations of the wait. An object that it takes was ready at
-- the end of such steps, and one atomic step from there changes its slot as taking it should, and no
-- other slot; a mutex taken as abandoned was abandoned there.
pub try_object-Sound :
    (r : Caller) (o : Object) (fuel : ℕ) (waited : Bool) (w : World)
    → r.current_tid ≢ 0
    → Sound r o w (try_object r fuel waited o w)
try_object-Sound r o fuel waited w tid = try_type-Sound r o w fuel waited w o.type refl tid start
