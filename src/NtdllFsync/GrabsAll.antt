-- ===== src/NtdllFsync/GrabsAll.antt =====
-- __fsync_wait_objects of dlls/ntdll/unix/fsync_pro10.c: grabbing all of several objects undisturbed.
use menano.Prelude.{
  ℕ, suc, ◌-◌, ◌≡◌, refl, ◌≢◌, inl, inr, true, false, Option, none, some, List, [], ◌∷◌, arith,
  ◌==◌, ==_self, ==_iff, Bool-cases, ap, ◌∙◌,
}
use menano.ServerFsync.Defs.{Slot}
use menano.ServerFsync.Objects.{
  FsyncType, semaphore, auto_event, manual_event, mutex, auto_server, manual_server, queue,
}
use menano.NtdllFsync.Defs.{Object}
use menano.NtdllFsync.Wait.{World, Caller, at, write, tick, Tried, grabbed, try_semaphore, try_auto}
use menano.NtdllFsync.Grab.{ready}
use menano.NtdllFsync.Progress.{Quiet, slots_after_tick}
use menano.NtdllFsync.PutBack.{occurrences}
use menano.NtdllFsync.WaitAll.{grab_mutex, grab_object_now, all_grabbed, grab_all}

-- Only the slot at `idx` changes, and not its reference count.
abbrev pub Touches : ℕ → World → World → Type 0
Touches idx w w' =
    (j : ℕ) → ((idx == j) ≡ false → at w' j ≡ at w j) × ((at w' j).ref ≡ (at w j).ref)

pub write-Touches :
    (idx : ℕ) (w w1 : World) (v : Slot)
    → ((j : ℕ) → at w1 j ≡ at w j)
    → v.ref ≡ (at w idx).ref
    → Touches idx w (write w1 idx v)
write-Touches idx w w1 v same e j = elim (Bool-cases (idx == j)) [
  | inl hit ↦ (
    (λ miss. absurd (ground (arith, hit, miss))),
    rw hit (e ∙ ap (λ i. (at w i).ref) ((==_iff idx j).0 hit)),
  )
  | inr miss ↦ ((λ _. rw miss (same j)), rw miss (ap (λ (s : Slot). s.ref) (same j)))
]

same-Touches : (idx : ℕ) (w w1 : World) → ((j : ℕ) → at w1 j ≡ at w j) → Touches idx w w1
same-Touches idx w w1 same j = ((λ _. same j), ap (λ (s : Slot). s.ref) (same j))

-- Every object can be taken, and no index stands twice.
abbrev pub AllReady : ℕ → List (Option Object) → World → Type 0
AllReady tid [] w = Unit {0}
AllReady tid (none ∷ objs) w = AllReady tid objs w
AllReady tid (some o ∷ objs) w =
    (ready tid o.type (at w o.shm_idx) ≡ true)
    × (occurrences o.shm_idx objs ≡ 0)
    × AllReady tid objs w

module _ (r : Caller) (quiet : Quiet r) (tid : r.current_tid ≢ 0) where
  pub one_tick : (w : World) (j : ℕ) → at (tick r w) j ≡ at w j
  one_tick w j = slots_after_tick r quiet w j

  two_ticks : (w : World) (j : ℕ) → at (tick r (tick r w)) j ≡ at w j
  two_ticks w j = one_tick (tick r w) j ∙ one_tick w j

  abbrev Grabs : ℕ → World → Option (Tried × World) → Type 0
  Grabs idx w q = (w' : World) × (q ≡ some (grabbed, w')) × Touches idx w w'

  semaphore-Grabs :
      (fuel idx : ℕ) (w : World)
      → ready r.current_tid semaphore (at w idx) ≡ true
      → Grabs idx w (try_semaphore r (suc fuel) idx (at (tick r w) idx).low (tick r w))
  unfolding try_semaphore
  semaphore-Grabs fuel idx w now =
      let left : ((at (tick r w) idx).low == 0) ≡ false =
        rw (one_tick w idx) (ground (arith, now)) in
      let same : ((at (tick r (tick r w)) idx).low == (at (tick r w) idx).low) ≡ true =
        rw (one_tick (tick r w) idx, ==_self) refl in
      (
        write (tick r (tick r w)) idx
            (record (at (tick r (tick r w)) idx) { low = (at (tick r w) idx).low - 1 }),
        rw (left, try_semaphore) (rw same refl),
        write-Touches idx w (tick r (tick r w)) _ (two_ticks w)
            (ap (λ (s : Slot). s.ref) (two_ticks w idx)),
      )

  auto-Grabs :
      (idx : ℕ) (w : World) → ((at w idx).low == 0) ≡ false → Grabs idx w (try_auto r idx w)
  unfolding try_auto
  auto-Grabs idx w now =
      let on : ((at (tick r w) idx).low == 0) ≡ false = rw (one_tick w idx) now in
      elim (Bool-cases ((at (tick r w) idx).low == 1)) [
        | inl one ↦ (
          write (tick r w) idx (record (at (tick r w) idx) { low = 0 }),
          rw on (rw one refl),
          write-Touches idx w (tick r w) _ (one_tick w) (ap (λ (s : Slot). s.ref) (one_tick w idx)),
        )
        | inr more ↦ (tick r w, rw on (rw more refl), same-Touches idx w (tick r w) (one_tick w))
      ]

  mutex-Grabs :
      (idx : ℕ) (w : World)
      → ready r.current_tid mutex (at w idx) ≡ true
      → Grabs idx w (some (grab_mutex r idx w))
  unfolding grab_mutex
  mutex-Grabs idx w now = elim (Bool-cases ((at (tick r w) idx).low == r.current_tid)) [
    | inl mine ↦ (tick r w, rw mine refl, same-Touches idx w (tick r w) (one_tick w))
    | inr other ↦
        let not_mine : ((at w idx).low == r.current_tid) ≡ false = rw (← one_tick w idx) other in
        let free : (at w idx).low ≡ 0 = ground (arith, not_mine, now) in
        let z1 : (at (tick r w) idx).low ≡ 0 = ap (λ (s : Slot). s.low) (one_tick w idx) ∙ free in
        let z2 : (at (tick r (tick r w)) idx).low ≡ 0 =
          ap (λ (s : Slot). s.low) (two_ticks w idx) ∙ free in
        let n : (0 == r.current_tid) ≡ false = ground arith in
        (
          write (tick r (tick r w)) idx
              (record (at (tick r (tick r w)) idx) { low = r.current_tid }),
          rw (z1, n) (rw z2 refl),
          write-Touches idx w (tick r (tick r w)) _ (two_ticks w)
              (ap (λ (s : Slot). s.ref) (two_ticks w idx)),
        )
  ]

  now-Grabs :
      (fuel : ℕ) (t : FsyncType) (idx : ℕ) (w : World)
      → ready r.current_tid t (at w idx) ≡ true
      → Grabs idx w (grab_object_now r (suc fuel) t idx w)
  unfolding grab_object_now
  now-Grabs fuel semaphore idx w now = semaphore-Grabs fuel idx w now
  now-Grabs fuel mutex idx w now = mutex-Grabs idx w now
  now-Grabs fuel auto_event idx w now = auto-Grabs idx w (ground (arith, now))
  now-Grabs fuel auto_server idx w now = auto-Grabs idx w (ground (arith, now))
  now-Grabs fuel manual_event idx w now = (w, refl, same-Touches idx w w (λ j. refl))
  now-Grabs fuel manual_server idx w now = (w, refl, same-Touches idx w w (λ j. refl))
  now-Grabs fuel queue idx w now = (w, refl, same-Touches idx w w (λ j. refl))

  Touches-AllReady :
      (idx : ℕ) (w w' : World) (objs : List (Option Object))
      → Touches idx w w'
      → occurrences idx objs ≡ 0
      → AllReady r.current_tid objs w
      → AllReady r.current_tid objs w'
  Touches-AllReady idx w w' [] t once a = a
  Touches-AllReady idx w w' (none ∷ objs) t once a = Touches-AllReady idx w w' objs t once a
  Touches-AllReady idx w w' (some o ∷ objs) t once (now, alone, a) =
      let n : (idx == o.shm_idx) ≡ false = ground (arith, once) in
      let rest : occurrences idx objs ≡ 0 = ground (arith, once) in
      (rw ((t o.shm_idx).0 n) now, alone, Touches-AllReady idx w w' objs t rest a)

  abbrev pub SameRefs : World → World → Type 0
  SameRefs w w' = (j : ℕ) → (at w' j).ref ≡ (at w j).ref

  pub grab_all-SameRefs :
      (fuel : ℕ) (before : List Object) (objs : List (Option Object)) (w : World)
      → AllReady r.current_tid objs w
      → (w' : World) × (grab_all r (suc fuel) false before objs w ≡ some (all_grabbed false, w'))
        × SameRefs w w'
  unfolding grab_all
  grab_all-SameRefs fuel before [] w a = (w, refl, λ j. refl)
  grab_all-SameRefs fuel before (none ∷ objs) w a = grab_all-SameRefs fuel before objs w a
  grab_all-SameRefs fuel before (some o ∷ objs) w (now, alone, a) =
      let (w1, e, t) = now-Grabs fuel o.type o.shm_idx w now in
      let (w', e', s) =
        grab_all-SameRefs fuel (o ∷ before) objs w1
          (Touches-AllReady o.shm_idx w w1 objs t alone a) in
      (w', rw (e, grab_all) e', λ j. s j ∙ (t j).1)
