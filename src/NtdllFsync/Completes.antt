-- ===== src/NtdllFsync/Completes.antt =====
-- __fsync_wait_objects of dlls/ntdll/unix/fsync_pro10.c: a wait for all objects that nobody disturbs.
use menano.Prelude.{
  ℕ, suc, ◌+◌, ◌%◌, ◌^◌, ◌<◌, ◌≡◌, refl, ◌≢◌, inl, inr, Bool, true, false, ◌&&◌, Option, none, some,
  List, [], ◌∷◌, arith, ◌==◌, Bool-cases, ap, ◌∙◌, sym, subst,
}
use menano.ServerFsync.Defs.{Slot}
use menano.ServerFsync.Objects.{
  FsyncType, semaphore, auto_event, manual_event, mutex, auto_server, manual_server, queue,
}
use menano.NtdllFsync.Defs.{Object, Status, success}
use menano.NtdllFsync.Wait.{World, Caller, at, write, tick, leave}
use menano.NtdllFsync.Grab.{ready}
use menano.NtdllFsync.Progress.{Quiet}
use menano.NtdllFsync.PutBack.{occurrences, Held, put_objects-Returned}
use menano.NtdllFsync.WaitAll.{
  Kernel, look_on, is_mutex, own, keeps_waiting, still_signaled, wait_single, wait_each, check_all,
  count_mutexes, after_check, after_wait, after_grab, wait_all,
}
use menano.NtdllFsync.GrabsAll.{AllReady, write-Touches, one_tick, SameRefs, grab_all-SameRefs}

module _ (r : Caller) (quiet : Quiet r) (tid : r.current_tid ≢ 0) where
  same-AllReady :
      (w w' : World) (objs : List (Option Object))
      → ((j : ℕ) → at w' j ≡ at w j)
      → AllReady r.current_tid objs w
      → AllReady r.current_tid objs w'
  same-AllReady w w' [] same a = a
  same-AllReady w w' (none ∷ objs) same a = same-AllReady w w' objs same a
  same-AllReady w w' (some o ∷ objs) same (now, alone, a) =
      (rw (same o.shm_idx) now, alone, same-AllReady w w' objs same a)

  stops_waiting :
      (t : FsyncType) (m : Slot)
      → ready r.current_tid t m ≡ true
      → (is_mutex t && m.low == r.current_tid) ≡ false
      → keeps_waiting t m.low ≡ false
  stops_waiting mutex m now other = ground (arith, now, other)
  stops_waiting semaphore m now other = ground (arith, now)
  stops_waiting auto_event m now other = ground (arith, now)
  stops_waiting auto_server m now other = ground (arith, now)
  stops_waiting manual_event m now other = ground (arith, now)
  stops_waiting manual_server m now other = ground (arith, now)
  stops_waiting queue m now other = ground (arith, now)

  signaled_still :
      (t : FsyncType) (m : Slot)
      → ready r.current_tid t m ≡ true
      → still_signaled r.current_tid t m.low ≡ true
  signaled_still mutex m now = ground (arith, now)
  signaled_still semaphore m now = now
  signaled_still auto_event m now = now
  signaled_still auto_server m now = now
  signaled_still manual_event m now = now
  signaled_still manual_server m now = now
  signaled_still queue m now = now

  wait_each_ready :
      (single : Kernel) (alertable : Bool) (fuel : ℕ) (objs : List (Option Object)) (w : World)
      → AllReady r.current_tid objs w
      → (w' : World) × (wait_each r single alertable (suc fuel) objs w ≡ some (look_on, w'))
        × ((j : ℕ) → at w' j ≡ at w j)
  unfolding wait_each wait_single
  wait_each_ready single alertable fuel [] w a = (w, refl, λ j. refl)
  wait_each_ready single alertable fuel (none ∷ objs) w a =
      wait_each_ready single alertable fuel objs w a
  wait_each_ready single alertable fuel (some o ∷ objs) w (now, alone, a) =
      elim (Bool-cases (own r.current_tid o w)) [
        | inl mine ↦
            let (w', e, s) = wait_each_ready single alertable fuel objs w a in
            (w', rw (mine, wait_each) e, s)
        | inr other ↦
            let stops : keeps_waiting o.type (at (tick r w) o.shm_idx).low ≡ false =
              rw (one_tick r quiet tid w o.shm_idx)
                (stops_waiting o.type (at w o.shm_idx) now other) in
            let (w', e, s) =
              wait_each_ready single alertable fuel objs (tick r w)
                (same-AllReady w (tick r w) objs (one_tick r quiet tid w) a) in
            (
              w',
              rw (other, wait_each) (rw (stops, wait_single) e),
              λ j. s j ∙ one_tick r quiet tid w j,
            )
      ]

  check_all_ready :
      (objs : List (Option Object)) (w : World)
      → AllReady r.current_tid objs w
      → (w' : World) × (check_all r objs w ≡ (true, w')) × ((j : ℕ) → at w' j ≡ at w j)
  unfolding check_all
  check_all_ready [] w a = (w, refl, λ j. refl)
  check_all_ready (none ∷ objs) w a = check_all_ready objs w a
  check_all_ready (some o ∷ objs) w (now, alone, a) =
      let still : still_signaled r.current_tid o.type (at (tick r w) o.shm_idx).low ≡ true =
        rw (one_tick r quiet tid w o.shm_idx) (signaled_still o.type (at w o.shm_idx) now) in
      let (w', e, s) =
        check_all_ready objs (tick r w)
          (same-AllReady w (tick r w) objs (one_tick r quiet tid w) a) in
      (w', rw (still, check_all) e, λ j. s j ∙ one_tick r quiet tid w j)

  count_mutexes-SameRefs :
      (objs : List (Option Object)) (w : World) → SameRefs r quiet tid w (count_mutexes objs w)
  unfolding count_mutexes
  count_mutexes-SameRefs [] w = λ j. refl
  count_mutexes-SameRefs (none ∷ objs) w = count_mutexes-SameRefs objs w
  count_mutexes-SameRefs (some o ∷ objs) w =
      let m = at w o.shm_idx in
      let v : Slot = record m { high = (m.high + 1) % 2 ^ 32 } in
      elim (Bool-cases (is_mutex o.type)) [
        | inr other ↦ rw (other, count_mutexes) (count_mutexes-SameRefs objs w)
        | inl counted ↦
            let same = write-Touches o.shm_idx w w v (λ i. refl) refl in
            rw (counted, count_mutexes)
              (λ j. count_mutexes-SameRefs objs (write w o.shm_idx v) j ∙ (same j).1)
      ]

  SameRefs-Held :
      (objs : List (Option Object)) (w w' : World)
      → SameRefs r quiet tid w w'
      → Held objs w.client
      → Held objs w'.client
  SameRefs-Held objs w w' same h j n =
      let (many, small) = h j n in
      (
        subst (λ k. occurrences j objs < k) (sym (same j)) many,
        subst (λ k. k < 2 ^ 32) (sym (same j)) small,
      )

  leaves :
      (objs : List (Option Object)) (status : Status) (w : World)
      → Held objs w.client
      → (w' : World) × (leave r objs status w ≡ some (status, w'))
  unfolding leave
  leaves objs status w h =
      let (w', e, _, _) = put_objects-Returned r objs w h in (w', rw (e, leave) refl)

  -- With no other thread at work, a wait for all of several objects that the thread can take, none of
  -- them an abandoned mutex and no index twice, succeeds in the first round, if the references of the
  -- wait to its objects are not the last ones.
  pub wait_all_succeeds :
      (single : Kernel) (alertable : Bool) (fuel : ℕ) (objs : List (Option Object)) (w : World)
      → AllReady r.current_tid objs w
      → Held objs w.client
      → (w' : World) × (wait_all r single (suc (suc fuel)) alertable objs w ≡ some (success, w'))
  unfolding wait_all after_wait after_check after_grab
  wait_all_succeeds single alertable fuel objs w a h =
      let (w1, e1, s1) = wait_each_ready single alertable fuel objs w a in
      let (w2, e2, s2) = check_all_ready objs w1 (same-AllReady w w1 objs s1 a) in
      let same : (j : ℕ) → at w2 j ≡ at w j = λ j. s2 j ∙ s1 j in
      let (w3, e3, s3) =
        grab_all-SameRefs r quiet tid fuel [] objs w2 (same-AllReady w w2 objs same a) in
      let refs : SameRefs r quiet tid w (count_mutexes objs w3) =
        λ j. count_mutexes-SameRefs objs w3 j ∙ s3 j ∙ ap (λ (s : Slot). s.ref) (same j) in
      let (w', e) =
        leaves objs success (count_mutexes objs w3)
          (SameRefs-Held objs w (count_mutexes objs w3) refs h) in
      let again = λ (u : World). wait_all r single (suc fuel) alertable objs u in
      (
        w',
        rw (e1, wait_all)
            (ap (λ p. after_check r (suc fuel) objs p again) e2 ∙ rw (e3, after_check) e),
      )
