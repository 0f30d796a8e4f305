-- ===== src/Esync/Tests.antt =====
-- The theorems on server/esync_pro10.c and dlls/ntdll/unix/esync_pro10.c at concrete objects.
use menano.Prelude.{
  ℕ, suc, ◌+◌, ◌<◌, ◌≤◌, ◌^◌, ◌-◌, ◌≡◌, ap, refl, ◌⊎◌, inl, inr, true, not, Option, none, some, [],
  ◌∷◌, arith, ◌==◌, if◌then◌else◌,
}
use menano.Esync.Defs.{
  semaphore, auto_event, manual_event, mutex, Esync, create_esync, check_polled, taken, write_fd,
  grow, esync_set_event, lock, unlock, signal,
}
use menano.Esync.Agreement.{Agrees, of, set_event, wait_checks, run}
use menano.Esync.Invariant.{runs, AllAllowed, runs-Agrees, create_esync-Agrees}
use menano.Esync.Pulse.{Settles, manual_event-Settles, Tears, pulse_event-Tears}
use menano.Esync.WaitAll.{
  Store, World, Caller, ready, Ended, finished, abandoned, wait_all, all_readable, grab_all,
  too_slow,
}
use menano.Esync.Stalls.{wait_all_stalls, grab_all_phantom}
use menano.Esync.Grabs.{Changed, had, wait_all-Changed}
use menano.Esync.Growth.{grow_lem}

same_second : (o o' : Esync) → some o ≡ some o' → o.second ≡ o'.second
same_second o o' e = ap (λ (q : Option Esync). elim q [ none ↦ o.second | some x ↦ x.second ]) e

-- An auto-reset event is set, and a thread waits on it.
event_allowed : AllAllowed (set_event ∷ wait_checks 5 ∷ []) (of auto_event 0 0 0)
unfolding run esync_set_event lock unlock signal write_fd
event_allowed = (tt, λ o' e. (((omega arith, omega arith), small o' e), (λ o2 e2. tt)))
  where
    small : (o' : Esync) → run set_event (of auto_event 0 0 0) ≡ some o' → o'.second < 2 ^ 32 - 1
    small o' e = omega (arith, same_second (of auto_event 1 1 0) o' e)

runs-Agrees_example :
    (o' : Esync) × (runs (set_event ∷ wait_checks 5 ∷ []) (of auto_event 0 0 0) ≡ some o')
    × (o'.type ≡ auto_event)
    × Agrees o'
runs-Agrees_example =
    runs-Agrees (set_event ∷ wait_checks 5 ∷ []) (of auto_event 0 0 0)
      (omega arith, inl (refl, refl)) event_allowed

create_esync-Agrees_test :
    (o : Esync) × (create_esync 5 mutex 0 0 ≡ some o) × (o.type ≡ mutex) × Agrees o
create_esync-Agrees_test = create_esync-Agrees 5 mutex 0 0 (omega arith, (omega arith, omega arith))

manual_event-Settles_example : Settles 5 (of manual_event 0 0 0)
manual_event-Settles_example =
    manual_event-Settles 5 (of manual_event 0 0 0) refl (refl, refl, omega arith)

pulse_event-Tears_example : Tears 5 (of manual_event 1 1 0)
pulse_event-Tears_example =
    pulse_event-Tears 5 (of manual_event 1 1 0) refl (refl, refl, omega arith) refl

grow_lem_test :
    (size : ℕ) × (grow 4096 1025 (suc 8200) 4096 ≡ some size)
    × (8200 < size)
    × (4096 ≤ size)
    × ((size ≡ 4096) ⊎ (size ≤ 8200 + 4096))
grow_lem_test = grow_lem 4096 1024 8200 4096 (omega arith) (omega arith)

-- Nobody else is at work, and whatever is polled is ready.
abbrev alone : Caller
alone = record { current_tid = 5; others = λ n s. s; poll = λ i n. ready }

-- The thread has the mutex 0; the semaphore 1 can be taken.
abbrev mine_and_more : World
mine_and_more = record {
  store = λ i. if i == 0 then of mutex 0 5 1 else of semaphore 2 3 2;
  time = 0;
}

wait_all_stalls_example : wait_all alone 100 (1 ∷ 0 ∷ []) mine_and_more ≡ none
wait_all_stalls_example =
    wait_all_stalls alone 0 (λ n s a. a) (λ i n. refl) 100 (1 ∷ 0 ∷ []) mine_and_more
      (inr (inl refl)) (refl, refl, refl)

-- Other threads have reset the event 0 and taken the event 1.
abbrev disturbed : Caller
disturbed = record {
  current_tid = 5;
  others = λ n s i. if i == 0 then of manual_event 0 0 0 else of auto_event 0 0 0;
  poll = λ i n. ready;
}

grab_all_phantom_example :
    (s : Store) × (grab_all disturbed [] (0 ∷ 1 ∷ []) mine_and_more ≡ too_slow (true, s) 2)
    × ((s 0).first ≡ 0)
    × (check_polled 5 (not ((s 0).counter == 0)) (s 0) ≡ some (taken, s 0))
grab_all_phantom_example = grab_all_phantom disturbed 0 1 mine_and_more (omega arith) refl refl refl

-- A free mutex and a semaphore.
abbrev both_free : World
both_free = record { store = λ i. if i == 0 then of mutex 1 0 0 else of semaphore 2 3 2; time = 0 }

both_readable : all_readable (0 ∷ 1 ∷ []) both_free.store ≡ true
unfolding all_readable
both_readable = refl

wait_all-Changed_example :
    (e : Ended) × (w' : World) × (wait_all alone 1 (0 ∷ 1 ∷ []) both_free ≡ some (e, w'))
    × ((e ≡ finished) ⊎ (e ≡ abandoned))
    × Changed (λ o. had 5 o) (0 ∷ 1 ∷ []) both_free.store w'.store
wait_all-Changed_example =
    wait_all-Changed alone (λ n s. refl) (λ i n. refl) 0 (0 ∷ 1 ∷ []) both_free (refl, (refl, tt))
      both_readable
