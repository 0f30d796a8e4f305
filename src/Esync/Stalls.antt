-- ===== src/Esync/Stalls.antt =====
-- __esync_wait_objects of dlls/ntdll/unix/esync_pro10.c: waits for all objects that go wrong.
use menano.Prelude.{
  ℕ, zero, suc, ◌≡◌, refl, ◌≢◌, ◌⊎◌, inl, inr, true, false, not, none, some, List, [], ◌∷◌, ◌==◌,
  ==_self, Bool-cases, ap, ◌∙◌,
}
use menano.Esync.Defs.{
  Esync, mutex, manual_event, auto_event, read_fd, write_fd, check_polled, taken,
}
use menano.Esync.Agreement.{of}
use menano.Esync.WaitAll.{
  Store, put, World, ready, Caller, tick, own, Polled, all_polled, stopped, poll_each, all_readable,
  is_grabbed, put_back, Grab, too_slow, grab_one, grab_all, with_store, after_polls, wait_all,
}

-- A mutex of the thread, whose descriptor only the thread makes readable.
abbrev pub IsOwn : ℕ → Esync → Type 0
IsOwn tid o = (o.type ≡ mutex) × (o.first ≡ tid) × (o.counter ≡ 0)

-- Other threads leave it to the thread.
abbrev pub LeavesOwn : Caller → ℕ → Type 0
LeavesOwn r i =
    (n : ℕ) (s : Store) → IsOwn r.current_tid (s i) → IsOwn r.current_tid (r.others n s i)

abbrev pub AllReady : Caller → Type 0
AllReady r = (i n : ℕ) → r.poll i n ≡ ready

-- Whether an object is among those of a wait.
abbrev pub Among : ℕ → List ℕ → Type 0
Among i [] = ⊥
Among i (j ∷ ids) = (j ≡ i) ⊎ Among i ids

module _ (r : Caller) (i : ℕ) (leaves : LeavesOwn r i) (polls : AllReady r) where
  -- Polling each object ends with every one polled, and the mutex is still the thread's.
  abbrev StillOwn : Polled → Type 0
  StillOwn (all_polled w) = IsOwn r.current_tid (w.store i)
  StillOwn (stopped e w) = ⊥

  poll_each-StillOwn :
      (ids : List ℕ) (w : World) → IsOwn r.current_tid (w.store i) → StillOwn (poll_each r ids w)
  unfolding poll_each
  poll_each-StillOwn [] w a = a
  poll_each-StillOwn (j ∷ ids) w a = elim (Bool-cases (own r.current_tid (w.store j))) [
    | inl mine ↦ rw (mine, poll_each) (poll_each-StillOwn ids w a)
    | inr other ↦
        rw (other, polls j w.time, poll_each)
          (poll_each-StillOwn ids (tick r w) (leaves w.time w.store a))
  ]

  not_readable :
      (ids : List ℕ) (s : Store)
      → Among i ids
      → IsOwn r.current_tid (s i)
      → all_readable ids s ≡ false
  unfolding all_readable
  not_readable [] s m a = absurd m
  not_readable (j ∷ ids) s (inl e) (t, f, z) = rw (e, z) refl
  not_readable (j ∷ ids) s (inr m) a = elim (Bool-cases ((s j).counter == 0)) [
    | inl gone ↦ rw gone refl
    | inr there ↦ rw (there, not_readable ids s m a) refl
  ]

  -- A wait for all of several objects, of which one is a mutex that the thread has already, never ends
  -- though every other object is ready, whatever other threads do to them: the mutex is passed over
  -- where each object is polled in turn, but is missing from the poll of all of them together.
  pub wait_all_stalls :
      (fuel : ℕ) (ids : List ℕ) (w : World)
      → Among i ids
      → IsOwn r.current_tid (w.store i)
      → wait_all r fuel ids w ≡ none
  unfolding wait_all after_polls
  wait_all_stalls zero ids w m a = refl
  wait_all_stalls (suc fuel) ids w m a =
      by_polled (poll_each r ids w) (poll_each-StillOwn ids w a)
        (λ w' a'. wait_all_stalls fuel ids w' m a')
    where
      by_polled :
          (p : Polled)
          → StillOwn p
          → ((w' : World) → IsOwn r.current_tid (w'.store i) → wait_all r fuel ids w' ≡ none)
          → after_polls r ids p (λ w'. wait_all r fuel ids w') ≡ none
      by_polled (stopped e w1) s again = absurd s
      by_polled (all_polled w1) s again =
          let kept = leaves w1.time w1.store s in
          rw (not_readable ids (r.others w1.time w1.store) m kept, after_polls)
            (again (tick r w1) kept)

module _ (r : Caller) (before : List ℕ) (i : ℕ) (next : World → Grab) (w : World) where
  pub grab_one-looked :
      is_grabbed r.current_tid (w.store i) ≡ false → grab_one r before i next w ≡ next w
  unfolding grab_one
  grab_one-looked e = rw (e, grab_one) refl

  pub grab_one-read :
      (o : Esync)
      → is_grabbed r.current_tid (w.store i) ≡ true
      → read_fd (w.store i) ≡ some o
      → grab_one r before i next w ≡ next (with_store w (put w.store i o))
  unfolding grab_one
  grab_one-read o e f = rw (e, grab_one) (rw f refl)

  grab_one-late :
      is_grabbed r.current_tid (w.store i) ≡ true
      → read_fd (w.store i) ≡ none
      → grab_one r before i next w ≡ too_slow (put_back r.current_tid before w.store) w.time
  unfolding grab_one
  grab_one-late e f = rw (e, grab_one) (rw f refl)

put_back_reset :
    (tid j : ℕ) (s : Store)
    → s j ≡ of manual_event 0 0 0
    → put_back tid (j ∷ []) s ≡ (true, put s j (of manual_event 1 0 0))
unfolding put_back write_fd
put_back_reset tid j s e = rw (e, put_back) (rw (e, write_fd) refl)

-- Putting back makes a manual-reset event that another thread has reset readable, though it is not
-- signaled: where a wait for the events `j` and `k` finds `k` taken by another thread, `j` is left with
-- a counter that disagrees, and a poll takes it for signaled.
pub grab_all_phantom :
    (r : Caller) (j k : ℕ) (w : World)
    → j ≢ k
    → r.others w.time w.store j ≡ of manual_event 0 0 0
    → r.others (suc w.time) (r.others w.time w.store) j ≡ of manual_event 0 0 0
    → r.others (suc w.time) (r.others w.time w.store) k ≡ of auto_event 0 0 0
    → (s : Store) × (grab_all r [] (j ∷ k ∷ []) w ≡ too_slow (true, s) (suc (suc w.time)))
      × ((s j).first ≡ 0)
      × (check_polled r.current_tid (not ((s j).counter == 0)) (s j) ≡ some (taken, s j))
unfolding grab_all read_fd check_polled
grab_all_phantom r j k w differ e1 e2 e3 =
    let s2 = r.others (suc w.time) (r.others w.time w.store) in
    (
      put s2 j (of manual_event 1 0 0),
      grab_one-looked r [] j _ (tick r w) (rw e1 refl)
          ∙ grab_one-late r (j ∷ []) k _ (tick r (tick r w)) (rw e3 refl) (rw (e3, read_fd) refl)
          ∙ ap (λ p. too_slow p (suc (suc w.time))) (put_back_reset r.current_tid j s2 e2),
      rw (==_self j) refl,
      rw (==_self j) refl,
    )
