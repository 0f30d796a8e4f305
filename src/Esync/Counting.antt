-- ===== src/Esync/Counting.antt =====
-- Semaphores, mutexes and the server's own objects keep their agreement,
-- server/esync_pro10.c and dlls/ntdll/unix/esync_pro10.c.
use menano.Prelude.{
  ℕ, ◌+◌, ◌-◌, ◌%◌, ◌^◌, ◌≤◌, ◌<◌, ◌≡◌, refl, ◌⊎◌, inl, inr, false, arith, ltb, ◌==◌, ==_iff,
  Bool-cases, sym, subst,
}
use menano.ServerFsync.Objects.{abandoned_tid}
use menano.Esync.Defs.{
  semaphore, mutex, Esync, read_fd, write_fd, abandon, esync_set_event, esync_reset_event,
  esync_pulse_event, esync_release_semaphore, esync_release_mutex, check_now, check_polled,
  update_grabbed_object,
}
use menano.Esync.Agreement.{
  Agreement, Agrees, Call, set_event, reset_event, pulse_event, server_set, server_reset,
  release_semaphore, release_mutex, thread_died, wait_checks, wait_polls, run, IsThread, Allowed,
  Keeps, of,
}

module _ (max n : ℕ) (le : n ≤ max) (small : max < 2 ^ 31) where
  abbrev counting : Esync
  counting = of semaphore n max n

  abbrev unchanged : Agrees counting
  unchanged = (refl, le, small)

  abbrev lower : Agrees (of semaphore (n - 1) max (n - 1))
  lower = (refl, omega arith, small)

  semaphore_at-Keeps : (call : Call) → Allowed call counting → Keeps call counting
  unfolding run esync_set_event esync_reset_event esync_pulse_event esync_release_semaphore write_fd
      read_fd check_now check_polled update_grabbed_object
  semaphore_at-Keeps set_event ok = (counting, refl, refl, unchanged)
  semaphore_at-Keeps reset_event ok = (counting, refl, refl, unchanged)
  semaphore_at-Keeps pulse_event ok = (counting, refl, refl, unchanged)
  semaphore_at-Keeps server_set ok = absurd (ground arith)
  semaphore_at-Keeps server_reset ok = absurd (ground arith)
  semaphore_at-Keeps (release_semaphore k) (_, few) =
      let sum : (k + n) % 2 ^ 32 ≡ k + n = omega arith in
      elim (Bool-cases (ltb max (k + n))) [
        | inl over ↦ (counting, rw sum (rw over refl), refl, unchanged)
        | inr fits ↦
            let room : ltb (2 ^ 64 - 2) (n + k) ≡ false = ground arith in
            (
              of semaphore (n + k) max (k + n),
              rw sum (rw fits (rw room refl)),
              refl,
              (omega arith, ground arith, small),
            )
      ]
  semaphore_at-Keeps (release_mutex tid) (t, _) = absurd (ground arith)
  semaphore_at-Keeps (thread_died tid) (t, _) = absurd (ground arith)
  semaphore_at-Keeps (wait_checks tid) ok = elim (Bool-cases (n == 0)) [
    | inl gone ↦ (counting, rw gone refl, refl, unchanged)
    | inr some_left ↦
        let less : (n + 2 ^ 32 - 1) % 2 ^ 32 ≡ n - 1 = ground arith in
        (of semaphore (n - 1) max (n - 1), rw some_left (rw less refl), refl, lower)
  ]
  semaphore_at-Keeps (wait_polls tid r) ok = elim (Bool-cases (n == 0)) [
    | inl gone ↦ (counting, rw gone refl, refl, unchanged)
    | inr some_left ↦
        let less : (n + 2 ^ 32 - 1) % 2 ^ 32 ≡ n - 1 = ground arith in
        (of semaphore (n - 1) max (n - 1), rw some_left (rw less refl), refl, lower)
  ]

pub semaphore-Keeps :
    (call : Call) (c f s : ℕ)
    → Agreement semaphore c f s
    → Allowed call (of semaphore c f s)
    → Keeps call (of semaphore c f s)
semaphore-Keeps call c f s (same, le, small) ok =
    subst (λ n. Keeps call (of semaphore n f s)) (sym same)
      (semaphore_at-Keeps f s le small call
        (subst (λ n. Allowed call (of semaphore n f s)) same ok))

-- A mutex that a thread has.
module _ (f s : ℕ) (positive : 0 < s) (small : s < 2 ^ 32) (tid : IsThread f) where
  abbrev owned : Esync
  owned = of mutex 0 f s

  abbrev still : Agrees owned
  still = inr (positive, small, refl, tid.0, tid.1)

  abbrev given_up : Agrees (of mutex 1 0 0)
  given_up = inl (refl, refl, inl refl)

  owned-Keeps : (call : Call) → Allowed call owned → Keeps call owned
  unfolding run esync_set_event esync_reset_event esync_pulse_event esync_release_mutex abandon
      write_fd read_fd check_now check_polled update_grabbed_object
  owned-Keeps set_event ok = (owned, refl, refl, still)
  owned-Keeps reset_event ok = (owned, refl, refl, still)
  owned-Keeps pulse_event ok = (owned, refl, refl, still)
  owned-Keeps server_set ok = absurd (ground arith)
  owned-Keeps server_reset ok = absurd (ground arith)
  owned-Keeps (release_semaphore k) (t, _) = absurd (ground arith)
  owned-Keeps (release_mutex caller) ok = elim (Bool-cases (f == caller)) [
    | inr other ↦ (owned, rw other refl, refl, still)
    | inl mine ↦
        let less : (s + 2 ^ 32 - 1) % 2 ^ 32 ≡ s - 1 = omega arith in
        elim (Bool-cases (s - 1 == 0)) [
          | inl last ↦
              let z : s - 1 ≡ 0 = (==_iff _ _).0 last in
              (of mutex 1 0 0, rw (mine, less) (rw z refl), refl, given_up)
          | inr more ↦ (
            of mutex 0 f (s - 1),
            rw (mine, less) (rw more refl),
            refl,
            inr (ground arith, omega arith, refl, tid.0, tid.1),
          )
        ]
  ]
  owned-Keeps (thread_died dead) ok = elim (Bool-cases (f == dead)) [
    | inr other ↦ (owned, rw other refl, refl, still)
    | inl its ↦ (of mutex 1 abandoned_tid 0, rw its refl, refl, inl (refl, refl, inr refl))
  ]
  owned-Keeps (wait_checks caller) (_, room) = elim (Bool-cases (f == caller)) [
    | inl mine ↦
        let more : (s + 1) % 2 ^ 32 ≡ s + 1 = omega arith in
        (
          of mutex 0 f (s + 1),
          rw mine (rw more refl),
          refl,
          inr (omega arith, omega arith, refl, tid.0, tid.1),
        )
    | inr other ↦
        let taken_by : (s == 0) ≡ false = ground arith in
        (owned, rw other (rw taken_by refl), refl, still)
  ]
  owned-Keeps (wait_polls caller r) ok = (owned, refl, refl, still)

-- A mutex that nobody has, or whose owner died.
module _ (f : ℕ) (nobody : (f ≡ 0) ⊎ (f ≡ abandoned_tid)) where
  abbrev free : Esync
  free = of mutex 1 f 0

  abbrev still_free : Agrees free
  still_free = inl (refl, refl, nobody)

  abbrev now_owned : (tid : ℕ) → IsThread tid → Agrees (of mutex 0 tid 1)
  now_owned tid (n, m) = inr (omega arith, omega arith, refl, n, m)

  not_owner : (tid : ℕ) → IsThread tid → (f == tid) ≡ false
  not_owner tid (n, m) = elim nobody [ inl e ↦ rw e (ground arith) | inr e ↦ rw e (ground arith) ]

  free-Keeps : (call : Call) → Allowed call free → Keeps call free
  unfolding run esync_set_event esync_reset_event esync_pulse_event esync_release_mutex abandon
      write_fd read_fd check_now check_polled update_grabbed_object
  free-Keeps set_event ok = (free, refl, refl, still_free)
  free-Keeps reset_event ok = (free, refl, refl, still_free)
  free-Keeps pulse_event ok = (free, refl, refl, still_free)
  free-Keeps server_set ok = absurd (ground arith)
  free-Keeps server_reset ok = absurd (ground arith)
  free-Keeps (release_semaphore k) (t, _) = absurd (ground arith)
  free-Keeps (release_mutex caller) (_, tid) =
      (free, rw (not_owner caller tid) refl, refl, still_free)
  free-Keeps (thread_died dead) (_, tid) = (free, rw (not_owner dead tid) refl, refl, still_free)
  free-Keeps (wait_checks caller) (tid, _) =
      (of mutex 0 caller 1, rw (not_owner caller tid) refl, refl, now_owned caller tid)
  free-Keeps (wait_polls caller r) (tid, _) =
      (of mutex 0 caller 1, refl, refl, now_owned caller tid)

pub mutex-Keeps :
    (call : Call) (c f s : ℕ)
    → Agreement mutex c f s
    → Allowed call (of mutex c f s)
    → Keeps call (of mutex c f s)
mutex-Keeps call c f s (inl (z, one, nobody)) ok =
    subst (λ n. Keeps call (of mutex n f s)) (sym one)
      (subst (λ n. Keeps call (of mutex 1 f n)) (sym z)
        (free-Keeps f nobody call (
          subst (λ n. Allowed call (of mutex 1 f n)) z
            (subst (λ n. Allowed call (of mutex n f s)) one ok))))
mutex-Keeps call c f s (inr (positive, small, z, n, m)) ok =
    subst (λ n. Keeps call (of mutex n f s)) (sym z)
      (owned-Keeps f s positive small (n, m) call (subst (λ n. Allowed call (of mutex n f s)) z ok))
