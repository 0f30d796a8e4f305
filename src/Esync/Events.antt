-- ===== src/Esync/Events.antt =====
-- Events keep their agreement, server/esync_pro10.c and dlls/ntdll/unix/esync_pro10.c.
use menano.Prelude.{
  ℕ, ◌+◌, ◌-◌, ◌^◌, ◌<◌, ◌≡◌, refl, inl, inr, true, false, arith, ltb, ◌==◌, ==_iff, Bool-cases,
  sym, subst,
}
use menano.Esync.Defs.{
  auto_event, manual_event, Esync, read_fd, write_fd, drain, post, lock, unlock, signal, unsignal,
  server_set_event, server_reset_event, esync_set_event, esync_reset_event, esync_pulse_event,
  check_now, check_polled, update_grabbed_object,
}
use menano.Esync.Agreement.{
  Agreement, Agrees, Call, set_event, reset_event, pulse_event, server_set, server_reset,
  release_semaphore, release_mutex, thread_died, wait_checks, wait_polls, run, Allowed, Keeps, of,
}

-- The two states of a manual-reset event.
module _ (P : Esync → Type 0) where
  pub by_manual :
      (c f s : ℕ)
      → Agreement manual_event c f s
      → P (of manual_event 0 0 0)
      → P (of manual_event 1 1 0)
      → P (of manual_event c f s)
  by_manual c f s (unlocked, same, bit) off on = elim (Bool-cases (f == 0)) [
    | inl h ↦ let e : f ≡ 0 = (==_iff f 0).0 h in rw (same, e, unlocked) off
    | inr h ↦ let e : f ≡ 1 = ground arith in rw (same, e, unlocked) on
  ]

abbrev low_manual : Agrees (of manual_event 0 0 0)
low_manual = (refl, refl, omega arith)

abbrev high_manual : Agrees (of manual_event 1 1 0)
high_manual = (refl, refl, omega arith)

pub manual-Keeps :
    (call : Call) (c f s : ℕ)
    → Agreement manual_event c f s
    → Allowed call (of manual_event c f s)
    → Keeps call (of manual_event c f s)
unfolding run esync_set_event esync_reset_event esync_pulse_event server_set_event
    server_reset_event lock unlock signal unsignal write_fd read_fd check_now check_polled
manual-Keeps set_event c f s a ok =
    by_manual (λ o. Keeps set_event o) c f s a (of manual_event 1 1 0, refl, refl, high_manual)
      (of manual_event 1 1 0, refl, refl, high_manual)
manual-Keeps server_set c f s a ok =
    by_manual (λ o. Keeps server_set o) c f s a (of manual_event 1 1 0, refl, refl, high_manual)
      (of manual_event 1 1 0, refl, refl, high_manual)
manual-Keeps reset_event c f s a ok =
    by_manual (λ o. Keeps reset_event o) c f s a (of manual_event 0 0 0, refl, refl, low_manual)
      (of manual_event 0 0 0, refl, refl, low_manual)
manual-Keeps server_reset c f s a ok =
    by_manual (λ o. Keeps server_reset o) c f s a (of manual_event 0 0 0, refl, refl, low_manual)
      (of manual_event 0 0 0, refl, refl, low_manual)
manual-Keeps pulse_event c f s a ok =
    by_manual (λ o. Allowed pulse_event o → Keeps pulse_event o) c f s a
      (λ k. (of manual_event 0 0 0, refl, refl, low_manual))
      (λ k. absurd (let z = k refl in omega arith)) ok
manual-Keeps (release_semaphore n) c f s a (t, _) = absurd (ground arith)
manual-Keeps (release_mutex tid) c f s a (t, _) = absurd (ground arith)
manual-Keeps (thread_died tid) c f s a (t, _) = absurd (ground arith)
manual-Keeps (wait_checks tid) c f s a ok =
    by_manual (λ o. Keeps (wait_checks tid) o) c f s a
      (of manual_event 0 0 0, refl, refl, low_manual)
      (of manual_event 1 1 0, refl, refl, high_manual)
manual-Keeps (wait_polls tid true) c f s a ok = (of manual_event c f s, refl, refl, a)
manual-Keeps (wait_polls tid false) c f s a ok = (of manual_event c f s, refl, refl, a)

module _ (c s : ℕ) (small : c < 2 ^ 64 - 1) (positive : 0 < c) where
  abbrev on : Esync
  on = of auto_event c 1 s

  readable : (c == 0) ≡ false
  readable = ground arith

  abbrev cleared : Agrees (of auto_event 0 0 s)
  cleared = (omega arith, inl (refl, refl))

  auto_on-Keeps : (call : Call) → Allowed call on → Keeps call on
  unfolding run esync_set_event esync_reset_event esync_pulse_event server_set_event
      server_reset_event lock unlock signal unsignal write_fd read_fd check_now check_polled
      update_grabbed_object
  auto_on-Keeps set_event ok = elim (Bool-cases (ltb (2 ^ 64 - 2) (c + 1))) [
    | inl over ↦
        (on, rw (over, write_fd, post, signal, unlock) refl, refl, (small, inr (refl, positive)))
    | inr fits ↦ (
      of auto_event (c + 1) 1 s,
      rw (fits, write_fd, post, signal, unlock) refl,
      refl,
      (ground arith, inr (refl, omega arith)),
    )
  ]
  auto_on-Keeps server_set ok = (on, refl, refl, (small, inr (refl, positive)))
  auto_on-Keeps reset_event ok =
      (of auto_event 0 0 s, rw (readable, read_fd, drain, unsignal, unlock) refl, refl, cleared)
  auto_on-Keeps server_reset ok =
      (of auto_event 0 0 s, rw (readable, read_fd, drain, unsignal, unlock) refl, refl, cleared)
  auto_on-Keeps pulse_event ok = absurd (let z = ok refl in omega arith)
  auto_on-Keeps (release_semaphore n) (t, _) = absurd (ground arith)
  auto_on-Keeps (release_mutex tid) (t, _) = absurd (ground arith)
  auto_on-Keeps (thread_died tid) (t, _) = absurd (ground arith)
  auto_on-Keeps (wait_checks tid) ok = (of auto_event 0 0 s, rw readable refl, refl, cleared)
  auto_on-Keeps (wait_polls tid r) ok = (of auto_event 0 0 s, rw readable refl, refl, cleared)

module _ (s : ℕ) where
  abbrev off : Esync
  off = of auto_event 0 0 s

  abbrev is_off : Agrees off
  is_off = (omega arith, inl (refl, refl))

  abbrev is_on : Agrees (of auto_event 1 1 s)
  is_on = (omega arith, inr (refl, omega arith))

  auto_off-Keeps : (call : Call) → Allowed call off → Keeps call off
  unfolding run esync_set_event esync_reset_event esync_pulse_event server_set_event
      server_reset_event lock unlock signal unsignal write_fd read_fd check_now check_polled
      update_grabbed_object
  auto_off-Keeps set_event ok = (of auto_event 1 1 s, refl, refl, is_on)
  auto_off-Keeps server_set ok = (of auto_event 1 1 s, refl, refl, is_on)
  auto_off-Keeps reset_event ok = (off, refl, refl, is_off)
  auto_off-Keeps server_reset ok = (off, refl, refl, is_off)
  auto_off-Keeps pulse_event ok = (off, refl, refl, is_off)
  auto_off-Keeps (release_semaphore n) (t, _) = absurd (ground arith)
  auto_off-Keeps (release_mutex tid) (t, _) = absurd (ground arith)
  auto_off-Keeps (thread_died tid) (t, _) = absurd (ground arith)
  auto_off-Keeps (wait_checks tid) ok = (off, refl, refl, is_off)
  auto_off-Keeps (wait_polls tid r) ok = (off, refl, refl, is_off)

pub auto-Keeps :
    (call : Call) (c f s : ℕ)
    → Agreement auto_event c f s
    → Allowed call (of auto_event c f s)
    → Keeps call (of auto_event c f s)
auto-Keeps call c f s (small, inl (e, z)) ok =
    subst (λ n. Keeps call (of auto_event n f s)) (sym z)
      (subst (λ n. Keeps call (of auto_event 0 n s)) (sym e)
        (auto_off-Keeps s call (
          subst (λ n. Allowed call (of auto_event 0 n s)) e
            (subst (λ n. Allowed call (of auto_event n f s)) z ok))))
auto-Keeps call c f s (small, inr (e, positive)) ok =
    subst (λ n. Keeps call (of auto_event c n s)) (sym e)
      (auto_on-Keeps c s small positive call (subst (λ n. Allowed call (of auto_event c n s)) e ok))
