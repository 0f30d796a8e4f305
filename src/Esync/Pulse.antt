-- ===== src/Esync/Pulse.antt =====
-- Events of dlls/ntdll/unix/esync_pro10.c and server/esync_pro10.c: what a set, a reset and a pulse
-- leave for a wait.
use menano.Prelude.{ℕ, ◌≡◌, refl, true, false, none, some, ◌∙◌, sym, subst}
use menano.Esync.Defs.{
  manual_event, Esync, success, read_fd, write_fd, lock, unlock, signal, unsignal, esync_set_event,
  esync_reset_event, esync_pulse_event, esync_query_event, server_set_event, server_reset_event,
  check_now, check_polled, taken,
}
use menano.Esync.Agreement.{Agreement, Agrees, of}
use menano.Esync.Events.{by_manual}

-- A wait takes the event at once.
abbrev pub IsSignaled : ℕ → Esync → Type 0
IsSignaled tid o =
    (esync_query_event o ≡ true) × ((o' : Esync) × (check_now tid o ≡ some (taken, o')))

-- A wait does not take the event, neither at once nor after a poll.
abbrev pub IsReset : ℕ → Esync → Type 0
IsReset tid o =
    (esync_query_event o ≡ false)
    × (check_now tid o ≡ none)
    × (check_polled tid (esync_query_event o) o ≡ none)

abbrev pub Settles : ℕ → Esync → Type 0
Settles tid o =
    (on off : Esync) × (esync_set_event o ≡ some (success, on))
    × (server_set_event o ≡ some on)
    × (esync_reset_event o ≡ some (success, off))
    × (server_reset_event o ≡ some off)
    × IsSignaled tid on
    × IsReset tid off

-- Setting a manual-reset event signals it, resetting it takes that back, and the server's calls leave
-- what those of a process do, if its eventfd and shared memory agree.
pub manual_event-Settles : (tid : ℕ) (o : Esync) → o.type ≡ manual_event → Agrees o → Settles tid o
unfolding esync_set_event esync_reset_event server_set_event server_reset_event lock unlock signal
    unsignal write_fd read_fd check_now check_polled esync_query_event
manual_event-Settles tid o e a =
    let on = of manual_event 1 1 0 in
    let off = of manual_event 0 0 0 in
    subst (λ t. Settles tid (of t o.counter o.first o.second)) (sym e)
      (by_manual (λ x. Settles tid x) o.counter o.first o.second
        (subst (λ t. Agreement t o.counter o.first o.second) e a)
        (on, off, refl, refl, refl, refl, (refl, (on, refl)), (refl, refl, refl))
        (on, off, refl, refl, refl, refl, (refl, (on, refl)), (refl, refl, refl)))

abbrev pub Tears : ℕ → Esync → Type 0
Tears tid o =
    (o' : Esync) × (esync_pulse_event o ≡ (success, o'))
    × (esync_query_event o' ≡ false)
    × (check_now tid o' ≡ some (taken, o'))
    × (esync_set_event o' ≡ some (success, o'))

-- Pulsing a manual-reset event that is signaled, and whose eventfd and shared memory agree, leaves it
-- torn: a poll finds it reset, but a wait still takes it at once, and setting it does not make it
-- readable again.
pub pulse_event-Tears :
    (tid : ℕ) (o : Esync) → o.type ≡ manual_event → Agrees o → o.first ≡ 1 → Tears tid o
unfolding esync_set_event esync_pulse_event lock unlock signal write_fd read_fd check_now
    esync_query_event
pulse_event-Tears tid o e a one =
    let b = subst (λ t. Agreement t o.counter o.first o.second) e a in
    subst (λ t. Tears tid (of t o.counter o.first o.second)) (sym e)
      (subst (λ n. Tears tid (of manual_event o.counter n o.second)) (sym one)
        (subst (λ n. Tears tid (of manual_event n 1 o.second)) (sym (b.1 ∙ one))
          (subst (λ n. Tears tid (of manual_event 1 1 n)) (sym b.0)
            (of manual_event 0 1 0, refl, refl, refl, refl))))
