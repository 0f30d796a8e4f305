-- ===== src/Esync/Invariant.antt =====
-- server/esync_pro10.c and dlls/ntdll/unix/esync_pro10.c: what holds of an object whatever is called.
use menano.Prelude.{
  ℕ, ◌^◌, ◌≤◌, ◌<◌, ◌≡◌, refl, ◌≢◌, inl, inr, Bool, true, false, Option, none, some, List, [], ◌∷◌,
  arith, ◌==◌, ==_iff, Bool-cases, ◌∙◌,
}
use menano.Esync.Defs.{
  EsyncType, semaphore, auto_event, manual_event, mutex, auto_server, manual_server, queue, Esync,
  is_event, read_fd, create_esync, esync_set_event, esync_reset_event, esync_pulse_event, check_now,
  check_polled, update_grabbed_object, only_looks,
}
use menano.Esync.Agreement.{
  Agreement, Agrees, Call, set_event, reset_event, pulse_event, server_set, server_reset,
  release_semaphore, release_mutex, thread_died, wait_checks, wait_polls, run, IsThread, Allowed,
  Keeps, of, or_same,
}
use menano.Esync.Events.{manual-Keeps, auto-Keeps}
use menano.Esync.Counting.{semaphore-Keeps, mutex-Keeps}

-- An object that the server signals itself, and that processes only wait on.
module _ (t : EsyncType) (c f s : ℕ) (a : Agreement t c f s) (no_event : is_event t ≡ false)
    (no_semaphore : t ≢ semaphore) (no_mutex : t ≢ mutex)
    (not_now : (tid : ℕ) → check_now tid (of t c f s) ≡ none)
    (polls : (tid : ℕ) (readable : Bool)
      → (o' : Esync) × (or_same (of t c f s) (check_polled tid readable (of t c f s)) ≡ some o')
        × (o'.type ≡ t)
        × Agrees o') where
  other-Keeps : (call : Call) → Allowed call (of t c f s) → Keeps call (of t c f s)
  unfolding run esync_set_event esync_reset_event esync_pulse_event
  other-Keeps set_event ok = (of t c f s, rw no_event refl, refl, a)
  other-Keeps reset_event ok = (of t c f s, rw no_event refl, refl, a)
  other-Keeps pulse_event ok = (of t c f s, rw no_event refl, refl, a)
  other-Keeps server_set ok = absurd (ground (arith, rw no_event at ok))
  other-Keeps server_reset ok = absurd (ground (arith, rw no_event at ok))
  other-Keeps (release_semaphore k) (e, _) = absurd (no_semaphore e)
  other-Keeps (release_mutex tid) (e, _) = absurd (no_mutex e)
  other-Keeps (thread_died tid) (e, _) = absurd (no_mutex e)
  other-Keeps (wait_checks tid) ok = (of t c f s, rw (not_now tid) refl, refl, a)
  other-Keeps (wait_polls tid readable) ok = polls tid readable

looks :
    (t : EsyncType) (c f s : ℕ)
    → only_looks t ≡ true
    → Agreement t c f s
    → (tid : ℕ) (readable : Bool)
    → (o' : Esync) × (or_same (of t c f s) (check_polled tid readable (of t c f s)) ≡ some o')
      × (o'.type ≡ t)
      × Agrees o'
unfolding check_polled
looks t c f s e a tid true = (of t c f s, rw e refl, refl, a)
looks t c f s e a tid false = (of t c f s, rw e refl, refl, a)

reads :
    (c f s : ℕ)
    → Agreement auto_server c f s
    → (tid : ℕ) (readable : Bool)
    → (o' : Esync) × (or_same
          (of auto_server c f s)
          (check_polled tid readable (of auto_server c f s))
        ≡ some o')
      × (o'.type ≡ auto_server)
      × Agrees o'
unfolding check_polled read_fd update_grabbed_object
reads c f s a tid readable = elim (Bool-cases (c == 0)) [
  | inl off ↦ (of auto_server c f s, rw off refl, refl, a)
  | inr on ↦ (of auto_server 0 f s, rw on refl, refl, omega arith)
]

any-Keeps :
    (t : EsyncType) (call : Call) (c f s : ℕ)
    → Agreement t c f s
    → Allowed call (of t c f s)
    → Keeps call (of t c f s)
unfolding check_now
any-Keeps semaphore call c f s a ok = semaphore-Keeps call c f s a ok
any-Keeps mutex call c f s a ok = mutex-Keeps call c f s a ok
any-Keeps auto_event call c f s a ok = auto-Keeps call c f s a ok
any-Keeps manual_event call c f s a ok = manual-Keeps call c f s a ok
any-Keeps auto_server call c f s a ok =
    other-Keeps auto_server c f s a refl (ground arith) (ground arith) (λ tid. refl) (reads c f s a)
      call ok
any-Keeps manual_server call c f s a ok =
    other-Keeps manual_server c f s a refl (ground arith) (ground arith) (λ tid. refl)
      (looks manual_server c f s refl a) call ok
any-Keeps queue call c f s a ok =
    other-Keeps queue c f s a refl (ground arith) (ground arith) (λ tid. refl)
      (looks queue c f s refl a) call ok

-- The calls one after the other.
abbrev pub runs : List Call → Esync → Option Esync
runs [] o = some o
runs (call ∷ calls) o = elim (run call o) [ none ↦ none | some o' ↦ runs calls o' ]

-- Each call is allowed in the state that the calls before it leave.
abbrev pub AllAllowed : List Call → Esync → Type 0
AllAllowed [] o = Unit {0}
AllAllowed (call ∷ calls) o =
    Allowed call o × ((o' : Esync) → run call o ≡ some o' → AllAllowed calls o')

-- In an object whose eventfd and shared memory agree, every sequence of the calls of `Call`, each
-- allowed where it is made, returns, so that no spinlock stays held; and it leaves an object of the
-- same type in which they agree. Not among them are a wait for all objects, and, by `Allowed`, a
-- pulse of a signaled event.
pub runs-Agrees :
    (calls : List Call) (o : Esync)
    → Agrees o
    → AllAllowed calls o
    → (o' : Esync) × (runs calls o ≡ some o') × (o'.type ≡ o.type) × Agrees o'
runs-Agrees [] o a ok = (o, refl, refl, a)
runs-Agrees (call ∷ calls) o a (ok, later) =
    let (o1, e, t, a1) = any-Keeps o.type call o.counter o.first o.second a ok in
    let (o2, e2, t2, a2) = runs-Agrees calls o1 a1 (later o1 e) in (o2, rw (e, runs) e2, t2 ∙ t, a2)

-- What create_esync is asked for: a semaphore's first count within a maximum below 2^31, and 0 or 1 of
-- anything else, of which a mutex for a thread.
abbrev pub Asked : ℕ → EsyncType → ℕ → ℕ → Type 0
Asked current semaphore initval max = (initval ≤ max) × (max < 2 ^ 31)
Asked current mutex initval max = (initval < 2) × IsThread current
Asked current auto_event initval max = initval < 2
Asked current manual_event initval max = initval < 2
Asked current _ initval max = ⊥

-- A new object of a type that can be asked for has that type, and its eventfd and shared memory agree.
pub create_esync-Agrees :
    (current : ℕ) (t : EsyncType) (initval max : ℕ)
    → Asked current t initval max
    → (o : Esync) × (create_esync current t initval max ≡ some o) × (o.type ≡ t) × Agrees o
unfolding create_esync
create_esync-Agrees current semaphore initval max a =
    (of semaphore initval max initval, refl, refl, (refl, a.0, a.1))
create_esync-Agrees current mutex initval max (bit, tid) = elim (Bool-cases (initval == 0)) [
  | inl e ↦
      let z : initval ≡ 0 = (==_iff _ _).0 e in
      (
        of mutex 0 current 1,
        rw e (rw z refl),
        refl,
        inr (omega arith, omega arith, refl, tid.0, tid.1),
      )
  | inr e ↦
      let z : initval ≡ 1 = ground arith in
      (of mutex 1 0 0, rw e (rw z refl), refl, inl (refl, refl, inl refl))
]
create_esync-Agrees current auto_event initval max bit = elim (Bool-cases (initval == 0)) [
  | inl e ↦
      let z : initval ≡ 0 = (==_iff _ _).0 e in
      (of auto_event 0 0 0, rw e (rw z refl), refl, (omega arith, inl (refl, refl)))
  | inr e ↦
      let z : initval ≡ 1 = ground arith in
      (of auto_event 1 1 0, rw e (rw z refl), refl, (omega arith, inr (refl, omega arith)))
]
create_esync-Agrees current manual_event initval max bit = elim (Bool-cases (initval == 0)) [
  | inl e ↦
      let z : initval ≡ 0 = (==_iff _ _).0 e in
      (of manual_event 0 0 0, rw e (rw z refl), refl, (refl, refl, omega arith))
  | inr e ↦
      let z : initval ≡ 1 = ground arith in
      (of manual_event 1 1 0, rw e (rw z refl), refl, (refl, refl, omega arith))
]
create_esync-Agrees current auto_server initval max a = absurd a
create_esync-Agrees current manual_server initval max a = absurd a
create_esync-Agrees current queue initval max a = absurd a
