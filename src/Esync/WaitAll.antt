-- ===== src/Esync/WaitAll.antt =====
-- __esync_wait_objects of dlls/ntdll/unix/esync_pro10.c, waiting for all of several objects. Other
-- threads act before each poll and before each object that is grabbed: `others n` is what they do to
-- the objects the n-th time. The answers of a poll that may block are a parameter; the poll that does
-- not block finds the descriptors whose counter is not 0. Descriptors do not fail.
use menano.Prelude.{
  ℕ, zero, suc, Bool, true, false, not, ◌&&◌, ◌||◌, Option, none, some, List, [], ◌∷◌, ◌==◌,
  if◌then◌else◌,
}
use menano.Esync.Defs.{
  EsyncType, semaphore, auto_event, mutex, Esync, read_fd, write_fd, update_grabbed_object, Taken,
  taken, taken_abandoned,
}

abbrev pub Store : Type 0
Store = ℕ → Esync

abbrev pub put : Store → ℕ → Esync → Store
put s i o j = if i == j then o else s j

pub record World : Type 0 where
  pub store : Store
  pub time : ℕ

pub data PollResult : Type 0 where
  ready timed_out alerted : PollResult

pub record Caller : Type 0 where
  pub current_tid : ℕ
  pub others : ℕ → Store → Store
  pub poll : ℕ → ℕ → PollResult

pub data Ended : Type 0 where
  finished abandoned timeout user_apc write_error : Ended

abbrev pub tick : Caller → World → World
tick r w = record { store = r.others w.time w.store; time = suc w.time }

abbrev pub with_store : World → Store → World
with_store w s = record w { store = s }

abbrev is_mutex : EsyncType → Bool
is_mutex mutex = true
is_mutex _ = false

-- A mutex that the thread has already.
abbrev pub own : ℕ → Esync → Bool
own tid o = is_mutex o.type && o.first == tid

-- The first step: poll each object in turn. `inl` ends the wait.
pub data Polled : Type 0 where
  all_polled : World → Polled
  stopped : Ended → World → Polled

unfoldable pub poll_each : Caller → List ℕ → World → Polled
poll_each r [] w = all_polled w
poll_each r (i ∷ ids) w = elim (own r.current_tid (w.store i)) [
  | true ↦ poll_each r ids w
  | false ↦ elim (r.poll i w.time) [
    | ready ↦ poll_each r ids (tick r w)
    | timed_out ↦ stopped timeout (tick r w)
    | alerted ↦ stopped user_apc (tick r w)
  ]
]

-- `poll( fds, pollcount, 0 ) == pollcount`.
unfoldable pub all_readable : List ℕ → Store → Bool
all_readable [] s = true
all_readable (i ∷ ids) s = not ((s i).counter == 0) && all_readable ids s

-- Whether an object's descriptor is read to grab it.
abbrev pub is_grabbed : ℕ → Esync → Bool
is_grabbed tid o = elim o.type [
  | mutex ↦ not (o.first == tid)
  | semaphore ↦ true
  | auto_event ↦ true
  | _ ↦ false
]

-- Put everything back, the last object first; the result tells whether every write succeeded.
unfoldable pub put_back : ℕ → List ℕ → Store → Bool × Store
put_back tid [] s = (true, s)
put_back tid (j ∷ ids) s = elim (own tid (s j)) [
  | true ↦ put_back tid ids s
  | false ↦ elim (write_fd 1 (s j)) [ none ↦ (false, s) | some o ↦ put_back tid ids (put s j o) ]
]

pub data Grab : Type 0 where
  all_grabbed : World → Grab
  too_slow : Bool × Store → ℕ → Grab

-- One round of the tight loop; `before` holds the objects that it has passed, the last one first.
unfoldable pub grab_one : Caller → List ℕ → ℕ → (World → Grab) → World → Grab
grab_one r before i next w = elim (is_grabbed r.current_tid (w.store i)) [
  | false ↦ next w
  | true ↦ elim (read_fd (w.store i)) [
    | none ↦ too_slow (put_back r.current_tid before w.store) w.time
    | some o ↦ next (with_store w (put w.store i o))
  ]
]

unfoldable pub grab_all : Caller → List ℕ → List ℕ → World → Grab
grab_all r before [] w = all_grabbed w
grab_all r before (i ∷ ids) w = grab_one r before i (λ v. grab_all r (i ∷ before) ids v) (tick r w)

abbrev pub is_abandoned : Taken → Bool
is_abandoned taken = false
is_abandoned taken_abandoned = true

unfoldable pub update_all : ℕ → List ℕ → Store → Bool × Store
update_all tid [] s = (false, s)
update_all tid (i ∷ ids) s =
    let (t, o) = update_grabbed_object tid (s i) in
    let (rest, s') = update_all tid ids (put s i o) in (is_abandoned t || rest, s')

-- What the tight loop leads to.
unfoldable pub after_grab :
    Caller → List ℕ → Grab → (World → Option (Ended × World)) → Option (Ended × World)
after_grab r ids (all_grabbed w) again =
    let (dead, s) = update_all r.current_tid ids w.store in
    some (if dead then abandoned else finished, with_store w s)
after_grab r ids (too_slow (true, s) time) again = again (record { store = s; time = time })
after_grab r ids (too_slow (false, s) time) again =
    some (write_error, record { store = s; time = time })

unfoldable pub after_polls :
    Caller → List ℕ → Polled → (World → Option (Ended × World)) → Option (Ended × World)
after_polls r ids (stopped e w) again = some (e, w)
after_polls r ids (all_polled w) again = elim (all_readable ids (tick r w).store) [
  | true ↦ after_grab r ids (grab_all r [] ids (tick r w)) again
  | false ↦ again (tick r w)
]

unfoldable pub wait_all : Caller → ℕ → List ℕ → World → Option (Ended × World)
wait_all r zero ids w = none
wait_all r (suc fuel) ids w = after_polls r ids (poll_each r ids w) (λ w'. wait_all r fuel ids w')
