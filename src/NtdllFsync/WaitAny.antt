-- ===== src/NtdllFsync/WaitAny.antt =====
-- __fsync_wait_objects of dlls/ntdll/unix/fsync_pro10.c, waiting for any object: what a status means.
use menano.Prelude.{
  ℕ, zero, suc, ◌+◌, ◌≡◌, refl, ◌≢◌, inl, inr, Bool, true, false, not, ◌&&◌, Option, none, some,
  List, [], ◌∷◌, arith, ◌==◌, Bool-cases, get_elem?,
}
use menano.NtdllFsync.Defs.{Object, Status, wait_0, abandoned_wait_0, timeout, user_apc}
use menano.NtdllFsync.Wait.{
  World, Caller, Timeout, immediate, infinite, later, WaitResult, timed_out, woken, at, tick, Tried,
  grabbed, grabbed_abandoned, busy, Pass, done, abandoned_at, contended, also, go_on, try_object,
  try_all, leave, put_objects, finish, wait_any, with_apc, apc_status,
}
use menano.NtdllFsync.Grab.{
  Before, start, acts, registers, Takes, TakesAbandoned, Sound, try_object-Sound,
}

-- The object at position `i`, counted from `base`, is `o`.
abbrev pub Position : ℕ → List (Option Object) → ℕ → Object → Type 0
Position base objs i o = (k : ℕ) × (i ≡ base + k) × (get_elem? objs k ≡ some (some o))

-- What a pass that began in `w0` answers, over worlds that it came through.
abbrev pub PassSound : Caller → ℕ → List (Option Object) → World → Option (Pass × World) → Type 0
PassSound r base objs w0 none = Unit {0}
PassSound r base objs w0 (some (done i, w')) =
    (o : Object) × Position base objs i o × (w : World) × Before r w0 w × Takes r.current_tid o w w'
PassSound r base objs w0 (some (abandoned_at i, w')) =
    (o : Object) × Position base objs i o
    × (w : World) × Before r w0 w
    × TakesAbandoned r.current_tid o w w'
PassSound r base objs w0 (some (contended l, w')) = Before r w0 w'

Before-trans : {r : Caller} {u v w : World} → Before r u v → Before r v w → Before r u w
Before-trans a start = a
Before-trans a (acts b) = acts (Before-trans a b)
Before-trans a (registers waited idx b) = registers waited idx (Before-trans a b)

module _ (r : Caller) (tid : r.current_tid ≢ 0) where
  later-Position :
      (base i : ℕ) (first : Option Object) (objs : List (Option Object)) (o : Object)
      → Position (suc base) objs i o
      → Position base (first ∷ objs) i o
  later-Position base i first objs o (k, e, g) = (suc k, omega arith, g)

  PassSound-cons :
      (base : ℕ) (first : Option Object) (objs : List (Option Object)) (u v : World)
      (p : Option (Pass × World))
      → Before r u v
      → PassSound r (suc base) objs v p
      → PassSound r base (first ∷ objs) u p
  PassSound-cons base first objs u v none b s = tt
  PassSound-cons base first objs u v (some (done i, w')) b (o, p, w, c, t) =
      (o, later-Position base i first objs o p, w, Before-trans b c, t)
  PassSound-cons base first objs u v (some (abandoned_at i, w')) b (o, p, w, c, t) =
      (o, later-Position base i first objs o p, w, Before-trans b c, t)
  PassSound-cons base first objs u v (some (contended l, w')) b s = Before-trans b s

  PassSound-also :
      (base : ℕ) (objs : List (Option Object)) (f : ℕ × ℕ) (p : Pass) (u w : World)
      → PassSound r base objs u (some (p, w))
      → PassSound r base objs u (some (also f p, w))
  PassSound-also base objs f (done i) u w s = s
  PassSound-also base objs f (abandoned_at i) u w s = s
  PassSound-also base objs f (contended l) u w s = s

  PassSound-go_on :
      (base : ℕ) (objs : List (Option Object)) (f : ℕ × ℕ) (u : World) (p : Option (Pass × World))
      → PassSound r base objs u p
      → PassSound r base objs u (go_on f p)
  PassSound-go_on base objs f u none s = tt
  PassSound-go_on base objs f u (some (p, w)) s = PassSound-also base objs f p u w s

  try_all-PassSound :
      (fuel : ℕ) (waited : Bool) (base : ℕ) (objs : List (Option Object)) (w : World)
      → PassSound r base objs w (try_all r fuel waited base objs w)
  unfolding try_all
  try_all-PassSound fuel waited base [] w = start
  try_all-PassSound fuel waited base (none ∷ objs) w =
      PassSound-cons base none objs w w _ start (try_all-PassSound fuel waited (suc base) objs w)
  try_all-PassSound fuel waited base (some o ∷ objs) w =
      by_try (try_object r fuel waited o w) (try_object-Sound r o fuel waited w tid) refl
        (λ w'. try_all-PassSound fuel waited (suc base) objs w')
    where
      by_try :
          (t : Option (Tried × World))
          → Sound r o w t
          → try_object r fuel waited o w ≡ t
          → ((w' : World)
              → PassSound r (suc base) objs w' (try_all r fuel waited (suc base) objs w'))
          → PassSound r base (some o ∷ objs) w (try_all r fuel waited base (some o ∷ objs) w)
      by_try none s e tail = rw (e, try_all) tt
      by_try (some (grabbed, w')) (v, b, t) e tail =
          rw (e, try_all) (o, (0, omega arith, refl), v, b, t)
      by_try (some (grabbed_abandoned, w')) (v, b, t) e tail =
          rw (e, try_all) (o, (0, omega arith, refl), v, b, t)
      by_try (some (busy x, w')) s e tail =
          rw (e, try_all)
            (PassSound-go_on base (some o ∷ objs) (o.shm_idx, x) w _
              (PassSound-cons base (some o) objs w w' _ s (tail w')))

-- What the status of a wait for any of `objs` that began in `w0` means. The objects are put back after
-- the grab.
abbrev pub Meaning : Caller → List (Option Object) → World → Option (Status × World) → Type 0
Meaning r objs w0 none = Unit {0}
Meaning r objs w0 (some (wait_0 i, w')) =
    (o : Object) × Position 0 objs i o
    × (w w1 : World) × Before r w0 w
    × Takes r.current_tid o w w1
    × (put_objects r objs w1 ≡ some (tt, w'))
Meaning r objs w0 (some (abandoned_wait_0 i, w')) =
    (o : Object) × Position 0 objs i o
    × (w w1 : World) × Before r w0 w
    × TakesAbandoned r.current_tid o w w1
    × (put_objects r objs w1 ≡ some (tt, w'))
Meaning r objs w0 (some (status, w')) =
    (w1 : World) × Before r w0 w1 × (put_objects r objs w1 ≡ some (tt, w'))

module _ (r : Caller) (objs : List (Option Object)) (w0 : World) where
  leave-Meaning :
      (status : Status) (w1 : World)
      → ((w' : World)
          → put_objects r objs w1 ≡ some (tt, w')
          → Meaning r objs w0 (some (status, w')))
      → Meaning r objs w0 (leave r objs status w1)
  unfolding leave
  leave-Meaning status w1 means = by_put (put_objects r objs w1) refl
    where
      by_put :
          (q : Option (Unit {0} × World))
          → put_objects r objs w1 ≡ q
          → Meaning r objs w0 (leave r objs status w1)
      by_put none e = rw (e, leave) tt
      by_put (some (_, w')) e = rw (e, leave) (means w' e)

  finish-Meaning :
      (limit : Timeout) (p : Pass) (again : World → Option (Status × World)) (w1 : World)
      → PassSound r 0 objs w0 (some (p, w1))
      → ((w' : World) → Before r w0 w' → Meaning r objs w0 (again w'))
      → Meaning r objs w0 (finish r objs limit p again w1)
  unfolding finish
  finish-Meaning limit (done i) again w1 (o, p, w, b, t) rest =
      leave-Meaning (wait_0 i) w1 (λ w' e. (o, p, w, w1, b, t, e))
  finish-Meaning limit (abandoned_at i) again w1 (o, p, w, b, t) rest =
      leave-Meaning (abandoned_wait_0 i) w1 (λ w' e. (o, p, w, w1, b, t, e))
  finish-Meaning immediate (contended l) again w1 s rest =
      leave-Meaning timeout w1 (λ w' e. (w1, s, e))
  finish-Meaning infinite (contended l) again w1 s rest = by_kernel (r.kernel l w1.time) refl
    where
      by_kernel :
          (k : WaitResult)
          → r.kernel l w1.time ≡ k
          → Meaning r objs w0 (finish r objs infinite (contended l) again w1)
      by_kernel timed_out e = rw (e, finish) (leave-Meaning timeout w1 (λ w' e. (w1, s, e)))
      by_kernel woken e = rw (e, finish) (rest (tick r w1) (acts s))
  finish-Meaning later (contended l) again w1 s rest = by_kernel (r.kernel l w1.time) refl
    where
      by_kernel :
          (k : WaitResult)
          → r.kernel l w1.time ≡ k
          → Meaning r objs w0 (finish r objs later (contended l) again w1)
      by_kernel timed_out e = rw (e, finish) (leave-Meaning timeout w1 (λ w' e. (w1, s, e)))
      by_kernel woken e = rw (e, finish) (rest (tick r w1) (acts s))

  with_apc-PassSound :
      (alertable : Bool) (p : Pass) (w : World)
      → PassSound r 0 objs w0 (some (p, w))
      → PassSound r 0 objs w0 (some (with_apc r alertable p, w))
  with_apc-PassSound true (done i) w s = s
  with_apc-PassSound true (abandoned_at i) w s = s
  with_apc-PassSound true (contended l) w s = s
  with_apc-PassSound false p w s = s

wait_any-Meaning_from :
    (r : Caller) (fuel : ℕ) (alertable : Bool) (limit : Timeout) (waited : Bool)
    (objs : List (Option Object)) (w0 w : World)
    → r.current_tid ≢ 0
    → apc_status r.server_wait ≡ user_apc
    → Before r w0 w
    → Meaning r objs w0 (wait_any r fuel alertable limit waited objs w)
unfolding wait_any
wait_any-Meaning_from r zero alertable limit waited objs w0 w tid apc b = tt
wait_any-Meaning_from r (suc fuel) alertable limit waited objs w0 w tid apc b =
    elim (Bool-cases (alertable && not ((at w r.apc_futex).low == 0))) [
      | inl alerted ↦
          rw (alerted, wait_any) (rw apc (leave-Meaning r objs w0 user_apc w (λ w' e. (w, b, e))))
      | inr quiet ↦
          rw (quiet, wait_any)
            (by_pass (try_all r fuel waited 0 objs w)
              (PassSound-from (try_all r fuel waited 0 objs w)
                (try_all-PassSound r tid fuel waited 0 objs w))
              (λ w' c. wait_any-Meaning_from r fuel alertable limit true objs w0 w' tid apc c))
    ]
  where
    PassSound-from : (p : Option (Pass × World)) → PassSound r 0 objs w p → PassSound r 0 objs w0 p
    PassSound-from none s = tt
    PassSound-from (some (done i, w')) (o, p, v, c, t) = (o, p, v, Before-trans b c, t)
    PassSound-from (some (abandoned_at i, w')) (o, p, v, c, t) = (o, p, v, Before-trans b c, t)
    PassSound-from (some (contended l, w')) s = Before-trans b s

    by_pass :
        (q : Option (Pass × World))
        → PassSound r 0 objs w0 q
        → ((w' : World)
            → Before r w0 w'
            → Meaning r objs w0 (wait_any r fuel alertable limit true objs w'))
        → Meaning r objs w0 (elim q [
          | none ↦ none
          | some (p, w') ↦
              finish r objs limit
                (with_apc r alertable p)
                (λ (v : World). wait_any r fuel alertable limit true objs v)
                w'
        ])
    by_pass none s rest = tt
    by_pass (some (p, w')) s rest =
        finish-Meaning r objs w0 limit (with_apc r alertable p) _ w'
          (with_apc-PassSound r objs w0 alertable p w' s) rest

-- Whatever other threads do and the kernel answers, where the thread's id is not 0 and the server
-- reports a timeout or an APC for an alerted thread: from the world in which it begins, a wait comes
-- only through steps of other threads and registrations of itself, until it takes an object or gives
-- up. If it returns the index of an object, then that object was ready where these steps ended, one
-- atomic step from there consumed its slot alone, and since then the wait has only put the objects
-- back; so too for an abandoned mutex. With any other status it has taken nothing, and has only put
-- the objects back.
pub wait_any-Meaning :
    (r : Caller) (fuel : ℕ) (alertable : Bool) (limit : Timeout) (waited : Bool)
    (objs : List (Option Object)) (w : World)
    → r.current_tid ≢ 0
    → apc_status r.server_wait ≡ user_apc
    → Meaning r objs w (wait_any r fuel alertable limit waited objs w)
wait_any-Meaning r fuel alertable limit waited objs w tid apc =
    wait_any-Meaning_from r fuel alertable limit waited objs w w tid apc start
