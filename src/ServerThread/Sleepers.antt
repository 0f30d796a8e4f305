-- ===== src/ServerThread/Sleepers.antt =====
-- server/thread_pro11.c: wake_up ends, and leaves nobody asleep who could be woken.
use menano.Prelude.{
  ℕ, zero, suc, ◌+◌, ◌≤◌, ◌<◌, ◌≡◌, refl, sym, ap, ap₂, subst, ◌⊎◌, inl, inr, Bool, true, false,
  Option, none, some, List, [], ◌∷◌, arith, ◌==◌, if◌then◌else◌, ==_iff, Bool-cases, either_branch,
  length,
}
use menano.ServerThread.Defs.{Entry, Wait, Thread, State, SyncOps, with_thread}
use menano.ServerThread.Waits.{end_wait, check_wait}
use menano.ServerThread.Wakeups.{
  write_reply, kill_thread, send_thread_wakeup, announce, wake_one, wake_loop, wake_thread,
}
use menano.ServerThread.Invariant.{check_wait-IsSame, write_reply-IsSame}
use menano.ServerThread.Settles.{kill_thread-waits}
use mathlib.Core.Option.{some_inj}
use menano.ServerThread.Bounds.{terminated_keeps}
use menano.ServerThread.Queues.{
  World, seen_by, find_thread, put_thread, wake_found, wake_by_id, is_zero, is_limit, lowered, scan,
  go_on, wake_up,
}

unfoldable pub total_waits : List Thread → ℕ
total_waits [] = 0
total_waits (t ∷ ts) = length t.waits + total_waits ts

found_here :
    (v u : Thread) (b : Bool) (r : Option Thread)
    → b ≡ true
    → (if b then some v else r) ≡ some u
    → v ≡ u
found_here v u true r y e = some_inj.0 e
found_here v u false r y e = absurd cc

found_later :
    (v u : Thread) (b : Bool) (r : Option Thread)
    → b ≡ false
    → (if b then some v else r) ≡ some u
    → r ≡ some u
found_later v u true r y e = absurd cc
found_later v u false r y e = e

total_waits-put_thread :
    (id : ℕ) (t u : Thread) (ts : List Thread)
    → find_thread id ts ≡ some u
    → total_waits (put_thread id t ts) + length u.waits ≡ total_waits ts + length t.waits
unfolding total_waits find_thread put_thread
total_waits-put_thread id t u [] e = absurd cc
total_waits-put_thread id t u (v ∷ ts) e = elim (Bool-cases (v.id == id)) [
  | inl y ↦
      let same : v ≡ u = found_here v u (v.id == id) (find_thread id ts) y e in
      let l : length v.waits ≡ length u.waits = ap (λ k. length k.waits) same in
      subst
        (λ b.
          total_waits (if b then t ∷ ts else v ∷ put_thread id t ts) + length u.waits
          ≡ total_waits (v ∷ ts) + length t.waits)
        (sym y) (omega arith)
  | inr n ↦
      let r =
        total_waits-put_thread id t u ts (found_later v u (v.id == id) (find_thread id ts) n e) in
      subst
        (λ b.
          total_waits (if b then t ∷ ts else v ∷ put_thread id t ts) + length u.waits
          ≡ total_waits (v ∷ ts) + length t.waits)
        (sym n) (omega arith)
]

module _ {S : Type 0} (ops : SyncOps S) where
  kill_thread-length :
      (s : State S) → length (kill_thread ops s).thread.waits ≤ length s.thread.waits
  kill_thread-length s = elim (Bool-cases s.thread.terminated) [
    | inl y ↦
        let e : length (kill_thread ops s).thread.waits ≡ length s.thread.waits =
          ap (λ u. length u.thread.waits) (terminated_keeps ops s y) in
        omega arith
    | inr n ↦
        let e : length (kill_thread ops s).thread.waits ≡ 0 =
          ap length (kill_thread-waits ops s n) in
        omega arith
  ]

  -- Nothing was ended, or the stack is shorter.
  abbrev Shrinks : ℕ → List Wait → Option ℕ × State S → Type 0
  Shrinks n ws r = (r.0 ≡ some n) ⊎ (length r.1.thread.waits < length ws)

  announce-length :
      (cookie signaled : ℕ) (s : State S)
      → length (announce ops cookie signaled s).1.thread.waits ≤ length s.thread.waits
  unfolding announce send_thread_wakeup
  announce-length cookie signaled s =
      let t = (write_reply cookie signaled s.thread).1 in
      let same : t.waits ≡ s.thread.waits =
        (write_reply-IsSame ops (λ e q. false) cookie signaled s).waits in
      let l : length t.waits ≡ length s.thread.waits = ap length same in
      either_branch {A = Bool × State S} (λ r. length r.1.thread.waits ≤ length s.thread.waits)
        (cookie == 0) {x = (true, s)} {y = send_thread_wakeup ops cookie signaled s} (omega arith)
        (either_branch {A = Bool × State S} (λ r. length r.1.thread.waits ≤ length s.thread.waits)
          (write_reply cookie signaled s.thread).0 {x = (true, with_thread t s)}
          {y = (false, kill_thread ops (with_thread t s))} (omega arith)
          (omega (arith, kill_thread-length (with_thread t s))))

  -- A wait that is ended is off the stack, whatever comes after it.
  wake_one-length :
      (status n : ℕ) (w : Wait) (ws : List Wait) (s : State S) (next : State S → Option ℕ × State S)
      → ((s' : State S)
          → length s'.thread.waits ≤ length ws
          → length (next s').1.thread.waits ≤ length ws)
      → length (wake_one ops (some status) n w ws s next).1.thread.waits < length (w ∷ ws)
  unfolding wake_one end_wait
  wake_one-length status n w ws s next k =
      let p = end_wait ops w ws status s in
      let a = announce ops w.cookie p.0 p.1 in
      let l : length a.1.thread.waits ≤ length ws = announce-length w.cookie p.0 p.1 in
      let m : length (next a.1).1.thread.waits ≤ length ws = k a.1 l in
      either_branch {A = Option ℕ × State S} (λ r. length r.1.thread.waits < length (w ∷ ws)) a.0
        {x = next a.1} {y = (if n == 0 then none else some n, a.1)} (omega arith) (omega arith)

  wake_one-Shrinks :
      (o : Option ℕ) (n : ℕ) (w : Wait) (ws : List Wait) (s : State S)
      (next : State S → Option ℕ × State S)
      → length s.thread.waits ≤ length (w ∷ ws)
      → ((s' : State S)
          → length s'.thread.waits ≤ length ws
          → length (next s').1.thread.waits ≤ length ws)
      → let r = wake_one ops o n w ws s next in
        Shrinks n (w ∷ ws) r × (length r.1.thread.waits ≤ length (w ∷ ws))
  unfolding wake_one
  wake_one-Shrinks none n w ws s next h k = (inl refl, h)
  wake_one-Shrinks (some status) n w ws s next h k =
      let l = wake_one-length status n w ws s next k in (inr l, omega arith)

  wake_loop-Shrinks :
      (n : ℕ) (ws : List Wait) (s : State S)
      → length s.thread.waits ≤ length ws
      → let r = wake_loop ops n ws s in Shrinks n ws r × (length r.1.thread.waits ≤ length ws)
  unfolding wake_loop
  wake_loop-Shrinks n [] s h = (inl refl, h)
  wake_loop-Shrinks n (w ∷ ws) s h =
      let c = check_wait ops w s in
      let l : length c.1.thread.waits ≡ length s.thread.waits =
        ap length (check_wait-IsSame ops (λ e q. false) w s).waits in
      wake_one-Shrinks c.0 n w ws c.1 (wake_loop ops (suc n) ws) (omega arith)
        (λ s' h'. (wake_loop-Shrinks (suc n) ws s' h').1)

  wake_thread-Shrinks :
      (s : State S)
      → let r = wake_thread ops s in
        Shrinks 0 s.thread.waits r × (length r.1.thread.waits ≤ length s.thread.waits)
  unfolding wake_thread
  wake_thread-Shrinks s =
      let l : length s.thread.waits ≤ length s.thread.waits = omega arith in
      wake_loop-Shrinks 0 s.thread.waits s l

  -- Every thread of the entries was asked in turn, and answered that it sleeps on.
  pub data Asleep : List Entry → World S → World S → Type 0 where
    nobody : {v : World S} → Asleep [] v v
    asleep :
        {e : Entry} {es : List Entry} {v v' v'' : World S}
        → wake_by_id ops e.thread v ≡ (some 0, v')
        → Asleep es v' v''
        → Asleep (e ∷ es) v v''

  abbrev total : World S → ℕ
  total v = total_waits v.threads

  -- A pass over a queue ends with everybody asleep, or with a wait less.
  abbrev IsScanned : List Entry → World S → Option (Option ℕ) × World S → Type 0
  IsScanned es v r =
      ((r.0 ≡ none) × Asleep es v r.1)
      ⊎ ((ret : Option ℕ) × (r.0 ≡ some ret) × (total r.1 < total v))

  wake_found-total :
      (id : ℕ) (o : Option Thread) (v : World S)
      → find_thread id v.threads ≡ o
      → let r = wake_found ops id o v in
        ((r.0 ≡ some 0) × (total r.1 ≤ total v)) ⊎ (total r.1 < total v)
  wake_found-total id none v e = inl (refl, omega arith)
  wake_found-total id (some t) v e =
      let r = wake_thread ops (seen_by t v) in
      let k = total_waits-put_thread id r.1.thread t v.threads e in
      let l = wake_thread-Shrinks (seen_by t v) in
      let l1 : length r.1.thread.waits ≤ length t.waits = l.1 in
      elim l.0 [ inl z ↦ inl (z, omega arith) | inr m ↦ inr (omega arith) ]

  wake_by_id-total :
      (id : ℕ) (v : World S)
      → let r = wake_by_id ops id v in
        ((r.0 ≡ some 0) × (total r.1 ≤ total v)) ⊎ (total r.1 < total v)
  unfolding wake_by_id
  wake_by_id-total id v = wake_found-total id (find_thread id v.threads) v refl

  is_zero-eq : (o : Option ℕ) → is_zero ops o ≡ true → o ≡ some 0
  is_zero-eq none h = absurd cc
  is_zero-eq (some n) h = ap some ((==_iff n 0).0 h)

  scan-IsScanned : (es : List Entry) (v : World S) → IsScanned es v (scan ops es v)
  unfolding scan
  scan-IsScanned [] v = inl (refl, nobody)
  scan-IsScanned (e ∷ es) v =
      let r = wake_by_id ops e.thread v in
      let x : Option (Option ℕ) × World S = scan ops es r.1 in
      let y : Option (Option ℕ) × World S = (some r.0, r.1) in
      elim (Bool-cases (is_zero ops r.0)) [
        | inl z ↦
            subst (λ b. IsScanned (e ∷ es) v (if b then x else y)) (sym z)
              (passed e es v r.1 x (ap₂ (λ a b. (a, b)) (is_zero-eq r.0 z) refl)
                (never_more r.0 r.1 v (wake_by_id-total e.thread v)) (scan-IsScanned es r.1))
        | inr n ↦
            subst (λ b. IsScanned (e ∷ es) v (if b then x else y)) (sym n)
              (inr (r.0, refl, ended r.0 r.1 v n (wake_by_id-total e.thread v)))
      ]
    where
      never_more :
          (o : Option ℕ) (u v' : World S)
          → ((o ≡ some 0) × (total u ≤ total v')) ⊎ (total u < total v')
          → total u ≤ total v'
      never_more o u v' (inl (a, b)) = b
      never_more o u v' (inr b) = omega arith

      zero_is_zero : (o : Option ℕ) → is_zero ops o ≡ false → o ≡ some 0 → ⊥
      zero_is_zero none n a = cc
      zero_is_zero (some k) n a = ground arith

      ended :
          (o : Option ℕ) (u v' : World S)
          → is_zero ops o ≡ false
          → ((o ≡ some 0) × (total u ≤ total v')) ⊎ (total u < total v')
          → total u < total v'
      ended o u v' n (inl (a, b)) = absurd (zero_is_zero o n a)
      ended o u v' n (inr b) = b

      passed :
          (e' : Entry) (es' : List Entry) (v' u : World S) (x' : Option (Option ℕ) × World S)
          → wake_by_id ops e'.thread v' ≡ (some 0, u)
          → total u ≤ total v'
          → IsScanned es' u x'
          → IsScanned (e' ∷ es') v' x'
      passed e' es' v' u x' w l (inl (a, b)) = inl (a, asleep w b)
      passed e' es' v' u x' w l (inr (ret, a, b)) = inr (ret, a, omega arith)

  -- How a run of wake_up ends.
  abbrev pub Ends : ℕ → Option (Bool × World S) → Type 0
  Ends obj o =
      (limit : Bool) × (v' : World S) × (o ≡ some (limit, v'))
      × (limit ≡ false → (u : World S) × Asleep (u.objects.wait_queue obj) u v')

  go_on-Ends :
      (next : ℕ → World S → Option (Bool × World S)) (obj max : ℕ) (v : World S)
      (r : Option (Option ℕ) × World S)
      → IsScanned (v.objects.wait_queue obj) v r
      → ((k : ℕ) (u : World S) → total u < total v → Ends obj (next k u))
      → Ends obj (go_on ops next max r)
  go_on-Ends next obj max v (none, u) (inl (a, b)) k = (false, u, refl, λ e. (v, b))
  go_on-Ends next obj max v (none, u) (inr (ret, a, b)) k = absurd cc
  go_on-Ends next obj max v (some ret, u) (inl (a, b)) k = absurd cc
  go_on-Ends next obj max v (some ret, u) (inr (ret', a, b)) k =
      either_branch {A = Option (Bool × World S)} (Ends obj) (is_limit ops ret max)
        {x = some (true, u)} {y = next (lowered ops ret max) u} (true, u, refl, λ e. absurd cc)
        (k (lowered ops ret max) u b)

  -- wake_up ends: on as much fuel as the threads have waits, the loop comes to an end. When it does
  -- not end by its limit, the last pass over the object's queue asked the thread of every entry in
  -- turn, and each slept on: nobody who could be woken is left asleep.
  pub wake_up_ends :
      (fuel obj max : ℕ) (v : World S)
      → total_waits v.threads ≤ fuel
      → (limit : Bool) × (v' : World S) × (wake_up ops fuel obj max v ≡ some (limit, v'))
        × (limit ≡ false → (u : World S) × Asleep (u.objects.wait_queue obj) u v')
  unfolding wake_up
  wake_up_ends zero obj max v h =
      go_on-Ends (λ k u. none) obj max v (scan ops (v.objects.wait_queue obj) v)
        (scan-IsScanned (v.objects.wait_queue obj) v) (λ k u l. absurd (omega arith))
  wake_up_ends (suc fuel) obj max v h =
      go_on-Ends (wake_up ops fuel obj) obj max v (scan ops (v.objects.wait_queue obj) v)
        (scan-IsScanned (v.objects.wait_queue obj) v)
        (λ k u l. wake_up_ends fuel obj k u (omega arith))
