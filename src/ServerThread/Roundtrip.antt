-- ===== src/ServerThread/Roundtrip.antt =====
-- server/thread_pro11.c: a wait that ends without being satisfied leaves no trace.
use menano.Prelude.{
  ℕ, suc, ◌≤◌, ◌≡◌, refl, sym, ap, subst, fun_ext, ◌∙◌, inl, inr, Bool, true, false, some, List, [],
  ◌∷◌, arith, if◌then◌else◌, Bool-cases, length,
}
use menano.ServerThread.Defs.{
  Entry, Wait, Objects, State, SyncOps, grab_object, with_waits, with_objects,
}
use menano.ServerThread.Waits.{
  object_sync_add_queue, satisfy, leave_queues, end_wait, join_queues, wait_on,
}
use menano.ServerThread.Links.{mem, stands, placed, stands-owner, has_address, placed-has_address}
use menano.ServerThread.Invariant.{IsLinked}
use menano.ServerThread.Joins.{join_queues-wait_queue, join_queues-refcount, join_queues-sync}
use menano.ServerThread.Leaves.{leave_queues-wait_queue, leave_queues-refcount, leave_queues-sync}

unfoldable pub made : ℕ → Wait → List ℕ → Wait
made a proto os = record proto {
  address = a;
  cookie = 0;
  user = false;
  abandoned = false;
  status = 0;
  objects = os;
}

chose_false :
    {A : Type 0} (b : Bool) (r x y : Bool × A)
    → r ≡ (if b then x else y)
    → r.0 ≡ false
    → x.0 ≡ true
    → r ≡ y
chose_false true r x y e f t = absurd cc
chose_false false r x y e f t = e

chose_true :
    {A : Type 0} (b : Bool) (r x y : Bool × A)
    → r ≡ (if b then x else y)
    → r.0 ≡ true
    → y.0 ≡ false
    → (b ≡ true) × (r ≡ x)
chose_true true r x y e t f = (refl, e)
chose_true false r x y e t f = absurd cc

module _ {S : Type 0} (ops : SyncOps S) (others : Entry → ℕ → Bool) where
  abbrev objects_of : (ℕ → List Entry) → (ℕ → ℕ) → S → Objects S
  objects_of f g x = record { wait_queue = f; refcount = g; sync = x }

  Objects-ext :
      (t u : Objects S)
      → ((q : ℕ) → t.wait_queue q ≡ u.wait_queue q)
      → ((q : ℕ) → t.refcount q ≡ u.refcount q)
      → t.sync ≡ u.sync
      → t ≡ u
  Objects-ext t u p r x =
      ap (λ f. objects_of f t.refcount t.sync) (fun_ext p)
      ∙ ap (λ g. objects_of u.wait_queue g t.sync) (fun_ext r)
      ∙ ap (λ y. objects_of u.wait_queue u.refcount y) x

  -- A fresh wait has no entry in any queue.
  absent :
      (a i : ℕ) (os : List ℕ) (s : State S)
      → has_address a s.thread.waits ≡ false
      → IsLinked ops others s
      → (q : ℕ) (e : Entry) → stands ops.get_obj_sync s.thread.id a i os e q ≡ true
      → mem e (s.objects.wait_queue q) ≡ false
  absent a i os s fresh h q e st =
      let o = stands-owner ops.get_obj_sync s.thread.id a i os e q st in
      let own = h.own e q in
      elim (Bool-cases (placed ops.get_obj_sync s.thread.id s.thread.waits e q)) [
        | inl p ↦
            let on : has_address a s.thread.waits ≡ true =
              subst (λ k. has_address k s.thread.waits ≡ true) o.1
                (placed-has_address ops.get_obj_sync s.thread.id s.thread.waits e q p).1 in
            absurd cc
        | inr n ↦ ground arith
      ]

  leave-join :
      (a : ℕ) (os : List ℕ) (s : State S)
      → has_address a s.thread.waits ≡ false
      → IsLinked ops others s
      → let j = join_queues ops s.thread.id a 0 os s.objects in
        leave_queues ops s.thread.id a 0 j.1.0 j.1.1 ≡ s.objects
  leave-join a os s fresh h =
      let tid : ℕ = s.thread.id in
      let j = join_queues ops tid a 0 os s.objects in
      Objects-ext (leave_queues ops tid a 0 j.1.0 j.1.1) s.objects
        (λ q.
          leave_queues-wait_queue ops tid a 0 j.1.0 j.1.1 q (s.objects.wait_queue q)
            (join_queues-wait_queue ops tid a 0 os s.objects q) (absent a 0 j.1.0 s fresh h q))
        (λ q. omega (
          arith,
          leave_queues-refcount ops tid a 0 j.1.0 j.1.1 q,
          join_queues-refcount ops tid a 0 os s.objects q,
        ))
        (leave_queues-sync ops tid a 0 j.1.0 j.1.1 ∙ join_queues-sync ops tid a 0 os s.objects)

  satisfy_beyond :
      (tid status : ℕ) (w : Wait) (t : Objects S)
      → length w.objects ≤ status
      → satisfy ops tid status w t ≡ (status, t)
  unfolding satisfy
  satisfy_beyond tid status w t h = ground arith

  pub end_wait_beyond :
      (w : Wait) (ws : List Wait) (status : ℕ) (s : State S)
      → length w.objects ≤ status
      → end_wait ops w ws status s ≡ (
        status,
        with_waits ws
            (with_objects (leave_queues ops s.thread.id w.address 0 w.objects s.objects) s),
      )
  unfolding end_wait
  end_wait_beyond w ws status s h = rw (satisfy_beyond s.thread.id status w s.objects h) refl

  -- The state in which a fresh wait stands.
  unfoldable pub waiting : ℕ → Wait → List ℕ → State S → State S
  unfolding made
  waiting a proto objects s =
      let j = join_queues ops s.thread.id a 0 objects s.objects in
      with_waits (made a proto j.1.0 ∷ s.thread.waits) (with_objects j.1.1 s)

  end_wait-waiting :
      (a : ℕ) (proto : Wait) (objects : List ℕ) (s : State S) (status : ℕ)
      → has_address a s.thread.waits ≡ false
      → IsLinked ops others s
      → let os = (join_queues ops s.thread.id a 0 objects s.objects).1.0 in
        length os ≤ status
        → end_wait ops (made a proto os) s.thread.waits status (waiting a proto objects s)
          ≡ (status, s)
  unfolding waiting made
  end_wait-waiting a proto objects s status fresh h l =
      let os = (join_queues ops s.thread.id a 0 objects s.objects).1.0 in
      end_wait_beyond (made a proto os) s.thread.waits status (waiting a proto objects s) l
      ∙ ap (λ t. (status, with_objects t s)) (leave-join a objects s fresh h)

  pub wait_on-waiting :
      (a : ℕ) (proto : Wait) (objects : List ℕ) (s : State S)
      → let j = join_queues ops s.thread.id a 0 objects s.objects in
        wait_on ops (some a) proto objects s ≡ (
          if j.0 then (true, waiting a proto objects s) else (
            false,
            (end_wait ops
                (made a proto j.1.0)
                s.thread.waits
                ops.refusal
                (waiting a proto objects s)).1,
          ))
  unfolding wait_on waiting made
  wait_on-waiting a proto objects s = refl

  pub stack :
      (a : ℕ) (proto : Wait) (objects : List ℕ) (s : State S)
      → (waiting a proto objects s).thread.waits
        ≡ made a proto (join_queues ops s.thread.id a 0 objects s.objects).1.0 ∷ s.thread.waits
  unfolding waiting
  stack a proto objects s = refl

  join_queues_all :
      (tid a i : ℕ) (os : List ℕ) (t : Objects S)
      → (join_queues ops tid a i os t).0 ≡ true
      → (join_queues ops tid a i os t).1.0 ≡ os
  unfolding join_queues
  join_queues_all tid a i [] t h = refl
  join_queues_all tid a i (o ∷ os) t h =
      let e : Entry = record { thread = tid; wait = a; place = i } in
      let ih =
        join_queues_all tid a (suc i) os (grab_object o (object_sync_add_queue ops o e t).1) in
      ground arith

  pub join_queues-length :
      (tid a i : ℕ) (os : List ℕ) (t : Objects S)
      → length (join_queues ops tid a i os t).1.0 ≤ length os
  unfolding join_queues
  join_queues-length tid a i [] t = omega arith
  join_queues-length tid a i (o ∷ os) t =
      let e : Entry = record { thread = tid; wait = a; place = i } in
      let ih =
        join_queues-length tid a (suc i) os (grab_object o (object_sync_add_queue ops o e t).1) in
      ground arith

  -- A wait on objects that an object refuses changes nothing: the queues that the wait joined before
  -- the refusal, the references it took and the thread's stack are back as they were, provided that
  -- the stack is linked, the address is fresh and the error is no place in the wait.
  pub wait_on_refused :
      (a : ℕ) (proto : Wait) (objects : List ℕ) (s : State S)
      → has_address a s.thread.waits ≡ false
      → IsLinked ops others s
      → length objects ≤ ops.refusal
      → (wait_on ops (some a) proto objects s).0 ≡ false
      → wait_on ops (some a) proto objects s ≡ (false, s)
  wait_on_refused a proto objects s fresh h l e =
      let j = join_queues ops s.thread.id a 0 objects s.objects in
      let k = join_queues-length s.thread.id a 0 objects s.objects in
      let undone =
        end_wait ops (made a proto j.1.0) s.thread.waits ops.refusal (waiting a proto objects s) in
      chose_false j.0 (wait_on ops (some a) proto objects s) (true, waiting a proto objects s)
        (false, undone.1) (wait_on-waiting a proto objects s) e refl
      ∙ ap (λ p. (false, p.1))
          (end_wait-waiting a proto objects s ops.refusal fresh h (omega arith))

  -- Undoing a wait: when all its objects accept the wait and it ends with a status that is no place
  -- in it (a timeout, an APC, the death of the thread), the queues, the reference counts, the
  -- objects and the stack are what they were before the wait.
  pub end_wait-wait_on :
      (a : ℕ) (proto : Wait) (objects : List ℕ) (s : State S) (status : ℕ)
      → has_address a s.thread.waits ≡ false
      → IsLinked ops others s
      → length objects ≤ status
      → (wait_on ops (some a) proto objects s).0 ≡ true
      → let s' = (wait_on ops (some a) proto objects s).1 in
        (s'.thread.waits ≡ made a proto objects ∷ s.thread.waits)
        × (end_wait ops (made a proto objects) s.thread.waits status s' ≡ (status, s))
  end_wait-wait_on a proto objects s status fresh h l e =
      let j = join_queues ops s.thread.id a 0 objects s.objects in
      let undone =
        end_wait ops (made a proto j.1.0) s.thread.waits ops.refusal (waiting a proto objects s) in
      let c =
        chose_true j.0 (wait_on ops (some a) proto objects s) (true, waiting a proto objects s)
          (false, undone.1) (wait_on-waiting a proto objects s) e refl in
      let all : j.1.0 ≡ objects = join_queues_all s.thread.id a 0 objects s.objects c.0 in
      let n : length j.1.0 ≤ status = rw all l in
      (
        ap (λ r. r.1.thread.waits) c.1
            ∙ stack a proto objects s
            ∙ ap (λ os. made a proto os ∷ s.thread.waits) all,
        ap
              (λ os.
                end_wait ops (made a proto os) s.thread.waits status
                  (wait_on ops (some a) proto objects s).1)
              (sym all)
            ∙ ap (λ r. end_wait ops (made a proto j.1.0) s.thread.waits status r.1) c.1
            ∙ end_wait-waiting a proto objects s status fresh h n,
      )
