-- ===== src/ServerThread/Invariant.antt =====
-- server/thread_pro11.c: the wait queues hold the entries of the waits on the stacks, and no others.
use menano.Prelude.{
  ℕ, suc, ◌≡◌, refl, sym, ap, subst, inl, inr, Bool, true, false, ◌||◌, List, [], ◌∷◌, arith, ◌==◌,
  if◌then◌else◌, Bool-cases,
}
use menano.ServerThread.Defs.{
  Entry, Wait, Objects, State, SyncOps, status_thread_is_terminating, with_thread,
}
use menano.ServerThread.Waits.{
  object_sync_signaled, object_sync_satisfied, satisfy_all, outcome, satisfy, end_wait,
  all_signaled, any_signaled, check_objects, check_wait,
}
use menano.ServerThread.Wakeups.{write_reply, end_all}
use menano.ServerThread.Links.{
  mem, stands, placed, stands-owner, has_address, placed-has_address, mem-leave_queues,
}

-- No address is on the stack twice.
unfoldable pub IsDistinct : List Wait → Type 0
IsDistinct [] = Unit
IsDistinct (w ∷ ws) = (has_address w.address ws ≡ false) × IsDistinct ws

stands-excludes :
    (g : ℕ → ℕ) (tid : ℕ) (w : Wait) (ws : List Wait) (e : Entry) (q : ℕ)
    → has_address w.address ws ≡ false
    → stands g tid w.address 0 w.objects e q ≡ true
    → placed g tid ws e q ≡ false
stands-excludes g tid w ws e q d h = elim (Bool-cases (placed g tid ws e q)) [
  | inl p ↦
      let on : has_address w.address ws ≡ true =
        subst (λ a. has_address a ws ≡ true) (stands-owner g tid w.address 0 w.objects e q h).1
          (placed-has_address g tid ws e q p).1 in
      absurd cc
  | inr p ↦ p
]

module _ {S : Type 0} (ops : SyncOps S) where
  module _ (others : Entry → ℕ → Bool) where
    -- The thread's own entries are those of its stack, and `others` tells those of other threads.
    pub record IsLinked (s : State S) : Type 0 where
      pub own :
          (e : Entry) (q : ℕ)
          → mem e (s.objects.wait_queue q) ≡ (
              if e.thread == s.thread.id
              then placed ops.get_obj_sync s.thread.id s.thread.waits e q
              else others e q)
      pub distinct : IsDistinct s.thread.waits

    pub satisfy_all-wait_queue :
        (tid : ℕ) (os : List ℕ) (p : Wait × Objects S)
        → (satisfy_all ops tid os p).1.wait_queue ≡ p.1.wait_queue
    unfolding satisfy_all object_sync_satisfied
    satisfy_all-wait_queue tid [] p = refl
    satisfy_all-wait_queue tid (o ∷ os) p =
        satisfy_all-wait_queue tid os (object_sync_satisfied ops tid p o)

    pub satisfy-wait_queue :
        (tid status : ℕ) (w : Wait) (t : Objects S)
        → (satisfy ops tid status w t).1.wait_queue ≡ t.wait_queue
    unfolding satisfy object_sync_satisfied outcome
    satisfy-wait_queue tid status w t =
        let h : (satisfy_all ops tid w.objects (record w { status = status }, t)).1.wait_queue
            ≡ t.wait_queue =
          satisfy_all-wait_queue tid w.objects (record w { status = status }, t) in
        ground arith

    pub end_wait-IsLinked :
        (w : Wait) (ws : List Wait) (status : ℕ) (s : State S)
        → s.thread.waits ≡ w ∷ ws
        → IsLinked s
        → IsLinked (end_wait ops w ws status s).1
    unfolding end_wait placed IsDistinct
    end_wait-IsLinked w ws status s top h =
        let d : IsDistinct (w ∷ ws) = subst IsDistinct top h.distinct in
        record {
          own = λ e q.
              let tid : ℕ = s.thread.id in
              let t : Objects S = (satisfy ops tid status w s.objects).1 in
              let a = mem-leave_queues ops tid w.address 0 w.objects t e q in
              let b : mem e (t.wait_queue q) ≡ mem e (s.objects.wait_queue q) =
                ap (λ f. mem e (f q)) (satisfy-wait_queue tid status w s.objects) in
              let c : placed ops.get_obj_sync tid s.thread.waits e q ≡ (
                  stands ops.get_obj_sync tid w.address 0 w.objects e q
                  || placed ops.get_obj_sync tid ws e q) =
                ap (λ l. placed ops.get_obj_sync tid l e q) top in
              let o = stands-owner ops.get_obj_sync tid w.address 0 w.objects e q in
              let x = stands-excludes ops.get_obj_sync tid w ws e q d.0 in
              let l = h.own e q in ground arith;
          distinct = d.1;
        }

    -- What the invariant reads of a state.
    pub record IsSame (s s' : State S) : Type 0 where
      pub id : s'.thread.id ≡ s.thread.id
      pub waits : s'.thread.waits ≡ s.thread.waits
      pub wait_queue : s'.objects.wait_queue ≡ s.objects.wait_queue

    pub IsSame-IsLinked : (s s' : State S) → IsSame s s' → IsLinked s → IsLinked s'
    IsSame-IsLinked s s' e h = record {
      own = λ x q. rw (e.id, e.waits, e.wait_queue) (h.own x q);
      distinct = subst IsDistinct (sym e.waits) h.distinct;
    }

    pub all_signaled-wait_queue :
        (tid : ℕ) (w : Wait) (os : List ℕ) (t : Objects S)
        → (all_signaled ops tid w os t).1.wait_queue ≡ t.wait_queue
    unfolding all_signaled object_sync_signaled
    all_signaled-wait_queue tid w [] t = refl
    all_signaled-wait_queue tid w (o ∷ os) t =
        all_signaled-wait_queue tid w os (object_sync_signaled ops tid w o t).1

    pub any_signaled-wait_queue :
        (tid : ℕ) (w : Wait) (i : ℕ) (os : List ℕ) (t : Objects S)
        → (any_signaled ops tid w i os t).1.wait_queue ≡ t.wait_queue
    unfolding any_signaled object_sync_signaled
    any_signaled-wait_queue tid w i [] t = refl
    any_signaled-wait_queue tid w i (o ∷ os) t =
        let h : (any_signaled ops tid w (suc i) os
              (object_sync_signaled ops tid w o t).1).1.wait_queue
            ≡ t.wait_queue =
          any_signaled-wait_queue tid w (suc i) os (object_sync_signaled ops tid w o t).1 in
        ground arith

    pub check_wait-IsSame : (w : Wait) (s : State S) → IsSame s (check_wait ops w s).1
    unfolding check_wait check_objects
    check_wait-IsSame w s =
        let a = all_signaled-wait_queue s.thread.id w w.objects s.objects in
        let b = any_signaled-wait_queue s.thread.id w 0 w.objects s.objects in ground arith

    pub write_reply-IsSame :
        (cookie signaled : ℕ) (s : State S)
        → IsSame s (with_thread (write_reply cookie signaled s.thread).1 s)
    unfolding write_reply
    write_reply-IsSame cookie signaled s = ground arith

    pub end_all-IsLinked :
        (ws : List Wait) (s : State S)
        → s.thread.waits ≡ ws
        → IsLinked s
        → IsLinked (end_all ops ws s)
    unfolding end_all
    end_all-IsLinked [] s e h = h
    end_all-IsLinked (w ∷ ws) s e h =
        end_all-IsLinked ws (end_wait ops w ws status_thread_is_terminating s).1 refl
          (end_wait-IsLinked w ws status_thread_is_terminating s e h)
