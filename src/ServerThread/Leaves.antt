-- ===== src/ServerThread/Leaves.antt =====
-- server/thread_pro11.c: a wait leaves the queues of its objects as it found them.
use menano.Prelude.{
  ℕ, suc, ◌-◌, ◌≡◌, refl, ◌∙◌, inl, inr, true, false, List, [], ◌∷◌, ◌++◌, arith, ◌==◌,
  if◌then◌else◌, Bool-cases,
}
use mathlib.Core.List.{append-nil}
use menano.ServerThread.Defs.{
  Entry, Objects, SyncOps, update, list_remove, remove_queue, release_object,
}
use menano.ServerThread.Waits.{object_sync_remove_queue, leave_queues}
use menano.ServerThread.Links.{mem, same_entry_self, stands}
use menano.ServerThread.Joins.{
  entries, times, list_remove_middle, entries_later, remove_queue-wait_queue,
}

leave_one :
    (g : ℕ → ℕ) (tid a i o : ℕ) (os : List ℕ) (q : ℕ) (ws xs : List Entry)
    → ws ≡ xs ++ entries g tid a i (o ∷ os) q
    → ((e : Entry) → stands g tid a i (o ∷ os) e q ≡ true → mem e xs ≡ false)
    → (if g o == q then list_remove (record { thread = tid; wait = a; place = i }) ws else ws)
      ≡ xs ++ entries g tid a (suc i) os q
unfolding entries stands
leave_one g tid a i o os q ws xs e h =
    let f : Entry = record { thread = tid; wait = a; place = i } in
    elim (Bool-cases (g o == q)) [
      | inl y ↦
          let absent : mem f xs ≡ false = h f (rw (same_entry_self f) (ground arith)) in
          let m =
            list_remove_middle f xs (entries g tid a (suc i) os q) absent
              (entries_later g tid a i os q) in
          rw e (ground arith)
      | inr n ↦ rw e (ground arith)
    ]

module _ {S : Type 0} (ops : SyncOps S) where
  module _ (tid a : ℕ) where
    abbrev entry_at : ℕ → Entry
    entry_at i = record { thread = tid; wait = a; place = i }

    pub leave_queues-wait_queue :
        (i : ℕ) (os : List ℕ) (t : Objects S) (q : ℕ) (xs : List Entry)
        → t.wait_queue q ≡ xs ++ entries ops.get_obj_sync tid a i os q
        → ((e : Entry) → stands ops.get_obj_sync tid a i os e q ≡ true → mem e xs ≡ false)
        → (leave_queues ops tid a i os t).wait_queue q ≡ xs
    unfolding leave_queues object_sync_remove_queue release_object stands entries
    leave_queues-wait_queue i [] t q xs e h = e ∙ append-nil xs
    leave_queues-wait_queue i (o ∷ os) t q xs e h =
        let k : ℕ = ops.get_obj_sync o in
        let t' : Objects S = remove_queue k (entry_at i) t in
        let rest : List Entry = entries ops.get_obj_sync tid a (suc i) os q in
        leave_queues-wait_queue (suc i) os (release_object o t') q xs
          (remove_queue-wait_queue k (entry_at i) t q
            ∙ leave_one ops.get_obj_sync tid a i o os q (t.wait_queue q) xs e h)
          (λ e s. h e (ground arith))

    pub leave_queues-refcount :
        (i : ℕ) (os : List ℕ) (t : Objects S) (q : ℕ)
        → (leave_queues ops tid a i os t).refcount q ≡ t.refcount q - times q os
    unfolding leave_queues object_sync_remove_queue remove_queue release_object times update
    leave_queues-refcount i [] t q = omega arith
    leave_queues-refcount i (o ∷ os) t q = ground (
      arith,
      leave_queues-refcount (suc i) os
          (release_object o (object_sync_remove_queue ops o (entry_at i) t)) q,
    )

    pub leave_queues-sync :
        (i : ℕ) (os : List ℕ) (t : Objects S) → (leave_queues ops tid a i os t).sync ≡ t.sync
    unfolding leave_queues object_sync_remove_queue remove_queue release_object
    leave_queues-sync i [] t = refl
    leave_queues-sync i (o ∷ os) t =
        leave_queues-sync (suc i) os
          (release_object o (object_sync_remove_queue ops o (entry_at i) t))
