-- ===== src/ServerThread/Joins.antt =====
-- server/thread_pro11.c: a new wait joins the queues of its objects, and leaves them as they were.
use menano.Prelude.{
  ℕ, suc, ◌+◌, ◌≡◌, refl, sym, ap, subst, ◌∙◌, inl, inr, Bool, true, false, List, [], ◌∷◌, ◌++◌,
  arith, ◌==◌, if◌then◌else◌, ==_iff, ==_self, Bool-cases,
}
use menano.ServerThread.Defs.{
  Entry, Objects, SyncOps, update, add_queue, list_remove, remove_queue, grab_object,
}
use menano.ServerThread.Waits.{object_sync_add_queue, join_queues}
use mathlib.Core.List.{append-nil, append_assoc}
use menano.ServerThread.Links.{
  mem, same_entry_self, same_entry_sym, update_self, update_ne, stands, stands-owner,
}

-- The entries that a wait adds to queue `q`, in order.
unfoldable pub entries : (ℕ → ℕ) → ℕ → ℕ → ℕ → List ℕ → ℕ → List Entry
entries g tid a i [] q = []
entries g tid a i (o ∷ os) q =
    let rest = entries g tid a (suc i) os q in
    if g o == q then record { thread = tid; wait = a; place = i } ∷ rest else rest

-- How often an object is waited for.
unfoldable pub times : ℕ → List ℕ → ℕ
times q [] = 0
times q (o ∷ os) = let rest = times q os in if q == o then suc rest else rest

entries-cons :
    (g : ℕ → ℕ) (tid a i o : ℕ) (os : List ℕ) (q : ℕ)
    → entries g tid a i (o ∷ os) q
      ≡ (if g o == q then record { thread = tid; wait = a; place = i } ∷ [] else [])
        ++ entries g tid a (suc i) os q
unfolding entries
entries-cons g tid a i o os q = ground arith

pub mem-entries :
    (g : ℕ → ℕ) (tid a i : ℕ) (os : List ℕ) (e : Entry) (q : ℕ)
    → mem e (entries g tid a i os q) ≡ stands g tid a i os e q
unfolding mem entries stands
mem-entries g tid a i [] e q = refl
mem-entries g tid a i (o ∷ os) e q = ground (arith, mem-entries g tid a (suc i) os e q)

list_remove_absent : (e : Entry) (q : List Entry) → mem e q ≡ false → list_remove e q ≡ q
unfolding mem list_remove
list_remove_absent e [] h = refl
list_remove_absent e (f ∷ q) h =
    let s = same_entry_sym e f in ground (arith, list_remove_absent e q)

pub list_remove_middle :
    (e : Entry) (xs ys : List Entry)
    → mem e xs ≡ false
    → mem e ys ≡ false
    → list_remove e (xs ++ e ∷ ys) ≡ xs ++ ys
unfolding mem list_remove
list_remove_middle e [] ys h k =
    let s = same_entry_self e in ground (arith, list_remove_absent e ys)
list_remove_middle e (x ∷ xs) ys h k =
    let s = same_entry_sym e x in ground (arith, list_remove_middle e xs ys)

-- A later place's entries do not hold an earlier place's entry.
pub entries_later :
    (g : ℕ → ℕ) (tid a i : ℕ) (os : List ℕ) (q : ℕ)
    → mem (record { thread = tid; wait = a; place = i }) (entries g tid a (suc i) os q) ≡ false
entries_later g tid a i os q =
    let e : Entry = record { thread = tid; wait = a; place = i } in
    let m = mem-entries g tid a (suc i) os e q in
    let o = stands-owner g tid a (suc i) os e q in ground arith

module _ {S : Type 0} where
  add_queue-wait_queue :
      (k : ℕ) (e : Entry) (t : Objects S) (q : ℕ)
      → (add_queue k e t).wait_queue q ≡ t.wait_queue q ++ (if k == q then e ∷ [] else [])
  unfolding add_queue
  add_queue-wait_queue k e t q = elim (Bool-cases (q == k)) [
    | inl h ↦
        rw ((==_iff q k).0 h, update_self k (t.wait_queue k ++ e ∷ []) t.wait_queue, ==_self k) refl
    | inr h ↦
        let n : (k == q) ≡ false = ground arith in
        rw (update_ne k q (t.wait_queue k ++ e ∷ []) t.wait_queue h, n)
          (sym (append-nil (t.wait_queue q)))
  ]

  pub remove_queue-wait_queue :
      (k : ℕ) (e : Entry) (t : Objects S) (q : ℕ)
      → (remove_queue k e t).wait_queue q
        ≡ (if k == q then list_remove e (t.wait_queue q) else t.wait_queue q)
  unfolding remove_queue
  remove_queue-wait_queue k e t q = elim (Bool-cases (q == k)) [
    | inl h ↦
        rw ((==_iff q k).0 h, update_self k (list_remove e (t.wait_queue k)) t.wait_queue)
          (ground arith)
    | inr h ↦
        let n : (k == q) ≡ false = ground arith in
        rw (update_ne k q (list_remove e (t.wait_queue k)) t.wait_queue h, n) refl
  ]

module _ {S : Type 0} (ops : SyncOps S) where
  module _ (tid a : ℕ) where
    abbrev entry_at : ℕ → Entry
    entry_at i = record { thread = tid; wait = a; place = i }

    join_queues_accepted :
        (i o : ℕ) (os : List ℕ) (t : Objects S)
        → ops.accepts (ops.get_obj_sync o) ≡ true
        → let rest =
            join_queues ops tid a
              (suc i)
              os
              (grab_object o (add_queue (ops.get_obj_sync o) (entry_at i) t)) in
          join_queues ops tid a i (o ∷ os) t ≡ (rest.0, (o ∷ rest.1.0, rest.1.1))
    unfolding join_queues object_sync_add_queue
    join_queues_accepted i o os t h = rw h refl

    join_queues_refused :
        (i o : ℕ) (os : List ℕ) (t : Objects S)
        → ops.accepts (ops.get_obj_sync o) ≡ false
        → join_queues ops tid a i (o ∷ os) t ≡ (false, ([], t))
    unfolding join_queues object_sync_add_queue
    join_queues_refused i o os t h = rw h refl

    -- Joining, by induction on the objects that accept the wait.
    join_queues-induction {ℓ} :
        (P : ℕ → Objects S → Bool × (List ℕ × Objects S) → Type ℓ)
        → ((i : ℕ) (t : Objects S) → P i t (true, ([], t)))
        → ((i : ℕ) (t : Objects S) → P i t (false, ([], t)))
        → ((i o : ℕ) (t : Objects S) (r : Bool × (List ℕ × Objects S))
            → P (suc i) (grab_object o (add_queue (ops.get_obj_sync o) (entry_at i) t)) r
            → P i t (r.0, (o ∷ r.1.0, r.1.1)))
        → (i : ℕ) (os : List ℕ) (t : Objects S) → P i t (join_queues ops tid a i os t)
    unfolding join_queues
    join_queues-induction P all refused next i [] t = all i t
    join_queues-induction P all refused next i (o ∷ os) t =
        elim (Bool-cases (ops.accepts (ops.get_obj_sync o))) [
          | inl h ↦
              let t' : Objects S = grab_object o (add_queue (ops.get_obj_sync o) (entry_at i) t) in
              subst (P i t) (sym (join_queues_accepted i o os t h)) (
                next i o t (join_queues ops tid a (suc i) os t')
                  (join_queues-induction P all refused next (suc i) os t'))
          | inr h ↦ subst (P i t) (sym (join_queues_refused i o os t h)) (refused i t)
        ]

    -- What joining does to each queue and to each count.
    pub join_queues-wait_queue :
        (i : ℕ) (os : List ℕ) (t : Objects S) (q : ℕ)
        → let j = join_queues ops tid a i os t in
          j.1.1.wait_queue q ≡ t.wait_queue q ++ entries ops.get_obj_sync tid a i j.1.0 q
    unfolding grab_object entries
    join_queues-wait_queue i os t q =
        join_queues-induction
          (λ i t r. r.1.1.wait_queue q ≡ t.wait_queue q ++ entries ops.get_obj_sync tid a i r.1.0 q)
          (λ i t. sym (append-nil (t.wait_queue q))) (λ i t. sym (append-nil (t.wait_queue q)))
          (λ i o t r h.
            let k : ℕ = ops.get_obj_sync o in
            let now : List Entry = if k == q then entry_at i ∷ [] else [] in
            let rest : List Entry = entries ops.get_obj_sync tid a (suc i) r.1.0 q in
            h
            ∙ ap (λ l. l ++ rest) (add_queue-wait_queue k (entry_at i) t q)
            ∙ append_assoc (t.wait_queue q) now rest
            ∙ ap (λ l. t.wait_queue q ++ l) (sym (entries-cons ops.get_obj_sync tid a i o r.1.0 q)))
          i os t

    pub join_queues-refcount :
        (i : ℕ) (os : List ℕ) (t : Objects S) (q : ℕ)
        → let j = join_queues ops tid a i os t in j.1.1.refcount q ≡ t.refcount q + times q j.1.0
    unfolding times grab_object add_queue update
    join_queues-refcount i os t q =
        join_queues-induction (λ i t r. r.1.1.refcount q ≡ t.refcount q + times q r.1.0)
          (λ i t. omega arith) (λ i t. omega arith) (λ i o t r h. ground arith) i os t

    pub join_queues-sync :
        (i : ℕ) (os : List ℕ) (t : Objects S) → (join_queues ops tid a i os t).1.1.sync ≡ t.sync
    unfolding grab_object add_queue
    join_queues-sync i os t =
        join_queues-induction (λ i t r. r.1.1.sync ≡ t.sync) (λ i t. refl) (λ i t. refl)
          (λ i o t r h. h) i os t
