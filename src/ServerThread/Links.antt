-- ===== src/ServerThread/Links.antt =====
-- server/thread_pro11.c: which entries stand in which wait queue.
use menano.Prelude.{
  ℕ, suc, ◌≤◌, ◌≡◌, refl, subst, inl, inr, Bool, true, false, not, ◌&&◌, ◌||◌, List, [], ◌∷◌, ◌++◌,
  arith, ◌==◌, ==_iff, ==_self, Bool-cases,
}
use menano.ServerThread.Defs.{
  Entry, Wait, Objects, SyncOps, same_entry, update, add_queue, list_remove, remove_queue,
  release_object,
}
use menano.ServerThread.Waits.{object_sync_remove_queue, leave_queues}

-- An entry stands in a queue.
unfoldable pub mem : Entry → List Entry → Bool
unfolding same_entry
mem e [] = false
mem e (f ∷ fs) = same_entry f e || mem e fs

pub same_entry-eq : (e f : Entry) → same_entry e f ≡ true → e ≡ f
unfolding same_entry
same_entry-eq e f h = ground arith

pub same_entry_self : (e : Entry) → same_entry e e ≡ true
unfolding same_entry
same_entry_self e = ground arith

pub same_entry_sym : (e f : Entry) → same_entry e f ≡ same_entry f e
unfolding same_entry
same_entry_sym e f = ground arith

apart_lem : (f g e : Entry) → same_entry f g ≡ false → (same_entry g e && same_entry f e) ≡ false
unfolding same_entry
apart_lem f g e h = ground arith

pub mem-append : (e f : Entry) (q : List Entry) → mem e (q ++ f ∷ []) ≡ (mem e q || same_entry f e)
unfolding mem
mem-append e f [] = ground arith
mem-append e f (g ∷ q) = ground (arith, mem-append e f q)

list_remove_hit :
    (e f : Entry) (q : List Entry)
    → mem e (list_remove f q) ≡ (mem e q && not (same_entry f e))
    → mem e (list_remove f (f ∷ q)) ≡ (mem e (f ∷ q) && not (same_entry f e))
unfolding mem list_remove
list_remove_hit e f q h =
    let r : same_entry f f ≡ true = same_entry_self f in rw (r, list_remove) (ground (arith, h))

pub mem-list_remove :
    (e f : Entry) (q : List Entry) → mem e (list_remove f q) ≡ (mem e q && not (same_entry f e))
unfolding mem list_remove
mem-list_remove e f [] = refl
mem-list_remove e f (g ∷ q) = elim (Bool-cases (same_entry f g)) [
  | inl h ↦
      subst (λ k. mem e (list_remove f (k ∷ q)) ≡ (mem e (k ∷ q) && not (same_entry f e)))
        (same_entry-eq f g h) (list_remove_hit e f q (mem-list_remove e f q))
  | inr h ↦
      let apart : (same_entry g e && same_entry f e) ≡ false = apart_lem f g e h in
      rw (h, list_remove) (ground (arith, mem-list_remove e f q))
]

pub update_self {ℓ} : {A : Type ℓ} (k : ℕ) (v : A) (f : ℕ → A) → update k v f k ≡ v
unfolding update
update_self k v f = rw (==_self k) refl

pub update_ne {ℓ} :
    {A : Type ℓ} (k q : ℕ) (v : A) (f : ℕ → A) → (q == k) ≡ false → update k v f q ≡ f q
unfolding update
update_ne k q v f h = rw h refl

-- The entries of the wait at `address` in queue `q`, whose objects from place `i` on are `os`.
unfoldable pub stands : (ℕ → ℕ) → ℕ → ℕ → ℕ → List ℕ → Entry → ℕ → Bool
unfolding same_entry
stands sync_of tid address i [] e q = false
stands sync_of tid address i (o ∷ os) e q =
    (same_entry (record { thread = tid; wait = address; place = i }) e && (sync_of o == q))
    || stands sync_of tid address (suc i) os e q

-- The entries of all the waits of a stack.
unfoldable pub placed : (ℕ → ℕ) → ℕ → List Wait → Entry → ℕ → Bool
unfolding stands
placed sync_of tid [] e q = false
placed sync_of tid (w ∷ ws) e q =
    stands sync_of tid w.address 0 w.objects e q || placed sync_of tid ws e q

pub stands-owner :
    (g : ℕ → ℕ) (tid a i : ℕ) (os : List ℕ) (e : Entry) (q : ℕ)
    → stands g tid a i os e q ≡ true
    → (e.thread ≡ tid) × (e.wait ≡ a) × (i ≤ e.place)
unfolding stands same_entry
stands-owner g tid a i [] e q h = absurd cc
stands-owner g tid a i (o ∷ os) e q h = ground (arith, stands-owner g tid a (suc i) os e q)

unfoldable pub has_address : ℕ → List Wait → Bool
has_address a [] = false
has_address a (w ∷ ws) = (w.address == a) || has_address a ws

pub placed-has_address :
    (g : ℕ → ℕ) (tid : ℕ) (ws : List Wait) (e : Entry) (q : ℕ)
    → placed g tid ws e q ≡ true
    → (e.thread ≡ tid) × (has_address e.wait ws ≡ true)
unfolding placed has_address
placed-has_address g tid [] e q h = absurd cc
placed-has_address g tid (w ∷ ws) e q h =
    ground (arith, stands-owner g tid w.address 0 w.objects e q, placed-has_address g tid ws e q)

module _ {S : Type 0} (ops : SyncOps S) where
  pub mem-remove_queue :
      (o : ℕ) (f : Entry) (t : Objects S) (e : Entry) (q : ℕ)
      → mem e ((remove_queue o f t).wait_queue q)
        ≡ (mem e (t.wait_queue q) && not (same_entry f e && (o == q)))
  unfolding remove_queue
  mem-remove_queue o f t e q = elim (Bool-cases (q == o)) [
    | inl h ↦
        rw
          ((==_iff q o).0 h, update_self o (list_remove f (t.wait_queue o)) t.wait_queue, ==_self o)
          (ground (arith, mem-list_remove e f (t.wait_queue o)))
    | inr h ↦ rw (update_ne o q (list_remove f (t.wait_queue o)) t.wait_queue h) (ground arith)
  ]

  pub mem-add_queue :
      (o : ℕ) (f : Entry) (t : Objects S) (e : Entry) (q : ℕ)
      → mem e ((add_queue o f t).wait_queue q)
        ≡ (mem e (t.wait_queue q) || (same_entry f e && (o == q)))
  unfolding add_queue
  mem-add_queue o f t e q = elim (Bool-cases (q == o)) [
    | inl h ↦
        rw ((==_iff q o).0 h, update_self o (t.wait_queue o ++ f ∷ []) t.wait_queue, ==_self o)
          (ground (arith, mem-append e f (t.wait_queue o)))
    | inr h ↦ rw (update_ne o q (t.wait_queue o ++ f ∷ []) t.wait_queue h) (ground arith)
  ]

  pub mem-leave_queues :
      (tid a i : ℕ) (os : List ℕ) (t : Objects S) (e : Entry) (q : ℕ)
      → mem e ((leave_queues ops tid a i os t).wait_queue q)
        ≡ (mem e (t.wait_queue q) && not (stands ops.get_obj_sync tid a i os e q))
  unfolding leave_queues stands object_sync_remove_queue release_object
  mem-leave_queues tid a i [] t e q = ground arith
  mem-leave_queues tid a i (o ∷ os) t e q =
      let f : Entry = record { thread = tid; wait = a; place = i } in
      ground (
        arith,
        mem-remove_queue (ops.get_obj_sync o) f t e q,
        mem-leave_queues tid a (suc i) os (release_object o (object_sync_remove_queue ops o f t)) e
            q,
      )
