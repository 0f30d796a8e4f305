-- ===== src/ServerThread/Standing.antt =====
-- server/thread_pro11.c: a wait that starts keeps the queues linked.
use menano.Prelude.{
  ℕ, ◌≡◌, refl, sym, ap, subst, ◌∙◌, Bool, true, false, ◌||◌, Option, none, some, List, [], ◌∷◌,
  ◌++◌, arith, either_branch,
}
use menano.ServerThread.Defs.{Entry, Wait, State, SyncOps}
use menano.ServerThread.Waits.{end_wait, join_queues, wait_on}
use menano.ServerThread.Links.{mem, placed, stands-owner, has_address}
use menano.ServerThread.Invariant.{IsDistinct, IsLinked, end_wait-IsLinked}
use menano.ServerThread.Joins.{entries, mem-entries, join_queues-wait_queue}
use menano.ServerThread.Roundtrip.{made, waiting, wait_on-waiting, stack}

mem-concat : (e : Entry) (xs ys : List Entry) → mem e (xs ++ ys) ≡ (mem e xs || mem e ys)
unfolding mem
mem-concat e [] ys = refl
mem-concat e (x ∷ xs) ys = ground (arith, mem-concat e xs ys)

module _ {S : Type 0} (ops : SyncOps S) (others : Entry → ℕ → Bool) where
  waiting-IsLinked :
      (a : ℕ) (proto : Wait) (objects : List ℕ) (s : State S)
      → has_address a s.thread.waits ≡ false
      → IsLinked ops others s
      → IsLinked ops others (waiting ops others a proto objects s)
  unfolding waiting made placed IsDistinct
  waiting-IsLinked a proto objects s fresh h =
      let tid : ℕ = s.thread.id in
      let j = join_queues ops tid a 0 objects s.objects in
      record {
        own = λ e q.
            let m : mem e (j.1.1.wait_queue q) ≡ (
                mem e (s.objects.wait_queue q)
                || mem e (entries ops.get_obj_sync tid a 0 j.1.0 q)) =
              ap (mem e) (join_queues-wait_queue ops tid a 0 objects s.objects q)
              ∙ mem-concat e (s.objects.wait_queue q) (entries ops.get_obj_sync tid a 0 j.1.0 q) in
            let n = mem-entries ops.get_obj_sync tid a 0 j.1.0 e q in
            let o = stands-owner ops.get_obj_sync tid a 0 j.1.0 e q in
            let l = h.own e q in ground arith;
        distinct = (fresh, h.distinct);
      }

  pub wait_on-IsLinked :
      (allocated : Option ℕ) (proto : Wait) (objects : List ℕ) (s : State S)
      → ((a : ℕ) → allocated ≡ some a → has_address a s.thread.waits ≡ false)
      → IsLinked ops others s
      → IsLinked ops others (wait_on ops allocated proto objects s).1
  unfolding wait_on
  wait_on-IsLinked none proto objects s fresh h = h
  wait_on-IsLinked (some a) proto objects s fresh h =
      let j = join_queues ops s.thread.id a 0 objects s.objects in
      let hw : IsLinked ops others (waiting ops others a proto objects s) =
        waiting-IsLinked a proto objects s (fresh a refl) h in
      let undone =
        end_wait ops (made a proto j.1.0) s.thread.waits ops.refusal
          (waiting ops others a proto objects s) in
      subst (λ r. IsLinked ops others r.1) (sym (wait_on-waiting ops others a proto objects s))
        (either_branch {A = Bool × State S} (λ r. IsLinked ops others r.1) j.0
          {x = (true, waiting ops others a proto objects s)} {y = (false, undone.1)} hw
          (end_wait-IsLinked ops others (made a proto j.1.0) s.thread.waits ops.refusal
            (waiting ops others a proto objects s) (stack ops others a proto objects s) hw))
