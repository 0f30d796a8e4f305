-- ===== src/ServerThread/Starts.antt =====
-- server/thread_pro11.c: a wait that starts keeps the bounds.
use menano.Prelude.{
  ℕ, ◌≤◌, ◌≡◌, sym, subst, Bool, true, false, Option, none, some, List, ◌∷◌, arith, either_branch,
  length, All,
}
use menano.ServerThread.Defs.{Entry, Wait, State, SyncOps, maximum_wait_objects, with_waits}
use menano.ServerThread.Waits.{end_wait, join_queues, wait_on}
use menano.ServerThread.Bounds.{IsCapped, IsBounded, IsBounded-Rule}
use menano.ServerThread.Roundtrip.{made, waiting, wait_on-waiting, stack, join_queues-length}

module _ {S : Type 0} where
  pub armed-IsBounded :
      (w : Wait) (ws : List Wait) (user : Bool) (cookie : ℕ) (s : State S)
      → s.thread.waits ≡ w ∷ ws
      → IsBounded s
      → IsBounded (with_waits (record w { user = user; cookie = cookie } ∷ ws) s)
  armed-IsBounded w ws user cookie s e h = record {
    idle = λ t. let n = h.idle t in absurd cc;
    capped = subst (All IsCapped) e h.capped;
    suspend = h.suspend;
  }

module _ {S : Type 0} (ops : SyncOps S) (others : Entry → ℕ → Bool) where
  waiting-IsBounded :
      (a : ℕ) (proto : Wait) (objects : List ℕ) (s : State S)
      → s.thread.terminated ≡ false
      → length objects ≤ maximum_wait_objects
      → IsBounded s
      → IsBounded (waiting ops others a proto objects s)
  unfolding waiting made
  waiting-IsBounded a proto objects s live l h =
      let n = join_queues-length ops others s.thread.id a 0 objects s.objects in
      record { idle = λ t. absurd cc; capped = (omega arith, h.capped); suspend = h.suspend }

  pub wait_on-IsBounded :
      (allocated : Option ℕ) (proto : Wait) (objects : List ℕ) (s : State S)
      → s.thread.terminated ≡ false
      → length objects ≤ maximum_wait_objects
      → IsBounded s
      → IsBounded (wait_on ops allocated proto objects s).1
  unfolding wait_on
  wait_on-IsBounded none proto objects s live l h = h
  wait_on-IsBounded (some a) proto objects s live l h =
      let j = join_queues ops s.thread.id a 0 objects s.objects in
      let w : State S = waiting ops others a proto objects s in
      let hw : IsBounded w = waiting-IsBounded a proto objects s live l h in
      let undone = end_wait ops (made a proto j.1.0) s.thread.waits ops.refusal w in
      subst (λ r. IsBounded r.1) (sym (wait_on-waiting ops others a proto objects s))
        (either_branch {A = Bool × State S} (λ r. IsBounded r.1) j.0 {x = (true, w)}
          {y = (false, undone.1)} hw
          ((IsBounded-Rule ops).ended (made a proto j.1.0) s.thread.waits ops.refusal w
            (stack ops others a proto objects s) hw))
