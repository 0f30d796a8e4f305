-- ===== src/ServerThread/Bounds.antt =====
-- server/thread_pro11.c: the bounds on a thread's waits and on its suspend count.
use menano.Prelude.{
  ℕ, ◌-◌, ◌≤◌, ◌≡◌, refl, sym, subst, ◌∙◌, inl, inr, Bool, true, false, List, [], ◌∷◌, arith,
  Bool-cases, length, All,
}
use menano.ServerThread.Defs.{
  Wait, Thread, State, SyncOps, status_thread_is_terminating, maximum_wait_objects,
  maximum_suspend_count, with_thread,
}
use menano.ServerThread.Waits.{end_wait, check_wait}
use menano.ServerThread.Wakeups.{
  write_reply, cleanup_thread, clear_user, stop_thread, suspend_thread, end_all, bury, kill_thread,
}
use menano.ServerThread.Settles.{kill_thread-waits}
use menano.ServerThread.Keeps.{Rule}
use menano.ServerThread.Invariant.{check_wait-IsSame}

abbrev pub IsCapped : Wait → Type 0
IsCapped w = length w.objects ≤ maximum_wait_objects

-- A thread that is gone waits for nothing, no wait has more than 64 objects, and the suspend count
-- is at most MAXIMUM_SUSPEND_COUNT.
pub record IsBounded {S : Type 0} (s : State S) : Type 0 where
  pub idle : s.thread.terminated ≡ true → s.thread.waits ≡ []
  pub capped : All IsCapped s.thread.waits
  pub suspend : s.thread.suspend ≤ maximum_suspend_count

clear_user-IsCapped :
    (address : ℕ) (ws : List Wait) → All IsCapped ws → All IsCapped (clear_user address ws)
clear_user-IsCapped address [] h = h
clear_user-IsCapped address (w ∷ ws) h = let t = clear_user-IsCapped address ws h.1 in ground arith

clear_user_nil : (address : ℕ) (ws : List Wait) → ws ≡ [] → clear_user address ws ≡ []
clear_user_nil address [] h = refl
clear_user_nil address (w ∷ ws) h = absurd cc

module _ {S : Type 0} (ops : SyncOps S) where
  end_all-suspend :
      (ws : List Wait) (s : State S) → (end_all ops ws s).thread.suspend ≡ s.thread.suspend
  unfolding end_all end_wait
  end_all-suspend [] s = refl
  end_all-suspend (w ∷ ws) s =
      end_all-suspend ws (end_wait ops w ws status_thread_is_terminating s).1

  kill_thread-suspend : (s : State S) → (kill_thread ops s).thread.suspend ≡ s.thread.suspend
  unfolding kill_thread bury cleanup_thread write_reply
  kill_thread-suspend s =
      let e =
        end_all-suspend s.thread.waits (with_thread (record s.thread { terminated = true }) s) in
      ground arith

  pub terminated_keeps : (s : State S) → s.thread.terminated ≡ true → kill_thread ops s ≡ s
  unfolding kill_thread
  terminated_keeps s h = rw h refl

  kill_thread-IsBounded : (s : State S) → IsBounded s → IsBounded (kill_thread ops s)
  kill_thread-IsBounded s h = elim (Bool-cases s.thread.terminated) [
    | inl t ↦ subst IsBounded (sym (terminated_keeps s t)) h
    | inr f ↦
        let e : (kill_thread ops s).thread.waits ≡ [] = kill_thread-waits ops s f in
        record {
          idle = λ t. e;
          capped = subst (All IsCapped) (sym e) tt;
          suspend = subst (λ n. n ≤ maximum_suspend_count) (sym (kill_thread-suspend s)) h.suspend;
        }
  ]

  -- What the bounds read of a state.
  pub IsBounded-of :
      (s s' : State S)
      → s'.thread.terminated ≡ s.thread.terminated
      → s'.thread.waits ≡ s.thread.waits
      → s'.thread.suspend ≤ maximum_suspend_count
      → IsBounded s
      → IsBounded s'
  IsBounded-of s s' t w n h = record {
    idle = λ e. w ∙ h.idle (sym t ∙ e);
    capped = subst (All IsCapped) (sym w) h.capped;
    suspend = n;
  }

  check_wait-terminated :
      (w : Wait) (s : State S)
      → ((check_wait ops w s).1.thread.terminated ≡ s.thread.terminated)
        × ((check_wait ops w s).1.thread.suspend ≡ s.thread.suspend)
  unfolding check_wait
  check_wait-terminated w s = ground arith

  write_reply_bounds :
      (cookie signaled : ℕ) (t : Thread)
      → ((write_reply cookie signaled t).1.terminated ≡ t.terminated)
        × ((write_reply cookie signaled t).1.waits ≡ t.waits)
        × ((write_reply cookie signaled t).1.suspend ≡ t.suspend)
  unfolding write_reply
  write_reply_bounds cookie signaled t = ground arith

  suspend_thread_bounds :
      (created is_current : Bool) (s : State S)
      → let s' = (suspend_thread created is_current s).1 in
        s.thread.suspend ≤ maximum_suspend_count
        → (s'.thread.terminated ≡ s.thread.terminated)
          × (s'.thread.waits ≡ s.thread.waits)
          × (s'.thread.suspend ≤ maximum_suspend_count)
  unfolding suspend_thread stop_thread
  suspend_thread_bounds created is_current s h = ground arith

  end_wait-IsBounded :
      (w : Wait) (ws : List Wait) (status : ℕ) (s : State S)
      → s.thread.waits ≡ w ∷ ws
      → IsBounded s
      → IsBounded (end_wait ops w ws status s).1
  unfolding end_wait
  end_wait-IsBounded w ws status s e h = record {
    idle = λ t. let n = h.idle t in absurd cc;
    capped = (subst (All IsCapped) e h.capped).1;
    suspend = h.suspend;
  }

  pub IsBounded-Rule : Rule ops IsBounded
  IsBounded-Rule = record {
    ended = end_wait-IsBounded;
    checked = λ w s h.
        let c = check_wait-terminated w s in
        IsBounded-of s (check_wait ops w s).1 c.0 (check_wait-IsSame ops (λ x q. false) w s).waits
          (rw c.1 h.suspend) h;
    replied = λ c g s h.
        let r = write_reply_bounds c g s.thread in
        IsBounded-of s (with_thread (write_reply c g s.thread).1 s) r.0 r.1 (rw r.2 h.suspend) h;
    killed = kill_thread-IsBounded;
    forgot = λ address s h. record {
      idle = λ t. clear_user_nil address s.thread.waits (h.idle t);
      capped = clear_user-IsCapped address s.thread.waits h.capped;
      suspend = h.suspend;
    };
    suspended = λ created is_current s h.
        let b = suspend_thread_bounds created is_current s h.suspend in
        IsBounded-of s (suspend_thread created is_current s).1 b.0 b.1 b.2 h;
    counted_down = λ s h.
        let n = h.suspend in
        IsBounded-of s (with_thread (record s.thread { suspend = s.thread.suspend - 1 }) s) refl
          refl (omega arith) h;
  }
