-- ===== src/ServerThread/Preserved.antt =====
-- server/thread_pro11.c: the elementary steps keep the queues linked.
use menano.Prelude.{
  ℕ, ◌-◌, ◌≡◌, refl, Bool, true, List, [], ◌∷◌, arith, if◌then◌else◌, either_branch,
}
use menano.ServerThread.Defs.{Entry, Wait, State, SyncOps, is_empty, with_waits, with_thread}
use menano.ServerThread.Waits.{check_wait}
use menano.ServerThread.Wakeups.{
  write_reply, cleanup_thread, clear_user, stop_thread, suspend_thread, end_all, bury, kill_thread,
}
use menano.ServerThread.Links.{placed, has_address}
use menano.ServerThread.Keeps.{Rule}
use menano.ServerThread.Invariant.{
  IsDistinct, IsLinked, end_wait-IsLinked, IsSame-IsLinked, check_wait-IsSame, write_reply-IsSame,
  end_all-IsLinked,
}

-- Forgetting a timer changes no entry.
has_address-clear_user :
    (a address : ℕ) (ws : List Wait) → has_address a (clear_user address ws) ≡ has_address a ws
unfolding has_address
has_address-clear_user a address [] = refl
has_address-clear_user a address (w ∷ ws) = ground (arith, has_address-clear_user a address ws)

clear_user-IsDistinct :
    (address : ℕ) (ws : List Wait) → IsDistinct ws → IsDistinct (clear_user address ws)
unfolding IsDistinct
clear_user-IsDistinct address [] h = h
clear_user-IsDistinct address (w ∷ ws) h =
    let e = has_address-clear_user w.address address ws in
    let t = clear_user-IsDistinct address ws h.1 in ground arith

placed-clear_user :
    (g : ℕ → ℕ) (tid address : ℕ) (ws : List Wait) (e : Entry) (q : ℕ)
    → placed g tid (clear_user address ws) e q ≡ placed g tid ws e q
unfolding placed
placed-clear_user g tid address [] e q = refl
placed-clear_user g tid address (w ∷ ws) e q =
    ground (arith, placed-clear_user g tid address ws e q)

module _ {S : Type 0} (ops : SyncOps S) (others : Entry → ℕ → Bool) where
  abbrev L : State S → Type 0
  L s = IsLinked ops others s

  kill_thread-IsLinked : (s : State S) → L s → L (kill_thread ops s)
  unfolding kill_thread bury cleanup_thread
  kill_thread-IsLinked s h =
      let dying : State S = with_thread (record s.thread { terminated = true }) s in
      let hd : L dying =
        IsSame-IsLinked ops others s dying (record { id = refl; waits = refl; wait_queue = refl })
          h in
      let ended : State S = end_all ops s.thread.waits dying in
      let he : L ended = end_all-IsLinked ops others s.thread.waits dying refl hd in
      let told : State S =
        with_thread (write_reply 0 ended.thread.exit_code ended.thread).1 ended in
      let ht : L told =
        IsSame-IsLinked ops others ended told
          (write_reply-IsSame ops others 0 ended.thread.exit_code ended) he in
      let last : State S = if is_empty s.thread.waits then dying else told in
      either_branch L s.thread.terminated h (
        IsSame-IsLinked ops others last (bury ops last)
          (record { id = refl; waits = refl; wait_queue = refl })
          (either_branch L (is_empty s.thread.waits) hd ht))

  forgot-IsLinked :
      (address : ℕ) (s : State S) → L s → L (with_waits (clear_user address s.thread.waits) s)
  forgot-IsLinked address s h = record {
    own = λ e q.
        rw (placed-clear_user ops.get_obj_sync s.thread.id address s.thread.waits e q) (h.own e q);
    distinct = clear_user-IsDistinct address s.thread.waits h.distinct;
  }

  suspend_thread-IsLinked :
      (created is_current : Bool) (s : State S) → L s → L (suspend_thread created is_current s).1
  unfolding suspend_thread stop_thread
  suspend_thread-IsLinked created is_current s h =
      IsSame-IsLinked ops others s (suspend_thread created is_current s).1
        (record { id = ground arith; waits = ground arith; wait_queue = ground arith }) h

  pub IsLinked-Rule : Rule ops (IsLinked ops others)
  IsLinked-Rule = record {
    ended = end_wait-IsLinked ops others;
    checked = λ w s h.
        IsSame-IsLinked ops others s (check_wait ops w s).1 (check_wait-IsSame ops others w s) h;
    replied = λ c g s h.
        IsSame-IsLinked ops others s (with_thread (write_reply c g s.thread).1 s)
          (write_reply-IsSame ops others c g s) h;
    killed = kill_thread-IsLinked;
    forgot = forgot-IsLinked;
    suspended = suspend_thread-IsLinked;
    counted_down = λ s h.
        IsSame-IsLinked ops others s
          (with_thread (record s.thread { suspend = s.thread.suspend - 1 }) s)
          (record { id = refl; waits = refl; wait_queue = refl }) h;
  }
