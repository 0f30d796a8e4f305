-- ===== src/ServerThread/Alerts.antt =====
-- server/thread_pro11.c: the alert sync of a thread is signaled while user APCs are queued.
use menano.Prelude.{
  ℕ, ◌≡◌, refl, ap, ◌⊎◌, inl, inr, Bool, true, false, not, ◌&&◌, Option, none, some, List, [], ◌∷◌,
  ◌++◌, arith, ◌==◌, if◌then◌else◌, either_branch,
}
use menano.ServerThread.Defs.{Wait, Apc, Thread, State, SyncOps, is_empty, with_thread}
use menano.ServerThread.Waits.{end_wait, check_wait}
use menano.ServerThread.Wakeups.{write_reply, stop_thread, suspend_thread, wake_thread}
use menano.ServerThread.Settles.{kill_thread-terminated}
use menano.ServerThread.Keeps.{Rule, wake_thread_keeps}
use menano.ServerThread.Apcs.{
  ApcQueue, get_apc_queue, queue_of, with_queue, set_alert, reset_alert, take_owned, cancel_taken,
  thread_cancel_apc, dequeued, thread_dequeue_apc, is_user, enqueue, needs_signal, to_queue,
  queue_thread_apc, system_queue, user_queue,
}

abbrev pub IsAlerted : Thread → Type 0
IsAlerted t =
    (t.terminated ≡ true)
    ⊎ ((t.alert_sync ≡ none) ⊎ (t.alert_sync ≡ some (not (is_empty t.user_apc))))

-- What the rest of the server does with APCs: it queues them to the thread or to a process whose
-- candidates are given, cancels those of an owner, and takes the first of a queue.
pub data ApcOp : Type 0 where
  queues : Apc → ApcOp
  queues_to_candidate : ApcQueue → Apc → ApcOp
  cancels : ℕ → ApcQueue → ApcOp
  dequeues : ApcQueue → ApcOp
  wakes_up : ApcOp

take_owned_some :
    (owner : ℕ) (q : List Apc) → ((take_owned owner q).0 ≡ none) ⊎ (is_empty q ≡ false)
unfolding take_owned
take_owned_some owner [] = inl refl
take_owned_some owner (a ∷ q) = inr refl

cancel_taken-IsAlerted :
    (k : ApcQueue) (p : Option Apc × List Apc) (t : Thread)
    → (p.0 ≡ none) ⊎ (is_empty (queue_of k t) ≡ false)
    → IsAlerted t
    → IsAlerted (cancel_taken k p t)
unfolding reset_alert
cancel_taken-IsAlerted k (none, q) t n h = h
cancel_taken-IsAlerted system_queue (some a, q) t n h = ground arith
cancel_taken-IsAlerted user_queue (some a, q) t n h = ground arith

thread_cancel_apc-IsAlerted :
    (owner : ℕ) (k : ApcQueue) (t : Thread) → IsAlerted t → IsAlerted (thread_cancel_apc owner k t)
unfolding thread_cancel_apc
thread_cancel_apc-IsAlerted owner k t h =
    cancel_taken-IsAlerted k (take_owned owner (queue_of k t)) t
      (take_owned_some owner (queue_of k t)) h

dequeued-IsAlerted :
    (k : ApcQueue) (q : List Apc) (t : Thread)
    → queue_of k t ≡ q
    → IsAlerted t
    → IsAlerted (dequeued k q t).1
unfolding reset_alert
dequeued-IsAlerted k [] t e h = h
dequeued-IsAlerted system_queue (a ∷ q) t e h = ground arith
dequeued-IsAlerted user_queue (a ∷ q) t e h =
    let n : is_empty t.user_apc ≡ false = ap is_empty e in ground arith

thread_dequeue_apc-IsAlerted :
    (k : ApcQueue) (t : Thread) → IsAlerted t → IsAlerted (thread_dequeue_apc k t).1
unfolding thread_dequeue_apc
thread_dequeue_apc-IsAlerted k t h = dequeued-IsAlerted k (queue_of k t) t refl h

not-empty_append : (q : List Apc) (a : Apc) → is_empty (q ++ a ∷ []) ≡ false
not-empty_append [] a = refl
not-empty_append (b ∷ q) a = refl

raised :
    (k : ApcQueue) (a : Apc) (t : Thread)
    → IsAlerted t
    → let t' : Thread = with_queue k (queue_of k t ++ a ∷ []) t in
      IsAlerted (if is_empty (queue_of k t) && is_user k then set_alert true t' else t')
raised system_queue a t h = ground arith
raised user_queue a t h = let n = not-empty_append t.user_apc a in ground arith

module _ {S : Type 0} (ops : SyncOps S) (send_thread_signal : ℕ → Bool) where
  unfoldable pub run_op : ApcOp → State S → State S
  unfolding queue_thread_apc enqueue thread_cancel_apc thread_dequeue_apc wake_thread
  run_op (queues a) s = (queue_thread_apc ops send_thread_signal a s).1
  run_op (queues_to_candidate k a) s = if s.thread.terminated then s else enqueue ops k a s
  run_op (cancels owner k) s = with_thread (thread_cancel_apc owner k s.thread) s
  run_op (dequeues k) s = with_thread (thread_dequeue_apc k s.thread).1 s
  run_op wakes_up s = (wake_thread ops s).1

  unfoldable pub run_ops : List ApcOp → State S → State S
  unfolding run_op
  run_ops [] s = s
  run_ops (o ∷ os) s = run_ops os (run_op o s)

  write_reply-IsAlerted :
      (cookie signaled : ℕ) (t : Thread) → IsAlerted t → IsAlerted (write_reply cookie signaled t).1
  unfolding write_reply
  write_reply-IsAlerted cookie signaled t h = ground arith

  check_wait-IsAlerted :
      (w : Wait) (s : State S) → IsAlerted s.thread → IsAlerted (check_wait ops w s).1.thread
  unfolding check_wait
  check_wait-IsAlerted w s h = ground arith

  suspend_thread-IsAlerted :
      (created is_current : Bool) (s : State S)
      → IsAlerted s.thread
      → IsAlerted (suspend_thread created is_current s).1.thread
  unfolding suspend_thread stop_thread
  suspend_thread-IsAlerted created is_current s h = ground arith

  end_wait-IsAlerted :
      (w : Wait) (ws : List Wait) (status : ℕ) (s : State S)
      → IsAlerted s.thread
      → IsAlerted (end_wait ops w ws status s).1.thread
  unfolding end_wait
  end_wait-IsAlerted w ws status s h = h

  IsAlerted-Rule : Rule ops (λ s. IsAlerted s.thread)
  IsAlerted-Rule = record {
    ended = λ w ws status s e h. end_wait-IsAlerted w ws status s h;
    checked = check_wait-IsAlerted;
    replied = λ c g s h. write_reply-IsAlerted c g s.thread h;
    killed = λ s h. inl (kill_thread-terminated ops s);
    forgot = λ a s h. h;
    suspended = suspend_thread-IsAlerted;
    counted_down = λ s h. h;
  }

  enqueue-IsAlerted :
      (k : ApcQueue) (a : Apc) (s : State S)
      → IsAlerted s.thread
      → IsAlerted (enqueue ops k a s).thread
  unfolding enqueue
  enqueue-IsAlerted k a s h =
      let first = is_empty (queue_of k s.thread) in
      let t : Thread = with_queue k (queue_of k s.thread ++ a ∷ []) s.thread in
      let t' : Thread = if first && is_user k then set_alert true t else t in
      let h' : IsAlerted t' = raised k a s.thread h in
      either_branch {A = State S} (λ s'. IsAlerted s'.thread) first
        {x = (wake_thread ops (with_thread t' s)).1} {y = with_thread t' s}
        (wake_thread_keeps ops (λ s'. IsAlerted s'.thread) IsAlerted-Rule (with_thread t' s) h') h'

  queue_thread_apc-IsAlerted :
      (a : Apc) (s : State S)
      → IsAlerted s.thread
      → IsAlerted (queue_thread_apc ops send_thread_signal a s).1.thread
  unfolding queue_thread_apc
  queue_thread_apc-IsAlerted a s h =
      either_branch {A = Bool × State S} (λ r. IsAlerted r.1.thread) s.thread.terminated
        {x = (false, s)} {y = to_queue ops send_thread_signal (get_apc_queue a.kind) a s} h
        (to_queue-IsAlerted (get_apc_queue a.kind))
    where
      to_queue-IsAlerted :
          (o : Option ApcQueue) → IsAlerted (to_queue ops send_thread_signal o a s).1.thread
      to_queue-IsAlerted none = h
      to_queue-IsAlerted (some k) =
          let t : Thread =
            if a.owner == 0 then s.thread else thread_cancel_apc a.owner k s.thread in
          let ht : IsAlerted t =
            either_branch IsAlerted (a.owner == 0) h
              (thread_cancel_apc-IsAlerted a.owner k s.thread h) in
          either_branch {A = Bool × State S} (λ r. IsAlerted r.1.thread)
            (needs_signal ops k s && not (send_thread_signal s.thread.id)) {x = (false, s)}
            {y = (true, enqueue ops k a (with_thread t s))} h
            (enqueue-IsAlerted k a (with_thread t s) ht)

  run_op-IsAlerted : (o : ApcOp) (s : State S) → IsAlerted s.thread → IsAlerted (run_op o s).thread
  unfolding run_op
  run_op-IsAlerted (queues a) s h = queue_thread_apc-IsAlerted a s h
  run_op-IsAlerted (queues_to_candidate k a) s h =
      either_branch {A = State S} (λ s'. IsAlerted s'.thread) s.thread.terminated {x = s}
        {y = enqueue ops k a s} h (enqueue-IsAlerted k a s h)
  run_op-IsAlerted (cancels owner k) s h = thread_cancel_apc-IsAlerted owner k s.thread h
  run_op-IsAlerted (dequeues k) s h = thread_dequeue_apc-IsAlerted k s.thread h
  run_op-IsAlerted wakes_up s h =
      wake_thread_keeps ops (λ s'. IsAlerted s'.thread) IsAlerted-Rule s h

  -- The alert follows the user APCs: after any sequence of APCs queued to the thread or to its
  -- process, cancelled and dequeued, and of attempts to wake the thread, a thread that lives and
  -- has an alert sync has it signaled exactly if its queue of user APCs is not empty, provided
  -- that this held before.
  pub run_ops-IsAlerted :
      (os : List ApcOp) (s : State S) → IsAlerted s.thread → IsAlerted (run_ops os s).thread
  unfolding run_ops
  run_ops-IsAlerted [] s h = h
  run_ops-IsAlerted (o ∷ os) s h = run_ops-IsAlerted os (run_op o s) (run_op-IsAlerted o s h)
