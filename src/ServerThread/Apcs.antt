-- ===== src/ServerThread/Apcs.antt =====
-- server/thread_pro11.c: the APC queues and the descriptors in flight.
use menano.Prelude.{
  ℕ, Bool, true, false, not, ◌&&◌, ◌||◌, Option, none, some, List, [], ◌∷◌, ◌++◌, ◌==◌,
  if◌then◌else◌,
}
use menano.ServerThread.Defs.{
  Wait, ApcType, Apc, Thread, State, SyncOps, is_empty, is_thread_suspended, with_thread, apc_none,
  apc_user, apc_system,
}
use menano.ServerThread.Wakeups.{wake_thread}

-- The queues that get_apc_queue returns; none is its NULL.
pub data ApcQueue : Type 0 where
  system_queue user_queue : ApcQueue

unfoldable pub get_apc_queue : ApcType → Option ApcQueue
get_apc_queue apc_none = none
get_apc_queue apc_user = some user_queue
get_apc_queue apc_system = some system_queue

abbrev pub queue_of : ApcQueue → Thread → List Apc
queue_of system_queue t = t.system_apc
queue_of user_queue t = t.user_apc

abbrev pub with_queue : ApcQueue → List Apc → Thread → Thread
with_queue system_queue q t = record t { system_apc = q }
with_queue user_queue q t = record t { user_apc = q }

-- signal_inproc_sync or reset_inproc_sync on the alert sync, when there is one.
abbrev pub written : Bool → Option Bool → Option Bool
written b none = none
written b (some old) = some b

abbrev pub set_alert : Bool → Thread → Thread
set_alert b t = record t { alert_sync = written b t.alert_sync }

-- `if (list_empty( &thread->user_apc ) && thread->alert_sync) reset_inproc_sync( ... )`
unfoldable pub reset_alert : Thread → Thread
reset_alert t = if is_empty t.user_apc then set_alert false t else t

-- The first APC of an owner, and the queue without it.
unfoldable pub take_owned : ℕ → List Apc → Option Apc × List Apc
take_owned owner [] = (none, [])
take_owned owner (a ∷ q) =
    let rest = take_owned owner q in if a.owner == owner then (some a, q) else (rest.0, a ∷ rest.1)

abbrev pub cancel_taken : ApcQueue → Option Apc × List Apc → Thread → Thread
cancel_taken k (none, q) t = t
cancel_taken k (some a, q) t =
    let t' : Thread = with_queue k q t in
    reset_alert (record t' { executed = t'.executed ++ a ∷ [] })

unfoldable pub thread_cancel_apc : ℕ → ApcQueue → Thread → Thread
unfolding take_owned reset_alert
thread_cancel_apc owner k t = cancel_taken k (take_owned owner (queue_of k t)) t

abbrev pub dequeued : ApcQueue → List Apc → Thread → Option Apc × Thread
dequeued k [] t = (none, t)
dequeued k (a ∷ rest) t = (some a, reset_alert (with_queue k rest t))

unfoldable pub thread_dequeue_apc : ApcQueue → Thread → Option Apc × Thread
unfolding reset_alert
thread_dequeue_apc k t = dequeued k (queue_of k t) t

unfoldable pub clear_apc_queue : ApcQueue → Thread → Thread
clear_apc_queue k t = with_queue k [] (record t { executed = t.executed ++ queue_of k t })

abbrev pub is_user : ApcQueue → Bool
is_user user_queue = true
is_user system_queue = false

abbrev is_interruptible : List Wait → Bool
is_interruptible [] = false
is_interruptible (w ∷ ws) = w.interruptible

module _ {S : Type 0} (ops : SyncOps S) where
  unfoldable pub is_in_apc_wait : State S → Bool
  unfolding is_thread_suspended
  is_in_apc_wait s = is_thread_suspended s || is_interruptible s.thread.waits

  -- The end of queue_apc: the APC goes to the tail, and wakes the thread if it is the first.
  unfoldable pub enqueue : ApcQueue → Apc → State S → State S
  unfolding wake_thread
  enqueue k a s =
      let first = is_empty (queue_of k s.thread) in
      let t : Thread = with_queue k (queue_of k s.thread ++ a ∷ []) s.thread in
      let t' = if first && is_user k then set_alert true t else t in
      if first then (wake_thread ops (with_thread t' s)).1 else with_thread t' s

  -- The first thread of the process that waits for an APC, else the first that takes a signal.
  unfoldable pub find_waiting : State S → List Thread → Option Thread
  unfolding is_in_apc_wait
  find_waiting s [] = none
  find_waiting s (t ∷ ts) =
      let rest = find_waiting s ts in
      if not t.terminated && is_in_apc_wait (with_thread t s) then some t else rest

  unfoldable pub find_signalable : (ℕ → Bool) → List Thread → Option Thread
  find_signalable send_thread_signal [] = none
  find_signalable send_thread_signal (t ∷ ts) =
      let rest = find_signalable send_thread_signal ts in
      if send_thread_signal t.id then some t else rest

  abbrev or_else_thread : Option Thread → Option Thread → Option Thread
  or_else_thread (some t) r = some t
  or_else_thread none r = r

  abbrev pub to_candidate_queue : Option ApcQueue → Apc → State S → Bool × State S
  to_candidate_queue none a s = (true, s)
  to_candidate_queue (some k) a s = (true, enqueue k a s)

  abbrev pub to_candidate : Option Thread → Apc → State S → Bool × State S
  to_candidate none a s = (false, s)
  to_candidate (some t) a s = to_candidate_queue (get_apc_queue a.kind) a (with_thread t s)

  -- queue_apc without a thread; the state returned is that of the thread it found.
  unfoldable pub queue_process_apc : (ℕ → Bool) → List Thread → Apc → State S → Bool × State S
  unfolding find_waiting find_signalable get_apc_queue enqueue
  queue_process_apc send_thread_signal threads a s =
      to_candidate
        (or_else_thread (find_waiting s threads) (find_signalable send_thread_signal threads)) a s

  abbrev pub needs_signal : ApcQueue → State S → Bool
  needs_signal user_queue s = false
  needs_signal system_queue s = is_empty s.thread.system_apc && not (is_in_apc_wait s)

  abbrev pub to_queue : (ℕ → Bool) → Option ApcQueue → Apc → State S → Bool × State S
  to_queue send_thread_signal none a s = (true, s)
  to_queue send_thread_signal (some k) a s =
      let t = if a.owner == 0 then s.thread else thread_cancel_apc a.owner k s.thread in
      if needs_signal k s && not (send_thread_signal s.thread.id)
      then (false, s)
      else (true, enqueue k a (with_thread t s))

  -- queue_apc to a thread that is given; one that is gone is refused, as no process is given.
  unfoldable pub queue_thread_apc : (ℕ → Bool) → Apc → State S → Bool × State S
  unfolding get_apc_queue thread_cancel_apc enqueue is_in_apc_wait
  queue_thread_apc send_thread_signal a s =
      if s.thread.terminated
      then (false, s)
      else to_queue send_thread_signal (get_apc_queue a.kind) a s
