-- ===== src/ServerThread/Wakeups.antt =====
-- server/thread_pro11.c: waking a thread, killing it, its timeouts, suspending and resuming it.
use menano.Prelude.{
  ℕ, suc, ◌+◌, ◌-◌, ◌^◌, Bool, true, false, not, ◌&&◌, Option, none, some, List, [], ◌∷◌, ◌++◌, ltb,
  ◌==◌, if◌then◌else◌,
}
use menano.ServerThread.Defs.{
  Entry, Wait, Context, Thread, State, SyncOps, status_user_apc, status_kernel_apc, status_timeout,
  status_thread_is_terminating, maximum_suspend_count, is_empty, is_some, is_thread_suspended,
  with_waits, with_thread,
}
use menano.ServerThread.Waits.{end_wait, check_wait}

-- The first half of send_thread_wakeup, on the context and on the status that is sent.
unfoldable pub wakes_suspend : ℕ → ℕ → Thread → Bool
wakes_suspend cookie signaled t =
    is_some t.context
    && ((t.suspend_cookie == cookie)
        && (not (signaled == status_kernel_apc) && not (signaled == status_user_apc)))

abbrev has_flags : Option Context → Bool
has_flags none = false
has_flags (some c) = c.flags

unfoldable pub write_reply : ℕ → ℕ → Thread → Bool × Thread
unfolding wakes_suspend
write_reply cookie signaled t =
    let wakes = wakes_suspend cookie signaled t in
    let sent = if wakes && has_flags t.context then status_kernel_apc else signaled in
    let t' : Thread = record t {
      context = if wakes && not (has_flags t.context) then none else t.context;
    } in
    if t.reader_open
    then (
      true,
      record t' { replies = t'.replies ++ record { cookie = cookie; signaled = sent } ∷ [] },
    )
    else (false, t')

-- The part of cleanup_thread on the context and the APC queues.
unfoldable pub cleanup_thread : Thread → Thread
cleanup_thread t = record t {
  context = none;
  executed = t.executed ++ (t.system_apc ++ t.user_apc);
  system_apc = [];
  user_apc = [];
}

abbrev pub is_top : ℕ → List Wait → Bool
is_top address [] = false
is_top address (w ∷ ws) = w.address == address

-- `wait->user = NULL` for the wait at an address
abbrev pub clear_user : ℕ → List Wait → List Wait
clear_user address [] = []
clear_user address (w ∷ ws) =
    let rest = clear_user address ws in
    if w.address == address then record w { user = false } ∷ rest else w ∷ rest

-- `created` says whether create_thread_context finds memory.
unfoldable pub stop_thread : Bool → Thread → Thread
stop_thread created t =
    if is_some t.context
    then t
    else (if created
        then record t { context = some (record { cooperative = false; flags = false }) }
        else t)

module _ {S : Type 0} where
  -- The old count and whether the limit was hit; for the thread itself bit 31 of the count is set.
  unfoldable pub suspend_thread : Bool → Bool → State S → (ℕ × Bool) × State S
  unfolding stop_thread is_thread_suspended
  suspend_thread created is_current s =
      let old = if is_current then s.thread.suspend + 2 ^ 31 else s.thread.suspend in
      let t = if is_thread_suspended s then s.thread else stop_thread created s.thread in
      if ltb s.thread.suspend maximum_suspend_count
      then ((old, false), with_thread (record t { suspend = t.suspend + 1 }) s)
      else ((old, true), s)

module _ {S : Type 0} (ops : SyncOps S) where
  unfoldable pub end_all : List Wait → State S → State S
  unfolding end_wait
  end_all [] s = s
  end_all (w ∷ ws) s = end_all ws (end_wait ops w ws status_thread_is_terminating s).1

  -- The rest of kill_thread, once the waits are over.
  unfoldable pub bury : State S → State S
  unfolding cleanup_thread
  bury s = record s {
    thread = cleanup_thread s.thread;
    objects = record s.objects { sync = ops.thread_died s.thread.id s.objects.sync };
  }

  -- A write that fails here would call kill_thread again, which finds the thread terminated.
  unfoldable pub kill_thread : State S → State S
  unfolding end_all write_reply bury
  kill_thread s =
      let dying : State S = with_thread (record s.thread { terminated = true }) s in
      let ended : State S = end_all s.thread.waits dying in
      let told : State S =
        with_thread (write_reply 0 ended.thread.exit_code ended.thread).1 ended in
      if s.thread.terminated then s else bury (if is_empty s.thread.waits then dying else told)

  -- Every way in which the write fails kills the thread.
  unfoldable pub send_thread_wakeup : ℕ → ℕ → State S → Bool × State S
  unfolding write_reply kill_thread
  send_thread_wakeup cookie signaled s =
      let (ok, t) = write_reply cookie signaled s.thread in
      if ok then (true, with_thread t s) else (false, kill_thread (with_thread t s))

  -- `!cookie || send_thread_wakeup( ... ) != -1`
  unfoldable pub announce : ℕ → ℕ → State S → Bool × State S
  unfolding send_thread_wakeup
  announce cookie signaled s =
      if cookie == 0 then (true, s) else send_thread_wakeup cookie signaled s

  -- The body of wake_thread's loop after `n` rounds; none is the count -1.
  unfoldable pub wake_one :
      Option ℕ
      → ℕ
      → Wait
      → List Wait
      → State S
      → (State S → Option ℕ × State S)
      → Option ℕ × State S
  unfolding end_wait announce
  wake_one none n w ws s next = (some n, s)
  wake_one (some status) n w ws s next =
      let e = end_wait ops w ws status s in
      let a = announce w.cookie e.0 e.1 in
      if a.0 then next a.1 else (if n == 0 then none else some n, a.1)

  unfoldable pub wake_loop : ℕ → List Wait → State S → Option ℕ × State S
  unfolding wake_one check_wait
  wake_loop n [] s = (some n, s)
  wake_loop n (w ∷ ws) s =
      let c = check_wait ops w s in wake_one c.0 n w ws c.1 (wake_loop (suc n) ws)

  unfoldable pub wake_thread : State S → Option ℕ × State S
  unfolding wake_loop
  wake_thread s = wake_loop 0 s.thread.waits s

  abbrev pub wake_others : Bool × State S → State S
  wake_others (ok, s) = if ok then (wake_thread s).1 else s

  abbrev pub wake_top : ℕ → List Wait → State S → State S
  wake_top place [] s = s
  wake_top place (w ∷ ws) s =
      let e = end_wait ops w ws place s in wake_others (announce w.cookie e.0 e.1)

  unfoldable pub wake_thread_queue_entry : Entry → State S → Bool × State S
  unfolding wake_thread end_wait announce is_thread_suspended
  wake_thread_queue_entry e s =
      if is_top e.wait s.thread.waits && not (is_thread_suspended s)
      then (true, wake_top e.place s.thread.waits s)
      else (false, s)

  abbrev pub time_out : List Wait → State S → State S
  time_out [] s = s
  time_out (w ∷ ws) s =
      wake_others
        (send_thread_wakeup w.cookie status_timeout (end_wait ops w ws status_timeout s).1)

  unfoldable pub thread_timeout : ℕ → State S → State S
  unfolding wake_thread end_wait send_thread_wakeup is_thread_suspended
  thread_timeout address s =
      let s' : State S = with_waits (clear_user address s.thread.waits) s in
      if is_top address s'.thread.waits && not (is_thread_suspended s')
      then time_out s'.thread.waits s'
      else s'

  unfoldable pub resume_thread : State S → ℕ × State S
  unfolding wake_thread is_thread_suspended
  resume_thread s =
      let s' : State S = with_thread (record s.thread { suspend = s.thread.suspend - 1 }) s in
      (
        s.thread.suspend,
        if ltb 0 s.thread.suspend
            then (if is_thread_suspended s' then s' else (wake_thread s').1)
            else s,
      )
