-- ===== src/ServerThread/Queues.antt =====
-- server/thread_pro11.c: wake_up, which wakes the threads that sleep on an object.
use menano.Prelude.{
  ℕ, zero, suc, ◌-◌, Bool, true, false, Option, none, some, List, [], ◌∷◌, ◌==◌, if◌then◌else◌,
}
use menano.ServerThread.Defs.{Entry, Thread, Objects, State, SyncOps}
use menano.ServerThread.Wakeups.{wake_thread}

-- The threads of the server, over the same objects and clocks.
pub record World (S : Type 0) : Type 0 where
  pub threads : List Thread
  pub process_suspend : ℕ
  pub current_time : ℕ
  pub monotonic_time : ℕ
  pub objects : Objects S

abbrev pub seen_by : {S : Type 0} → Thread → World S → State S
seen_by t v = record {
  thread = t;
  process_suspend = v.process_suspend;
  current_time = v.current_time;
  monotonic_time = v.monotonic_time;
  objects = v.objects;
}

unfoldable pub find_thread : ℕ → List Thread → Option Thread
find_thread id [] = none
find_thread id (t ∷ ts) = let rest = find_thread id ts in if t.id == id then some t else rest

-- The first thread of an id is replaced.
unfoldable pub put_thread : ℕ → Thread → List Thread → List Thread
put_thread id t [] = []
put_thread id t (u ∷ ts) = let rest = put_thread id t ts in if u.id == id then t ∷ ts else u ∷ rest

module _ {S : Type 0} (ops : SyncOps S) where
  abbrev pub wake_found : ℕ → Option Thread → World S → Option ℕ × World S
  wake_found id none v = (some 0, v)
  wake_found id (some t) v =
      let r = wake_thread ops (seen_by t v) in
      (r.0, record v { threads = put_thread id r.1.thread v.threads; objects = r.1.objects })

  -- wake_thread on a thread of the server.
  unfoldable pub wake_by_id : ℕ → World S → Option ℕ × World S
  unfolding wake_thread find_thread put_thread
  wake_by_id id v = wake_found id (find_thread id v.threads) v

  -- `!(ret = wake_thread( ... ))`
  abbrev pub is_zero : Option ℕ → Bool
  is_zero none = false
  is_zero (some n) = n == 0

  -- `ret > 0 && max && !--max`, and `max` after it.
  abbrev pub is_limit : Option ℕ → ℕ → Bool
  is_limit none max = false
  is_limit (some n) max = max == 1

  abbrev pub lowered : Option ℕ → ℕ → ℕ
  lowered none max = max
  lowered (some n) max = max - 1

  -- A pass over the entries: none is left to wake, or the first one that was woken, with the answer.
  unfoldable pub scan : List Entry → World S → Option (Option ℕ) × World S
  unfolding wake_by_id
  scan [] v = (none, v)
  scan (e ∷ es) v =
      let r = wake_by_id e.thread v in
      let rest = scan es r.1 in if is_zero r.0 then rest else (some r.0, r.1)

  -- The loop of wake_up on fuel: whether it ended by the limit, and the server then. A wake up
  -- restarts it at the head of the queue.
  abbrev pub go_on :
      (ℕ → World S → Option (Bool × World S))
      → ℕ
      → Option (Option ℕ) × World S
      → Option (Bool × World S)
  go_on next max (none, v) = some (false, v)
  go_on next max (some ret, v) =
      if is_limit ret max then some (true, v) else next (lowered ret max) v

  unfoldable pub wake_up : ℕ → ℕ → ℕ → World S → Option (Bool × World S)
  unfolding scan
  wake_up zero obj max v = go_on (λ k u. none) max (scan (v.objects.wait_queue obj) v)
  wake_up (suc fuel) obj max v = go_on (wake_up fuel obj) max (scan (v.objects.wait_queue obj) v)
