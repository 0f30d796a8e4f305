-- ===== src/ServerThread/Tests.antt =====
-- server/thread_pro11.c on concrete threads: auto-reset events as objects, one thread.
use menano.Prelude.{
  ℕ, ◌+◌, ◌≡◌, refl, ◌⊎◌, inr, Bool, true, false, Option, none, some, List, [], ◌∷◌, arith, ltb,
  ◌==◌, length, get_or, set, map, if◌then◌else◌,
}
use menano.ServerThread.Defs.{
  Entry, Wait, ApcType, Apc, Thread, State, SyncOps, status_user_apc, status_kernel_apc,
  status_timeout, is_empty, is_thread_suspended, with_thread, select_wait, apc_user, apc_system,
}
use menano.ServerThread.Waits.{end_wait, wait_on, check_wait}
use menano.ServerThread.Wakeups.{kill_thread, wake_thread, wake_thread_queue_entry, thread_timeout}
use menano.ServerThread.Select.{timeout_infinite, Request, Memory, select_on}
use menano.ServerThread.Links.{mem, placed, has_address}
use menano.ServerThread.Invariant.{IsDistinct, IsLinked}
use menano.ServerThread.Roundtrip.{made, wait_on_refused, end_wait-wait_on}
use menano.ServerThread.Settles.{IsSettled, wake_thread_settles}
use menano.ServerThread.Reach.{
  Reaches, IsSound, Reaches-IsSound, dead_thread_unqueued, start, selects, dies,
}
use menano.ServerThread.Suspended.{suspended_takes_nothing}
use menano.ServerThread.Apcs.{user_queue}
use menano.ServerThread.Alerts.{
  IsAlerted, ApcOp, run_ops, run_ops-IsAlerted, queues, cancels, dequeues,
}
use menano.ServerThread.Inflight.{Table, thread_add_inflight_fd, thread_get_inflight_fd}
use menano.ServerThread.Conserved.{
  times_in, held, held-thread_add_inflight_fd, thread_get_inflight_fd-add,
}
use menano.ServerThread.Statuses.{wait_of_apc}
use menano.ServerThread.Queues.{World, wake_up}
use menano.ServerThread.Sleepers.{total_waits, Asleep, wake_up_ends}

-- Four auto-reset events; objects from 4 on cannot be waited for.
abbrev events : SyncOps (List Bool)
events = record {
  get_obj_sync = λ o. o;
  accepts = λ o. ltb o 4;
  refusal = 0xC0000024;
  signaled = λ tid w o s. (get_or s o false, s);
  satisfied = λ tid w o s. (set s o false, record { abandons = false; status = none });
  thread_died = λ tid s. s;
}

abbrev idle_thread : Thread
idle_thread = record {
  id = 7;
  waits = [];
  suspend = 0;
  bypass_proc_suspend = false;
  context = none;
  suspend_cookie = 0;
  system_apc = [];
  user_apc = [];
  executed = [];
  alert_sync = some false;
  terminated = false;
  exit_code = 0;
  reader_open = true;
  replies = [];
}

abbrev state_of : List Bool → Thread → State (List Bool)
state_of flags t = record {
  thread = t;
  process_suspend = 0;
  current_time = 50;
  monotonic_time = 50;
  objects = record { wait_queue = λ o. []; refcount = λ o. 1; sync = flags };
}

abbrev unsignaled : List Bool
unsignaled = false ∷ false ∷ false ∷ false ∷ []

abbrev calm : State (List Bool)
calm = state_of unsignaled idle_thread

abbrev request : List ℕ → Request
request handles = record {
  select = select_wait;
  has_size = true;
  handles = handles;
  signal = 0;
  interruptible = true;
  alertable = true;
  cooperative_suspend = false;
  cookie = 99;
  when = timeout_infinite;
}

abbrev any_wait : Wait
any_wait = record {
  address = 0;
  select = select_wait;
  interruptible = true;
  alertable = true;
  cooperative_suspend = false;
  cookie = 0;
  user = false;
  when = timeout_infinite;
  abandoned = false;
  status = 0;
  objects = [];
}

abbrev memory : Memory
memory = record { wait = some 1000; timer = true }

abbrev handle_obj : ℕ → ℕ ⊎ ℕ
handle_obj h = inr h

abbrev no_signal : ℕ → State (List Bool) → Option ℕ × State (List Bool)
no_signal h s = (none, s)

-- The thread waits for events 1 and 2; then event 2 is set and the thread is woken.
abbrev blocked : State (List Bool)
blocked =
    (select_on events handle_obj handle_obj no_signal select_wait (request (1 ∷ 2 ∷ [])) memory
      calm).1

abbrev set_two : State (List Bool)
set_two = record blocked {
  objects = record blocked.objects { sync = false ∷ false ∷ true ∷ false ∷ [] };
}

blocked_waits : length blocked.thread.waits ≡ 1
unfolding select_on
blocked_waits = refl

woken_result :
    ((wake_thread events set_two).0 ≡ some 1)
    × ((wake_thread events set_two).1.objects.sync ≡ unsignaled)
unfolding select_on wake_thread
woken_result = (refl, refl)

woken_reply :
    (wake_thread events set_two).1.thread.replies ≡ record { cookie = 99; signaled = 1 } ∷ []
unfolding select_on wake_thread
woken_reply = refl

calm-IsSound : IsSound events calm
unfolding placed mem IsDistinct
calm-IsSound = record {
  own = λ e q t. refl;
  distinct = tt;
  bounded = record { idle = λ t. absurd cc; capped = tt; suspend = omega arith };
}

no_others : Entry → ℕ → Bool
no_others e q = false

calm-IsLinked : IsLinked events (λ e q. false) calm
unfolding placed mem IsDistinct
calm-IsLinked = record { own = λ e q. ground arith; distinct = tt }

reached_blocked : Reaches events calm blocked
unfolding has_address
reached_blocked =
    selects handle_obj handle_obj no_signal select_wait (request (1 ∷ 2 ∷ [])) memory (λ h t. start)
      refl (λ a e. refl) start

Reaches-IsSound_example : IsSound events (kill_thread events blocked)
Reaches-IsSound_example = Reaches-IsSound events (dies reached_blocked) calm-IsSound

dead_thread_unqueued_example :
    ((kill_thread events blocked).thread.waits ≡ [])
    × ((e : Entry) (q : ℕ)
        → (e.thread == (kill_thread events blocked).thread.id) ≡ true
        → mem e ((kill_thread events blocked).objects.wait_queue q) ≡ false)
unfolding kill_thread select_on
dead_thread_unqueued_example = dead_thread_unqueued events (dies reached_blocked) calm-IsSound refl

wake_thread_settles_example :
    let r = wake_thread events set_two in
    (r.1.thread.terminated ≡ true) ⊎ ((k : ℕ) × (r.0 ≡ some k) × IsSettled events set_two r.1 k)
wake_thread_settles_example = wake_thread_settles events set_two

end_wait-wait_on_example :
    let s' = (wait_on events (some 1000) any_wait (1 ∷ 2 ∷ []) calm).1 in
    (s'.thread.waits ≡ made 1000 any_wait (1 ∷ 2 ∷ []) ∷ [])
    × (end_wait events (made 1000 any_wait (1 ∷ 2 ∷ [])) [] status_timeout s'
        ≡ (status_timeout, calm))
unfolding wait_on has_address
end_wait-wait_on_example =
    end_wait-wait_on events (λ e q. false) 1000 any_wait (1 ∷ 2 ∷ []) calm status_timeout refl
      calm-IsLinked (omega arith) refl

wait_on_refused_test : wait_on events (some 1000) any_wait (1 ∷ 2 ∷ 9 ∷ []) calm ≡ (false, calm)
unfolding wait_on has_address
wait_on_refused_test =
    wait_on_refused events (λ e q. false) 1000 any_wait (1 ∷ 2 ∷ 9 ∷ []) calm refl calm-IsLinked
      (omega arith) refl

-- The blocked thread, suspended with event 2 set.
abbrev frozen : State (List Bool)
frozen = with_thread (record set_two.thread { suspend = 1 }) set_two

suspended_takes_nothing_example :
    ((wake_thread events frozen).1.objects.sync ≡ frozen.objects.sync)
    × (wake_thread_queue_entry events (record { thread = 7; wait = 1000; place = 1 }) frozen
        ≡ (false, frozen))
    × ((thread_timeout events 1000 frozen).objects ≡ frozen.objects)
unfolding is_thread_suspended select_on
suspended_takes_nothing_example =
    suspended_takes_nothing events frozen (record { thread = 7; wait = 1000; place = 1 }) 1000 refl
      refl ((refl, omega arith), tt)

abbrev apc : ApcType → ℕ → Apc
apc kind owner = record { address = 3; kind = kind; owner = owner }

-- A user APC is queued and dequeued, another is queued and cancelled, a third stays.
abbrev apc_ops : List ApcOp
apc_ops =
    queues (apc apc_user 0)
    ∷ dequeues user_queue
    ∷ queues (apc apc_user 5)
    ∷ cancels 5 user_queue
    ∷ queues (apc apc_user 6)
    ∷ []

apcs_alert : (run_ops events (λ t. true) apc_ops calm).thread.alert_sync ≡ some true
unfolding run_ops
apcs_alert = refl

run_ops-IsAlerted_example : IsAlerted (run_ops events (λ t. true) apc_ops blocked).thread
unfolding select_on
run_ops-IsAlerted_example = run_ops-IsAlerted events (λ t. true) apc_ops blocked (inr (inr refl))

abbrev table : Table
table = record { slots = some (record { client = 4; server = 30 }) ∷ none ∷ none ∷ []; closed = [] }

held-thread_add_inflight_fd_test :
    held 30 (thread_add_inflight_fd (some 4) (some 31) table).1
    ≡ held 30 table + times_in 30 (31 ∷ [])
held-thread_add_inflight_fd_test = held-thread_add_inflight_fd 30 (some 4) (some 31) table

thread_get_inflight_fd-add_example :
    let r = thread_get_inflight_fd 5 [] (thread_add_inflight_fd (some 5) (some 31) table).1 in
    (r.0 ≡ some 31) × (r.1.0 ≡ [])
unfolding thread_add_inflight_fd
thread_get_inflight_fd-add_example = thread_get_inflight_fd-add 5 31 1 table [] refl

-- The blocked thread with a system APC queued.
abbrev interrupted : State (List Bool)
interrupted = with_thread (record blocked.thread { system_apc = apc apc_system 0 ∷ [] }) blocked

wait_of_apc_example :
    let r =
      end_wait events
        (made 1000 any_wait (1 ∷ 2 ∷ []))
        []
        status_kernel_apc
        (check_wait events (made 1000 any_wait (1 ∷ 2 ∷ [])) interrupted).1 in
    (r.0 ≡ status_user_apc → is_empty interrupted.thread.user_apc ≡ false)
    × (r.0 ≡ status_kernel_apc → is_empty interrupted.thread.system_apc ≡ false)
unfolding made check_wait select_on
wait_of_apc_example =
    wait_of_apc events (λ tid w o s. refl) (made 1000 any_wait (1 ∷ 2 ∷ [])) [] interrupted
      status_kernel_apc (omega arith) refl

-- Two threads wait for events 1 and 2, and event 2 is set: the first one takes it.
abbrev two_sleepers : World (List Bool)
two_sleepers = record {
  threads = set_two.thread ∷ record set_two.thread { id = 8 } ∷ [];
  process_suspend = 0;
  current_time = 50;
  monotonic_time = 50;
  objects = record set_two.objects {
    wait_queue = λ o.
        if o == 2
        then record { thread = 7; wait = 1000; place = 1 }
          ∷ record { thread = 8; wait = 1000; place = 1 }
          ∷ []
        else [];
  };
}

abbrev run_waits : Option (Bool × World (List Bool)) → List ℕ
run_waits none = []
run_waits (some (limit, v)) = map (λ t. length t.waits) v.threads

one_wakes : run_waits (wake_up events 2 2 0 two_sleepers) ≡ 0 ∷ 1 ∷ []
unfolding wake_up select_on
one_wakes = refl

wake_up_ends_example :
    (limit : Bool) × (v' : World (List Bool)) × (wake_up events 2 2 0 two_sleepers
      ≡ some (limit, v'))
    × (limit ≡ false → (u : World (List Bool)) × Asleep events (u.objects.wait_queue 2) u v')
unfolding total_waits select_on
wake_up_ends_example = wake_up_ends events 2 2 0 two_sleepers (omega arith)
