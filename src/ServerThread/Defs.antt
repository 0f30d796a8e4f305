-- ===== src/ServerThread/Defs.antt =====
-- server/thread_pro11.c: the threads' stacks of waits, the objects' wait queues and the APC queues.
use menano.Prelude.{
  ℕ, ◌+◌, ◌-◌, Bool, true, false, not, ◌&&◌, Option, none, some, List, [], ◌∷◌, ◌++◌, ltb, ◌==◌,
  if◌then◌else◌,
}

pub data SelectOp : Type 0 where
  select_none select_wait select_wait_all select_signal_and_wait : SelectOp
  select_keyed_event_wait select_keyed_event_release : SelectOp

-- abstime_t: a time that is not negative is absolute, one below 0 counts on the monotonic clock.
pub data AbsTime : Type 0 where
  absolute : ℕ → AbsTime
  relative : ℕ → AbsTime

-- A struct wait_queue_entry, named by its thread, the address of its wait and its place there.
pub record Entry : Type 0 where
  pub thread : ℕ
  pub wait : ℕ
  pub place : ℕ

-- struct thread_wait; `objects` are the `obj` fields of its first `count` entries.
pub record Wait : Type 0 where
  pub address : ℕ
  pub select : SelectOp
  pub interruptible : Bool
  pub alertable : Bool
  pub cooperative_suspend : Bool
  pub cookie : ℕ
  pub user : Bool
  pub when : AbsTime
  pub abandoned : Bool
  pub status : ℕ
  pub objects : List ℕ

-- struct context: whether the suspension is cooperative and whether registers are pending in it.
pub record Context : Type 0 where
  pub cooperative : Bool
  pub flags : Bool

pub data ApcType : Type 0 where
  apc_none apc_user apc_system : ApcType

pub record Apc : Type 0 where
  pub address : ℕ
  pub kind : ApcType
  pub owner : ℕ

pub record Reply : Type 0 where
  pub cookie : ℕ
  pub signaled : ℕ

-- struct thread; `waits` is the chain from `wait` over `next`, `replies` what went to `wait_fd`,
-- `executed` the APCs that were taken off a queue unseen, `alert_sync` whether that sync is signaled.
pub record Thread : Type 0 where
  pub id : ℕ
  pub waits : List Wait
  pub suspend : ℕ
  pub bypass_proc_suspend : Bool
  pub context : Option Context
  pub suspend_cookie : ℕ
  pub system_apc : List Apc
  pub user_apc : List Apc
  pub executed : List Apc
  pub alert_sync : Option Bool
  pub terminated : Bool
  pub exit_code : ℕ
  pub reader_open : Bool
  pub replies : List Reply

-- The objects: their wait queues, their reference counts, and the state behind their methods.
pub record Objects (S : Type 0) : Type 0 where
  pub wait_queue : ℕ → List Entry
  pub refcount : ℕ → ℕ
  pub sync : S

-- What one thread's operations see of the server.
pub record State (S : Type 0) : Type 0 where
  pub thread : Thread
  pub process_suspend : ℕ
  pub current_time : ℕ
  pub monotonic_time : ℕ
  pub objects : Objects S

-- What `satisfied` does to the wait, through make_wait_abandoned and set_wait_status.
pub record Mark : Type 0 where
  pub abandons : Bool
  pub status : Option ℕ

-- The methods of the objects' syncs, which other files of the server define.
pub record SyncOps (S : Type 0) : Type 0 where
  pub get_obj_sync : ℕ → ℕ
  pub accepts : ℕ → Bool
  pub refusal : ℕ
  pub signaled : ℕ → Wait → ℕ → S → Bool × S
  pub satisfied : ℕ → Wait → ℕ → S → S × Mark
  -- abandon_mutexes and signal_sync of the dead thread's sync
  pub thread_died : ℕ → S → S

abbrev pub status_wait_0 : ℕ
status_wait_0 = 0

abbrev pub status_abandoned_wait_0 : ℕ
status_abandoned_wait_0 = 0x80

abbrev pub status_user_apc : ℕ
status_user_apc = 0xC0

abbrev pub status_kernel_apc : ℕ
status_kernel_apc = 0x100

abbrev pub status_timeout : ℕ
status_timeout = 0x102

abbrev pub status_thread_was_suspended : ℕ
status_thread_was_suspended = 0x40000001

abbrev pub status_thread_is_terminating : ℕ
status_thread_is_terminating = 0xC000004B

abbrev pub maximum_wait_objects : ℕ
maximum_wait_objects = 64

abbrev pub maximum_suspend_count : ℕ
maximum_suspend_count = 0x7F

abbrev pub is_empty {ℓ} : {A : Type ℓ} → List A → Bool
is_empty [] = true
is_empty (x ∷ xs) = false

abbrev pub is_some {ℓ} : {A : Type ℓ} → Option A → Bool
is_some none = false
is_some (some a) = true

abbrev pub is_wait_all : SelectOp → Bool
is_wait_all select_wait_all = true
is_wait_all _ = false

unfoldable pub same_entry : Entry → Entry → Bool
same_entry e f = (e.thread == f.thread) && ((e.wait == f.wait) && (e.place == f.place))

-- Writing one place of a map.
unfoldable pub update {ℓ} : {A : Type ℓ} → ℕ → A → (ℕ → A) → ℕ → A
update k v f o = if o == k then v else f o

abbrev is_cooperative : Option Context → Bool
is_cooperative none = false
is_cooperative (some c) = c.cooperative

module _ {S : Type 0} where
  unfoldable pub is_thread_suspended : State S → Bool
  is_thread_suspended s =
      if is_cooperative s.thread.context
      then false
      else (if ltb 0 s.thread.suspend
          then true
          else (not s.thread.bypass_proc_suspend && ltb 0 s.process_suspend))

  -- list_add_tail
  unfoldable pub add_queue : ℕ → Entry → Objects S → Objects S
  unfolding update
  add_queue o e t = record t { wait_queue = update o (t.wait_queue o ++ e ∷ []) t.wait_queue }

-- list_remove: a node is linked once, so what goes is every occurrence of it.
unfoldable pub list_remove : Entry → List Entry → List Entry
unfolding same_entry
list_remove e [] = []
list_remove e (f ∷ fs) = let rest = list_remove e fs in if same_entry e f then rest else f ∷ rest

module _ {S : Type 0} where
  unfoldable pub remove_queue : ℕ → Entry → Objects S → Objects S
  unfolding update list_remove
  remove_queue o e t = record t {
    wait_queue = update o (list_remove e (t.wait_queue o)) t.wait_queue;
  }

  unfoldable pub grab_object : ℕ → Objects S → Objects S
  unfolding update
  grab_object o t = record t { refcount = update o (t.refcount o + 1) t.refcount }

  unfoldable pub release_object : ℕ → Objects S → Objects S
  unfolding update
  release_object o t = record t { refcount = update o (t.refcount o - 1) t.refcount }

  abbrev pub with_waits : List Wait → State S → State S
  with_waits ws s = record s { thread = record s.thread { waits = ws } }

  abbrev pub with_thread : Thread → State S → State S
  with_thread t s = record s { thread = t }

  abbrev pub with_objects : Objects S → State S → State S
  with_objects t s = record s { objects = t }
