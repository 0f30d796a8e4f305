-- ===== src/ServerThread/Reach.antt =====
-- server/thread_pro11.c: whatever happens to a thread, its waits and the queues stay sound.
use menano.Prelude.{
  ℕ, ◌≡◌, sym, ap, ap₂, subst, ◌∙◌, ◌⊎◌, Bool, true, false, Option, some, List, [], ◌∷◌, arith,
  ◌==◌,
}
use menano.ServerThread.Defs.{SelectOp, Entry, Wait, State, SyncOps, with_waits}
use menano.ServerThread.Wakeups.{
  suspend_thread, kill_thread, wake_thread, wake_thread_queue_entry, thread_timeout, resume_thread,
}
use menano.ServerThread.Select.{Request, Memory, select_on}
use menano.ServerThread.Links.{mem, placed, has_address}
use menano.ServerThread.Keeps.{
  Rule, wake_thread_keeps, wake_thread_queue_entry_keeps, thread_timeout_keeps, resume_thread_keeps,
}
use menano.ServerThread.Invariant.{IsDistinct, IsLinked}
use menano.ServerThread.Preserved.{IsLinked-Rule}
use menano.ServerThread.Bounds.{IsBounded, IsBounded-of, IsBounded-Rule}
use menano.ServerThread.Standing.{wait_on-IsLinked}
use menano.ServerThread.Selects.{SelectRule, select_on_keeps}
use menano.ServerThread.Starts.{armed-IsBounded, wait_on-IsBounded}

module _ {S : Type 0} (ops : SyncOps S) where
  -- Other code ran: it leaves the thread's stack, its own entries and its suspend count alone.
  pub record IsUntouched (s s' : State S) : Type 0 where
    pub id : s'.thread.id ≡ s.thread.id
    pub waits : s'.thread.waits ≡ s.thread.waits
    pub terminated : s'.thread.terminated ≡ s.thread.terminated
    pub suspend : s'.thread.suspend ≡ s.thread.suspend
    pub own :
        (e : Entry) (q : ℕ)
        → (e.thread == s.thread.id) ≡ true
        → mem e (s'.objects.wait_queue q) ≡ mem e (s.objects.wait_queue q)

  -- What can happen to a thread: its own select requests, which may signal an object first, with
  -- anything that can happen in between, and what others do to it.
  pub data Reaches : State S → State S → Type 0 where
    start : {s : State S} → Reaches s s
    selects :
        {s s' : State S} (get_handle_obj get_keyed_event_obj : ℕ → ℕ ⊎ ℕ)
        (signal_object : ℕ → State S → Option ℕ × State S) (op : SelectOp) (r : Request)
        (m : Memory)
        → ((h : ℕ) (t : State S) → Reaches t (signal_object h t).1)
        → s'.thread.terminated ≡ false
        → ((a : ℕ) → m.wait ≡ some a → has_address a s'.thread.waits ≡ false)
        → Reaches s s'
        → Reaches s (select_on ops get_handle_obj get_keyed_event_obj signal_object op r m s').1
    wakes : {s s' : State S} → Reaches s s' → Reaches s (wake_thread ops s').1
    wakes_entry :
        {s s' : State S} (e : Entry) → Reaches s s' → Reaches s (wake_thread_queue_entry ops e s').1
    times_out :
        {s s' : State S} (address : ℕ) → Reaches s s' → Reaches s (thread_timeout ops address s')
    suspends :
        {s s' : State S} (created is_current : Bool)
        → Reaches s s'
        → Reaches s (suspend_thread created is_current s').1
    resumes : {s s' : State S} → Reaches s s' → Reaches s (resume_thread ops s').1
    dies : {s s' : State S} → Reaches s s' → Reaches s (kill_thread ops s')
    elsewhere : {s s' s'' : State S} → IsUntouched s' s'' → Reaches s s' → Reaches s s''

  -- The thread's own entries in the queues are those of its stack, and the bounds hold.
  pub record IsSound (s : State S) : Type 0 where
    pub own :
        (e : Entry) (q : ℕ)
        → (e.thread == s.thread.id) ≡ true
        → mem e (s.objects.wait_queue q) ≡ placed ops.get_obj_sync s.thread.id s.thread.waits e q
    pub distinct : IsDistinct s.thread.waits
    pub bounded : IsBounded s

  abbrev queues_of : State S → Entry → ℕ → Bool
  queues_of s e q = mem e (s.objects.wait_queue q)

  IsSound-IsLinked : (s : State S) → IsSound s → IsLinked ops (queues_of s) s
  IsSound-IsLinked s h = record {
    own = λ e q. let o = h.own e q in ground arith;
    distinct = h.distinct;
  }

  IsLinked-IsSound :
      (others : Entry → ℕ → Bool) (s : State S) → IsLinked ops others s → IsBounded s → IsSound s
  IsLinked-IsSound others s h b = record {
    own = λ e q t. let o = h.own e q in ground arith;
    distinct = h.distinct;
    bounded = b;
  }

  sound_rule :
      {s s' : State S}
      → ((others : Entry → ℕ → Bool) → IsLinked ops others s → IsLinked ops others s')
      → (IsBounded s → IsBounded s')
      → IsSound s
      → IsSound s'
  sound_rule {s} {s'} l b h =
      IsLinked-IsSound (queues_of s) s' (l (queues_of s) (IsSound-IsLinked s h)) (b h.bounded)

  IsSound-Rule : Rule ops IsSound
  IsSound-Rule = record {
    ended = λ w ws status s e.
        sound_rule (λ o. (IsLinked-Rule ops o).ended w ws status s e)
          ((IsBounded-Rule ops).ended w ws status s e);
    checked = λ w s.
        sound_rule (λ o. (IsLinked-Rule ops o).checked w s) ((IsBounded-Rule ops).checked w s);
    replied = λ c g s.
        sound_rule (λ o. (IsLinked-Rule ops o).replied c g s) ((IsBounded-Rule ops).replied c g s);
    killed = λ s. sound_rule (λ o. (IsLinked-Rule ops o).killed s) ((IsBounded-Rule ops).killed s);
    forgot =
        λ a s. sound_rule (λ o. (IsLinked-Rule ops o).forgot a s) ((IsBounded-Rule ops).forgot a s);
    suspended = λ c i s.
        sound_rule (λ o. (IsLinked-Rule ops o).suspended c i s)
          ((IsBounded-Rule ops).suspended c i s);
    counted_down = λ s.
        sound_rule (λ o. (IsLinked-Rule ops o).counted_down s)
          ((IsBounded-Rule ops).counted_down s);
  }

  IsSound-armed :
      (w : Wait) (ws : List Wait) (user : Bool) (cookie : ℕ) (s : State S)
      → s.thread.waits ≡ w ∷ ws
      → IsSound s
      → IsSound (with_waits (record w { user = user; cookie = cookie } ∷ ws) s)
  unfolding placed IsDistinct
  IsSound-armed w ws user cookie s top h =
      let d : IsDistinct (w ∷ ws) = subst IsDistinct top h.distinct in
      record {
        own = λ e q t. h.own e q t ∙ ap (λ l. placed ops.get_obj_sync s.thread.id l e q) top;
        distinct = d;
        bounded = armed-IsBounded w ws user cookie s top h.bounded;
      }

  IsSound-SelectRule :
      (m : Memory) (s : State S)
      → s.thread.terminated ≡ false
      → ((a : ℕ) → m.wait ≡ some a → has_address a s.thread.waits ≡ false)
      → IsSound s
      → SelectRule ops IsSound IsSound-Rule m s
  IsSound-SelectRule m s live fresh h = record {
    waited = λ w os l.
        sound_rule (λ o. wait_on-IsLinked ops o m.wait w os s fresh)
          (wait_on-IsBounded ops (λ e q. false) m.wait w os s live l) h;
    armed = IsSound-armed;
  }

  IsUntouched-IsSound : (s s' : State S) → IsUntouched s s' → IsSound s → IsSound s'
  IsUntouched-IsSound s s' u h = record {
    own = λ e q t.
        let t' : (e.thread == s.thread.id) ≡ true = subst (λ i. (e.thread == i) ≡ true) u.id t in
        u.own e q t'
        ∙ h.own e q t'
        ∙ ap₂ (λ i l. placed ops.get_obj_sync i l e q) (sym u.id) (sym u.waits);
    distinct = subst IsDistinct (sym u.waits) h.distinct;
    bounded = IsBounded-of ops s s' u.terminated u.waits (rw u.suspend h.bounded.suspend) h.bounded;
  }

  -- Soundness holds always: from a state in which the thread waits for nothing and has no entry in
  -- a queue.
  pub Reaches-IsSound : {s s' : State S} → Reaches s s' → IsSound s → IsSound s'
  Reaches-IsSound start h = h
  Reaches-IsSound (selects {s} {s'} g k sig op r m inner live fresh p) h =
      let h' : IsSound s' = Reaches-IsSound p h in
      select_on_keeps ops IsSound IsSound-Rule m s' (IsSound-SelectRule m s' live fresh h') r g k
        sig (λ o t. Reaches-IsSound (inner o t)) op h'
  Reaches-IsSound (wakes {s} {s'} p) h =
      wake_thread_keeps ops IsSound IsSound-Rule s' (Reaches-IsSound p h)
  Reaches-IsSound (wakes_entry {s} {s'} e p) h =
      wake_thread_queue_entry_keeps ops IsSound IsSound-Rule e s' (Reaches-IsSound p h)
  Reaches-IsSound (times_out {s} {s'} a p) h =
      thread_timeout_keeps ops IsSound IsSound-Rule a s' (Reaches-IsSound p h)
  Reaches-IsSound (suspends {s} {s'} c i p) h = IsSound-Rule.suspended c i s' (Reaches-IsSound p h)
  Reaches-IsSound (resumes {s} {s'} p) h =
      resume_thread_keeps ops IsSound IsSound-Rule s' (Reaches-IsSound p h)
  Reaches-IsSound (dies {s} {s'} p) h = IsSound-Rule.killed s' (Reaches-IsSound p h)
  Reaches-IsSound (elsewhere {s} {s'} {s''} u p) h =
      IsUntouched-IsSound s' s'' u (Reaches-IsSound p h)

  -- A thread that has died is in no queue: after anything that can happen to a thread that was
  -- sound, if it is terminated then it has no wait and no wait queue holds an entry of it.
  pub dead_thread_unqueued :
      {s s' : State S}
      → Reaches s s'
      → IsSound s
      → s'.thread.terminated ≡ true
      → (s'.thread.waits ≡ [])
        × ((e : Entry) (q : ℕ)
            → (e.thread == s'.thread.id) ≡ true
            → mem e (s'.objects.wait_queue q) ≡ false)
  unfolding placed
  dead_thread_unqueued {s} {s'} p h t =
      let h' : IsSound s' = Reaches-IsSound p h in
      let w : s'.thread.waits ≡ [] = h'.bounded.idle t in
      (w, λ e q own. h'.own e q own ∙ ap (λ l. placed ops.get_obj_sync s'.thread.id l e q) w)
