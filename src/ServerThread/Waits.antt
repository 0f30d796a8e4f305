-- ===== src/ServerThread/Waits.antt =====
-- server/thread_pro11.c: making a wait, testing it and ending it.
use menano.Prelude.{
  ℕ, suc, ◌+◌, Bool, true, false, not, ◌&&◌, ◌||◌, Option, none, some, List, [], ◌∷◌, ltb, leb,
  if◌then◌else◌, length, get_or,
}
use menano.ServerThread.Defs.{
  AbsTime, Entry, Wait, Context, Objects, State, Mark, SyncOps, status_wait_0,
  status_abandoned_wait_0, status_user_apc, status_kernel_apc, status_timeout,
  status_thread_was_suspended, is_empty, is_some, is_wait_all, is_thread_suspended, add_queue,
  remove_queue, grab_object, release_object, with_waits, with_thread, with_objects, absolute,
  relative,
}

-- The two conditions on the clocks at the end of check_wait.
unfoldable pub has_expired : AbsTime → ℕ → ℕ → Bool
has_expired (absolute n) now mono = leb n now
has_expired (relative n) now mono = leb n mono

abbrev pub or_else : Option ℕ → ℕ → ℕ
or_else none n = n
or_else (some k) n = k

abbrev pub or_rest : Option ℕ → Option ℕ → Option ℕ
or_rest none r = r
or_rest (some k) r = some k

abbrev pub cooperate : Option Context → Option Context
cooperate none = none
cooperate (some c) = some (record c { cooperative = true })

-- make_wait_abandoned and set_wait_status
unfoldable pub marked : Mark → Wait → Wait
marked m w = record w { abandoned = w.abandoned || m.abandons; status = or_else m.status w.status }

module _ {S : Type 0} (ops : SyncOps S) where
  unfoldable pub object_sync_add_queue : ℕ → Entry → Objects S → Bool × Objects S
  unfolding add_queue
  object_sync_add_queue o e t =
      if ops.accepts (ops.get_obj_sync o)
      then (true, add_queue (ops.get_obj_sync o) e t)
      else (false, t)

  unfoldable pub object_sync_remove_queue : ℕ → Entry → Objects S → Objects S
  unfolding remove_queue
  object_sync_remove_queue o e t = remove_queue (ops.get_obj_sync o) e t

  unfoldable pub object_sync_signaled : ℕ → Wait → ℕ → Objects S → Bool × Objects S
  object_sync_signaled tid w o t =
      let (b, s) = ops.signaled tid w (ops.get_obj_sync o) t.sync in (b, record t { sync = s })

  unfoldable pub object_sync_satisfied : ℕ → Wait × Objects S → ℕ → Wait × Objects S
  unfolding marked
  object_sync_satisfied tid (w, t) o =
      let (s, m) = ops.satisfied tid w (ops.get_obj_sync o) t.sync in
      (marked m w, record t { sync = s })

  unfoldable pub satisfy_all : ℕ → List ℕ → Wait × Objects S → Wait × Objects S
  unfolding object_sync_satisfied
  satisfy_all tid [] p = p
  satisfy_all tid (o ∷ os) p = satisfy_all tid os (object_sync_satisfied tid p o)

  -- What `wait->status` and `wait->abandoned` come to once the objects are told.
  unfoldable pub outcome : Wait × Objects S → ℕ × Objects S
  outcome (w, t) = (if w.abandoned then w.status + status_abandoned_wait_0 else w.status, t)

  -- The first half of end_wait: a status below the count is told to the objects it names.
  unfoldable pub satisfy : ℕ → ℕ → Wait → Objects S → ℕ × Objects S
  unfolding satisfy_all object_sync_satisfied outcome
  satisfy tid status w t =
      if ltb status (length w.objects)
      then (if is_wait_all w.select
          then outcome (satisfy_all tid w.objects (record w { status = status }, t))
          else outcome (
              object_sync_satisfied tid (record w { status = status }, t)
                (get_or w.objects status 0)))
      else (status, t)

  unfoldable pub leave_queues : ℕ → ℕ → ℕ → List ℕ → Objects S → Objects S
  unfolding object_sync_remove_queue release_object
  leave_queues tid address i [] t = t
  leave_queues tid address i (o ∷ os) t = leave_queues tid address (suc i) os (
      release_object o
        (object_sync_remove_queue o (record { thread = tid; wait = address; place = i }) t))

  -- The wait `w` on top of the stack `w ∷ ws` ends.
  unfoldable pub end_wait : Wait → List Wait → ℕ → State S → ℕ × State S
  unfolding satisfy leave_queues
  end_wait w ws status s =
      let (status', t) = satisfy s.thread.id status w s.objects in
      (status', with_waits ws (with_objects (leave_queues s.thread.id w.address 0 w.objects t) s))

  -- The loop of wait_on; a wait that an object refuses counts those before it.
  unfoldable pub join_queues : ℕ → ℕ → ℕ → List ℕ → Objects S → Bool × (List ℕ × Objects S)
  unfolding object_sync_add_queue grab_object
  join_queues tid address i [] t = (true, ([], t))
  join_queues tid address i (o ∷ os) t =
      let e : Entry = record { thread = tid; wait = address; place = i } in
      let rest =
        join_queues tid address (suc i) os (grab_object o (object_sync_add_queue o e t).1) in
      if (object_sync_add_queue o e t).0
      then (rest.0, (o ∷ rest.1.0, rest.1.1))
      else (false, ([], t))

  -- `allocated` is the address mem_alloc returns, none when it fails; the result says whether the
  -- wait stands.
  unfoldable pub wait_on : Option ℕ → Wait → List ℕ → State S → Bool × State S
  unfolding join_queues end_wait
  wait_on none proto objects s = (false, s)
  wait_on (some address) proto objects s =
      let (joined, (os, t)) = join_queues s.thread.id address 0 objects s.objects in
      let w : Wait = record proto {
        address = address;
        cookie = 0;
        user = false;
        abandoned = false;
        status = 0;
        objects = os;
      } in
      let s' : State S = with_waits (w ∷ s.thread.waits) (with_objects t s) in
      if joined then (true, s') else (false, (end_wait w s.thread.waits ops.refusal s').1)

  -- Every object is asked, whatever the others answer.
  unfoldable pub all_signaled : ℕ → Wait → List ℕ → Objects S → Bool × Objects S
  unfolding object_sync_signaled
  all_signaled tid w [] t = (true, t)
  all_signaled tid w (o ∷ os) t =
      let (b, t') = object_sync_signaled tid w o t in
      let (rest, t'') = all_signaled tid w os t' in (b && rest, t'')

  -- The first object that is signaled, from place `i` on.
  unfoldable pub any_signaled : ℕ → Wait → ℕ → List ℕ → Objects S → Option ℕ × Objects S
  unfolding object_sync_signaled
  any_signaled tid w i [] t = (none, t)
  any_signaled tid w i (o ∷ os) t =
      let p = object_sync_signaled tid w o t in
      let rest = any_signaled tid w (suc i) os p.1 in if p.0 then (some i, p.1) else rest

  unfoldable pub check_objects : Wait → State S → Option ℕ × Objects S
  unfolding all_signaled any_signaled
  check_objects w s =
      if is_wait_all w.select
      then (let p = all_signaled s.thread.id w w.objects s.objects in
          (if p.0 then some status_wait_0 else none, p.1))
      else any_signaled s.thread.id w 0 w.objects s.objects

  -- The tests of check_wait after the objects.
  unfoldable pub check_rest : Wait → State S → Option ℕ
  unfolding has_expired
  check_rest w s =
      if w.alertable && not (is_empty s.thread.user_apc)
      then some status_user_apc
      else (if has_expired w.when s.current_time s.monotonic_time
          then some status_timeout
          else none)

  -- check_wait of the wait on top; none is its -1.
  unfoldable pub check_wait : Wait → State S → Option ℕ × State S
  unfolding check_objects check_rest is_thread_suspended
  check_wait w s =
      if w.interruptible && not (is_empty s.thread.system_apc)
      then (some status_kernel_apc, s)
      else (if w.cooperative_suspend && is_some s.thread.context
          then (
            some status_thread_was_suspended,
            with_thread (record s.thread { context = cooperate s.thread.context }) s,
          )
          else (if is_thread_suspended s
              then (none, s)
              else (let p = check_objects w s in
                  (or_rest p.0 (check_rest w s), with_objects p.1 s))))
