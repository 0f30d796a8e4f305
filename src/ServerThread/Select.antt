-- ===== src/ServerThread/Select.antt =====
-- server/thread_pro11.c: select_on, the one way in which a thread comes to wait.
use menano.Prelude.{
  ℕ, ◌-◌, ◌^◌, ◌⊎◌, inl, inr, Bool, false, not, ◌||◌, Option, none, some, List, [], ◌∷◌, ltb, ◌==◌,
  if◌then◌else◌, length, get_or,
}
use menano.ServerThread.Defs.{
  SelectOp, AbsTime, Wait, State, SyncOps, maximum_wait_objects, is_empty, is_some, with_waits,
  select_none, select_wait, select_wait_all, select_signal_and_wait, select_keyed_event_wait,
  select_keyed_event_release, absolute, relative,
}
use menano.ServerThread.Waits.{end_wait, wait_on, check_wait}

abbrev pub status_pending : ℕ
status_pending = 0x103

abbrev pub status_invalid_parameter : ℕ
status_invalid_parameter = 0xC000000D

abbrev pub status_no_memory : ℕ
status_no_memory = 0xC0000017

abbrev pub timeout_infinite : AbsTime
timeout_infinite = absolute (2 ^ 63 - 1)

-- The request: the handles, the flags, the timeout and the cookie; `has_size` is false when the
-- data is too short to hold the operation.
pub record Request : Type 0 where
  pub select : SelectOp
  pub has_size : Bool
  pub handles : List ℕ
  pub signal : ℕ
  pub interruptible : Bool
  pub alertable : Bool
  pub cooperative_suspend : Bool
  pub cookie : ℕ
  pub when : AbsTime

-- What the allocator answers: the address of the wait, and whether the timer can be added.
pub record Memory : Type 0 where
  pub wait : Option ℕ
  pub timer : Bool

abbrev pub proto : Request → Wait
proto r = record {
  address = 0;
  select = r.select;
  interruptible = r.interruptible;
  alertable = r.alertable;
  cooperative_suspend = r.cooperative_suspend;
  cookie = 0;
  user = false;
  when = r.when;
  abandoned = false;
  status = 0;
  objects = [];
}

abbrev pub is_infinite : AbsTime → Bool
is_infinite (absolute n) = n == 2 ^ 63 - 1
is_infinite (relative n) = false

abbrev pub cons_both : ℕ ⊎ ℕ → ℕ ⊎ List ℕ → ℕ ⊎ List ℕ
cons_both (inr o) (inr os) = inr (o ∷ os)
cons_both (inr o) (inl error) = inl error
cons_both (inl error) r = inl error

-- The handles of wait_on_handles, up to the first that names no object that may be waited for, with
-- the error that get_handle_obj sets for it.
unfoldable pub get_objects : (ℕ → ℕ ⊎ ℕ) → List ℕ → ℕ ⊎ List ℕ
get_objects get_handle_obj [] = inr []
get_objects get_handle_obj (h ∷ hs) =
    let rest = get_objects get_handle_obj hs in cons_both (get_handle_obj h) rest

module _ {S : Type 0} (ops : SyncOps S) where
  -- The thread has to wait: the timer, the cookie and the status of the reply.
  unfoldable pub arm : Request → Memory → Wait → List Wait → State S → ℕ × State S
  unfolding end_wait
  arm r m w ws s =
      let w' : Wait = record w { user = not (is_infinite w.when); cookie = r.cookie } in
      if is_infinite w.when || m.timer
      then (status_pending, with_waits (w' ∷ ws) s)
      else (status_no_memory, (end_wait ops w ws status_no_memory s).1)

  unfoldable pub satisfied_or :
      Option ℕ → Request → Memory → Wait → List Wait → State S → ℕ × State S
  unfolding end_wait arm
  satisfied_or (some status) r m w ws s = end_wait ops w ws status s
  satisfied_or none r m w ws s = arm r m w ws s

  -- The end of select_on, once the wait is on the stack: the status of the reply, and the state.
  unfoldable pub begin_wait : Request → Memory → List Wait → State S → ℕ × State S
  unfolding check_wait satisfied_or
  begin_wait r m [] s = (0, s)
  begin_wait r m (w ∷ ws) s = let c = check_wait ops w s in satisfied_or c.0 r m w ws c.1

  unfoldable pub drop_wait : ℕ → List Wait → State S → State S
  unfolding end_wait
  drop_wait error [] s = s
  drop_wait error (w ∷ ws) s = (end_wait ops w ws error s).1

  -- wait_on on objects that were found, and what select_on does when it fails.
  unfoldable pub wait_for :
      Request → Memory → ℕ ⊎ List ℕ → State S → (State S → ℕ × State S) → ℕ × State S
  unfolding wait_on
  wait_for r m (inl error) s next = (error, s)
  wait_for r m (inr os) s next =
      let p = wait_on ops m.wait (proto r) os s in
      if p.0 then next p.1 else (if is_some m.wait then ops.refusal else status_no_memory, p.1)

  module _ (get_handle_obj get_keyed_event_obj : ℕ → ℕ ⊎ ℕ)
      (signal_object : ℕ → State S → Option ℕ × State S) where
    abbrev pub begin : Request → Memory → State S → ℕ × State S
    begin r m s = begin_wait r m s.thread.waits s

    -- signal_object has set the error it returns; it may have woken the thread.
    abbrev pub signaled_then : Request → Memory → Option ℕ × State S → ℕ × State S
    signaled_then r m (some error, s) = (error, drop_wait error s.thread.waits s)
    signaled_then r m (none, s) = if is_empty s.thread.waits then (0, s) else begin r m s

    unfoldable pub select_on : SelectOp → Request → Memory → State S → ℕ × State S
    unfolding get_objects wait_for begin_wait drop_wait
    select_on select_none r m s = wait_for r m (inr []) s (begin r m)
    select_on select_wait r m s =
        if not r.has_size || ltb maximum_wait_objects (length r.handles)
        then (status_invalid_parameter, s)
        else wait_for r m (get_objects get_handle_obj r.handles) s (begin r m)
    select_on select_wait_all r m s =
        if not r.has_size || ltb maximum_wait_objects (length r.handles)
        then (status_invalid_parameter, s)
        else wait_for r m (get_objects get_handle_obj r.handles) s (begin r m)
    select_on select_signal_and_wait r m s =
        wait_for r m (get_objects get_handle_obj (get_or r.handles 0 0 ∷ [])) s (λ s'.
          if r.signal == 0 then begin r m s' else signaled_then r m (signal_object r.signal s'))
    select_on select_keyed_event_wait r m s =
        wait_for r m (get_objects get_keyed_event_obj (get_or r.handles 0 0 ∷ [])) s (begin r m)
    select_on select_keyed_event_release r m s =
        wait_for r m (get_objects get_keyed_event_obj (get_or r.handles 0 0 ∷ [])) s (begin r m)
