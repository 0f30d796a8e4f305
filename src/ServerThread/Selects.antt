-- ===== src/ServerThread/Selects.antt =====
-- server/thread_pro11.c: select_on keeps what the steps it is made of keep.
use menano.Prelude.{
  ℕ, zero, suc, ◌≤◌, ◌≡◌, refl, sym, subst, ◌∙◌, ◌⊎◌, inl, inr, Bool, false, not, ◌||◌, Option,
  none, some, List, [], ◌∷◌, arith, ltb, ◌==◌, if◌then◌else◌, Bool-cases, either_branch, length,
  get_or,
}
use menano.ServerThread.Defs.{
  SelectOp, Wait, State, SyncOps, maximum_wait_objects, is_empty, is_some, with_waits, select_none,
  select_wait, select_wait_all, select_signal_and_wait, select_keyed_event_wait,
  select_keyed_event_release,
}
use menano.ServerThread.Waits.{end_wait, wait_on, check_wait}
use menano.ServerThread.Select.{
  status_pending, status_invalid_parameter, status_no_memory, Request, Memory, proto, is_infinite,
  cons_both, get_objects, arm, satisfied_or, begin_wait, drop_wait, wait_for, signaled_then,
  select_on,
}
use menano.ServerThread.Keeps.{Rule}
use menano.ServerThread.Invariant.{check_wait-IsSame}

-- The list that get_objects finds is as long as the list of handles.
cons_both-length :
    (o : ℕ ⊎ ℕ) (r : ℕ ⊎ List ℕ) (n : ℕ) (os : List ℕ)
    → ((rest : List ℕ) → r ≡ inr rest → length rest ≡ n)
    → cons_both o r ≡ inr os
    → length os ≡ suc n
cons_both-length (inl error) r n os h e = absurd cc
cons_both-length (inr o) (inl error) n os h e = absurd cc
cons_both-length (inr o) (inr rest) n os h e =
    let l = h rest refl in let eq : length os ≡ length (o ∷ rest) = cc in omega arith

get_objects-length :
    (g : ℕ → ℕ ⊎ ℕ) (hs os : List ℕ) → get_objects g hs ≡ inr os → length os ≡ length hs
unfolding get_objects
get_objects-length g [] os e = ground arith
get_objects-length g (h ∷ hs) os e =
    cons_both-length (g h) (get_objects g hs) (length hs) os (get_objects-length g hs) e

module _ {S : Type 0} (ops : SyncOps S) (P : State S → Type 0) (rule : Rule ops P) where
  -- What select_on does besides: a wait is made, and the wait on top is given its cookie.
  pub record SelectRule (m : Memory) (start : State S) : Type 0 where
    pub waited :
        (w : Wait) (os : List ℕ)
        → length os ≤ maximum_wait_objects
        → P (wait_on ops m.wait w os start).1
    pub armed :
        (w : Wait) (ws : List Wait) (user : Bool) (cookie : ℕ) (s : State S)
        → s.thread.waits ≡ w ∷ ws
        → P s
        → P (with_waits (record w { user = user; cookie = cookie } ∷ ws) s)

  module _ (m : Memory) (start : State S) (more : SelectRule m start) (r : Request) where
    arm_keeps :
        (w : Wait) (ws : List Wait) (s : State S)
        → s.thread.waits ≡ w ∷ ws
        → P s
        → P (arm ops r m w ws s).1
    unfolding arm
    arm_keeps w ws s e h =
        let w' : Wait = record w { user = not (is_infinite w.when); cookie = r.cookie } in
        either_branch {A = ℕ × State S} (λ p. P p.1) (is_infinite w.when || m.timer)
          {x = (status_pending, with_waits (w' ∷ ws) s)}
          {y = (status_no_memory, (end_wait ops w ws status_no_memory s).1)}
          (more.armed w ws (not (is_infinite w.when)) r.cookie s e h)
          (rule.ended w ws status_no_memory s e h)

    satisfied_or_keeps :
        (o : Option ℕ) (w : Wait) (ws : List Wait) (s : State S)
        → s.thread.waits ≡ w ∷ ws
        → P s
        → P (satisfied_or ops o r m w ws s).1
    unfolding satisfied_or
    satisfied_or_keeps none w ws s e h = arm_keeps w ws s e h
    satisfied_or_keeps (some status) w ws s e h = rule.ended w ws status s e h

    begin_wait_keeps :
        (ws : List Wait) (s : State S) → s.thread.waits ≡ ws → P s → P (begin_wait ops r m ws s).1
    unfolding begin_wait
    begin_wait_keeps [] s e h = h
    begin_wait_keeps (w ∷ ws) s e h =
        let c = check_wait ops w s in
        satisfied_or_keeps c.0 w ws c.1 ((check_wait-IsSame ops (λ x q. false) w s).waits ∙ e)
          (rule.checked w s h)

    drop_wait_keeps :
        (error : ℕ) (ws : List Wait) (s : State S)
        → s.thread.waits ≡ ws
        → P s
        → P (drop_wait ops error ws s)
    unfolding drop_wait
    drop_wait_keeps error [] s e h = h
    drop_wait_keeps error (w ∷ ws) s e h = rule.ended w ws error s e h

    wait_for_keeps :
        (o : ℕ ⊎ List ℕ) (next : State S → ℕ × State S)
        → ((os : List ℕ) → o ≡ inr os → length os ≤ maximum_wait_objects)
        → ((s' : State S) → P s' → P (next s').1)
        → P start
        → P (wait_for ops r m o start next).1
    unfolding wait_for
    wait_for_keeps (inl error) next l k h = h
    wait_for_keeps (inr os) next l k h =
        let p = wait_on ops m.wait (proto r) os start in
        let hp : P p.1 = more.waited (proto r) os (l os refl) in
        either_branch {A = ℕ × State S} (λ q. P q.1) p.0 {x = next p.1}
          {y = (if is_some m.wait then ops.refusal else status_no_memory, p.1)} (k p.1 hp) hp

    module _ (get_handle_obj get_keyed_event_obj : ℕ → ℕ ⊎ ℕ)
        (signal_object : ℕ → State S → Option ℕ × State S)
        (signal_keeps : (h : ℕ) (s : State S) → P s → P (signal_object h s).1) where
      one_handle :
          (g : ℕ → ℕ ⊎ ℕ) (h : ℕ) (os : List ℕ)
          → get_objects g (h ∷ []) ≡ inr os
          → length os ≤ maximum_wait_objects
      one_handle g h os e =
          let l : length os ≡ suc zero = get_objects-length g (h ∷ []) os e in omega arith

      few :
          (g : ℕ → ℕ ⊎ ℕ)
          → (not r.has_size || ltb maximum_wait_objects (length r.handles)) ≡ false
          → (os : List ℕ) → get_objects g r.handles ≡ inr os
          → length os ≤ maximum_wait_objects
      few g f os e = let l = get_objects-length g r.handles os e in ground arith

      no_handle :
          (os : List ℕ) → ◌≡◌ {A = ℕ ⊎ List ℕ} (inr []) (inr os) → length os ≤ maximum_wait_objects
      no_handle os e = ground arith

      begins : (s : State S) → P s → P (begin_wait ops r m s.thread.waits s).1
      begins s h = begin_wait_keeps s.thread.waits s refl h

      signaled_then_keeps :
          (p : Option ℕ × State S)
          → P p.1
          → P (signaled_then ops get_handle_obj get_keyed_event_obj signal_object r m p).1
      signaled_then_keeps (some error, s) h = drop_wait_keeps error s.thread.waits s refl h
      signaled_then_keeps (none, s) h =
          either_branch {A = ℕ × State S} (λ q. P q.1) (is_empty s.thread.waits) {x = (0, s)}
            {y = begin_wait ops r m s.thread.waits s} h (begins s h)

      many_keeps :
          P start
          → P
              (if not r.has_size || ltb maximum_wait_objects (length r.handles)
                then (status_invalid_parameter, start)
                else wait_for ops r m
                    (get_objects get_handle_obj r.handles)
                    start
                    (λ s'. begin_wait ops r m s'.thread.waits s')).1
      many_keeps h =
          let x : ℕ × State S = (status_invalid_parameter, start) in
          let y : ℕ × State S =
            wait_for ops r m (get_objects get_handle_obj r.handles) start
              (λ s'. begin_wait ops r m s'.thread.waits s') in
          elim (Bool-cases (not r.has_size || ltb maximum_wait_objects (length r.handles))) [
            | inl t ↦ subst (λ b. P (if b then x else y).1) (sym t) h
            | inr f ↦
                subst (λ b. P (if b then x else y).1) (sym f)
                  (wait_for_keeps (get_objects get_handle_obj r.handles)
                    (λ s'. begin_wait ops r m s'.thread.waits s') (few get_handle_obj f) begins h)
          ]

      pub select_on_keeps :
          (op : SelectOp)
          → P start
          → P (select_on ops get_handle_obj get_keyed_event_obj signal_object op r m start).1
      unfolding select_on
      select_on_keeps select_none h =
          wait_for_keeps (inr []) (λ s'. begin_wait ops r m s'.thread.waits s') no_handle begins h
      select_on_keeps select_wait h = many_keeps h
      select_on_keeps select_wait_all h = many_keeps h
      select_on_keeps select_signal_and_wait h =
          wait_for_keeps (get_objects get_handle_obj (get_or r.handles 0 0 ∷ []))
            (λ s'.
              if r.signal == 0
              then begin_wait ops r m s'.thread.waits s'
              else signaled_then ops get_handle_obj get_keyed_event_obj signal_object r m
                  (signal_object r.signal s'))
            (one_handle get_handle_obj (get_or r.handles 0 0))
            (λ s' h'.
              either_branch {A = ℕ × State S} (λ q. P q.1) (r.signal == 0)
                {x = begin_wait ops r m s'.thread.waits s'}
                {y = signaled_then ops get_handle_obj get_keyed_event_obj signal_object r m
                  (signal_object r.signal s')}
                (begins s' h')
                (signaled_then_keeps (signal_object r.signal s') (signal_keeps r.signal s' h')))
            h
      select_on_keeps select_keyed_event_wait h =
          wait_for_keeps (get_objects get_keyed_event_obj (get_or r.handles 0 0 ∷ []))
            (λ s'. begin_wait ops r m s'.thread.waits s')
            (one_handle get_keyed_event_obj (get_or r.handles 0 0)) begins h
      select_on_keeps select_keyed_event_release h =
          wait_for_keeps (get_objects get_keyed_event_obj (get_or r.handles 0 0 ∷ []))
            (λ s'. begin_wait ops r m s'.thread.waits s')
            (one_handle get_keyed_event_obj (get_or r.handles 0 0)) begins h
