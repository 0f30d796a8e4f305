-- ===== src/ServerThread/Statuses.antt =====
-- server/thread_pro11.c: what the statuses that a wait returns stand for.
use menano.Prelude.{
  ℕ, suc, ◌+◌, ◌≤◌, ◌<◌, ◌≡◌, refl, sym, subst, ◌∙◌, ◌⊎◌, inl, inr, false, not, ◌&&◌, Option, none,
  some, List, [], ◌∷◌, arith, if◌then◌else◌, Bool-cases, either_branch, length, get_or,
}
use menano.ServerThread.Defs.{
  Wait, Objects, State, SyncOps, status_wait_0, status_abandoned_wait_0, status_user_apc,
  status_kernel_apc, status_timeout, status_thread_was_suspended, is_empty, is_some, is_wait_all,
  is_thread_suspended,
}
use menano.ServerThread.Waits.{
  has_expired, or_rest, marked, object_sync_signaled, object_sync_satisfied, satisfy_all, outcome,
  satisfy, end_wait, all_signaled, any_signaled, check_objects, check_rest, check_wait,
}
use menano.ServerThread.Bounds.{IsCapped}

-- No object sets a status of its own through set_wait_status.
abbrev pub IsQuiet : {S : Type 0} → SyncOps S → Type 0
IsQuiet {S} ops = (tid : ℕ) (w : Wait) (o : ℕ) (s : S) → (ops.satisfied tid w o s).1.status ≡ none

module _ {S : Type 0} (ops : SyncOps S) (quiet : IsQuiet ops) where
  satisfied_status :
      (tid : ℕ) (p : Wait × Objects S) (o : ℕ)
      → (object_sync_satisfied ops tid p o).0.status ≡ p.0.status
  unfolding object_sync_satisfied marked
  satisfied_status tid (w, t) o = rw (quiet tid w (ops.get_obj_sync o) t.sync) refl

  satisfy_all_status :
      (tid : ℕ) (os : List ℕ) (p : Wait × Objects S)
      → (satisfy_all ops tid os p).0.status ≡ p.0.status
  unfolding satisfy_all
  satisfy_all_status tid [] p = refl
  satisfy_all_status tid (o ∷ os) p =
      satisfy_all_status tid os (object_sync_satisfied ops tid p o) ∙ satisfied_status tid p o

  outcome_cases :
      (p : Wait × Objects S)
      → ((outcome ops p).0 ≡ p.0.status)
        ⊎ ((outcome ops p).0 ≡ p.0.status + status_abandoned_wait_0)
  unfolding outcome
  outcome_cases (w, t) = ground arith

  -- The status with which a wait ends is the one it was given, with 0x80 added if an object was
  -- abandoned; and that only for the place of an object.
  pub satisfy_cases :
      (tid status : ℕ) (w : Wait) (t : Objects S)
      → ((satisfy ops tid status w t).0 ≡ status)
        ⊎ ((status < length w.objects)
            × ((satisfy ops tid status w t).0 ≡ status + status_abandoned_wait_0))
  unfolding satisfy
  satisfy_cases tid status w t =
      let w' : Wait = record w { status = status } in
      let a = satisfy_all ops tid w.objects (w', t) in
      let b = object_sync_satisfied ops tid (w', t) (get_or w.objects status 0) in
      let ea : a.0.status ≡ status = satisfy_all_status tid w.objects (w', t) in
      let eb : b.0.status ≡ status = satisfied_status tid (w', t) (get_or w.objects status 0) in
      let ca = outcome_cases a in let cb = outcome_cases b in ground arith

  any_signaled_place :
      (tid : ℕ) (w : Wait) (i : ℕ) (os : List ℕ) (t : Objects S)
      → ((any_signaled ops tid w i os t).0 ≡ none)
        ⊎ ((k : ℕ) × ((any_signaled ops tid w i os t).0 ≡ some k) × (i ≤ k) × (k < i + length os))
  unfolding any_signaled
  any_signaled_place tid w i [] t = inl refl
  any_signaled_place tid w i (o ∷ os) t =
      let r = any_signaled_place tid w (suc i) os (object_sync_signaled ops tid w o t).1 in
      elim (Bool-cases (object_sync_signaled ops tid w o t).0) [
        | inl y ↦ rw y (inr (i, refl, omega arith, omega arith))
        | inr n ↦ rw n (later i (length os) r)
      ]
    where
      later :
          (i' n : ℕ) {o : Option ℕ}
          → (o ≡ none) ⊎ ((k : ℕ) × (o ≡ some k) × (suc i' ≤ k) × (k < suc i' + n))
          → (o ≡ none) ⊎ ((k : ℕ) × (o ≡ some k) × (i' ≤ k) × (k < i' + suc n))
      later i' n (inl h) = inl h
      later i' n (inr (k, h, a, b)) = inr (k, h, omega arith, omega arith)

  -- What check_wait answers: that the wait stands, a place of one of its objects (0 for a wait for
  -- all of them), or one of four statuses, those of the APCs only with an APC queued.
  abbrev pub IsAnswer : Wait → State S → Option ℕ → Type 0
  IsAnswer w s o =
      (o ≡ none)
      ⊎ (((k : ℕ) × (o ≡ some k) × ((k < length w.objects) ⊎ (k ≡ status_wait_0)))
          ⊎ (((o ≡ some status_kernel_apc) × (is_empty s.thread.system_apc ≡ false))
              ⊎ (((o ≡ some status_user_apc) × (is_empty s.thread.user_apc ≡ false))
                  ⊎ ((o ≡ some status_timeout) ⊎ (o ≡ some status_thread_was_suspended)))))

  check_objects_cases :
      (w : Wait) (s : State S)
      → ((check_objects ops w s).0 ≡ none)
        ⊎ ((k : ℕ) × ((check_objects ops w s).0 ≡ some k)
            × ((k < length w.objects) ⊎ (k ≡ status_wait_0)))
  unfolding check_objects
  check_objects_cases w s =
      let p = all_signaled ops s.thread.id w w.objects s.objects in
      let d : Option ℕ × Objects S = (if p.0 then some status_wait_0 else none, p.1) in
      let e : Option ℕ × Objects S = any_signaled ops s.thread.id w 0 w.objects s.objects in
      either_branch {A = Option ℕ × Objects S}
        (λ r.
          (r.0 ≡ none)
          ⊎ ((k : ℕ) × (r.0 ≡ some k) × ((k < length w.objects) ⊎ (k ≡ status_wait_0))))
        (is_wait_all w.select) {x = d} {y = e}
        (either_branch {A = Option ℕ}
          (λ o.
            (o ≡ none) ⊎ ((k : ℕ) × (o ≡ some k) × ((k < length w.objects) ⊎ (k ≡ status_wait_0))))
          p.0 (inr (0, refl, inr refl)) (inl refl))
        (placed_answer (any_signaled_place s.thread.id w 0 w.objects s.objects))
    where
      placed_answer :
          {o : Option ℕ} {n : ℕ}
          → (o ≡ none) ⊎ ((k : ℕ) × (o ≡ some k) × (0 ≤ k) × (k < 0 + n))
          → (o ≡ none) ⊎ ((k : ℕ) × (o ≡ some k) × ((k < n) ⊎ (k ≡ status_wait_0)))
      placed_answer (inl h) = inl h
      placed_answer (inr (k, h, a, b)) = inr (k, h, inl (omega arith))

  check_rest-IsAnswer : (w : Wait) (s : State S) → IsAnswer w s (check_rest ops w s)
  unfolding check_rest
  check_rest-IsAnswer w s = elim (Bool-cases (w.alertable && not (is_empty s.thread.user_apc))) [
    | inl y ↦ rw y (inr (inr (inr (inl (refl, ground arith)))))
    | inr n ↦ rw n (
        either_branch {A = Option ℕ} (IsAnswer w s)
          (has_expired w.when s.current_time s.monotonic_time) (inr (inr (inr (inr (inl refl)))))
          (inl refl))
  ]

  check_objects-IsAnswer :
      (w : Wait) (s : State S)
      → IsAnswer w s (or_rest (check_objects ops w s).0 (check_rest ops w s))
  check_objects-IsAnswer w s = elim (check_objects_cases w s) [
    | inl n ↦ rw n (check_rest-IsAnswer w s)
    | inr (k, h, p) ↦ rw h (inr (inl (k, refl, p)))
  ]

  pub check_wait-IsAnswer : (w : Wait) (s : State S) → IsAnswer w s (check_wait ops w s).0
  unfolding check_wait
  check_wait-IsAnswer w s =
      elim (Bool-cases (w.interruptible && not (is_empty s.thread.system_apc))) [
        | inl y ↦ rw y (inr (inr (inl (refl, ground arith))))
        | inr n ↦ rw n (
            either_branch {A = Option ℕ × State S} (λ r. IsAnswer w s r.0)
              (w.cooperative_suspend && is_some s.thread.context) (inr (inr (inr (inr (inr refl)))))
              (either_branch {A = Option ℕ × State S} (λ r. IsAnswer w s r.0)
                (is_thread_suspended s) (inl refl) (check_objects-IsAnswer w s)))
      ]

  -- What is left of a thread when a wait is ended.
  end_wait_fst :
      (w : Wait) (ws : List Wait) (status : ℕ) (s : State S)
      → ((end_wait ops w ws status s).0 ≡ (satisfy ops s.thread.id status w s.objects).0)
  unfolding end_wait
  end_wait_fst w ws status s = refl

  ended_with :
      (s : State S) (w : Wait) (status r : ℕ)
      → IsCapped w
      → IsAnswer w s (some status)
      → (r ≡ status) ⊎ ((status < length w.objects) × (r ≡ status + status_abandoned_wait_0))
      → r ≡ status_user_apc
      → is_empty s.thread.user_apc ≡ false
  ended_with s w status r c a b h = ground arith

  ended_kernel :
      (s : State S) (w : Wait) (status r : ℕ)
      → IsCapped w
      → IsAnswer w s (some status)
      → (r ≡ status) ⊎ ((status < length w.objects) × (r ≡ status + status_abandoned_wait_0))
      → r ≡ status_kernel_apc
      → is_empty s.thread.system_apc ≡ false
  ended_kernel s w status r c a b h = ground arith

  -- The statuses of a wait do not overlap: when no object sets a status of its own and the wait has
  -- at most 64 objects, a test that ends it with STATUS_USER_APC or STATUS_KERNEL_APC was made
  -- with an APC in that queue, so the APC that the request then takes from the queue is there.
  pub wait_of_apc :
      (w : Wait) (ws : List Wait) (s : State S) (status : ℕ)
      → IsCapped w
      → (check_wait ops w s).0 ≡ some status
      → let r = end_wait ops w ws status (check_wait ops w s).1 in
        (r.0 ≡ status_user_apc → is_empty s.thread.user_apc ≡ false)
        × (r.0 ≡ status_kernel_apc → is_empty s.thread.system_apc ≡ false)
  wait_of_apc w ws s status c e =
      let a : IsAnswer w s (some status) = subst (IsAnswer w s) e (check_wait-IsAnswer w s) in
      let s' : State S = (check_wait ops w s).1 in
      let b = satisfy_cases s'.thread.id status w s'.objects in
      let f = end_wait_fst w ws status s' in
      (
        λ h.
            ended_with s w status ((satisfy ops s'.thread.id status w s'.objects).0) c a b
              (sym f ∙ h),
        λ h.
            ended_kernel s w status ((satisfy ops s'.thread.id status w s'.objects).0) c a b
              (sym f ∙ h),
      )
