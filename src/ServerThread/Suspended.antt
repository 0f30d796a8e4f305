-- ===== src/ServerThread/Suspended.antt =====
-- server/thread_pro11.c: a suspended thread takes no object.
use menano.Prelude.{
  ℕ, suc, ◌≤◌, ◌≡◌, refl, sym, ap, subst, ◌∙◌, ◌⊎◌, inl, inr, Bool, true, false, not, ◌&&◌, Option,
  none, some, List, [], ◌∷◌, arith, ◌==◌, if◌then◌else◌, either_branch, length, All,
}
use menano.ServerThread.Defs.{
  Entry, Wait, State, SyncOps, status_kernel_apc, is_thread_suspended, with_waits, with_thread,
}
use menano.ServerThread.Waits.{end_wait, check_wait}
use menano.ServerThread.Wakeups.{
  write_reply, is_top, clear_user, kill_thread, send_thread_wakeup, announce, wake_one, wake_loop,
  wake_thread, wake_top, wake_thread_queue_entry, time_out, thread_timeout,
}
use menano.ServerThread.Bounds.{IsCapped}
use menano.ServerThread.Roundtrip.{end_wait_beyond}
use menano.ServerThread.Leaves.{leave_queues-sync}

abbrev pub IsPlain : Wait → Type 0
IsPlain w = (w.cooperative_suspend ≡ false) × IsCapped w

guard_off : (a b : Bool) → b ≡ true → (a && not b) ≡ false
guard_off a b h = ground arith

module _ {S : Type 0} (ops : SyncOps S) where
  -- The thread is suspended, its wakeups reach it, and the objects' states are `x`.
  pub record IsHeld (x : S) (s : State S) : Type 0 where
    pub suspended : is_thread_suspended s ≡ true
    pub reader : s.thread.reader_open ≡ true
    pub sync : s.objects.sync ≡ x

  check_suspended :
      (w : Wait) (s : State S)
      → is_thread_suspended s ≡ true
      → w.cooperative_suspend ≡ false
      → (check_wait ops w s ≡ (none, s)) ⊎ (check_wait ops w s ≡ (some status_kernel_apc, s))
  unfolding check_wait
  check_suspended w s h c = ground arith

  end_wait-IsHeld :
      (x : S) (w : Wait) (ws : List Wait) (s : State S)
      → IsCapped w
      → IsHeld x s
      → IsHeld x (end_wait ops w ws status_kernel_apc s).1
  unfolding is_thread_suspended
  end_wait-IsHeld x w ws s c h =
      let l : length w.objects ≤ status_kernel_apc = omega arith in
      subst (λ r. IsHeld x r.1)
        (sym (end_wait_beyond ops (λ e q. false) w ws status_kernel_apc s l))
        (record {
          suspended = h.suspended;
          reader = h.reader;
          sync = leave_queues-sync ops s.thread.id w.address 0 w.objects s.objects ∙ h.sync;
        })

  write_reply-IsHeld :
      (x : S) (cookie signaled : ℕ) (s : State S)
      → IsHeld x s
      → ((write_reply cookie signaled s.thread).0 ≡ true)
        × IsHeld x (with_thread (write_reply cookie signaled s.thread).1 s)
  unfolding write_reply is_thread_suspended
  write_reply-IsHeld x cookie signaled s h =
      let a = h.suspended in
      let b = h.reader in
      let c = h.sync in
      (ground arith, record { suspended = ground arith; reader = ground arith; sync = c })

  sent-IsHeld :
      (x : S) (cookie signaled : ℕ) (s : State S)
      → IsHeld x s
      → ((send_thread_wakeup ops cookie signaled s).0 ≡ true)
        × IsHeld x (send_thread_wakeup ops cookie signaled s).1
  unfolding send_thread_wakeup
  sent-IsHeld x cookie signaled s h =
      let (ok, t) = write_reply cookie signaled s.thread in
      let w = write_reply-IsHeld x cookie signaled s h in
      subst
        (λ b.
          let r : Bool × State S =
            if b then (true, with_thread t s) else (false, kill_thread ops (with_thread t s)) in
          (r.0 ≡ true) × IsHeld x r.1)
        (sym w.0) (refl, w.1)

  announce-IsHeld :
      (x : S) (cookie signaled : ℕ) (s : State S)
      → IsHeld x s
      → ((announce ops cookie signaled s).0 ≡ true) × IsHeld x (announce ops cookie signaled s).1
  unfolding announce
  announce-IsHeld x cookie signaled s h =
      either_branch {A = Bool × State S} (λ r. (r.0 ≡ true) × IsHeld x r.1) (cookie == 0)
        {x = (true, s)} {y = send_thread_wakeup ops cookie signaled s} (refl, h)
        (sent-IsHeld x cookie signaled s h)

  wake_one-IsHeld :
      (x : S) (n : ℕ) (w : Wait) (ws : List Wait) (s : State S)
      (next : State S → Option ℕ × State S)
      → IsCapped w
      → ((s' : State S) → IsHeld x s' → IsHeld x (next s').1)
      → IsHeld x s
      → IsHeld x (wake_one ops (some status_kernel_apc) n w ws s next).1
  unfolding wake_one
  wake_one-IsHeld x n w ws s next c k h =
      let p = end_wait ops w ws status_kernel_apc s in
      let a = announce ops w.cookie p.0 p.1 in
      let ha = announce-IsHeld x w.cookie p.0 p.1 (end_wait-IsHeld x w ws s c h) in
      subst (λ b. IsHeld x (if b then next a.1 else (if n == 0 then none else some n, a.1)).1)
        (sym ha.0) (k a.1 ha.1)

  wake_loop-IsHeld :
      (x : S) (n : ℕ) (ws : List Wait) (s : State S)
      → All IsPlain ws
      → IsHeld x s
      → IsHeld x (wake_loop ops n ws s).1
  unfolding wake_loop wake_one
  wake_loop-IsHeld x n [] s p h = h
  wake_loop-IsHeld x n (w ∷ ws) s p h =
      let next : State S → Option ℕ × State S = wake_loop ops (suc n) ws in
      elim (check_suspended w s h.suspended p.0.0) [
        | inl c ↦ subst (λ r. IsHeld x (wake_one ops r.0 n w ws r.1 next).1) (sym c) h
        | inr c ↦
            subst (λ r. IsHeld x (wake_one ops r.0 n w ws r.1 next).1) (sym c)
              (wake_one-IsHeld x n w ws s next p.0.1
                (λ s' h'. wake_loop-IsHeld x (suc n) ws s' p.1 h') h)
      ]

  entry_of_suspended :
      (s : State S) (e : Entry)
      → is_thread_suspended s ≡ true
      → wake_thread_queue_entry ops e s ≡ (false, s)
  unfolding wake_thread_queue_entry
  entry_of_suspended s e h =
      let x : Bool × State S = (true, wake_top ops e.place s.thread.waits s) in
      let y : Bool × State S = (false, s) in
      subst (λ b. (if b then x else y) ≡ y)
        (sym (guard_off (is_top e.wait s.thread.waits) (is_thread_suspended s) h)) refl

  timeout_of_suspended :
      (s : State S) (address : ℕ)
      → is_thread_suspended s ≡ true
      → thread_timeout ops address s ≡ with_waits (clear_user address s.thread.waits) s
  unfolding thread_timeout is_thread_suspended
  timeout_of_suspended s address h =
      let ws : List Wait = clear_user address s.thread.waits in
      let s' : State S = with_waits ws s in
      subst (λ b. (if b then time_out ops ws s' else s') ≡ s')
        (sym (guard_off (is_top address ws) (is_thread_suspended s') h)) refl

  -- A suspended thread takes no object: while its wakeups reach it and none of its waits asks for
  -- a cooperative suspension, neither waking it, nor an entry of a queue that is signaled, nor a
  -- timeout changes the state of an object.
  pub suspended_takes_nothing :
      (s : State S) (e : Entry) (address : ℕ)
      → is_thread_suspended s ≡ true
      → s.thread.reader_open ≡ true
      → All IsPlain s.thread.waits
      → ((wake_thread ops s).1.objects.sync ≡ s.objects.sync)
        × (wake_thread_queue_entry ops e s ≡ (false, s))
        × ((thread_timeout ops address s).objects ≡ s.objects)
  unfolding wake_thread
  suspended_takes_nothing s e address h r p =
      let held : IsHeld s.objects.sync s = record { suspended = h; reader = r; sync = refl } in
      (
        (wake_loop-IsHeld s.objects.sync 0 s.thread.waits s p held).sync,
        entry_of_suspended s e h,
        ap (λ u. u.objects) (timeout_of_suspended s address h),
      )
