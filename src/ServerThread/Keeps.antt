-- ===== src/ServerThread/Keeps.antt =====
-- server/thread_pro11.c: a property that the elementary steps keep, every operation keeps.
use menano.Prelude.{
  ℕ, suc, ◌-◌, ◌≡◌, refl, sym, subst, ◌∙◌, inl, inr, Bool, true, false, not, ◌&&◌, Option, none,
  some, List, [], ◌∷◌, ltb, ◌==◌, if◌then◌else◌, Bool-cases, either_branch,
}
use menano.ServerThread.Defs.{
  Entry, Wait, State, SyncOps, status_timeout, is_thread_suspended, with_waits, with_thread,
}
use menano.ServerThread.Waits.{end_wait, check_wait}
use menano.ServerThread.Wakeups.{
  write_reply, is_top, clear_user, suspend_thread, kill_thread, send_thread_wakeup, announce,
  wake_one, wake_loop, wake_thread, wake_others, wake_top, wake_thread_queue_entry, time_out,
  thread_timeout, resume_thread,
}
use menano.ServerThread.Settles.{announce-waits}
use menano.ServerThread.Invariant.{check_wait-IsSame}

-- The steps that waking, timing out, suspending and resuming a thread are made of.
pub record Rule {S : Type 0} (ops : SyncOps S) (P : State S → Type 0) : Type 0 where
  pub ended :
      (w : Wait) (ws : List Wait) (status : ℕ) (s : State S)
      → s.thread.waits ≡ w ∷ ws
      → P s
      → P (end_wait ops w ws status s).1
  pub checked : (w : Wait) (s : State S) → P s → P (check_wait ops w s).1
  pub replied :
      (cookie signaled : ℕ) (s : State S)
      → P s
      → P (with_thread (write_reply cookie signaled s.thread).1 s)
  pub killed : (s : State S) → P s → P (kill_thread ops s)
  pub forgot :
      (address : ℕ) (s : State S) → P s → P (with_waits (clear_user address s.thread.waits) s)
  pub suspended :
      (created is_current : Bool) (s : State S) → P s → P (suspend_thread created is_current s).1
  pub counted_down :
      (s : State S) → P s → P (with_thread (record s.thread { suspend = s.thread.suspend - 1 }) s)

module _ {S : Type 0} (ops : SyncOps S) (P : State S → Type 0) (rule : Rule ops P) where
  pub send_thread_wakeup_keeps :
      (cookie signaled : ℕ) (s : State S) → P s → P (send_thread_wakeup ops cookie signaled s).1
  unfolding send_thread_wakeup
  send_thread_wakeup_keeps cookie signaled s h =
      let p = write_reply cookie signaled s.thread in
      let hw = rule.replied cookie signaled s h in
      either_branch {A = Bool × State S} (λ r. P r.1) p.0 {x = (true, with_thread p.1 s)}
        {y = (false, kill_thread ops (with_thread p.1 s))} hw (rule.killed (with_thread p.1 s) hw)

  pub announce_keeps :
      (cookie signaled : ℕ) (s : State S) → P s → P (announce ops cookie signaled s).1
  unfolding announce
  announce_keeps cookie signaled s h =
      either_branch {A = Bool × State S} (λ r. P r.1) (cookie == 0) {x = (true, s)}
        {y = send_thread_wakeup ops cookie signaled s} h
        (send_thread_wakeup_keeps cookie signaled s h)

  wake_one_keeps :
      (o : Option ℕ) (n : ℕ) (w : Wait) (ws : List Wait) (s : State S)
      (next : State S → Option ℕ × State S)
      → s.thread.waits ≡ w ∷ ws
      → P s
      → ((s' : State S) → s'.thread.waits ≡ ws → P s' → P (next s').1)
      → P (wake_one ops o n w ws s next).1
  unfolding wake_one
  wake_one_keeps none n w ws s next e h k = h
  wake_one_keeps (some status) n w ws s next e h k =
      let p = end_wait ops w ws status s in
      let a = announce ops w.cookie p.0 p.1 in
      let ha : P a.1 = announce_keeps w.cookie p.0 p.1 (rule.ended w ws status s e h) in
      elim (Bool-cases a.0) [
        | inl y ↦
            subst (λ b. P (if b then next a.1 else (if n == 0 then none else some n, a.1)).1)
              (sym y) (k a.1 (announce-waits ops w.cookie p.0 p.1 y) ha)
        | inr y ↦
            subst (λ b. P (if b then next a.1 else (if n == 0 then none else some n, a.1)).1)
              (sym y) ha
      ]

  wake_loop_keeps :
      (n : ℕ) (ws : List Wait) (s : State S)
      → s.thread.waits ≡ ws
      → P s
      → P (wake_loop ops n ws s).1
  unfolding wake_loop
  wake_loop_keeps n [] s e h = h
  wake_loop_keeps n (w ∷ ws) s e h =
      let c = check_wait ops w s in
      let same = check_wait-IsSame ops (λ x q. false) w s in
      wake_one_keeps c.0 n w ws c.1 (wake_loop ops (suc n) ws) (same.waits ∙ e) (rule.checked w s h)
        (λ s'. wake_loop_keeps (suc n) ws s')

  pub wake_thread_keeps : (s : State S) → P s → P (wake_thread ops s).1
  unfolding wake_thread
  wake_thread_keeps s h = wake_loop_keeps 0 s.thread.waits s refl h

  wake_others_keeps : (p : Bool × State S) → P p.1 → P (wake_others ops p)
  wake_others_keeps (ok, s) h = either_branch P ok (wake_thread_keeps s h) h

  wake_top_keeps :
      (place : ℕ) (ws : List Wait) (s : State S)
      → s.thread.waits ≡ ws
      → P s
      → P (wake_top ops place ws s)
  wake_top_keeps place [] s e h = h
  wake_top_keeps place (w ∷ ws) s e h =
      let p = end_wait ops w ws place s in
      wake_others_keeps (announce ops w.cookie p.0 p.1)
        (announce_keeps w.cookie p.0 p.1 (rule.ended w ws place s e h))

  pub wake_thread_queue_entry_keeps :
      (e : Entry) (s : State S) → P s → P (wake_thread_queue_entry ops e s).1
  unfolding wake_thread_queue_entry
  wake_thread_queue_entry_keeps e s h =
      either_branch {A = Bool × State S} (λ r. P r.1)
        (is_top e.wait s.thread.waits && not (is_thread_suspended s))
        {x = (true, wake_top ops e.place s.thread.waits s)} {y = (false, s)}
        (wake_top_keeps e.place s.thread.waits s refl h) h

  time_out_keeps :
      (ws : List Wait) (s : State S) → s.thread.waits ≡ ws → P s → P (time_out ops ws s)
  time_out_keeps [] s e h = h
  time_out_keeps (w ∷ ws) s e h =
      let p = end_wait ops w ws status_timeout s in
      wake_others_keeps (send_thread_wakeup ops w.cookie status_timeout p.1) (
        send_thread_wakeup_keeps w.cookie status_timeout p.1 (rule.ended w ws status_timeout s e h))

  pub thread_timeout_keeps : (address : ℕ) (s : State S) → P s → P (thread_timeout ops address s)
  unfolding thread_timeout
  thread_timeout_keeps address s h =
      let ws : List Wait = clear_user address s.thread.waits in
      let s' : State S = with_waits ws s in
      let h' : P s' = rule.forgot address s h in
      either_branch P (is_top address ws && not (is_thread_suspended s'))
        (time_out_keeps ws s' refl h') h'

  pub resume_thread_keeps : (s : State S) → P s → P (resume_thread ops s).1
  unfolding resume_thread
  resume_thread_keeps s h =
      let s' : State S = with_thread (record s.thread { suspend = s.thread.suspend - 1 }) s in
      let h' : P s' = rule.counted_down s h in
      either_branch P (ltb 0 s.thread.suspend)
        (either_branch P (is_thread_suspended s') h' (wake_thread_keeps s' h')) h
