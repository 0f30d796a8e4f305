-- ===== src/ServerThread/Settles.antt =====
-- server/thread_pro11.c: where wake_thread stops.
use menano.Prelude.{
  ℕ, suc, ◌+◌, ◌≡◌, refl, sym, ap, subst, ◌∙◌, ◌⊎◌, inl, inr, true, false, Option, none, some, List,
  [], ◌∷◌, arith, ◌==◌, if◌then◌else◌, Bool-cases, length,
}
use menano.ServerThread.Defs.{Wait, State, SyncOps, status_thread_is_terminating, with_thread}
use menano.ServerThread.Waits.{end_wait, check_wait}
use menano.ServerThread.Invariant.{check_wait-IsSame}
use menano.ServerThread.Wakeups.{
  write_reply, cleanup_thread, end_all, bury, kill_thread, send_thread_wakeup, announce, wake_one,
  wake_loop, wake_thread,
}

plus_zero : (n : ℕ) → n ≡ n + 0
plus_zero n = omega arith

zero_plus : (n : ℕ) → n ≡ 0 + n
zero_plus n = omega arith

module _ {S : Type 0} (ops : SyncOps S) where
  -- The last thing that happened is that the wait on top was tested, and stands.
  pub record IsBlocked (s' : State S) : Type 0 where
    pub top : Wait
    pub below : List Wait
    pub before : State S
    pub waits : s'.thread.waits ≡ top ∷ below
    pub checked : check_wait ops top before ≡ (none, s')

  -- `n` waits were ended, and the next one stands or there is none.
  pub record IsSettled (s s' : State S) (n : ℕ) : Type 0 where
    pub counted : length s.thread.waits ≡ n + length s'.thread.waits
    pub stopped : (s'.thread.waits ≡ []) ⊎ IsBlocked s'

  pub end_all-waits :
      (ws : List Wait) (s : State S) → s.thread.waits ≡ ws → (end_all ops ws s).thread.waits ≡ []
  unfolding end_all end_wait
  end_all-waits [] s e = e
  end_all-waits (w ∷ ws) s e =
      end_all-waits ws (end_wait ops w ws status_thread_is_terminating s).1 refl

  pub end_all-terminated :
      (ws : List Wait) (s : State S) → (end_all ops ws s).thread.terminated ≡ s.thread.terminated
  unfolding end_all end_wait
  end_all-terminated [] s = refl
  end_all-terminated (w ∷ ws) s =
      end_all-terminated ws (end_wait ops w ws status_thread_is_terminating s).1

  pub kill_thread-terminated : (s : State S) → (kill_thread ops s).thread.terminated ≡ true
  unfolding kill_thread bury cleanup_thread write_reply
  kill_thread-terminated s =
      let t =
        end_all-terminated s.thread.waits (with_thread (record s.thread { terminated = true }) s) in
      ground arith

  pub kill_thread-waits :
      (s : State S) → s.thread.terminated ≡ false → (kill_thread ops s).thread.waits ≡ []
  unfolding kill_thread bury cleanup_thread write_reply
  kill_thread-waits s h =
      let t =
        end_all-waits s.thread.waits (with_thread (record s.thread { terminated = true }) s) refl in
      ground arith

  pub announce_fails :
      (cookie signaled : ℕ) (s : State S)
      → (announce ops cookie signaled s).0 ≡ false
      → (announce ops cookie signaled s).1.thread.terminated ≡ true
  unfolding announce send_thread_wakeup
  announce_fails cookie signaled s h =
      let t = kill_thread-terminated (with_thread (write_reply cookie signaled s.thread).1 s) in
      ground arith

  -- What is announced leaves the stack as it was, or empties it with the thread.
  pub announce-waits :
      (cookie signaled : ℕ) (s : State S)
      → (announce ops cookie signaled s).0 ≡ true
      → (announce ops cookie signaled s).1.thread.waits ≡ s.thread.waits
  unfolding announce send_thread_wakeup write_reply
  announce-waits cookie signaled s h = ground arith

  abbrev pub Outcome : ℕ → State S → Option ℕ × State S → Type 0
  Outcome n s r =
      (r.1.thread.terminated ≡ true) ⊎ ((k : ℕ) × (r.0 ≡ some (n + k)) × IsSettled s r.1 k)

  Outcome-suc :
      (n : ℕ) (w : Wait) (ws : List Wait) (s t : State S) (r : Option ℕ × State S)
      → s.thread.waits ≡ w ∷ ws
      → t.thread.waits ≡ ws
      → Outcome (suc n) t r
      → Outcome n s r
  Outcome-suc n w ws s t r e f (inl h) = inl h
  Outcome-suc n w ws s t r e f (inr (k, c, o)) =
      let l : length s.thread.waits ≡ suc (length ws) = ap length e in
      let m : length t.thread.waits ≡ length ws = ap length f in
      let num : some (suc n + k) ≡ some (n + suc k) = ap some (omega arith) in
      inr (suc k, c ∙ num, record { counted = omega (arith, o.counted); stopped = o.stopped })

  wake_one-Outcome :
      (c : Option ℕ × State S) (n : ℕ) (w : Wait) (ws : List Wait) (s : State S)
      (next : State S → Option ℕ × State S)
      → s.thread.waits ≡ w ∷ ws
      → c.1.thread.waits ≡ w ∷ ws
      → check_wait ops w s ≡ c
      → ((s' : State S) → s'.thread.waits ≡ ws → Outcome (suc n) s' (next s'))
      → Outcome n s (wake_one ops c.0 n w ws c.1 next)
  unfolding wake_one
  wake_one-Outcome (none, s') n w ws s next e e' c k = inr (
    0,
    ap some (plus_zero n),
    record {
      counted = ap length (e ∙ sym e') ∙ zero_plus (length s'.thread.waits);
      stopped = inr (record { top = w; below = ws; before = s; waits = e'; checked = c });
    },
  )
  wake_one-Outcome (some status, s') n w ws s next e e' c k =
      let p = end_wait ops w ws status s' in
      let a = announce ops w.cookie p.0 p.1 in
      let stop : Option ℕ × State S = (if n == 0 then none else some n, a.1) in
      elim (Bool-cases a.0) [
        | inl y ↦
            subst (λ b. Outcome n s (if b then next a.1 else stop)) (sym y)
              (Outcome-suc n w ws s a.1 (next a.1) e (announce-waits w.cookie p.0 p.1 y)
                (k a.1 (announce-waits w.cookie p.0 p.1 y)))
        | inr y ↦
            subst (λ b. Outcome n s (if b then next a.1 else stop)) (sym y)
              (inl (announce_fails w.cookie p.0 p.1 y))
      ]

  wake_loop-Outcome :
      (n : ℕ) (ws : List Wait) (s : State S)
      → s.thread.waits ≡ ws
      → Outcome n s (wake_loop ops n ws s)
  unfolding wake_loop
  wake_loop-Outcome n [] s e =
      let z : n ≡ n + 0 = omega arith in
      inr (0, ap some z, record { counted = zero_plus (length s.thread.waits); stopped = inl e })
  wake_loop-Outcome n (w ∷ ws) s e =
      wake_one-Outcome (check_wait ops w s) n w ws s (wake_loop ops (suc n) ws) e
        ((check_wait-IsSame ops (λ x q. false) w s).waits ∙ e) refl
        (λ s'. wake_loop-Outcome (suc n) ws s')

  -- Waking settles a thread: unless the thread dies of a write that fails, wake_thread returns how
  -- many waits it ended, exactly those have left the stack, and then the stack is empty or the last
  -- test of the wait now on top said that it stands.
  pub wake_thread_settles :
      (s : State S)
      → let r = wake_thread ops s in
        (r.1.thread.terminated ≡ true) ⊎ ((k : ℕ) × (r.0 ≡ some k) × IsSettled s r.1 k)
  unfolding wake_thread
  wake_thread_settles s = elim (wake_loop-Outcome 0 s.thread.waits s refl) [
    | inl h ↦ inl h
    | inr (k, c, o) ↦ inr (k, c ∙ ap some (sym (zero_plus k)), o)
  ]
