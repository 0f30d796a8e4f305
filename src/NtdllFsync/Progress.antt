-- ===== src/NtdllFsync/Progress.antt =====
-- __fsync_wait_objects of dlls/ntdll/unix/fsync_pro10.c with no other thread at work: it takes the
-- first object that can be taken, and an immediate wait for none of them times out.
use menano.Prelude.{
  ℕ, suc, ◌≡◌, refl, ◌⊎◌, inl, inr, Bool, true, false, not, ◌&&◌, ◌||◌, Option, none, some, List,
  [], ◌∷◌, ◌==◌, ==_self, if◌then◌else◌, Bool-cases, ap, ◌∙◌, sym, ==_iff, fun_ext,
}
use menano.ServerFsync.Defs.{Slot}
use menano.ServerFsync.Objects.{
  FsyncType, semaphore, auto_event, manual_event, mutex, auto_server, manual_server, queue,
  abandoned_tid,
}
use menano.NtdllFsync.Defs.{Object, Status, wait_0, abandoned_wait_0, timeout}
use menano.NtdllFsync.Wait.{
  World, Caller, immediate, at, tick, Tried, grabbed, grabbed_abandoned, busy, Pass, done,
  abandoned_at, contended, go_on, try_semaphore, try_abandoned, try_mutex, reregister, try_auto,
  try_manual, try_type, try_object, try_all, leave, finish, wait_any, with_apc,
}

-- Whether the thread can take an object whose slot's first int is `low`.
abbrev pub can_take : ℕ → FsyncType → ℕ → Bool
can_take tid mutex low = low == tid || low == 0 || low == abandoned_tid
can_take tid t low = not (low == 0)

-- The position of the first object that can be taken, counted from `base`.
abbrev pub first_free : ℕ → (ℕ → ℕ) → ℕ → List (Option Object) → Option ℕ
first_free tid low base [] = none
first_free tid low base (none ∷ objs) = first_free tid low (suc base) objs
first_free tid low base (some o ∷ objs) =
    if can_take tid o.type (low o.shm_idx) then some base else first_free tid low (suc base) objs

abbrev pub Quiet : Caller → Type 0
Quiet r = (n : ℕ) (f : ℕ → Slot) → r.others n f ≡ f

abbrev lows : World → ℕ → ℕ
lows w j = (at w j).low

abbrev Tells : ℕ → FsyncType → ℕ → World → Option (Tried × World) → Type 0
Tells tid t idx w none = ⊥
Tells tid t idx w (some (grabbed, w')) = can_take tid t (lows w idx) ≡ true
Tells tid t idx w (some (grabbed_abandoned, w')) = can_take tid t (lows w idx) ≡ true
Tells tid t idx w (some (busy v, w')) =
    (can_take tid t (lows w idx) ≡ false) × ((j : ℕ) → lows w' j ≡ lows w j)

module _ (r : Caller) (quiet : Quiet r) where
  pub slots_after_tick : (w : World) (j : ℕ) → at (tick r w) j ≡ at w j
  slots_after_tick w j = ap (λ (f : ℕ → Slot). f j) (quiet w.time w.client.shm.slots)

  low_after_tick : (w : World) (j : ℕ) → (at (tick r w) j).low ≡ (at w j).low
  low_after_tick w j = ap (λ (s : Slot). s.low) (slots_after_tick w j)

  auto-Tells :
      (t : FsyncType) (idx : ℕ) (w : World)
      → ((low : ℕ) → can_take r.current_tid t low ≡ not (low == 0))
      → Tells r.current_tid t idx w (try_auto r idx w)
  unfolding try_auto
  auto-Tells t idx w a = elim (Bool-cases ((at (tick r w) idx).low == 0)) [
    | inl off ↦
        let now : ((at w idx).low == 0) ≡ true = rw (← low_after_tick w idx) off in
        rw off (rw (a, now) refl, low_after_tick w)
    | inr on ↦
        let now : ((at w idx).low == 0) ≡ false = rw (← low_after_tick w idx) on in
        rw on (rw (a, now) refl)
  ]

  manual-Tells :
      (t : FsyncType) (idx : ℕ) (w : World)
      → ((low : ℕ) → can_take r.current_tid t low ≡ not (low == 0))
      → Tells r.current_tid t idx w (try_manual r idx w)
  unfolding try_manual
  manual-Tells t idx w a = elim (Bool-cases ((at (tick r w) idx).low == 0)) [
    | inl off ↦
        let now : ((at w idx).low == 0) ≡ true = rw (← low_after_tick w idx) off in
        rw off (rw (a, now) refl, low_after_tick w)
    | inr on ↦
        let now : ((at w idx).low == 0) ≡ false = rw (← low_after_tick w idx) on in
        rw on (rw (a, now) refl)
  ]

  semaphore-Tells :
      (fuel idx : ℕ) (w : World)
      → Tells r.current_tid semaphore idx w
          (try_semaphore r (suc fuel) idx (at (tick r w) idx).low (tick r w))
  unfolding try_semaphore
  semaphore-Tells fuel idx w = elim (Bool-cases ((at (tick r w) idx).low == 0)) [
    | inl off ↦
        let now : ((at w idx).low == 0) ≡ true = rw (← low_after_tick w idx) off in
        rw (off, try_semaphore) (rw now refl, low_after_tick w)
    | inr on ↦
        let now : ((at w idx).low == 0) ≡ false = rw (← low_after_tick w idx) on in
        let same : ((at (tick r (tick r w)) idx).low == (at (tick r w) idx).low) ≡ true =
          rw (low_after_tick (tick r w) idx, ==_self) refl in
        rw (on, try_semaphore) (rw same (rw now refl))
  ]

  lows-reregister :
      (waited : Bool) (idx : ℕ) (w : World) (j : ℕ) → lows (reregister r waited idx w) j ≡ lows w j
  lows-reregister waited idx w j =
      elim (Bool-cases (r.yield_to_waiters && waited && (at w idx).last_pid == 0)) [
        | inr idle ↦ rw idle
        | inl again ↦ elim (Bool-cases (idx == j)) [
          | inl hit ↦ rw again (rw (hit, lows) (ap (λ i. lows w i) ((==_iff idx j).0 hit)))
          | inr miss ↦ rw again (rw (miss, lows) refl)
        ]
      ]

  mutex-Tells :
      (waited : Bool) (idx : ℕ) (w : World)
      → Tells r.current_tid mutex idx w (try_mutex r waited idx w)
  unfolding try_mutex try_abandoned
  mutex-Tells waited idx w = elim (Bool-cases ((at w idx).low == r.current_tid)) [
    | inl mine ↦ rw mine (rw mine refl)
    | inr other ↦ elim (Bool-cases ((at (tick r w) idx).low == 0)) [
      | inl free ↦
          let now : ((at w idx).low == 0) ≡ true = rw (← low_after_tick w idx) free in
          rw (other, free) (rw (other, now) refl)
      | inr held ↦
          let now : ((at w idx).low == 0) ≡ false = rw (← low_after_tick w idx) held in
          elim (Bool-cases ((at (tick r w) idx).low == abandoned_tid)) [
            | inl dead ↦
                let gone : ((at w idx).low == abandoned_tid) ≡ true =
                  rw (← low_after_tick w idx) dead in
                let still : ((at (tick r (tick r w)) idx).low == abandoned_tid) ≡ true =
                  rw (low_after_tick (tick r w) idx) dead in
                rw (other, held, dead) (rw still (rw (other, now, gone) refl))
            | inr live ↦
                let alive : ((at w idx).low == abandoned_tid) ≡ false =
                  rw (← low_after_tick w idx) live in
                rw (other, held, live)
                  (
                    rw (other, now, alive) refl,
                    λ j. lows-reregister waited idx (tick r w) j ∙ low_after_tick w j,
                  )
          ]
    ]
  ]

  try_type-Tells :
      (fuel : ℕ) (waited : Bool) (t : FsyncType) (idx : ℕ) (w : World)
      → Tells r.current_tid t idx w (try_type r (suc fuel) waited t idx w)
  unfolding try_type
  try_type-Tells fuel waited semaphore idx w = semaphore-Tells fuel idx w
  try_type-Tells fuel waited mutex idx w = mutex-Tells waited idx w
  try_type-Tells fuel waited auto_event idx w = auto-Tells auto_event idx w (λ m. refl)
  try_type-Tells fuel waited auto_server idx w = auto-Tells auto_server idx w (λ m. refl)
  try_type-Tells fuel waited manual_event idx w = manual-Tells manual_event idx w (λ m. refl)
  try_type-Tells fuel waited manual_server idx w = manual-Tells manual_server idx w (λ m. refl)
  try_type-Tells fuel waited queue idx w = manual-Tells queue idx w (λ m. refl)

  -- What a pass over objects tells: the first that can be taken, or that none can.
  abbrev Chooses : ℕ → List (Option Object) → World → Option (Pass × World) → Type 0
  Chooses base objs w none = ⊥
  Chooses base objs w (some (done i, w')) = first_free r.current_tid (lows w) base objs ≡ some i
  Chooses base objs w (some (abandoned_at i, w')) =
      first_free r.current_tid (lows w) base objs ≡ some i
  Chooses base objs w (some (contended l, w')) = first_free r.current_tid (lows w) base objs ≡ none

  go_on-Chooses :
      (base : ℕ) (objs : List (Option Object)) (o : Object) (w v : World) (f : ℕ × ℕ)
      (p : Option (Pass × World))
      → can_take r.current_tid o.type (lows w o.shm_idx) ≡ false
      → ((j : ℕ) → lows v j ≡ lows w j)
      → Chooses (suc base) objs v p
      → Chooses base (some o ∷ objs) w (go_on f p)
  go_on-Chooses base objs o w v f none cannot same s = s
  go_on-Chooses base objs o w v f (some (done i, w')) cannot same s =
      rw cannot (ap (λ g. first_free r.current_tid g (suc base) objs) (sym (fun_ext same)) ∙ s)
  go_on-Chooses base objs o w v f (some (abandoned_at i, w')) cannot same s =
      rw cannot (ap (λ g. first_free r.current_tid g (suc base) objs) (sym (fun_ext same)) ∙ s)
  go_on-Chooses base objs o w v f (some (contended l, w')) cannot same s =
      rw cannot (ap (λ g. first_free r.current_tid g (suc base) objs) (sym (fun_ext same)) ∙ s)

  try_all-Chooses :
      (fuel : ℕ) (waited : Bool) (base : ℕ) (objs : List (Option Object)) (w : World)
      → Chooses base objs w (try_all r (suc fuel) waited base objs w)
  unfolding try_all
  try_all-Chooses fuel waited base [] w = refl
  try_all-Chooses fuel waited base (none ∷ objs) w = try_all-Chooses fuel waited (suc base) objs w
  try_all-Chooses fuel waited base (some o ∷ objs) w =
      by_try (try_object r (suc fuel) waited o w) (try_type-Tells fuel waited o.type o.shm_idx w)
        refl (λ w'. try_all-Chooses fuel waited (suc base) objs w')
    where
      by_try :
          (t : Option (Tried × World))
          → Tells r.current_tid o.type o.shm_idx w t
          → try_object r (suc fuel) waited o w ≡ t
          → ((w' : World)
              → Chooses (suc base) objs w' (try_all r (suc fuel) waited (suc base) objs w'))
          → Chooses base (some o ∷ objs) w (try_all r (suc fuel) waited base (some o ∷ objs) w)
      by_try none s e tail = absurd s
      by_try (some (grabbed, w')) s e tail = rw (e, try_all) (rw s refl)
      by_try (some (grabbed_abandoned, w')) s e tail = rw (e, try_all) (rw s refl)
      by_try (some (busy x, w')) (cannot, same) e tail =
          rw (e, try_all) (go_on-Chooses base objs o w w' (o.shm_idx, x) _ cannot same (tail w'))

  -- The answers of an immediate wait, before the objects are given back.
  abbrev pub Answer : List (Option Object) → World → Status → Type 0
  Answer objs w status = elim (first_free r.current_tid (lows w) 0 objs) [
    | none ↦ status ≡ timeout
    | some i ↦ (status ≡ wait_0 i) ⊎ (status ≡ abandoned_wait_0 i)
  ]

  answer :
      (objs : List (Option Object)) (alertable : Bool) (again : World → Option (Status × World))
      (w : World) (p : Option (Pass × World))
      → Chooses 0 objs w p
      → (status : Status) × (v : World) × (elim p [
        | none ↦ none
        | some (q, w') ↦ finish r objs immediate (with_apc r alertable q) again w'
      ]
          ≡ leave r objs status v)
        × Answer objs w status
  unfolding finish
  answer objs alertable again w none s = absurd s
  answer objs true again w (some (done i, w')) s = (wait_0 i, w', refl, rw (s, Answer) (inl refl))
  answer objs false again w (some (done i, w')) s = (wait_0 i, w', refl, rw (s, Answer) (inl refl))
  answer objs true again w (some (abandoned_at i, w')) s =
      (abandoned_wait_0 i, w', refl, rw (s, Answer) (inr refl))
  answer objs false again w (some (abandoned_at i, w')) s =
      (abandoned_wait_0 i, w', refl, rw (s, Answer) (inr refl))
  answer objs true again w (some (contended l, w')) s = (timeout, w', refl, rw (s, Answer) refl)
  answer objs false again w (some (contended l, w')) s = (timeout, w', refl, rw (s, Answer) refl)

  -- With no other thread at work, and no APC pending for an alertable wait, an immediate wait for any
  -- of some objects comes to give the objects back with one answer: the index of the first object that
  -- the thread can take, marked as abandoned or not, or a timeout if it can take none.
  pub wait_any_immediate :
      (fuel : ℕ) (alertable waited : Bool) (objs : List (Option Object)) (w : World)
      → (alertable && not ((at w r.apc_futex).low == 0)) ≡ false
      → (status : Status) × (v : World) × (wait_any r
            (suc (suc fuel))
            alertable
            immediate
            waited
            objs
            w
          ≡ leave r objs status v)
        × Answer objs w status
  unfolding wait_any
  wait_any_immediate fuel alertable waited objs w unalerted =
      let (status, v, e, a) =
        answer objs alertable (λ w'. wait_any r (suc fuel) alertable immediate true objs w') w
          (try_all r (suc fuel) waited 0 objs w) (try_all-Chooses fuel waited 0 objs w) in
      (status, v, rw (unalerted, wait_any) e, a)
