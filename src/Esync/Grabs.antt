-- ===== src/Esync/Grabs.antt =====
-- __esync_wait_objects of dlls/ntdll/unix/esync_pro10.c: a wait for all objects that nobody disturbs.
use menano.Prelude.{
  ℕ, suc, ◌-◌, ◌≡◌, refl, ◌⊎◌, inl, inr, Bool, true, false, not, ◌&&◌, ◌||◌, Option, none, some,
  List, [], ◌∷◌, arith, ◌==◌, ==_iff, if◌then◌else◌, Bool-cases, ap, sym, ◌∙◌, subst,
}
use menano.Esync.Defs.{Esync, is_semaphore, read_fd, drain, update_grabbed_object}
use menano.Esync.WaitAll.{
  Store, put, World, Caller, Ended, finished, abandoned, tick, with_store, own, all_polled,
  poll_each, all_readable, is_grabbed, Grab, all_grabbed, grab_one, grab_all, update_all,
  after_polls, after_grab, wait_all,
}
use menano.Esync.Stalls.{AllReady, grab_one-looked, grab_one-read}

abbrev pub among : ℕ → List ℕ → Bool
among j [] = false
among j (i ∷ ids) = i == j || among j ids

abbrev pub NoTwice : List ℕ → Type 0
NoTwice [] = Unit {0}
NoTwice (i ∷ ids) = (among i ids ≡ false) × NoTwice ids

abbrev pub Undisturbed : Caller → Type 0
Undisturbed r = (n : ℕ) (s : Store) → r.others n s ≡ s

-- An object once its descriptor is read, if it is one to read.
abbrev pub grabbed : ℕ → Esync → Esync
grabbed tid o = if is_grabbed tid o then drain o else o

-- An object once the wait has it.
abbrev pub had : ℕ → Esync → Esync
had tid o = (update_grabbed_object tid (grabbed tid o)).1

-- The objects of `ids` are changed by `f`, and no other.
abbrev pub Changed : (Esync → Esync) → List ℕ → Store → Store → Type 0
Changed f ids s s' = (j : ℕ) → s' j ≡ (if among j ids then f (s j) else s j)

Changed-cons :
    (f : Esync → Esync) (i : ℕ) (ids : List ℕ) (s s1 s' : Store)
    → among i ids ≡ false
    → ((j : ℕ) → s1 j ≡ (if i == j then f (s i) else s j))
    → Changed f ids s1 s'
    → Changed f (i ∷ ids) s s'
Changed-cons f i ids s s1 s' once first rest j = elim (Bool-cases (i == j)) [
  | inl hit ↦
      let e : i ≡ j = (==_iff i j).0 hit in
      let gone : among j ids ≡ false = subst (λ k. among k ids ≡ false) e once in
      rest j ∙ rw (gone, hit) (first j ∙ rw hit (ap (λ k. f (s k)) e))
  | inr miss ↦ let same : s1 j ≡ s j = first j ∙ rw miss refl in rest j ∙ rw (same, miss) refl
]

and_left : (a b : Bool) → (a && b) ≡ true → a ≡ true
and_left true b e = refl
and_left false b e = e

and_right : (a b : Bool) → (a && b) ≡ true → b ≡ true
and_right true b e = e
and_right false b e = absurd (ground arith)

not_inverts : (a : Bool) → not a ≡ true → a ≡ false
not_inverts true e = sym e
not_inverts false e = refl

or_left : (a b : Bool) → (a || b) ≡ false → a ≡ false
or_left true b e = e
or_left false b e = refl

or_right : (a b : Bool) → (a || b) ≡ false → b ≡ false
or_right true b e = absurd (ground arith)
or_right false b e = e

read_some : (o : Esync) → (o.counter == 0) ≡ false → read_fd o ≡ some (drain o)
unfolding read_fd
read_some o there =
    let e : read_fd o
        ≡ some (record o { counter = if is_semaphore o.type then o.counter - 1 else 0 }) =
      rw (there, read_fd) refl in
    e ∙ ap (λ x. some x) (sym (ap (λ q. elim q [ none ↦ o | some y ↦ y ]) e))

module _ (r : Caller) (quiet : Undisturbed r) where
  readable_after :
      (i : ℕ) (ids : List ℕ) (s : Store) (o : Esync)
      → among i ids ≡ false
      → all_readable ids s ≡ true
      → all_readable ids (put s i o) ≡ true
  unfolding all_readable
  readable_after i [] s o once a = refl
  readable_after i (j ∷ ids) s o once a =
      let k : (j == i) ≡ false = or_left (j == i) (among i ids) once in
      let n : (i == j) ≡ false = ground (arith, k) in
      let here : not ((s j).counter == 0) ≡ true = and_left _ _ a in
      rw (n, here)
        (readable_after i ids s o (or_right (j == i) (among i ids) once) (and_right _ _ a))

  abbrev next : List ℕ → ℕ → List ℕ → World → Grab
  next before i ids v = grab_one r before i (λ u. grab_all r (i ∷ before) ids u) v

  quiet_tick : (w : World) → tick r w ≡ record { store = w.store; time = suc w.time }
  quiet_tick w = ap (λ (s : Store). record { store = s; time = suc w.time }) (quiet w.time w.store)

  grab_all-Changed :
      (before ids : List ℕ) (w : World)
      → NoTwice ids
      → all_readable ids w.store ≡ true
      → (w' : World) × (grab_all r before ids w ≡ all_grabbed w')
        × Changed (λ o. grabbed r.current_tid o) ids w.store w'.store
  unfolding grab_all all_readable
  grab_all-Changed before [] w once a = (w, refl, λ j. refl)
  grab_all-Changed before (i ∷ ids) w (here, once) a =
      elim (Bool-cases (is_grabbed r.current_tid (w.store i))) [
        | inr looked_at ↦
            let w1 : World = record { store = w.store; time = suc w.time } in
            let (w', e, ch) = grab_all-Changed (i ∷ before) ids w1 once (and_right _ _ a) in
            (
              w',
              ap (next before i ids) (quiet_tick w) ∙ grab_one-looked r before i _ w1 looked_at ∙ e,
              Changed-cons (λ o. grabbed r.current_tid o) i ids w.store w.store w'.store here
                  (same looked_at) ch,
            )
        | inl to_read ↦
            let o = drain (w.store i) in
            let w1 : World = record { store = w.store; time = suc w.time } in
            let there : ((w.store i).counter == 0) ≡ false = not_inverts _ (and_left _ _ a) in
            let (w', e, ch) =
              grab_all-Changed (i ∷ before) ids (with_store w1 (put w.store i o)) once
                (readable_after i ids w.store o here (and_right _ _ a)) in
            (
              w',
              ap (next before i ids) (quiet_tick w)
                  ∙ grab_one-read r before i _ w1 o to_read (read_some (w.store i) there)
                  ∙ e,
              Changed-cons (λ o. grabbed r.current_tid o) i ids w.store (put w.store i o) w'.store
                  here (λ j. rw to_read refl) ch,
            )
      ]
    where
      same :
          is_grabbed r.current_tid (w.store i) ≡ false
          → (j : ℕ) → w.store j ≡ (if i == j then grabbed r.current_tid (w.store i) else w.store j)
      same looked_at j = elim (Bool-cases (i == j)) [
        | inl hit ↦ rw (looked_at, hit) (ap (λ k. w.store k) (sym ((==_iff i j).0 hit)))
        | inr miss ↦ rw miss refl
      ]

  update_all-Changed :
      (ids : List ℕ) (s : Store)
      → NoTwice ids
      → Changed
          (λ o. (update_grabbed_object r.current_tid o).1)
          ids
          s
          (update_all r.current_tid ids s).1
  unfolding update_all
  update_all-Changed [] s once = λ j. refl
  update_all-Changed (i ∷ ids) s (here, once) =
      let u = update_grabbed_object r.current_tid (s i) in
      Changed-cons (λ o. (update_grabbed_object r.current_tid o).1) i ids s (put s i u.1)
        (update_all r.current_tid ids (put s i u.1)).1 here (λ j. refl)
        (update_all-Changed ids (put s i u.1) once)

  poll_each-ready :
      AllReady r
      → (ids : List ℕ) (w : World)
      → (w' : World) × (poll_each r ids w ≡ all_polled w') × (w'.store ≡ w.store)
  unfolding poll_each
  poll_each-ready polls [] w = (w, refl, refl)
  poll_each-ready polls (i ∷ ids) w = elim (Bool-cases (own r.current_tid (w.store i))) [
    | inl mine ↦ let (w', e, s) = poll_each-ready polls ids w in (w', rw (mine, poll_each) e, s)
    | inr other ↦
        let (w', e, s) = poll_each-ready polls ids (tick r w) in
        (w', rw (other, polls i w.time, poll_each) e, s ∙ quiet w.time w.store)
  ]

  Changed-Changed :
      (f g : Esync → Esync) (ids : List ℕ) (s s1 s' : Store)
      → Changed f ids s s1
      → Changed g ids s1 s'
      → Changed (λ o. g (f o)) ids s s'
  Changed-Changed f g ids s s1 s' a b j = elim (Bool-cases (among j ids)) [
    | inl hit ↦ let e : s1 j ≡ f (s j) = a j ∙ rw hit refl in b j ∙ rw hit (ap g e)
    | inr miss ↦ let e : s1 j ≡ s j = a j ∙ rw miss refl in b j ∙ rw miss e
  ]

  -- What the tight loop leads to once it has everything.
  grabbed_end :
      (ids : List ℕ) (w w' : World) (again : World → Option (Ended × World))
      → NoTwice ids
      → Changed (λ o. grabbed r.current_tid o) ids w.store w'.store
      → (e : Ended) × (w2 : World) × (after_grab r ids (all_grabbed w') again ≡ some (e, w2))
        × ((e ≡ finished) ⊎ (e ≡ abandoned))
        × Changed (λ o. had r.current_tid o) ids w.store w2.store
  unfolding after_grab
  grabbed_end ids w w' again once ch =
      let u = update_all r.current_tid ids w'.store in
      (
        if u.0 then abandoned else finished,
        with_store w' u.1,
        refl,
        one_of u.0,
        Changed-Changed (λ o. grabbed r.current_tid o)
            (λ o. (update_grabbed_object r.current_tid o).1) ids w.store w'.store u.1 ch
            (update_all-Changed ids w'.store once),
      )
    where
      one_of :
          (b : Bool)
          → ((if b then abandoned else finished) ≡ finished)
            ⊎ ((if b then abandoned else finished) ≡ abandoned)
      one_of true = inr refl
      one_of false = inl refl

  -- A wait for all of several objects that are readable, none of them twice, ends in the first round if
  -- no other thread disturbs it: it has grabbed each of the objects, and no other object changes.
  pub wait_all-Changed :
      AllReady r
      → (fuel : ℕ) (ids : List ℕ) (w : World) → NoTwice ids
      → all_readable ids w.store ≡ true
      → (e : Ended) × (w' : World) × (wait_all r (suc fuel) ids w ≡ some (e, w'))
        × ((e ≡ finished) ⊎ (e ≡ abandoned))
        × Changed (λ o. had r.current_tid o) ids w.store w'.store
  unfolding wait_all after_polls
  wait_all-Changed polls fuel ids w once a =
      let (w1, e1, s1) = poll_each-ready polls ids w in
      let again = λ (v : World). wait_all r fuel ids v in
      let same : (tick r w1).store ≡ w.store = quiet w1.time w1.store ∙ s1 in
      let readable : all_readable ids (tick r w1).store ≡ true = rw same a in
      let (w2, e2, ch) = grab_all-Changed [] ids (tick r w1) once readable in
      let (e, w', e3, kind, ch') =
        grabbed_end ids w w2 again once
          (subst (λ (s : Store). Changed (λ o. grabbed r.current_tid o) ids s w2.store) same ch) in
      (
        e,
        w',
        ap (λ p. after_polls r ids p again) e1
            ∙ polled w1 again readable
            ∙ ap (λ g. after_grab r ids g again) e2
            ∙ e3,
        kind,
        ch',
      )
    where
      polled :
          (w1 : World) (again : World → Option (Ended × World))
          → all_readable ids (tick r w1).store ≡ true
          → after_polls r ids (all_polled w1) again
            ≡ after_grab r ids (grab_all r [] ids (tick r w1)) again
      polled w1 again readable = rw (readable, after_polls) refl
