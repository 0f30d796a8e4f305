-- ===== src/NtdllFsync/PutBack.antt =====
-- put_objects of dlls/ntdll/unix/fsync_pro10.c: a wait gives back the references that it took.
use menano.Prelude.{
  ℕ, ◌+◌, ◌-◌, ◌%◌, ◌^◌, ◌<◌, ◌≡◌, refl, inl, inr, Bool, false, Option, none, some, List, [], ◌∷◌,
  arith, ◌==◌, ==_iff, ==_self, if◌then◌else◌, ap, Bool-cases, ◌∙◌,
}
use menano.NtdllFsync.Defs.{
  Client, Object, slot, with_slot, with_ref, put_object, put_object_from_wait,
}
use menano.NtdllFsync.Wait.{World, Caller, put_objects}

-- How many of the objects are the one at the index `j`.
abbrev pub occurrences : ℕ → List (Option Object) → ℕ
occurrences j [] = 0
occurrences j (none ∷ objs) = occurrences j objs
occurrences j (some o ∷ objs) = (if o.shm_idx == j then 1 else 0) + occurrences j objs

-- The wait's references to its objects are not the last ones.
abbrev pub Held : List (Option Object) → Client → Type 0
Held objs c =
    (j : ℕ)
    → 0 < occurrences j objs
    → (occurrences j objs < (slot c j).ref) × ((slot c j).ref < 2 ^ 32)

-- `c'` is `c` with `given j` references less to each index; the two ints of a slot are the same.
abbrev pub Returned : (ℕ → ℕ) → Client → Client → Type 0
Returned given c c' =
    (j : ℕ)
    → ((slot c' j).ref ≡ (slot c j).ref - given j)
      × ((slot c' j).low ≡ (slot c j).low)
      × ((slot c' j).high ≡ (slot c j).high)

put_object-Returned :
    (idx : ℕ) (c : Client)
    → 1 < (slot c idx).ref
    → (slot c idx).ref < 2 ^ 32
    → (c' : Client) × (put_object idx c ≡ some (tt, c'))
      × Returned (λ j. if idx == j then 1 else 0) c c'
unfolding put_object
put_object-Returned idx c many small =
    let shared : ((slot c idx).ref == 1) ≡ false = ground arith in
    let less : ((slot c idx).ref + 2 ^ 32 - 1) % 2 ^ 32 ≡ (slot c idx).ref - 1 = omega arith in
    (with_ref c idx ((slot c idx).ref - 1), rw shared (rw less refl), returned)
  where
    returned : Returned (λ j. if idx == j then 1 else 0) c (with_ref c idx ((slot c idx).ref - 1))
    returned j = elim (Bool-cases (idx == j)) [
      | inl hit ↦
          let e : idx ≡ j = (==_iff idx j).0 hit in
          (
            rw hit (rw e refl),
            rw hit (ap (λ i. (slot c i).low) e),
            rw hit (ap (λ i. (slot c i).high) e),
          )
      | inr miss ↦ (rw miss (omega arith), rw miss refl, rw miss refl)
    ]

module _ (pid idx : ℕ) (c : Client) where
  abbrev unmarked : Client
  unmarked = with_slot c idx (record (slot c idx) { last_pid = 0 })

  unmarked-Returned : Returned (λ j. 0) c unmarked
  unmarked-Returned j = elim (Bool-cases (idx == j)) [
    | inl hit ↦
        let e : idx ≡ j = (==_iff idx j).0 hit in
        (
          rw hit (let f = ap (λ i. (slot c i).ref) e in omega arith),
          rw hit (ap (λ i. (slot c i).low) e),
          rw hit (ap (λ i. (slot c i).high) e),
        )
    | inr miss ↦ (rw miss (omega arith), rw miss refl, rw miss refl)
  ]

  put_one :
      1 < (slot c idx).ref
      → (slot c idx).ref < 2 ^ 32
      → (c' : Client) × (put_object_from_wait pid idx c ≡ some (tt, c'))
        × Returned (λ j. if idx == j then 1 else 0) c c'
  unfolding put_object_from_wait
  put_one many small = elim (Bool-cases ((slot c idx).last_pid == pid)) [
    | inl mine ↦
        let same : (slot unmarked idx).ref ≡ (slot c idx).ref = rw (==_self idx) refl in
        let (c', e, f) = put_object-Returned idx unmarked (omega arith) (omega arith) in
        (
          c',
          rw mine e,
          λ j.
              let (a0, a1, a2) = f j in
              let (b0, b1, b2) = unmarked-Returned j in (omega arith, a1 ∙ b1, a2 ∙ b2),
        )
    | inr other ↦ let (c', e, f) = put_object-Returned idx c many small in (c', rw other e, f)
  ]

abbrev one_if : Bool → ℕ
one_if b = if b then 1 else 0

itself : (i : ℕ) → one_if (i == i) ≡ 1
itself i = rw (==_self i) refl

-- If the references of a wait to its objects are not the last ones, giving the objects back succeeds,
-- takes exactly those references, changes neither int of any slot, and frees no index.
pub put_objects-Returned :
    (r : Caller) (objs : List (Option Object)) (w : World)
    → Held objs w.client
    → (w' : World) × (put_objects r objs w ≡ some (tt, w'))
      × Returned (λ j. occurrences j objs) w.client w'.client
      × (w'.time ≡ w.time)
unfolding put_objects
put_objects-Returned r [] w a = (w, refl, λ j. (omega arith, refl, refl), refl)
put_objects-Returned r (none ∷ objs) w a = put_objects-Returned r objs w a
put_objects-Returned r (some o ∷ objs) w a =
    let (many, small) = a o.shm_idx (omega (arith, itself o.shm_idx)) in
    let (c', e, f) =
      put_one r.current_pid o.shm_idx w.client (omega (arith, itself o.shm_idx)) small in
    let (w', e', f', t) = put_objects-Returned r objs (record w { client = c' }) (still c' f) in
    (
      w',
      rw (e, put_objects) e',
      λ j.
          let (a0, a1, a2) = f j in
          let (b0, b1, b2) = f' j in
          (b0 ∙ ap (λ n. n - occurrences j objs) a0 ∙ omega arith, b1 ∙ a1, b2 ∙ a2),
      t,
    )
  where
    still :
        (c' : Client) → Returned (λ j. if o.shm_idx == j then 1 else 0) w.client c' → Held objs c'
    still c' f j n =
        let all : 0 < (if o.shm_idx == j then 1 else 0) + occurrences j objs = omega arith in
        let (many, small) = a j all in let less = (f j).0 in (omega arith, omega arith)
