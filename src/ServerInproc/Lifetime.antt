-- ===== src/ServerInproc/Lifetime.antt =====
-- server/inproc_sync_pro11.c: from the creation of a sync to its end, or to its failure.
use menano.Prelude.{
  ℕ, ◌≡◌, refl, sym, ap, subst, ◌∙◌, inl, inr, Bool, true, false, ◌||◌, Option, some, List, [], ◌∷◌,
  ◌++◌, arith, ◌==◌, if◌then◌else◌, ==_iff, ==_self, Bool-cases, either_branch,
}
use menano.ServerInproc.Syncs.{
  SyncType, InprocSync, Provider, FsyncCalls, Server, Created, list_remove, provided, told,
  with_shm, give_back, inproc_sync_destroy, alloc, finish, create_at, created,
}
use mathlib.Core.Option.{some_inj}

-- What takes descriptors and gives them back keeps a set of those in use: it hands out one that was
-- not, and takes back one that is.
pub record IsAllocator {A : Type 0} (used : A → ℕ → Bool) (take : A → Option ℕ × A)
    (give : ℕ → A → Option A) : Type 0 where
  pub fresh : (a : A) (n : ℕ) → (take a).0 ≡ some n → used a n ≡ false
  pub taken :
      (a : A) (n : ℕ)
      → (take a).0 ≡ some n
      → (j : ℕ) → used (take a).1 j ≡ (if n == j then true else used a j)
  pub given :
      (a : A) (n : ℕ)
      → used a n ≡ true
      → (a' : A) × (give n a ≡ some a')
        × ((j : ℕ) → used a' j ≡ (if n == j then false else used a j))

give-take :
    {A : Type 0} (used : A → ℕ → Bool) (take : A → Option ℕ × A) (give : ℕ → A → Option A)
    → IsAllocator used take give
    → (a : A) (n : ℕ) → (take a).0 ≡ some n
    → (a' : A) × (give n (take a).1 ≡ some a') × ((j : ℕ) → used a' j ≡ used a j)
give-take used take give k a n e =
    let here : used (take a).1 n ≡ true = k.taken a n e n ∙ chosen n in
    let g = k.given (take a).1 n here in
    (
      g.0,
      g.1,
      λ j. elim (Bool-cases (n == j)) [
        | inl y ↦
            let same : n ≡ j = (==_iff n j).0 y in
            g.2 j
            ∙ ap (λ b. if b then false else used (take a).1 j) y
            ∙ sym (k.fresh a n e)
            ∙ ap (used a) same
        | inr y ↦
            g.2 j
            ∙ ap (λ b. if b then false else used (take a).1 j) y
            ∙ k.taken a n e j
            ∙ ap (λ b. if b then true else used a j) y
      ],
    )
  where
    chosen : (m : ℕ) → (if m == m then true else used a m) ≡ true
    chosen m = ap (λ b. if b then true else used a m) (==_self m)

-- The address is that of no sync in the list.
unfoldable pub is_listed : ℕ → List InprocSync → Bool
is_listed a [] = false
is_listed a (m ∷ ms) = (m.address == a) || is_listed a ms

list_remove_absent :
    (m : InprocSync) (ms : List InprocSync) → is_listed m.address ms ≡ false → list_remove m ms ≡ ms
unfolding is_listed list_remove
list_remove_absent m [] h = refl
list_remove_absent m (n ∷ ms) h = ground (arith, list_remove_absent m ms)

list_remove_last :
    (m : InprocSync) (ms : List InprocSync)
    → is_listed m.address ms ≡ false
    → list_remove m (ms ++ m ∷ []) ≡ ms
unfolding is_listed list_remove
list_remove_last m [] h = rw (==_self m.address) refl
list_remove_last m (n ∷ ms) h = ground (arith, list_remove_last m ms)

list_remove_either :
    (m : InprocSync) (ms : List InprocSync) (listed : Bool)
    → is_listed m.address ms ≡ false
    → list_remove m (if listed then ms ++ m ∷ [] else ms) ≡ ms
list_remove_either m ms true h = list_remove_last m ms h
list_remove_either m ms false h = list_remove_absent m ms h

module _ {D S : Type 0} (driver user : Provider D) (calls : FsyncCalls S) (low high : ℕ)
    (f : Provider D → D → Option ℕ × D) where
  -- The descriptor of a new sync, from what the server uses.
  abbrev pub acquired : Server D S → Option ℕ × Server D S
  acquired s =
      if s.do_fsync then alloc driver user calls low high s else provided driver user calls f s

  abbrev listing : Bool → InprocSync → List InprocSync → List InprocSync
  listing listed sync ms = if listed then ms ++ sync ∷ [] else ms

  acquired-mutexes : (s : Server D S) → (acquired s).1.mutexes ≡ s.mutexes
  unfolding alloc
  acquired-mutexes s =
      either_branch {A = Option ℕ × Server D S} (λ r. r.1.mutexes ≡ s.mutexes) s.do_fsync refl
        (either_branch {A = Option ℕ × Server D S} (λ r. r.1.mutexes ≡ s.mutexes) s.ntsync_userspace
          refl refl)

  module _ (used : S → ℕ → Bool) (opened : D → ℕ → Bool) where
    -- What is left when a sync is destroyed right after it was made.
    pub record IsUndone (ms : List InprocSync) (s s' : Server D S) : Type 0 where
      pub do_fsync : s'.do_fsync ≡ s.do_fsync
      pub ntsync_userspace : s'.ntsync_userspace ≡ s.ntsync_userspace
      pub mutexes : s'.mutexes ≡ ms
      pub indices : (j : ℕ) → used s'.shm j ≡ used s.shm j
      pub device : (j : ℕ) → opened s'.device j ≡ opened s.device j
      pub library : (j : ℕ) → opened s'.library j ≡ opened s.library j

    -- What keeps descriptors does so for fsync, the driver and the library.
    pub record AreAllocators : Type 0 where
      pub of_fsync :
          IsAllocator used (calls.fsync_alloc_shm low high) (λ n. calls.fsync_free_shm_idx (some n))
      pub of_driver : IsAllocator opened (f driver) (λ n d. some (driver.close n d))
      pub of_library : IsAllocator opened (f user) (λ n d. some (user.close n d))

    abbrev IsBack : ℕ → List InprocSync → Server D S → Option ℕ × Server D S → Type 0
    IsBack n ms s r =
        r.0 ≡ some n
        → (s' : Server D S) × (give_back driver user calls (some n) (record r.1 { mutexes = ms })
            ≡ some s')
          × IsUndone ms s s'

    alloc-IsBack :
        (n : ℕ) (ms : List InprocSync) (s : Server D S)
        → AreAllocators
        → s.do_fsync ≡ true
        → IsBack n ms s (alloc driver user calls low high s)
    unfolding alloc give_back
    alloc-IsBack n ms s k y e =
        let r = calls.fsync_alloc_shm low high s.shm in
        let g =
          give-take used (calls.fsync_alloc_shm low high) (λ i. calls.fsync_free_shm_idx (some i))
            k.of_fsync s.shm n e in
        let t : Server D S = record s { shm = r.1; mutexes = ms } in
        let x : Option (Server D S) =
          with_shm driver user calls t (calls.fsync_free_shm_idx (some n) r.1) in
        let z : Option (Server D S) = some (told driver user calls (λ p. p.close n) t) in
        (
          record t { shm = g.0 },
          ap (λ b. if b then x else z) y ∙ ap (with_shm driver user calls t) g.1,
          record {
            do_fsync = refl;
            ntsync_userspace = refl;
            mutexes = refl;
            indices = g.2;
            device = λ j. refl;
            library = λ j. refl;
          },
        )

    provided-IsBack :
        (n : ℕ) (ms : List InprocSync) (s : Server D S)
        → AreAllocators
        → s.do_fsync ≡ false
        → IsBack n ms s (provided driver user calls f s)
    unfolding give_back
    provided-IsBack n ms s k y =
        let a = f user s.library in
        let b = f driver s.device in
        let u : Server D S = record s { library = a.1; mutexes = ms } in
        let v : Server D S = record s { device = b.1; mutexes = ms } in
        elim (Bool-cases s.ntsync_userspace) [
          | inl q ↦
              subst
                (λ c. IsBack n ms s (
                  if c
                  then (a.0, record s { library = a.1 })
                  else (b.0, record s { device = b.1 })))
                (sym q)
                (λ e.
                  let g =
                    give-take opened (f user) (λ i d. some (user.close i d)) k.of_library s.library
                      n e in
                  (
                    record u { library = user.close n a.1 },
                    ap
                          (λ (c : Bool).
                            if c
                            then with_shm driver user calls u
                                (calls.fsync_free_shm_idx (some n) u.shm)
                            else some (told driver user calls (λ p. p.close n) u))
                          y
                        ∙ ap
                            (λ (c : Bool). some (
                              if c
                              then record u { library = user.close n u.library }
                              else record u { device = driver.close n u.device }))
                            q,
                    record {
                      do_fsync = refl;
                      ntsync_userspace = refl;
                      mutexes = refl;
                      indices = λ j. refl;
                      device = λ j. refl;
                      library = λ j. ap (λ d. opened d j) (some_inj.0 g.1) ∙ g.2 j;
                    },
                  ))
          | inr q ↦
              subst
                (λ c. IsBack n ms s (
                  if c
                  then (a.0, record s { library = a.1 })
                  else (b.0, record s { device = b.1 })))
                (sym q)
                (λ e.
                  let g =
                    give-take opened (f driver) (λ i d. some (driver.close i d)) k.of_driver
                      s.device n e in
                  (
                    record v { device = driver.close n b.1 },
                    ap
                          (λ (c : Bool).
                            if c
                            then with_shm driver user calls v
                                (calls.fsync_free_shm_idx (some n) v.shm)
                            else some (told driver user calls (λ p. p.close n) v))
                          y
                        ∙ ap
                            (λ (c : Bool). some (
                              if c
                              then record v { library = user.close n v.library }
                              else record v { device = driver.close n v.device }))
                            q,
                    record {
                      do_fsync = refl;
                      ntsync_userspace = refl;
                      mutexes = refl;
                      indices = λ j. refl;
                      device = λ j. ap (λ d. opened d j) (some_inj.0 g.1) ∙ g.2 j;
                      library = λ j. refl;
                    },
                  ))
        ]

    acquired-IsBack :
        (n : ℕ) (ms : List InprocSync) (s : Server D S) → AreAllocators → IsBack n ms s (acquired s)
    acquired-IsBack n ms s k = elim (Bool-cases s.do_fsync) [
      | inl y ↦
          subst
            (λ c.
              IsBack n ms s
                (if c then alloc driver user calls low high s else provided driver user calls f s))
            (sym y) (alloc-IsBack n ms s k y)
      | inr y ↦
          subst
            (λ c.
              IsBack n ms s
                (if c then alloc driver user calls low high s else provided driver user calls f s))
            (sym y) (provided-IsBack n ms s k y)
    ]

  finish_succeeds :
      (o : Option ℕ) (n : ℕ) (m : InprocSync) (t : Server D S)
      → o ≡ some n
      → finish driver user calls o m t ≡ some (created m, t)
  unfolding finish
  finish_succeeds o n m t e = ap (λ q. finish driver user calls q m t) e

  module _ (address : ℕ) (fsync_kind kind : SyncType) (listed : Bool) (s : Server D S) where
    abbrev pub new_sync : InprocSync
    new_sync = record {
      address = address;
      kind = if s.do_fsync then fsync_kind else kind;
      fd = (acquired s).0;
    }

    abbrev pub made : Option (Created × Server D S)
    made = create_at driver user calls (some address) fsync_kind kind low high f listed s

    -- A sync comes and goes without a trace, whichever of fsync, the library and the driver is in
    -- use, if each of them keeps a set of the descriptors in use: when the one in use has a
    -- descriptor left, the creation of a sync of any of the four kinds succeeds with it, and
    -- destroying the sync returns and gives back the list of mutexes and the sets of descriptors in
    -- use, provided that the address of the new object is that of no mutex in the list.
    pub inproc_sync_destroy-create_at :
        (used : S → ℕ → Bool) (opened : D → ℕ → Bool) (n : ℕ)
        → AreAllocators used opened
        → (acquired s).0 ≡ some n
        → is_listed address s.mutexes ≡ false
        → (sync : InprocSync) × (t s' : Server D S) × (made ≡ some (created sync, t))
          × (sync.fd ≡ some n)
          × (inproc_sync_destroy driver user calls sync t ≡ some s')
          × IsUndone used opened s.mutexes s s'
    unfolding create_at inproc_sync_destroy
    inproc_sync_destroy-create_at used opened n k e new =
        let r = acquired s in
        let t : Server D S = record r.1 { mutexes = listing listed new_sync r.1.mutexes } in
        let ms = list_remove new_sync t.mutexes in
        let same = acquired-mutexes s in
        let back : ms ≡ s.mutexes =
          list_remove_either new_sync r.1.mutexes listed (ap (is_listed address) same ∙ new)
          ∙ same in
        let g = acquired-IsBack used opened n ms s k e in
        (
          new_sync,
          t,
          g.0,
          finish_succeeds r.0 n new_sync t e,
          e,
          ap (λ o. give_back driver user calls o (record t { mutexes = ms })) e ∙ g.1,
          record {
            do_fsync = g.2.do_fsync;
            ntsync_userspace = g.2.ntsync_userspace;
            mutexes = g.2.mutexes ∙ back;
            indices = g.2.indices;
            device = g.2.device;
            library = g.2.library;
          },
        )
