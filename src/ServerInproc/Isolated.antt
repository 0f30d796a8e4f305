-- ===== src/ServerInproc/Isolated.antt =====
-- server/inproc_sync_pro11.c: every operation goes to the provider that the server has chosen.
use menano.Prelude.{
  ℕ, ◌≡◌, refl, sym, ap₂, subst, ◌∙◌, inl, inr, Bool, true, false, ◌&&◌, ◌||◌, Option, none, some,
  List, [], ◌∷◌, arith, if◌then◌else◌, Bool-cases,
}
use menano.ServerInproc.Syncs.{
  InprocSync, Provider, FsyncCalls, Server, Created, list_remove, provided, told, with_shm,
  give_back, inproc_sync_destroy, create_inproc_internal_sync, create_inproc_event_sync,
  create_inproc_mutex_sync, create_inproc_semaphore_sync, on_shm, signal_inproc_sync,
  reset_inproc_sync, abandon_one, abandon_each, abandon_inproc_mutexes, Found, get_inproc_sync_fd,
}

-- The operations of the file, on what the rest of the server hands to them.
pub data InprocOp : Type 0 where
  creates_internal creates_event : Option ℕ → Bool → Bool → InprocOp
  creates_mutex creates_semaphore : Option ℕ → ℕ → ℕ → InprocOp
  signals resets : ℕ → InprocOp
  destroys : InprocSync → InprocOp
  abandons : ℕ → InprocOp
  asks_fd : Found → InprocOp

module _ {D S : Type 0} (driver user : Provider D) (calls : FsyncCalls S) where
  abbrev pub server_of : Server D S → Option (Created × Server D S) → Server D S
  server_of s none = s
  server_of s (some (c, t)) = t

  abbrev pub or_same : Server D S → Option (Server D S) → Server D S
  or_same s none = s
  or_same s (some t) = t

  -- A failed assert ends the server: the state stays as it was.
  unfoldable pub run_op : InprocOp → Server D S → Server D S
  unfolding create_inproc_internal_sync create_inproc_event_sync create_inproc_mutex_sync
      create_inproc_semaphore_sync signal_inproc_sync reset_inproc_sync inproc_sync_destroy
      abandon_inproc_mutexes get_inproc_sync_fd
  run_op (creates_internal m a b) s =
      server_of s (create_inproc_internal_sync driver user calls m a b s)
  run_op (creates_event m a b) s = server_of s (create_inproc_event_sync driver user calls m a b s)
  run_op (creates_mutex m a b) s = server_of s (create_inproc_mutex_sync driver user calls m a b s)
  run_op (creates_semaphore m a b) s =
      server_of s (create_inproc_semaphore_sync driver user calls m a b s)
  run_op (signals fd) s = signal_inproc_sync driver user calls fd s
  run_op (resets fd) s = reset_inproc_sync driver user calls fd s
  run_op (destroys m) s = or_same s (inproc_sync_destroy driver user calls m s)
  run_op (abandons tid) s = abandon_inproc_mutexes driver user calls tid s
  run_op (asks_fd o) s = (get_inproc_sync_fd calls o s).1

  unfoldable pub run_ops : List InprocOp → Server D S → Server D S
  unfolding run_op
  run_ops [] s = s
  run_ops (o ∷ os) s = run_ops os (run_op o s)

  -- The two flags stay, and only the state of the chosen provider may change.
  pub record IsIsolated (s s' : Server D S) : Type 0 where
    pub do_fsync : s'.do_fsync ≡ s.do_fsync
    pub ntsync_userspace : s'.ntsync_userspace ≡ s.ntsync_userspace
    pub shm : s.do_fsync ≡ false → s'.shm ≡ s.shm
    pub device : (s.do_fsync || s.ntsync_userspace) ≡ true → s'.device ≡ s.device
    pub library : s.ntsync_userspace ≡ false → s'.library ≡ s.library

  abbrev pub IsExclusive : Server D S → Type 0
  IsExclusive s = (s.do_fsync && s.ntsync_userspace) ≡ false

  pub IsIsolated-refl : (s : Server D S) → IsIsolated s s
  IsIsolated-refl s = record {
    do_fsync = refl;
    ntsync_userspace = refl;
    shm = λ e. refl;
    device = λ e. refl;
    library = λ e. refl;
  }

  pub IsIsolated-trans : (s t u : Server D S) → IsIsolated s t → IsIsolated t u → IsIsolated s u
  IsIsolated-trans s t u a b = record {
    do_fsync = b.do_fsync ∙ a.do_fsync;
    ntsync_userspace = b.ntsync_userspace ∙ a.ntsync_userspace;
    shm = λ e. b.shm (a.do_fsync ∙ e) ∙ a.shm e;
    device = λ e. b.device (ap₂ ◌||◌ a.do_fsync a.ntsync_userspace ∙ e) ∙ a.device e;
    library = λ e. b.library (a.ntsync_userspace ∙ e) ∙ a.library e;
  }

  -- A change of the shared memory in fsync mode, and of a provider's state in the other.
  pub on_shm-IsIsolated :
      (shm : S) (s : Server D S)
      → s.do_fsync ≡ true
      → IsExclusive s
      → IsIsolated s (record s { shm = shm })
  on_shm-IsIsolated shm s h x = record {
    do_fsync = refl;
    ntsync_userspace = refl;
    shm = λ e. absurd cc;
    device = λ e. refl;
    library = λ e. refl;
  }

  told-IsIsolated :
      (f : Provider D → D → D) (s : Server D S)
      → s.do_fsync ≡ false
      → IsIsolated s (told driver user calls f s)
  told-IsIsolated f s h = record {
    do_fsync = ground arith;
    ntsync_userspace = ground arith;
    shm = λ e. ground arith;
    device = λ e. ground arith;
    library = λ e. ground arith;
  }

  pub provided-IsIsolated :
      {A : Type 0} (f : Provider D → D → A × D) (s : Server D S)
      → s.do_fsync ≡ false
      → IsIsolated s (provided driver user calls f s).1
  provided-IsIsolated f s h = record {
    do_fsync = ground arith;
    ntsync_userspace = ground arith;
    shm = λ e. ground arith;
    device = λ e. ground arith;
    library = λ e. ground arith;
  }

  pub listed-IsIsolated :
      (ms : List InprocSync) (s t : Server D S)
      → IsIsolated s t
      → IsIsolated s (record t { mutexes = ms })
  listed-IsIsolated ms s t h = record {
    do_fsync = h.do_fsync;
    ntsync_userspace = h.ntsync_userspace;
    shm = h.shm;
    device = h.device;
    library = h.library;
  }

  abbrev pub Iso : Server D S → Option (Server D S) → Type 0
  Iso s o = IsIsolated s (or_same s o)

  with_shm-Iso :
      (s t : Server D S) (o : Option S)
      → IsIsolated s t
      → t.do_fsync ≡ true
      → IsExclusive t
      → Iso s (with_shm driver user calls t o)
  with_shm-Iso s t none h e x = IsIsolated-refl s
  with_shm-Iso s t (some shm) h e x =
      IsIsolated-trans s t (record t { shm = shm }) h (on_shm-IsIsolated shm t e x)

  give_back-Iso :
      (fd : Option ℕ) (s t : Server D S)
      → IsIsolated s t
      → IsExclusive t
      → Iso s (give_back driver user calls fd t)
  unfolding give_back
  give_back-Iso none s t h x = elim (Bool-cases t.do_fsync) [
    | inl y ↦
        subst
          (λ b. Iso s (
            if b
            then with_shm driver user calls t (calls.fsync_free_shm_idx none t.shm)
            else some t))
          (sym y) (with_shm-Iso s t (calls.fsync_free_shm_idx none t.shm) h y x)
    | inr n ↦
        subst
          (λ b. Iso s (
            if b
            then with_shm driver user calls t (calls.fsync_free_shm_idx none t.shm)
            else some t))
          (sym n) h
  ]
  give_back-Iso (some fd) s t h x =
      let z : Server D S = told driver user calls (λ p. p.close fd) t in
      elim (Bool-cases t.do_fsync) [
        | inl y ↦
            subst
              (λ b. Iso s (
                if b
                then with_shm driver user calls t (calls.fsync_free_shm_idx (some fd) t.shm)
                else some z))
              (sym y) (with_shm-Iso s t (calls.fsync_free_shm_idx (some fd) t.shm) h y x)
        | inr n ↦
            subst
              (λ b. Iso s (
                if b
                then with_shm driver user calls t (calls.fsync_free_shm_idx (some fd) t.shm)
                else some z))
              (sym n) (IsIsolated-trans s t z h (told-IsIsolated (λ p. p.close fd) t n))
      ]

  pub inproc_sync_destroy-Iso :
      (m : InprocSync) (s t : Server D S)
      → IsIsolated s t
      → IsExclusive t
      → Iso s (inproc_sync_destroy driver user calls m t)
  unfolding inproc_sync_destroy
  inproc_sync_destroy-Iso m s t h x =
      give_back-Iso m.fd s (record t { mutexes = list_remove m t.mutexes })
        (listed-IsIsolated (list_remove m t.mutexes) s t h) x

  -- A call of fsync or of the provider, as the mode has it.
  mode-IsIsolated :
      (f : S → S) (g : Provider D → D → D) (s : Server D S)
      → IsExclusive s
      → IsIsolated s
          (if s.do_fsync then on_shm driver user calls f s else told driver user calls g s)
  mode-IsIsolated f g s x = elim (Bool-cases s.do_fsync) [
    | inl y ↦
        subst
          (λ b.
            IsIsolated s (if b then on_shm driver user calls f s else told driver user calls g s))
          (sym y) (on_shm-IsIsolated (f s.shm) s y x)
    | inr n ↦
        subst
          (λ b.
            IsIsolated s (if b then on_shm driver user calls f s else told driver user calls g s))
          (sym n) (told-IsIsolated g s n)
  ]

  pub user_first-IsIsolated :
      (f : S → S) (g : Provider D → D → D) (s : Server D S)
      → IsExclusive s
      → IsIsolated s (
          if s.ntsync_userspace
          then told driver user calls g s
          else (if s.do_fsync then on_shm driver user calls f s else told driver user calls g s))
  user_first-IsIsolated f g s x =
      let z : Server D S =
        if s.do_fsync then on_shm driver user calls f s else told driver user calls g s in
      elim (Bool-cases s.ntsync_userspace) [
        | inl y ↦
            let n : s.do_fsync ≡ false = ground arith in
            subst (λ b. IsIsolated s (if b then told driver user calls g s else z)) (sym y)
              (told-IsIsolated g s n)
        | inr n ↦
            subst (λ b. IsIsolated s (if b then told driver user calls g s else z)) (sym n)
              (mode-IsIsolated f g s x)
      ]

  pub IsExclusive-of : (s t : Server D S) → IsIsolated s t → IsExclusive s → IsExclusive t
  IsExclusive-of s t h x = ap₂ ◌&&◌ h.do_fsync h.ntsync_userspace ∙ x

  pub abandon_each-IsIsolated :
      (tid : ℕ) (ms : List InprocSync) (s : Server D S)
      → IsExclusive s
      → IsIsolated s (abandon_each driver user calls tid ms s)
  unfolding abandon_each
  abandon_each-IsIsolated tid [] s x = IsIsolated-refl s
  abandon_each-IsIsolated tid (m ∷ ms) s x =
      let t : Server D S = abandon_one driver user calls tid m.fd s in
      let h : IsIsolated s t = one m.fd in
      IsIsolated-trans s t (abandon_each driver user calls tid ms t) h
        (abandon_each-IsIsolated tid ms t (IsExclusive-of s t h x))
    where
      one : (fd : Option ℕ) → IsIsolated s (abandon_one driver user calls tid fd s)
      one none = IsIsolated-refl s
      one (some fd) =
          mode-IsIsolated (calls.fsync_abandon_mutex fd tid) (λ p. p.mutex_kill fd tid) s x
