-- ===== src/ServerInproc/Operations.antt =====
-- server/inproc_sync_pro11.c: creating a sync, and any sequence of operations.
use menano.Prelude.{
  ℕ, ◌≡◌, refl, sym, ap₂, subst, ◌∙◌, inl, inr, Bool, true, false, ◌&&◌, Option, none, some, List,
  [], ◌∷◌, ◌++◌, if◌then◌else◌, Bool-cases, either_branch,
}
use menano.ServerInproc.Device.{
  Device, Choice, is_userspace, is_fsync, IsDecided, undecided, unavailable, userspace,
  used_by_fsync, kernel,
}
use menano.ServerInproc.Syncs.{
  SyncType, InprocSync, Provider, FsyncCalls, Server, Created, deadbeef, bit_of, provided,
  inproc_sync_destroy, alloc, released, finish, create_at, create_inproc_internal_sync,
  create_inproc_event_sync, create_inproc_mutex_sync, create_inproc_semaphore_sync,
  signal_inproc_sync, reset_inproc_sync, abandon_inproc_mutexes, Found, FdReply,
  get_obj_inproc_sync, reply_for, get_inproc_sync_fd, inproc_sync_internal, inproc_sync_event,
  inproc_sync_mutex, inproc_sync_semaphore, fsync_manual_server, fsync_auto_server,
  fsync_manual_event, fsync_auto_event, fsync_mutex, fsync_semaphore, ntsync_handle, fsync_shm_idx,
  client_fd,
}
use menano.ServerInproc.Isolated.{
  InprocOp, server_of, or_same, run_op, run_ops, IsIsolated, IsExclusive, IsIsolated-refl,
  IsIsolated-trans, on_shm-IsIsolated, provided-IsIsolated, listed-IsIsolated,
  inproc_sync_destroy-Iso, user_first-IsIsolated, IsExclusive-of, abandon_each-IsIsolated,
  creates_internal, creates_event, creates_mutex, creates_semaphore, signals, resets, destroys,
  abandons, asks_fd,
}

module _ {D S : Type 0} (driver user : Provider D) (calls : FsyncCalls S) where
  abbrev After : Server D S → Option (Created × Server D S) → Type 0
  After s o = IsIsolated driver user calls s (server_of driver user calls s o)

  released-After :
      (s : Server D S) (o : Option (Server D S))
      → IsIsolated driver user calls s (or_same driver user calls s o)
      → After s (released driver user calls o)
  released-After s none h = h
  released-After s (some t) h = h

  finish-After :
      (fd : Option ℕ) (m : InprocSync) (s t : Server D S)
      → IsIsolated driver user calls s t
      → IsExclusive driver user calls t
      → After s (finish driver user calls fd m t)
  unfolding finish
  finish-After none m s t h x =
      released-After s (inproc_sync_destroy driver user calls m t)
        (inproc_sync_destroy-Iso driver user calls m s t h x)
  finish-After (some fd) m s t h x = h

  made-IsIsolated :
      (low high : ℕ) (f : Provider D → D → Option ℕ × D) (s : Server D S)
      → IsExclusive driver user calls s
      → IsIsolated driver user calls s
          (if s.do_fsync
            then alloc driver user calls low high s
            else provided driver user calls f s).1
  unfolding alloc
  made-IsIsolated low high f s x =
      let a : Option ℕ × Server D S = alloc driver user calls low high s in
      let p : Option ℕ × Server D S = provided driver user calls f s in
      elim (Bool-cases s.do_fsync) [
        | inl y ↦
            subst (λ b. IsIsolated driver user calls s (if b then a else p).1) (sym y)
              (on_shm-IsIsolated driver user calls (calls.fsync_alloc_shm low high s.shm).1 s y x)
        | inr n ↦
            subst (λ b. IsIsolated driver user calls s (if b then a else p).1) (sym n)
              (provided-IsIsolated driver user calls f s n)
      ]

  create_at-After :
      (o : Option ℕ) (fsync_kind kind : SyncType) (low high : ℕ) (f : Provider D → D → Option ℕ × D)
      (listed : Bool) (s : Server D S)
      → IsExclusive driver user calls s
      → After s (create_at driver user calls o fsync_kind kind low high f listed s)
  unfolding create_at
  create_at-After none fk k low high f listed s x = IsIsolated-refl driver user calls s
  create_at-After (some address) fk k low high f listed s x =
      let r : Option ℕ × Server D S =
        if s.do_fsync then alloc driver user calls low high s else provided driver user calls f s in
      let sync : InprocSync = record {
        address = address;
        kind = if s.do_fsync then fk else k;
        fd = r.0;
      } in
      let ms : List InprocSync = if listed then r.1.mutexes ++ sync ∷ [] else r.1.mutexes in
      let h : IsIsolated driver user calls s (record r.1 { mutexes = ms }) =
        listed-IsIsolated driver user calls ms s r.1 (made-IsIsolated low high f s x) in
      finish-After r.0 sync s (record r.1 { mutexes = ms }) h
        (IsExclusive-of driver user calls s (record r.1 { mutexes = ms }) h x)

  get_inproc_sync_fd-IsIsolated :
      (o : Found) (s : Server D S)
      → IsExclusive driver user calls s
      → IsIsolated driver user calls s (get_inproc_sync_fd calls o s).1
  unfolding get_inproc_sync_fd
  get_inproc_sync_fd-IsIsolated o s x = replied (get_obj_inproc_sync o)
    where
      replied : (r : Option (SyncType × ℕ)) → IsIsolated driver user calls s (reply_for calls r s).1
      replied none = IsIsolated-refl driver user calls s
      replied (some (kind, fd)) =
          let g = calls.fsync_grab_shm_idx fd s.shm in
          let a : FdReply × Server D S = (fsync_shm_idx kind g.0, record s { shm = g.1 }) in
          let b : FdReply × Server D S = (client_fd kind fd, s) in
          elim (Bool-cases s.do_fsync) [
            | inl y ↦
                either_branch {A = FdReply × Server D S} (λ q. IsIsolated driver user calls s q.1)
                  s.ntsync_userspace {x = (ntsync_handle kind fd, s)}
                  {y = if s.do_fsync then a else b} (IsIsolated-refl driver user calls s)
                  (subst (λ c. IsIsolated driver user calls s (if c then a else b).1) (sym y)
                    (on_shm-IsIsolated driver user calls g.1 s y x))
            | inr n ↦
                either_branch {A = FdReply × Server D S} (λ q. IsIsolated driver user calls s q.1)
                  s.ntsync_userspace {x = (ntsync_handle kind fd, s)}
                  {y = if s.do_fsync then a else b} (IsIsolated-refl driver user calls s)
                  (subst (λ c. IsIsolated driver user calls s (if c then a else b).1) (sym n)
                    (IsIsolated-refl driver user calls s))
          ]

  run_op-IsIsolated :
      (o : InprocOp) (s : Server D S)
      → IsExclusive driver user calls s
      → IsIsolated driver user calls s (run_op driver user calls o s)
  unfolding run_op create_inproc_internal_sync create_inproc_event_sync create_inproc_mutex_sync
      create_inproc_semaphore_sync signal_inproc_sync reset_inproc_sync abandon_inproc_mutexes
  run_op-IsIsolated (creates_internal m a b) s x =
      create_at-After m (if a then fsync_manual_server else fsync_auto_server) inproc_sync_internal
        (bit_of b) deadbeef (λ p. p.create_event a b) false s x
  run_op-IsIsolated (creates_event m a b) s x =
      create_at-After m (if a then fsync_manual_event else fsync_auto_event) inproc_sync_event
        (bit_of b) deadbeef (λ p. p.create_event a b) false s x
  run_op-IsIsolated (creates_mutex m a b) s x =
      create_at-After m fsync_mutex inproc_sync_mutex a b (λ p. p.create_mutex a b) true s x
  run_op-IsIsolated (creates_semaphore m a b) s x =
      create_at-After m fsync_semaphore inproc_sync_semaphore a b (λ p. p.create_sem a b) false s x
  run_op-IsIsolated (signals fd) s x =
      user_first-IsIsolated driver user calls (calls.fsync_set_event fd) (λ p. p.event_set fd) s x
  run_op-IsIsolated (resets fd) s x =
      user_first-IsIsolated driver user calls (calls.fsync_reset_event fd) (λ p. p.event_reset fd) s
        x
  run_op-IsIsolated (destroys m) s x =
      inproc_sync_destroy-Iso driver user calls m s s (IsIsolated-refl driver user calls s) x
  run_op-IsIsolated (abandons tid) s x = abandon_each-IsIsolated driver user calls tid s.mutexes s x
  run_op-IsIsolated (asks_fd o) s x = get_inproc_sync_fd-IsIsolated o s x

  run_ops-IsIsolated_exclusive :
      (os : List InprocOp) (s : Server D S)
      → IsExclusive driver user calls s
      → IsIsolated driver user calls s (run_ops driver user calls os s)
  unfolding run_ops
  run_ops-IsIsolated_exclusive [] s x = IsIsolated-refl driver user calls s
  run_ops-IsIsolated_exclusive (o ∷ os) s x =
      let t : Server D S = run_op driver user calls o s in
      let h = run_op-IsIsolated o s x in
      IsIsolated-trans driver user calls s t (run_ops driver user calls os t) h
        (run_ops-IsIsolated_exclusive os t (IsExclusive-of driver user calls s t h x))

  IsDecided-IsExclusive :
      (c : Choice) (s : Server D S)
      → IsDecided c
      → s.do_fsync ≡ c.do_fsync
      → s.ntsync_userspace ≡ c.ntsync_userspace
      → IsExclusive driver user calls s
  IsDecided-IsExclusive c s d e f = ap₂ ◌&&◌ (e ∙ d.fsync) (f ∙ d.library) ∙ apart c.fd
    where
      apart : (k : Device) → (is_fsync k && is_userspace k) ≡ false
      apart undecided = refl
      apart unavailable = refl
      apart userspace = refl
      apart used_by_fsync = refl
      apart (kernel n) = refl

  -- Every operation goes to the provider that the server has chosen: once get_inproc_device_fd has
  -- decided, any sequence of creations, signals, resets, destructions, abandonments and requests for
  -- a descriptor changes only the state of that provider (the shared memory of fsync, the objects of
  -- the userspace library or those of the device), and leaves the choice.
  pub run_ops-IsIsolated :
      (c : Choice) (os : List InprocOp) (s : Server D S)
      → IsDecided c
      → s.do_fsync ≡ c.do_fsync
      → s.ntsync_userspace ≡ c.ntsync_userspace
      → IsIsolated driver user calls s (run_ops driver user calls os s)
  run_ops-IsIsolated c os s d e f =
      run_ops-IsIsolated_exclusive os s (IsDecided-IsExclusive c s d e f)
