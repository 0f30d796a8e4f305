-- ===== src/ServerInproc/Syncs.antt =====
-- server/inproc_sync_pro11.c: the in-process synchronization objects, kept by fsync, by the
-- userspace library or by the kernel's driver.
use menano.Prelude.{
  ℕ, Bool, true, false, ◌||◌, Option, none, some, List, [], ◌∷◌, ◌++◌, ◌==◌, if◌then◌else◌,
}

-- `type`, with the values of enum inproc_sync_type and of enum fsync_type.
pub data SyncType : Type 0 where
  inproc_sync_internal inproc_sync_event inproc_sync_mutex inproc_sync_semaphore : SyncType
  fsync_manual_server fsync_auto_server fsync_manual_event fsync_auto_event : SyncType
  fsync_mutex fsync_semaphore : SyncType

-- struct inproc_sync, with its address; none is the fd -1.
pub record InprocSync : Type 0 where
  pub address : ℕ
  pub kind : SyncType
  pub fd : Option ℕ

-- The operations of a provider of synchronization: the ioctls of /dev/ntsync or the library.
pub record Provider (D : Type 0) : Type 0 where
  pub create_event : Bool → Bool → D → Option ℕ × D
  pub create_mutex : ℕ → ℕ → D → Option ℕ × D
  pub create_sem : ℕ → ℕ → D → Option ℕ × D
  pub event_set : ℕ → D → D
  pub event_reset : ℕ → D → D
  pub mutex_kill : ℕ → ℕ → D → D
  pub close : ℕ → D → D

-- The functions of fsync.h, over the state that fsync keeps. `none` is the index -1; freeing an index
-- may fail an assert, and does not return then.
pub record FsyncCalls (S : Type 0) : Type 0 where
  pub fsync_alloc_shm : ℕ → ℕ → S → Option ℕ × S
  pub fsync_free_shm_idx : Option ℕ → S → Option S
  pub fsync_set_event : ℕ → S → S
  pub fsync_reset_event : ℕ → S → S
  pub fsync_abandon_mutex : ℕ → ℕ → S → S
  pub fsync_grab_shm_idx : ℕ → S → ℕ × S

-- `mutexes` is the list inproc_mutexes; `shm`, `device` and `library` are the states of fsync and of
-- the two providers.
pub record Server (D S : Type 0) : Type 0 where
  pub do_fsync : Bool
  pub ntsync_userspace : Bool
  pub shm : S
  pub device : D
  pub library : D
  pub mutexes : List InprocSync

-- How a creation ends: alloc_object failed, STATUS_TOO_MANY_OPENED_FILES, or the object.
pub data Created : Type 0 where
  no_memory too_many_opened_files : Created
  created : InprocSync → Created

abbrev pub deadbeef : ℕ
deadbeef = 0xDEADBEEF

abbrev pub bit_of : Bool → ℕ
bit_of true = 1
bit_of false = 0

unfoldable pub list_remove : InprocSync → List InprocSync → List InprocSync
list_remove m [] = []
list_remove m (n ∷ ns) =
    let rest = list_remove m ns in if n.address == m.address then rest else n ∷ rest

module _ {D S : Type 0} (driver user : Provider D) (calls : FsyncCalls S) where
  -- The call of the provider that is active, when fsync is not.
  abbrev pub provided {ℓ} : {A : Type ℓ} → (Provider D → D → A × D) → Server D S → A × Server D S
  provided f s =
      if s.ntsync_userspace
      then ((f user s.library).0, record s { library = (f user s.library).1 })
      else ((f driver s.device).0, record s { device = (f driver s.device).1 })

  abbrev pub told : (Provider D → D → D) → Server D S → Server D S
  told f s =
      if s.ntsync_userspace
      then record s { library = f user s.library }
      else record s { device = f driver s.device }

  abbrev pub with_shm : Server D S → Option S → Option (Server D S)
  with_shm t none = none
  with_shm t (some shm) = some (record t { shm = shm })

  -- The descriptor of a sync goes back to where it came from; none of the providers knows -1.
  unfoldable pub give_back : Option ℕ → Server D S → Option (Server D S)
  give_back (some fd) t =
      if t.do_fsync
      then with_shm t (calls.fsync_free_shm_idx (some fd) t.shm)
      else some (told (λ p. p.close fd) t)
  give_back none t = if t.do_fsync then with_shm t (calls.fsync_free_shm_idx none t.shm) else some t

  -- list_remove of a node that is linked to itself changes no list. A failed assert is none.
  unfoldable pub inproc_sync_destroy : InprocSync → Server D S → Option (Server D S)
  unfolding list_remove give_back
  inproc_sync_destroy m s = give_back m.fd (record s { mutexes = list_remove m s.mutexes })

  unfoldable pub alloc : ℕ → ℕ → Server D S → Option ℕ × Server D S
  alloc low high s = let r = calls.fsync_alloc_shm low high s.shm in (r.0, record s { shm = r.1 })

  abbrev pub released : Option (Server D S) → Option (Created × Server D S)
  released none = none
  released (some t) = some (too_many_opened_files, t)

  -- `if (fd == -1) { set_error( ... ); release_object( ... ); return NULL; } return ...;`
  unfoldable pub finish : Option ℕ → InprocSync → Server D S → Option (Created × Server D S)
  unfolding inproc_sync_destroy
  finish none m s = released (inproc_sync_destroy m s)
  finish (some fd) m s = some (created m, s)

  -- What the four functions share, from what alloc_object answers: the types, the arguments of fsync_alloc_shm, the call of the
  -- provider, and whether the sync joins inproc_mutexes.
  unfoldable pub create_at :
      Option ℕ
      → SyncType
      → SyncType
      → ℕ
      → ℕ
      → (Provider D → D → Option ℕ × D)
      → Bool
      → Server D S
      → Option (Created × Server D S)
  unfolding alloc finish
  create_at none fsync_kind kind low high f listed s = some (no_memory, s)
  create_at (some address) fsync_kind kind low high f listed s =
      let r = if s.do_fsync then alloc low high s else provided f s in
      let sync : InprocSync = record {
        address = address;
        kind = if s.do_fsync then fsync_kind else kind;
        fd = r.0;
      } in
      finish r.0 sync
        (record r.1 { mutexes = if listed then r.1.mutexes ++ sync ∷ [] else r.1.mutexes })

  unfoldable pub create_inproc_internal_sync :
      Option ℕ → Bool → Bool → Server D S → Option (Created × Server D S)
  unfolding create_at
  create_inproc_internal_sync m manual signaled s =
      create_at m (if manual then fsync_manual_server else fsync_auto_server) inproc_sync_internal
        (bit_of signaled) deadbeef (λ p. p.create_event manual signaled) false s

  unfoldable pub create_inproc_event_sync :
      Option ℕ → Bool → Bool → Server D S → Option (Created × Server D S)
  unfolding create_at
  create_inproc_event_sync m manual signaled s =
      create_at m (if manual then fsync_manual_event else fsync_auto_event) inproc_sync_event
        (bit_of signaled) deadbeef (λ p. p.create_event manual signaled) false s

  unfoldable pub create_inproc_mutex_sync :
      Option ℕ → ℕ → ℕ → Server D S → Option (Created × Server D S)
  unfolding create_at
  create_inproc_mutex_sync m owner count s =
      create_at m fsync_mutex inproc_sync_mutex owner count (λ p. p.create_mutex owner count) true s

  unfoldable pub create_inproc_semaphore_sync :
      Option ℕ → ℕ → ℕ → Server D S → Option (Created × Server D S)
  unfolding create_at
  create_inproc_semaphore_sync m initial max s =
      create_at m fsync_semaphore inproc_sync_semaphore initial max (λ p. p.create_sem initial max)
        false s

  abbrev pub on_shm : (S → S) → Server D S → Server D S
  on_shm f s = record s { shm = f s.shm }

  unfoldable pub signal_inproc_sync : ℕ → Server D S → Server D S
  signal_inproc_sync fd s =
      if s.ntsync_userspace
      then told (λ p. p.event_set fd) s
      else (if s.do_fsync
          then on_shm (calls.fsync_set_event fd) s
          else told (λ p. p.event_set fd) s)

  unfoldable pub reset_inproc_sync : ℕ → Server D S → Server D S
  reset_inproc_sync fd s =
      if s.ntsync_userspace
      then told (λ p. p.event_reset fd) s
      else (if s.do_fsync
          then on_shm (calls.fsync_reset_event fd) s
          else told (λ p. p.event_reset fd) s)

  abbrev is_event : SyncType → Bool
  is_event inproc_sync_internal = true
  is_event inproc_sync_event = true
  is_event _ = false

  -- none is a failed assert; the value returned is always 1.
  unfoldable pub inproc_sync_signal : SyncType → ℕ → Bool → Server D S → Option (Server D S)
  unfolding signal_inproc_sync reset_inproc_sync
  inproc_sync_signal kind fd signal s =
      if s.do_fsync || is_event kind
      then some (if signal then signal_inproc_sync fd s else reset_inproc_sync fd s)
      else none

  -- The ioctl on the descriptor -1 fails, and no mutex of the list has it.
  abbrev pub abandon_one : ℕ → Option ℕ → Server D S → Server D S
  abandon_one tid none s = s
  abandon_one tid (some fd) s =
      if s.do_fsync
      then on_shm (calls.fsync_abandon_mutex fd tid) s
      else told (λ p. p.mutex_kill fd tid) s

  unfoldable pub abandon_each : ℕ → List InprocSync → Server D S → Server D S
  abandon_each tid [] s = s
  abandon_each tid (m ∷ ms) s = abandon_each tid ms (abandon_one tid m.fd s)

  unfoldable pub abandon_inproc_mutexes : ℕ → Server D S → Server D S
  unfolding abandon_each
  abandon_inproc_mutexes tid s = abandon_each tid s.mutexes s

-- The sync behind a handle: another object, or one of these with its type and descriptor.
pub data Found : Type 0 where
  no_sync other_sync : Found
  inproc : InprocSync → Found

-- The reply of get_inproc_sync_fd.
pub data FdReply : Type 0 where
  not_implemented : FdReply
  ntsync_handle fsync_shm_idx client_fd : SyncType → ℕ → FdReply

unfoldable pub get_obj_inproc_sync : Found → Option (SyncType × ℕ)
get_obj_inproc_sync no_sync = none
get_obj_inproc_sync other_sync = none
get_obj_inproc_sync (inproc m) = elim m.fd [ none ↦ none | some fd ↦ some (m.kind, fd) ]

module _ {D S : Type 0} (calls : FsyncCalls S) where
  abbrev pub reply_for : Option (SyncType × ℕ) → Server D S → FdReply × Server D S
  reply_for none s = (not_implemented, s)
  reply_for (some (kind, fd)) s =
      if s.ntsync_userspace
      then (ntsync_handle kind fd, s)
      else (if s.do_fsync
          then (let g = calls.fsync_grab_shm_idx fd s.shm in
              (fsync_shm_idx kind g.0, record s { shm = g.1 }))
          else (client_fd kind fd, s))

  -- The request, for a handle that names an object.
  unfoldable pub get_inproc_sync_fd : Found → Server D S → FdReply × Server D S
  unfolding get_obj_inproc_sync
  get_inproc_sync_fd o s = reply_for (get_obj_inproc_sync o) s
