-- ===== src/ServerFsync/Lifetime.antt =====
-- Creation and destruction of fsync objects keep the server's tables consistent,
-- server/fsync_pro10.c.
use menano.Prelude.{
  ℕ, ◌+◌, ◌*◌, ◌≤◌, ◌<◌, ◌≡◌, refl, ◌≢◌, Bool, true, false, not, ◌&&◌, ◌||◌, List, [], ◌∷◌, arith,
  ◌==◌, if◌then◌else◌, none, some, length, Bool-cases, inl, inr,
}
use menano.ServerFsync.Defs.{Shm, fsync_alloc_shm, fsync_free_shm_idx}
use menano.ServerFsync.Invariant.{IsValid, is_free, max_words}
use menano.ServerFsync.Alloc.{Allocated, fsync_alloc_shm-Allocated}
use menano.ServerFsync.Free.{Dereferenced, fsync_free_shm_idx-Dereferenced}
use menano.ServerFsync.Objects.{
  Server, Fsync, FsyncType, mutex, Created, created, existing, failed, object_type_mismatch,
  type_eq, is_event, type_matches, create_fsync, fsync_destroy, append_one, remove_one,
}
use menano.ServerFsync.Mutexes.{contains}

abbrev pub Distinct : List ℕ → Type 0
Distinct [] = Unit
Distinct (x ∷ l) = (contains l x ≡ false) × Distinct l

-- The allocator is valid, and `mutex_list` holds indices in use, each once.
pub record IsConsistent (s : Server) : Type 0 where
  pub allocator : IsValid s.shm
  pub listed : (k : ℕ) → contains s.mutex_list k ≡ true → is_free s.shm k ≡ false
  pub distinct : Distinct s.mutex_list

-- An object of the server: its index is in use, and it is on the list exactly when it is a mutex.
pub record IsObject (s : Server) (o : Fsync) : Type 0 where
  pub nonzero : o.shm_idx ≢ 0
  pub inside : o.shm_idx < length s.shm.free_map * 64
  pub used : is_free s.shm o.shm_idx ≡ false
  pub on_list : contains s.mutex_list o.shm_idx ≡ type_eq o.type mutex

contains-append_one :
    (l : List ℕ) (x k : ℕ) → contains (append_one l x) k ≡ (contains l k || (x == k))
contains-append_one [] x k = ground arith
contains-append_one (y ∷ l) x k = ground (arith, contains-append_one l x k)

Distinct-append_one :
    (l : List ℕ) (x : ℕ) → contains l x ≡ false → Distinct l → Distinct (append_one l x)
Distinct-append_one [] x h d = (refl, tt)
Distinct-append_one (y ∷ l) x h d =
    (ground (arith, contains-append_one l x y), Distinct-append_one l x (ground arith) d.1)

contains-remove_one :
    (l : List ℕ) (x k : ℕ)
    → Distinct l
    → contains (remove_one l x) k ≡ (contains l k && not (x == k))
contains-remove_one [] x k d = refl
contains-remove_one (y ∷ l) x k d = ground (arith, contains-remove_one l x k d.1)

Distinct-remove_one : (l : List ℕ) (x : ℕ) → Distinct l → Distinct (remove_one l x)
Distinct-remove_one [] x d = tt
Distinct-remove_one (y ∷ l) x d = elim (Bool-cases (y == x)) [
  | inl here ↦ rw here d.1
  | inr there ↦
      rw there (ground (arith, contains-remove_one l x y d.1), Distinct-remove_one l x d.1)
]

module _ (s : Server) (c : IsConsistent s) (garbage low high : ℕ) (type : FsyncType)
    (ready : s.shm.is_fsync_initialized ≡ true) (b : length s.shm.free_map + 256 ≤ max_words)
    (hint_in : s.shm.hint < length s.shm.free_map) where
  abbrev result : Created × Server
  result = create_fsync garbage true none low high type s

  abbrev idx : ℕ
  idx = (fsync_alloc_shm garbage true low high s.shm).0

  abbrev shm' : Shm
  shm' = (fsync_alloc_shm garbage true low high s.shm).1

  allocated : Allocated low high s.shm idx shm'
  allocated = fsync_alloc_shm-Allocated s.shm c.allocator garbage low high ready b hint_in

  -- The index is not on the list, since what is listed is in use.
  unlisted : contains s.mutex_list idx ≡ false
  unlisted = ground (arith, c.listed idx, allocated.fresh)

  abbrev new_list : List ℕ
  new_list = if type_eq type mutex then append_one s.mutex_list idx else s.mutex_list

  new_list-contains :
      (k : ℕ) → contains new_list k ≡ (contains s.mutex_list k || type_eq type mutex && idx == k)
  new_list-contains k = ground (arith, contains-append_one s.mutex_list idx k)

  new_list-Distinct : Distinct new_list
  new_list-Distinct = elim (Bool-cases (type_eq type mutex)) [
    | inl is_mutex ↦ rw is_mutex (Distinct-append_one s.mutex_list idx unlisted c.distinct)
    | inr other ↦ rw other c.distinct
  ]

  -- A new object has an index of its own, its slot holds the two values asked for, and the server's
  -- tables stay consistent.
  pub create_fsync-IsConsistent :
      (o : Fsync) × (result.0 ≡ created o)
      × (o.type ≡ type)
      × (result.1.shm.slots o.shm_idx ≡ record { low = low; high = high; ref = 1; last_pid = 0 })
      × IsObject result.1 o
      × IsConsistent result.1
  unfolding create_fsync
  create_fsync-IsConsistent = (
    record { shm_idx = idx; type = type },
    refl,
    refl,
    ground (arith, allocated.written idx),
    record {
      nonzero = allocated.nonzero;
      inside = allocated.inside;
      used = ground (arith, allocated.taken idx);
      on_list = ground (arith, new_list-contains idx, unlisted);
    },
    record {
      allocator = allocated.valid;
      listed = λ k h. ground (arith, new_list-contains k, allocated.taken k, c.listed k);
      distinct = new_list-Distinct;
    },
  )

-- A name that is taken gives its object, if the types match, and an error if not; the server's
-- state stays as it is either way.
pub create_fsync_existing :
    (garbage low high : ℕ) (memory : Bool) (found : Fsync) (type : FsyncType) (s : Server)
    → create_fsync garbage memory (some found) low high type s ≡ (
      if type_eq type found.type || is_event type && is_event found.type
          then existing found
          else failed object_type_mismatch,
      s,
    )
unfolding create_fsync type_matches
create_fsync_existing garbage low high memory found type s = ground arith

module _ (s : Server) (c : IsConsistent s) (o : Fsync) (h : IsObject s o) where
  dereferenced :
      (t : Shm) × (fsync_free_shm_idx s.shm o.shm_idx ≡ some t) × Dereferenced s.shm o.shm_idx t
  dereferenced =
      fsync_free_shm_idx-Dereferenced s.shm o.shm_idx c.allocator h.nonzero h.inside h.used

  abbrev rest : List ℕ
  rest = if type_eq o.type mutex then remove_one s.mutex_list o.shm_idx else s.mutex_list

  rest-contains : (k : ℕ) → contains rest k ≡ (contains s.mutex_list k && not (o.shm_idx == k))
  rest-contains k =
      ground (arith, contains-remove_one s.mutex_list o.shm_idx k c.distinct, h.on_list)

  rest-Distinct : Distinct rest
  rest-Distinct = elim (Bool-cases (type_eq o.type mutex)) [
    | inl is_mutex ↦ rw is_mutex (Distinct-remove_one s.mutex_list o.shm_idx c.distinct)
    | inr other ↦ rw other c.distinct
  ]

  -- Destroying an object fails no assert, takes its index off the mutex list, gives up one reference
  -- to the index, and keeps the server's tables consistent.
  pub fsync_destroy-IsConsistent :
      (s' : Server) × (fsync_destroy o s ≡ some s')
      × ((k : ℕ) → contains s'.mutex_list k ≡ (contains s.mutex_list k && not (o.shm_idx == k)))
      × Dereferenced s.shm o.shm_idx s'.shm
      × IsConsistent s'
  unfolding fsync_destroy
  fsync_destroy-IsConsistent = (
    record { shm = dereferenced.0; mutex_list = rest },
    rw (dereferenced.1, fsync_destroy),
    rest-contains,
    dereferenced.2,
    record {
      allocator = dereferenced.2.valid;
      listed = λ k e. ground (arith, rest-contains k, c.listed k, dereferenced.2.free_after k);
      distinct = rest-Distinct;
    },
  )
