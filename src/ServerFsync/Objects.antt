-- ===== src/ServerFsync/Objects.antt =====
-- The fsync objects of server/fsync_pro10.c: creation, destruction, events and abandoned mutexes.
-- The named objects of the server's object manager are not in this repository: what
-- create_named_object finds is an argument. Waking the waiters of a futex has no effect on the state;
-- the functions return whether they do it.
use menano.Prelude.{
  ℕ, ◌-◌, ◌^◌, Bool, false, ◌&&◌, ◌||◌, Option, none, some, List, [], ◌∷◌, ◌==◌, if◌then◌else◌,
}
use menano.ServerFsync.Defs.{Slot, Shm, update, fsync_alloc_shm, fsync_free_shm_idx}

pub data FsyncType : Type 0 where
  semaphore auto_event manual_event mutex auto_server manual_server queue : FsyncType

-- The enum's value; 0 is no type.
abbrev pub code : FsyncType → ℕ
code semaphore = 1
code auto_event = 2
code manual_event = 3
code mutex = 4
code auto_server = 5
code manual_server = 6
code queue = 7

abbrev pub type_eq : FsyncType → FsyncType → Bool
type_eq a b = code a == code b

abbrev pub is_event : FsyncType → Bool
is_event t = type_eq t auto_event || type_eq t manual_event

unfoldable pub type_matches : FsyncType → FsyncType → Bool
type_matches type1 type2 = type_eq type1 type2 || is_event type1 && is_event type2

pub record Fsync : Type 0 where
  pub shm_idx : ℕ
  pub type : FsyncType

-- `mutex_list` holds the index of each mutex object, oldest first.
pub record Server : Type 0 where
  pub shm : Shm
  pub mutex_list : List ℕ

abbrev pub append_one : List ℕ → ℕ → List ℕ
append_one [] x = x ∷ []
append_one (y ∷ ys) x = y ∷ append_one ys x

-- `list_remove` of the object's entry.
abbrev pub remove_one : List ℕ → ℕ → List ℕ
remove_one [] x = []
remove_one (y ∷ ys) x = if y == x then ys else y ∷ remove_one ys x

pub data Error : Type 0 where
  object_type_mismatch : Error

pub data Created : Type 0 where
  created existing : Fsync → Created
  failed : Error → Created

-- `found` is the object that already has the name.
unfoldable pub create_fsync :
    ℕ → Bool → Option Fsync → ℕ → ℕ → FsyncType → Server → Created × Server
create_fsync garbage memory none low high type s =
    let r = fsync_alloc_shm garbage memory low high s.shm in
    (
      created (record { shm_idx = r.0; type = type }),
      record {
        shm = r.1;
        mutex_list = if type_eq type mutex then append_one s.mutex_list r.0 else s.mutex_list;
      },
    )
create_fsync garbage memory (some fsync) low high type s =
    if type_matches type fsync.type then (existing fsync, s) else (failed object_type_mismatch, s)

-- A failed assert is `none`.
unfoldable pub fsync_destroy : Fsync → Server → Option Server
fsync_destroy fsync s =
    let list =
      if type_eq fsync.type mutex then remove_one s.mutex_list fsync.shm_idx else s.mutex_list in
    elim (fsync_free_shm_idx s.shm fsync.shm_idx) [
      | none ↦ none
      | some shm ↦ some (record { shm = shm; mutex_list = list })
    ]

abbrev pub set_low : (ℕ → Slot) → ℕ → ℕ → ℕ → Slot
set_low f idx v = update f idx (record (f idx) { low = v })

abbrev pub with_slots : Server → (ℕ → Slot) → Server
with_slots s f = record s { shm = record (s.shm) { slots = f } }

-- `__atomic_exchange_n( &event->signaled, 1 )`, and a wake if it was 0.
unfoldable pub signal_slot : Server → ℕ → Bool × Server
signal_slot s idx = ((s.shm.slots idx).low == 0, with_slots s (set_low s.shm.slots idx 1))

unfoldable pub fsync_wake_futex : Server → ℕ → Bool × Server
fsync_wake_futex s shm_idx = if shm_idx == 0 then (false, s) else signal_slot s shm_idx

unfoldable pub fsync_clear_futex : Server → ℕ → Server
fsync_clear_futex s shm_idx =
    if shm_idx == 0 then s else with_slots s (set_low s.shm.slots shm_idx 0)

unfoldable pub fsync_set_event : Server → Fsync → Bool × Server
fsync_set_event s fsync = signal_slot s fsync.shm_idx

unfoldable pub fsync_reset_event : Server → Fsync → Server
fsync_reset_event s fsync = with_slots s (set_low s.shm.slots fsync.shm_idx 0)

-- `~0` as a thread id marks an abandoned mutex.
abbrev pub abandoned_tid : ℕ
abandoned_tid = 2 ^ 32 - 1

unfoldable pub abandon : ℕ → ℕ → (ℕ → Slot) → ℕ → Slot
abandon tid idx f =
    if (f idx).low == tid
    then update f idx (record (f idx) { low = abandoned_tid; high = 0 })
    else f

unfoldable pub abandon_all : ℕ → List ℕ → (ℕ → Slot) → ℕ → Slot
abandon_all tid [] f = f
abandon_all tid (idx ∷ rest) f = abandon_all tid rest (abandon tid idx f)

unfoldable pub fsync_abandon_mutexes : ℕ → Server → Server
fsync_abandon_mutexes tid s = with_slots s (abandon_all tid s.mutex_list s.shm.slots)
