-- ===== src/ServerFsync/Mutexes.antt =====
-- The mutexes that a dying thread leaves, server/fsync_pro10.c.
use menano.Prelude.{
  ℕ, ◌≡◌, refl, ◌≢◌, Bool, false, ◌&&◌, ◌||◌, List, [], ◌∷◌, arith, ◌==◌, if◌then◌else◌,
}
use menano.ServerFsync.Defs.{Slot}
use menano.ServerFsync.Objects.{Server, abandoned_tid, abandon, abandon_all, fsync_abandon_mutexes}

abbrev pub contains : List ℕ → ℕ → Bool
contains [] x = false
contains (y ∷ ys) x = y == x || contains ys x

abbrev pub abandoned_slot : Slot → Slot
abandoned_slot m = record m { low = abandoned_tid; high = 0 }

abandon_all-slot :
    (tid : ℕ) (l : List ℕ) (f : ℕ → Slot) (k : ℕ)
    → tid ≢ abandoned_tid
    → abandon_all tid l f k
      ≡ (if contains l k && (f k).low == tid then abandoned_slot (f k) else f k)
unfolding abandon_all abandon
abandon_all-slot tid [] f k h = refl
abandon_all-slot tid (x ∷ l) f k h = ground (arith, abandon_all-slot tid l (abandon tid x f) k h)

-- When a thread dies, exactly the mutexes of the list that it owns become abandoned with a recursion
-- count of 0, and every other slot, the free map and the list stay as they are.
pub fsync_abandon_mutexes_slots :
    (tid : ℕ) (s : Server) (k : ℕ)
    → tid ≢ abandoned_tid
    → let s' = fsync_abandon_mutexes tid s in
      (s'.shm.slots k ≡ (
        if contains s.mutex_list k && (s.shm.slots k).low == tid
        then abandoned_slot (s.shm.slots k)
        else s.shm.slots k))
      × (s'.shm.free_map ≡ s.shm.free_map)
      × (s'.mutex_list ≡ s.mutex_list)
unfolding fsync_abandon_mutexes
fsync_abandon_mutexes_slots tid s k h =
    (abandon_all-slot tid s.mutex_list s.shm.slots k h, refl, refl)
