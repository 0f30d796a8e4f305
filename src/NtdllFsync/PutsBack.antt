-- ===== src/NtdllFsync/PutsBack.antt =====
-- __fsync_wait_objects of dlls/ntdll/unix/fsync_pro10.c, waiting for all objects: what putting back does.
use menano.Prelude.{ℕ, ◌≡◌, refl, ◌≢◌, true, false, none, some, [], ◌∷◌, arith, ◌==◌, ==_self}
use menano.ServerFsync.Defs.{Slot}
use menano.ServerFsync.Objects.{mutex, auto_event}
use menano.NtdllFsync.Defs.{Object, mutant_not_owned, release_mutex}
use menano.NtdllFsync.Wait.{World, Caller, at, tick, try_auto}
use menano.NtdllFsync.WaitAll.{grab_mutex, grab_object_now, too_slow, grab_all, put_back}

-- The mutex at `i` belongs to the thread.
abbrev pub Owns : Caller → ℕ → World → Type 0
Owns r i w = (at w i).low ≡ r.current_tid

-- Other threads do not touch the owner of a mutex of the thread.
abbrev pub LeavesOwner : Caller → ℕ → Type 0
LeavesOwner r i =
    (n : ℕ) (f : ℕ → Slot) → (f i).low ≡ r.current_tid → (r.others n f i).low ≡ r.current_tid

-- A wait for all of a mutex that the thread owns and an event that another thread takes first loses the
-- mutex: putting back gives it up though the thread has not released it, and when the thread releases
-- it, it is told that it is not the owner. The id of the thread is not 0, and other threads leave the
-- mutex to its owner.
pub put_back_loses_mutex :
    (r : Caller) (i k fuel : ℕ) (w : World)
    → r.current_tid ≢ 0
    → LeavesOwner r i
    → Owns r i w
    → (at (tick r (tick r w)) k).low ≡ 0
    → let o : Object = record { type = mutex; shm_idx = i } in
      let e : Object = record { type = auto_event; shm_idx = k } in
      (w' : World) × (grab_all r fuel false [] (some o ∷ some e ∷ []) w
        ≡ some (too_slow (o ∷ []), w'))
      × ((at (put_back r (o ∷ []) w') i).low ≡ 0)
      × (release_mutex r.current_tid o (put_back r (o ∷ []) w').client
          ≡ some ((mutant_not_owned, none), (put_back r (o ∷ []) w').client))
unfolding grab_all grab_object_now grab_mutex try_auto put_back release_mutex
put_back_loses_mutex r i k fuel w tid leaves owns taken =
    let own : ((at (tick r w) i).low == r.current_tid) ≡ true =
      rw (leaves w.time w.client.shm.slots owns, ==_self r.current_tid) refl in
    let gone : ((at (tick r (tick r w)) k).low == 0) ≡ true = rw taken refl in
    let other : (0 == r.current_tid) ≡ false = ground arith in
    (
      tick r (tick r w),
      rw (own, grab_all) (rw (gone, grab_all) refl),
      rw (==_self i) refl,
      rw (==_self i) (rw other refl),
    )
