-- ===== src/Esync/Growth.antt =====
-- create_esync of server/esync_pro10.c: the shared memory grows until it holds the new object.
use menano.Prelude.{
  ℕ, zero, suc, ◌+◌, ◌*◌, ◌≤◌, ◌<◌, ◌≡◌, refl, false, inl, inr, ◌⊎◌, some, arith, leb, Bool-cases,
}
use menano.Esync.Defs.{grow, shm_index}

-- From any size, the shared memory of a new descriptor is grown, in at most as many pages as it lacks
-- bytes, to a size that holds its index, and that is the size before or at most a page more than the
-- offset of the index.
pub grow_lem :
    (pagesize fd fuel shm_size : ℕ)
    → 0 < pagesize
    → shm_index fd * 8 < shm_size + fuel
    → (size : ℕ) × (grow pagesize (shm_index fd) (suc fuel) shm_size ≡ some size)
      × (shm_index fd * 8 < size)
      × (shm_size ≤ size)
      × ((size ≡ shm_size) ⊎ (size ≤ shm_index fd * 8 + pagesize))
unfolding grow
grow_lem pagesize fd zero shm_size positive enough =
    let fits : leb shm_size (shm_index fd * 8) ≡ false = ground arith in
    (shm_size, rw fits refl, omega arith, omega arith, inl refl)
grow_lem pagesize fd (suc fuel) shm_size positive enough =
    elim (Bool-cases (leb shm_size (shm_index fd * 8))) [
      | inr fits ↦ (shm_size, rw fits refl, ground arith, omega arith, inl refl)
      | inl small ↦
          let le : shm_size ≤ shm_index fd * 8 = ground arith in
          let (size, e, holds, more, limit) =
            grow_lem pagesize fd fuel (shm_size + pagesize) positive (omega arith) in
          let bound : size ≤ shm_index fd * 8 + pagesize = elim limit [
            | inl q ↦ omega arith
            | inr q ↦ q
          ] in
          (size, rw small e, holds, omega arith, inr bound)
    ]
