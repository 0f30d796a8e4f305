-- ===== src/ServerFsync/Roundtrip.antt =====
-- Allocation and freeing together, server/fsync_pro10.c.
use menano.Prelude.{
  ℕ, suc, ◌+◌, ◌-◌, ◌≤◌, ◌<◌, ◌≡◌, ◌≢◌, Bool, true, some, arith, length, length-set,
}
use menano.Prelude.Words.{clear_bit, ctz}
use menano.ServerFsync.Defs.{
  Shm, word, alloc_shm_idx_from_word, search_map, init_slot, fsync_alloc_shm, fsync_free_shm_idx,
}
use menano.ServerFsync.Invariant.{IsValid, is_free, max_words}
use menano.ServerFsync.TakeIndex.{alloc_shm_idx_from_word-Takes}
use menano.ServerFsync.Search.{Takes-ne-zero}
use menano.ServerFsync.Alloc.{Allocated, fsync_alloc_shm-Allocated, fsync_alloc_shm_uninitialised}
use menano.ServerFsync.Free.{Dereferenced, fsync_free_shm_idx-Dereferenced}

module _ (s : Shm) (v : IsValid s) (garbage low high : ℕ) (ready : s.is_fsync_initialized ≡ true)
    (b : length s.free_map + 256 ≤ max_words) (hint_in : s.hint < length s.free_map) where
  abbrev out : ℕ × Shm
  out = fsync_alloc_shm garbage true low high s

  -- Freeing an index that was just allocated gives back the free map of before, as a set of indices,
  -- and leaves the state valid.
  pub fsync_free_shm_idx-fsync_alloc_shm :
      (s' : Shm) × (fsync_free_shm_idx out.1 out.0 ≡ some s')
      × IsValid s'
      × ((j : ℕ) → is_free s' j ≡ is_free s j)
  fsync_free_shm_idx-fsync_alloc_shm = (d.0, d.1, d.2.valid, back)
    where
      a : Allocated low high s out.0 out.1
      a = fsync_alloc_shm-Allocated s v garbage low high ready b hint_in

      d : (s' : Shm) × (fsync_free_shm_idx out.1 out.0 ≡ some s') × Dereferenced out.1 out.0 s'
      d =
          fsync_free_shm_idx-Dereferenced out.1 out.0 a.valid a.nonzero a.inside
            (ground (arith, a.taken out.0))

      fresh_ref : (out.1.slots out.0).ref ≡ 1
      fresh_ref = ground (arith, a.written out.0)

      back : (j : ℕ) → is_free d.0 j ≡ is_free s j
      back j = ground (arith, d.2.free_after j, a.taken j, a.fresh, fresh_ref)

module _ (s : Shm) (v : IsValid s) (g low high garbage low' high' : ℕ) (memory : Bool)
    (ready : s.is_fsync_initialized ≡ true) (last_word : suc s.hint ≡ length s.free_map)
    (b : length s.free_map + 256 ≤ max_words) (some_free : word s.free_map s.hint ≢ 0)
    (last_bit : clear_bit (word s.free_map s.hint) (ctz 64 (word s.free_map s.hint)) ≡ 0)
    (ne : garbage ≢ 0) where
  abbrev first : ℕ × Shm
  first = fsync_alloc_shm g true low high s

  abbrev taken : ℕ × Shm
  taken = alloc_shm_idx_from_word s s.hint

  taken-ne-zero : taken.0 ≢ 0
  taken-ne-zero = Takes-ne-zero s taken.1 taken.0 v.reserved (
      alloc_shm_idx_from_word-Takes s s.hint v.words v.hint_first (omega arith) (omega arith)
        some_free)

  one_round : first ≡ init_slot low high taken
  unfolding fsync_alloc_shm search_map
  one_round =
      let e : length s.free_map - s.hint ≡ suc 0 = omega arith in
      rw e (ground (arith, taken-ne-zero))

  taken_state : (taken.1.is_fsync_initialized ≡ true) × (length taken.1.free_map ≤ taken.1.hint)
  unfolding alloc_shm_idx_from_word
  taken_state = ground (
    arith,
    length-set s.free_map s.hint
        (clear_bit (word s.free_map s.hint) (ctz 64 (word s.free_map s.hint))),
  )

  -- Taking the last free index of the last word of the map makes the next allocation return its
  -- uninitialised variable, if that is not 0.
  pub fsync_alloc_shm-fsync_alloc_shm_uninitialised :
      (fsync_alloc_shm garbage memory low' high' first.1).0 ≡ garbage
  unfolding init_slot
  fsync_alloc_shm-fsync_alloc_shm_uninitialised =
      rw one_round
        (fsync_alloc_shm_uninitialised (init_slot low high taken).1 garbage low' high' memory
          taken_state.0 taken_state.1 ne).0
