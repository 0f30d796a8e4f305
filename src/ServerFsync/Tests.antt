-- ===== src/ServerFsync/Tests.antt =====
-- The theorems on server/fsync_pro10.c at concrete states, and runs of the code.
use menano.Prelude.{
  ℕ, zero, suc, ◌*◌, ◌/◌, ◌%◌, ◌^◌, ◌<◌, ◌≡◌, refl, true, false, some, [], ◌∷◌, arith,
  if◌then◌else◌, ◌==◌,
}
use menano.Prelude.Words.{test_bit, clear_bit, ctz, test_bit-ones}
use menano.ServerFsync.Defs.{
  Slot, Shm, all_free, word, page_size, fsync_init, fsync_alloc_shm, fsync_free_shm_idx,
  alloc_shm_idx_from_word, search_map, expand, init_slot, fsync_cleanup_process_shm_indices,
}
use menano.ServerFsync.Invariant.{IsValid, is_free}
use menano.ServerFsync.Init.{fsync_init-IsValid}
use menano.ServerFsync.Alloc.{Allocated, fsync_alloc_shm-Allocated}
use menano.ServerFsync.Free.{Dereferenced, fsync_free_shm_idx-Dereferenced}
use menano.ServerFsync.Roundtrip.{
  fsync_free_shm_idx-fsync_alloc_shm, fsync_alloc_shm-fsync_alloc_shm_uninitialised,
}
use menano.ServerFsync.Cleanup.{Swept, fsync_cleanup_process_shm_indices-Swept}

abbrev pub blank : Slot
blank = record { low = 0; high = 0; ref = 1; last_pid = 7 }

-- One word of the map: index 1 is free, and index 2 is the process 7's.
abbrev pub small : Shm
small = record {
  is_fsync_initialized = true;
  free_map = 2 ∷ [];
  hint = 0;
  shm_size = page_size;
  slots = λ _. blank;
}

small_words : (i : ℕ) → word small.free_map i < 2 ^ 64
small_words zero = omega arith
small_words (suc i) = omega arith

small_word : (i : ℕ) → 0 < i → word small.free_map i ≡ all_free
small_word zero h = absurd (omega arith)
small_word (suc i) h = refl

small_mapped : (j : ℕ) → is_free small j ≡ false → j * 16 < page_size
small_mapped j h = ground (arith, small_word (j / 64), test_bit-ones 64 (j % 64))

pub small-IsValid : IsValid small
unfolding test_bit
small-IsValid = record {
  words = small_words;
  reserved = refl;
  nonempty = omega arith;
  hint_first = λ i h. absurd (omega arith);
  hint_le = omega arith;
  pages = refl;
  mapped = small_mapped;
}

-- The first two allocations, and the first index again once it is freed.
alloc_twice :
    (fsync_alloc_shm 9 true 0 0 (fsync_alloc_shm 9 true 1 5 (fsync_init (λ _. blank))).1).0 ≡ 2
unfolding fsync_alloc_shm fsync_init search_map alloc_shm_idx_from_word init_slot clear_bit ctz
    expand
alloc_twice = refl

fsync_init-IsValid_test :
    IsValid (fsync_init (λ _. blank))
    × ((j : ℕ) → is_free (fsync_init (λ _. blank)) j ≡ (if 0 == j then false else true))
fsync_init-IsValid_test = fsync_init-IsValid (λ _. blank)

fsync_alloc_shm-Allocated_example :
    Allocated 1 5 small (fsync_alloc_shm 9 true 1 5 small).0 (fsync_alloc_shm 9 true 1 5 small).1
fsync_alloc_shm-Allocated_example =
    fsync_alloc_shm-Allocated small small-IsValid 9 1 5 refl (omega arith) (omega arith)

fsync_free_shm_idx-Dereferenced_example :
    (t : Shm) × (fsync_free_shm_idx small 2 ≡ some t) × Dereferenced small 2 t
unfolding test_bit
fsync_free_shm_idx-Dereferenced_example =
    fsync_free_shm_idx-Dereferenced small 2 small-IsValid (omega arith) (omega arith) refl

fsync_free_shm_idx-fsync_alloc_shm_example :
    (t : Shm) × (fsync_free_shm_idx
        (fsync_alloc_shm 9 true 1 5 small).1
        (fsync_alloc_shm 9 true 1 5 small).0
      ≡ some t)
    × IsValid t
    × ((j : ℕ) → is_free t j ≡ is_free small j)
fsync_free_shm_idx-fsync_alloc_shm_example =
    fsync_free_shm_idx-fsync_alloc_shm small small-IsValid 9 1 5 refl (omega arith) (omega arith)

-- The map of `small` is used up by one allocation; the next returns 77.
fsync_alloc_shm-fsync_alloc_shm_uninitialised_example :
    (fsync_alloc_shm 77 true 0 0 (fsync_alloc_shm 0 true 1 5 small).1).0 ≡ 77
unfolding clear_bit ctz
fsync_alloc_shm-fsync_alloc_shm_uninitialised_example =
    fsync_alloc_shm-fsync_alloc_shm_uninitialised small small-IsValid 0 1 5 77 0 0 true refl refl
      (omega arith) (omega arith) refl (omega arith)

fsync_cleanup_process_shm_indices-Swept_example :
    (t : Shm) × (fsync_cleanup_process_shm_indices 7 small ≡ some t) × Swept 7 1 64 small t
fsync_cleanup_process_shm_indices-Swept_example =
    fsync_cleanup_process_shm_indices-Swept 7 small small-IsValid
