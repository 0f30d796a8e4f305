-- ===== src/ServerFsync/Init.antt =====
-- The state that fsync_init of server/fsync_pro10.c leaves.
use menano.Prelude.{
  ℕ, ◌*◌, ◌/◌, ◌%◌, ◌^◌, ◌<◌, ◌≡◌, refl, true, false, arith, length-replicate, replicate, set,
  if◌then◌else◌, ◌==◌, ◌∙◌,
}
use menano.Prelude.Words.{clear_bit, clear_bit-le, test_bit-ones}
use menano.ServerFsync.Defs.{Slot, all_free, word, fsync_init}
use menano.ServerFsync.FreeMap.{word-set, bit_at-clear, word-replicate}
use menano.ServerFsync.Invariant.{IsValid, is_free}

abbrev words : ℕ → ℕ
words = word (set (replicate 256 all_free) 0 (clear_bit all_free 0))

init_word : (i : ℕ) → words i ≡ (if 0 == i then clear_bit all_free 0 else all_free)
init_word i =
    word-set (replicate 256 all_free) 0 (clear_bit all_free 0) i
      (omega (arith, length-replicate 256 all_free))
    ∙ rw (word-replicate 256 i)

init_word-lt : (i : ℕ) → words i < 2 ^ 64
init_word-lt i = rw (init_word i) (ground (arith, clear_bit-le all_free 0))

module _ (slots : ℕ → Slot) where
  init_free : (j : ℕ) → is_free (fsync_init slots) j ≡ (if 0 == j then false else true)
  unfolding fsync_init
  init_free j = ground (
    arith,
    bit_at-clear (replicate 256 all_free) 0 0 j (omega (arith, length-replicate 256 all_free))
        (omega arith),
    word-replicate 256 (j / 64),
    test_bit-ones 64 (j % 64),
  )

  init_mapped : (j : ℕ) → is_free (fsync_init slots) j ≡ false → j * 16 < 0x10000
  init_mapped j h = ground (arith, init_free j)

  -- The initial state is valid, and every index but 0 is free in it.
  pub fsync_init-IsValid :
      IsValid (fsync_init slots)
      × ((j : ℕ) → is_free (fsync_init slots) j ≡ (if 0 == j then false else true))
  unfolding fsync_init
  fsync_init-IsValid = (
    record {
      words = init_word-lt;
      reserved = init_free 0;
      nonempty = omega arith;
      hint_first = λ i h. absurd (omega arith);
      hint_le = omega arith;
      pages = refl;
      mapped = init_mapped;
    },
    init_free,
  )
