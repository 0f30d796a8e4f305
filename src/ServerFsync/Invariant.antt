-- ===== src/ServerFsync/Invariant.antt =====
-- The invariant of the index allocator of server/fsync_pro10.c.
use menano.Prelude.{ℕ, ◌*◌, ◌%◌, ◌^◌, ◌≤◌, ◌<◌, ◌≡◌, Bool, false, length}
use menano.ServerFsync.Defs.{Shm, word, page_size}
use menano.ServerFsync.FreeMap.{bit_at}

abbrev pub is_free : Shm → ℕ → Bool
is_free s j = bit_at s.free_map j

-- The map's words fit in 64 bits, index 0 is never free, no word before the search hint has a free
-- index, the section is made of whole pages, and an index in use lies in the section.
pub record IsValid (s : Shm) : Type 0 where
  pub words : (i : ℕ) → word s.free_map i < 2 ^ 64
  pub reserved : is_free s 0 ≡ false
  pub nonempty : 0 < length s.free_map
  pub hint_first : (i : ℕ) → i < s.hint → word s.free_map i ≡ 0
  pub hint_le : s.hint ≤ length s.free_map
  pub pages : s.shm_size % page_size ≡ 0
  pub mapped : (j : ℕ) → is_free s j ≡ false → j * 16 < s.shm_size

-- Up to 2^21 words, `shm_idx * 16` does not leave the range of an int.
abbrev pub max_words : ℕ
max_words = 2 ^ 21
