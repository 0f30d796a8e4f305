-- ===== src/ServerFsync/TakeIndex.antt =====
-- alloc_shm_idx_from_word of server/fsync_pro10.c: taking the lowest free index of one word.
use menano.Prelude.{
  ℕ, ◌+◌, ◌*◌, ◌/◌, ◌%◌, ◌^◌, ◌≤◌, ◌<◌, ◌≡◌, refl, ◌≢◌, true, false, arith, length, length-set,
  if◌then◌else◌, ◌==◌, set,
}
use menano.Prelude.Words.{clear_bit, ctz, clear_bit-le, ctz-lt, test_bit-ctz}
use menano.ServerFsync.Defs.{Shm, word, alloc_shm_idx_from_word}
use menano.ServerFsync.FreeMap.{bit_at-clear, word-set}
use menano.ServerFsync.Invariant.{is_free, max_words}

-- `s'` is `s` with index `idx`, which was free, taken off the free map.
pub record Takes (s : Shm) (idx : ℕ) (s' : Shm) : Type 0 where
  pub fresh : is_free s idx ≡ true
  pub taken : (j : ℕ) → is_free s' j ≡ (if idx == j then false else is_free s j)
  pub words : (i : ℕ) → word s'.free_map i < 2 ^ 64
  pub hint_first : (i : ℕ) → i < s'.hint → word s'.free_map i ≡ 0
  pub hint_le : s'.hint ≤ length s'.free_map
  pub long : length s.free_map ≤ length s'.free_map
  pub inside : idx < length s'.free_map * 64
  pub size_same : s'.shm_size ≡ s.shm_size
  pub slots_same : s'.slots ≡ s.slots

-- One word: the lowest free index of a word that has one, where no word before has any.
module _ (s : Shm) (i : ℕ) (words : (k : ℕ) → word s.free_map k < 2 ^ 64)
    (before : (k : ℕ) → k < i → word s.free_map k ≡ 0) (inside : i < length s.free_map)
    (bounded : length s.free_map ≤ max_words) (some_free : word s.free_map i ≢ 0) where
  ret : ℕ
  ret = ctz 64 (word s.free_map i)

  ret-lt : ret < 64
  unfolding ret
  ret-lt = ctz-lt 64 (word s.free_map i) some_free (words i)

  rest : ℕ
  rest = clear_bit (word s.free_map i) ret

  after : Shm
  after = record s { free_map = set s.free_map i rest; hint = if rest == 0 then i + 1 else i }

  alloc_eq : alloc_shm_idx_from_word s i ≡ (i * 64 + ret, after)
  unfolding alloc_shm_idx_from_word after rest ret
  alloc_eq = ground (arith, ret-lt)

  word_after : (k : ℕ) → word after.free_map k ≡ (if i == k then rest else word s.free_map k)
  unfolding after
  word_after k = word-set s.free_map i rest k inside

  after-words : (k : ℕ) → word after.free_map k < 2 ^ 64
  after-words k = rw (word_after k) (ground (arith, words k, words i, rest-le))
    where
      rest-le : rest ≤ word s.free_map i
      rest-le = unfold rest in clear_bit-le (word s.free_map i) ret

  after-hint_first : (k : ℕ) → k < after.hint → word after.free_map k ≡ 0
  unfolding after
  after-hint_first k h = ground (arith, word_after k, before k)

  after-taken : (j : ℕ) → is_free after j ≡ (if i * 64 + ret == j then false else is_free s j)
  unfolding after rest
  after-taken j = bit_at-clear s.free_map i ret j inside ret-lt

  fresh_bit : is_free s (i * 64 + ret) ≡ true
  fresh_bit =
      let q : (i * 64 + ret) / 64 ≡ i = omega (arith, ret-lt) in
      let r : (i * 64 + ret) % 64 ≡ ret = omega (arith, ret-lt) in
      rw (q, r) (unfold ret in test_bit-ctz 64 (word s.free_map i) some_free (words i))

  after-Takes : Takes s (i * 64 + ret) after
  unfolding after
  after-Takes = record {
    fresh = fresh_bit;
    taken = after-taken;
    words = after-words;
    hint_first = after-hint_first;
    hint_le = ground (arith, length-set s.free_map i rest);
    long = omega (arith, length-set s.free_map i rest);
    inside = omega (arith, length-set s.free_map i rest, ret-lt);
    size_same = refl;
    slots_same = refl;
  }

  pub alloc_shm_idx_from_word-Takes :
      Takes s (alloc_shm_idx_from_word s i).0 (alloc_shm_idx_from_word s i).1
  alloc_shm_idx_from_word-Takes = rw alloc_eq after-Takes
