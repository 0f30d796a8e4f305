-- ===== src/ServerFsync/Defs.antt =====
-- server/fsync_pro10.c: the shared-memory indices of fsync objects. `shm_idx_free_map` has a bit for
-- each index, set while it is free; `shm_idx_free_search_start_hint` is where a search begins; each
-- index names four ints of the shared section. Ints are 32-bit patterns. A failed assert is `none`.
use menano.Prelude.{
  ℕ, zero, suc, ◌+◌, ◌-◌, ◌*◌, ◌/◌, ◌%◌, ◌^◌, Bool, true, false, not, ◌&&◌, Option, none, some,
  List, ◌++◌, ltb, leb, ◌==◌, if◌then◌else◌, length, get_or, set, replicate,
}
use menano.Prelude.Words.{test_bit, set_bit, clear_bit, ctz, le_zero32}

-- `shm[0]`, `shm[1]`, the reference count and the last referring process.
pub record Slot : Type 0 where
  pub low : ℕ
  pub high : ℕ
  pub ref : ℕ
  pub last_pid : ℕ

-- The size of the free map is the length of the list.
pub record Shm : Type 0 where
  pub is_fsync_initialized : Bool
  pub free_map : List ℕ
  pub hint : ℕ
  pub shm_size : ℕ
  pub slots : ℕ → Slot

-- `~(uint64_t)0`. It is also what a read outside of the map gives, which the code never makes.
abbrev pub all_free : ℕ
all_free = 2 ^ 64 - 1

abbrev pub word : List ℕ → ℕ → ℕ
word m i = get_or m i all_free

abbrev pub page_size : ℕ
page_size = 0x10000

abbrev pub update : (ℕ → Slot) → ℕ → Slot → ℕ → Slot
update f i v j = if i == j then v else f j

-- The state that fsync_init leaves: 256 words, all free but index 0.
unfoldable pub fsync_init : (ℕ → Slot) → Shm
fsync_init slots = record {
  is_fsync_initialized = true;
  free_map = set (replicate 256 all_free) 0 (clear_bit all_free 0);
  hint = 0;
  shm_size = page_size;
  slots = slots;
}

unfoldable pub alloc_shm_idx_from_word : Shm → ℕ → ℕ × Shm
alloc_shm_idx_from_word s word_index =
    let w = word s.free_map word_index in
    let ret = ctz 64 w in
    let rest = clear_bit w ret in
    if w == 0 then (0, s) else (
      (word_index * 64 + ret) % 2 ^ 32,
      record s {
        free_map = set s.free_map word_index rest;
        hint = if rest == 0 then word_index + 1 else word_index;
      },
    )

-- `for (i = hint; i < size; ++i) if ((shm_idx = ...)) break;` with the rounds left, `i`, and the
-- value of `shm_idx`, which is not initialised before the first round.
unfoldable pub search_map : ℕ → ℕ → ℕ → Shm → ℕ × Shm
search_map zero i shm_idx s = (shm_idx, s)
search_map (suc n) i shm_idx s =
    let found = alloc_shm_idx_from_word s i in
    elim (found.0 == 0) [ true ↦ search_map n (i + 1) found.0 found.1 | false ↦ found ]

-- `while (shm_idx * 16 >= shm_size) shm_size += FSYNC_SHM_PAGE_SIZE;` on fuel.
unfoldable pub expand : ℕ → ℕ → ℕ → ℕ
expand zero shm_idx size = size
expand (suc n) shm_idx size = elim (leb size (shm_idx * 16)) [
  | true ↦ expand n shm_idx (size + page_size)
  | false ↦ size
]

-- The part of fsync_alloc_shm below the search: expand the section and initialise the slot.
unfoldable pub init_slot : ℕ → ℕ → ℕ × Shm → ℕ × Shm
init_slot low high (shm_idx, s) = (
  shm_idx,
  record s {
    shm_size = expand (shm_idx * 16 + 1) shm_idx s.shm_size;
    slots = update s.slots shm_idx (record { low = low; high = high; ref = 1; last_pid = 0 });
  },
)

unfoldable pub grow_map : Shm → Shm
grow_map s = record s { free_map = s.free_map ++ replicate 256 all_free }

-- `garbage` is what the uninitialised `shm_idx` holds, `memory` whether realloc succeeds.
unfoldable pub fsync_alloc_shm : ℕ → Bool → ℕ → ℕ → Shm → ℕ × Shm
fsync_alloc_shm garbage memory low high s =
    let found = search_map (length s.free_map - s.hint) s.hint garbage s in
    let old_size = length found.1.free_map in
    if not s.is_fsync_initialized
    then (0, s)
    else if found.0 == 0
    then if memory
      then init_slot low high (alloc_shm_idx_from_word (grow_map found.1) old_size)
      else (0, found.1)
    else init_slot low high found

abbrev pub set_ref : Shm → ℕ → ℕ → Shm
set_ref s idx n = record s { slots = update s.slots idx (record (s.slots idx) { ref = n }) }

-- Mark the index as free again.
unfoldable pub release_idx : Shm → ℕ → Option Shm
release_idx s shm_idx =
    let idx = shm_idx / 64 in
    let bit = shm_idx % 64 in
    if test_bit (word s.free_map idx) bit
    then none
    else some (record s {
      free_map = set s.free_map idx (set_bit (word s.free_map idx) bit);
      hint = if ltb idx s.hint then idx else s.hint;
    })

unfoldable pub fsync_free_shm_idx : Shm → ℕ → Option Shm
fsync_free_shm_idx s shm_idx =
    let ref = (s.slots shm_idx).ref in
    if shm_idx == 0
    then none
    else if leb (length s.free_map * 64) shm_idx
    then none
    else if le_zero32 ref
    then some s
    else if ref - 1 == 0
    then release_idx (set_ref s shm_idx (ref - 1)) shm_idx
    else some (set_ref s shm_idx (ref - 1))

-- The request fsync_free_shm_idx: `inl` where the server sets STATUS_INVALID_PARAMETER.
unfoldable pub free_shm_idx_request : Shm → ℕ → Option Shm × Bool
free_shm_idx_request s shm_idx =
    if shm_idx == 0
    then (some s, false)
    else if leb (length s.free_map * 64) shm_idx
    then (some s, false)
    else (fsync_free_shm_idx s shm_idx, true)

-- The process held the last reference to the index when it was killed.
abbrev pub is_stale : ℕ → Slot → Bool
is_stale id slot = slot.last_pid == id && slot.ref == 1

-- The inner loop of fsync_cleanup_process_shm_indices: the bits left, word, bit, the word's value
-- when the loop began, and the process.
unfoldable pub cleanup_bits : ℕ → ℕ → ℕ → ℕ → ℕ → Shm → Option Shm
cleanup_bits zero i j free_word id s = some s
cleanup_bits (suc n) i j free_word id s =
    let idx = i * 64 + j in
    elim (not (test_bit free_word j) && is_stale id (s.slots idx)) [
      | true ↦ elim (fsync_free_shm_idx s idx) [
        | none ↦ none
        | some s' ↦ cleanup_bits n i (j + 1) free_word id s'
      ]
      | false ↦ cleanup_bits n i (j + 1) free_word id s
    ]

-- The body of the outer loop. Bit 0 of word 0 is not looked at.
unfoldable pub cleanup_word : ℕ → ℕ → Shm → Option Shm
cleanup_word i id s =
    let free_word = word s.free_map i in
    let first : ℕ = if i == 0 then 1 else 0 in
    if free_word == all_free then some s else cleanup_bits (64 - first) i first free_word id s

unfoldable pub cleanup_words : ℕ → ℕ → ℕ → Shm → Option Shm
cleanup_words zero i id s = some s
cleanup_words (suc n) i id s = elim (cleanup_word i id s) [
  | none ↦ none
  | some s' ↦ cleanup_words n (i + 1) id s'
]

unfoldable pub fsync_cleanup_process_shm_indices : ℕ → Shm → Option Shm
fsync_cleanup_process_shm_indices id s = cleanup_words (length s.free_map) 0 id s
