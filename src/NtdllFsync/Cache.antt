-- ===== src/NtdllFsync/Cache.antt =====
-- dlls/ntdll/unix/fsync_pro10.c: the table that caches the fsync object of a handle.
use menano.Prelude.{
  ℕ, ◌+◌, ◌-◌, ◌*◌, ◌/◌, ◌%◌, ◌^◌, ◌≤◌, ◌<◌, ◌≡◌, refl, Bool, true, false, ◌&&◌, Option, none, some,
  arith, leb, ◌==◌, if◌then◌else◌, Option-cases, Bool-cases, inl, inr, ==_iff, not, ◌||◌,
}
use menano.ServerFsync.Objects.{FsyncType}

-- A handle is a number below 2^64. The block size is 65536 / sizeof(struct fsync).
abbrev pub list_block_size : ℕ
list_block_size = 4096

abbrev pub list_entries : ℕ
list_entries = 256

pub record CacheEntry : Type 0 where
  pub type : Option FsyncType
  pub shm_idx : ℕ

abbrev pub empty_entry : CacheEntry
empty_entry = record { type = none; shm_idx = 0 }

-- `fsync_list`: a block is allocated when an entry of it is first stored.
abbrev pub FsyncList : Type 0
FsyncList = ℕ → Option (ℕ → CacheEntry)

-- `(handle >> 2) - 1`, as the number of a block and an index into it.
unfoldable pub handle_to_index : ℕ → ℕ × ℕ
handle_to_index handle =
    let idx = (handle / 4 + 2 ^ 64 - 1) % 2 ^ 64 in (idx / list_block_size, idx % list_block_size)

abbrev pub update_entry : (ℕ → CacheEntry) → ℕ → CacheEntry → ℕ → CacheEntry
update_entry f i v j = if i == j then v else f j

abbrev pub update_block : FsyncList → ℕ → (ℕ → CacheEntry) → FsyncList
update_block l i b j = if i == j then some b else l j

unfoldable pub store : FsyncList → ℕ → ℕ → CacheEntry → FsyncList
store l entry idx v = elim (l entry) [
  | none ↦ update_block l entry (update_entry (λ _. empty_entry) idx v)
  | some b ↦ update_block l entry (update_entry b idx v)
]

abbrev has_block : FsyncList → ℕ → Bool
has_block l entry = elim (l entry) [ none ↦ false | some _ ↦ true ]

-- `memory`: whether anon_mmap_alloc succeeds; the first block is static.
unfoldable pub add_to_list : Bool → ℕ → FsyncType → ℕ → FsyncList → FsyncList
unfolding store
add_to_list memory handle type shm_idx l =
    let (entry, idx) = handle_to_index handle in
    if leb list_entries entry
    then l
    else if not (has_block l entry) && not (entry == 0) && not memory
    then l
    else store l entry idx (record { type = some type; shm_idx = shm_idx })

unfoldable pub read : FsyncList → ℕ → ℕ → CacheEntry
read l entry idx = elim (l entry) [ none ↦ empty_entry | some b ↦ b idx ]

-- What the load of get_cached_object reads: the entry of the handle, if it is in the table at all.
unfoldable pub load : ℕ → FsyncList → CacheEntry
unfolding read
load handle l =
    let (entry, idx) = handle_to_index handle in
    if leb list_entries entry then empty_entry else read l entry idx

-- Whether the handle was cached, and the table without it.
unfoldable pub fsync_close : ℕ → FsyncList → Bool × FsyncList
unfolding store
fsync_close handle l =
    let (entry, idx) = handle_to_index handle in
    if leb list_entries entry || not (has_block l entry)
    then (false, l)
    else (elim (load handle l).type [ none ↦ false | some _ ↦ true ], store l entry idx empty_entry)

-- A handle that the table has room for.
abbrev pub IsHandle : ℕ → Type 0
IsHandle h = (h % 4 ≡ 0) × (0 < h) × (h ≤ list_block_size * list_entries * 4)

read-store :
    (l : FsyncList) (e i e' i' : ℕ) (v : CacheEntry)
    → read (store l e i v) e' i' ≡ (if e == e' && i == i' then v else read l e' i')
unfolding read store
read-store l e i e' i' v = elim (Option-cases (l e)) [
  | inl empty ↦
      rw (empty, store)
        (elim (Bool-cases (e == e')) [
          | inl hit ↦
              let q : e ≡ e' = (==_iff e e').0 hit in
              let r : l e' ≡ none = rw (← q) empty in rw (hit, r, read) refl
          | inr miss ↦ rw (miss, read) refl
        ])
  | inr (b, full) ↦
      rw (full, store)
        (elim (Bool-cases (e == e')) [
          | inl hit ↦
              let q : e ≡ e' = (==_iff e e').0 hit in
              let r : l e' ≡ some b = rw (← q) full in rw (hit, r, read) refl
          | inr miss ↦ rw (miss, read) refl
        ])
]

abbrev block_of : ℕ → ℕ
block_of h = (handle_to_index h).0

abbrev place_of : ℕ → ℕ
place_of h = (handle_to_index h).1

block_of-lt : (h : ℕ) → IsHandle h → block_of h < list_entries
unfolding handle_to_index
block_of-lt h a = omega arith

-- Two such handles never share an entry.
place_injective :
    (h k : ℕ) → IsHandle h → IsHandle k → block_of h ≡ block_of k → place_of h ≡ place_of k → h ≡ k
unfolding handle_to_index
place_injective h k a b p q = omega arith

same_place :
    (h k : ℕ)
    → IsHandle h
    → IsHandle k
    → (block_of h == block_of k && place_of h == place_of k) ≡ (h == k)
same_place h k a b = elim (Bool-cases (h == k)) [
  | inl same ↦ let e : h ≡ k = (==_iff h k).0 same in rw e (ground arith)
  | inr other ↦ ground (arith, place_injective h k a b)
]

-- Storing an object under a handle and loading it again gives the object, and every other handle
-- loads what it did, if there is memory for the block.
pub load-add_to_list :
    (h k : ℕ) (type : FsyncType) (shm_idx : ℕ) (l : FsyncList)
    → IsHandle h
    → IsHandle k
    → load k (add_to_list true h type shm_idx l)
      ≡ (if h == k then record { type = some type; shm_idx = shm_idx } else load k l)
unfolding load add_to_list
load-add_to_list h k type shm_idx l a b = ground (
  arith,
  block_of-lt h a,
  block_of-lt k b,
  same_place h k a b,
  read-store l (block_of h) (place_of h) (block_of k) (place_of k)
      (record { type = some type; shm_idx = shm_idx }),
)

-- A closed handle is no longer cached, and every other handle loads what it did.
pub load-fsync_close :
    (h k : ℕ) (l : FsyncList)
    → IsHandle h
    → IsHandle k
    → load k (fsync_close h l).1 ≡ (if h == k then empty_entry else load k l)
unfolding load fsync_close
load-fsync_close h k l a b = ground (
  arith,
  block_of-lt h a,
  block_of-lt k b,
  same_place h k a b,
  read-store l (block_of h) (place_of h) (block_of k) (place_of k) empty_entry,
)
