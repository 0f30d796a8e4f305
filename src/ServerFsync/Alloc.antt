-- ===== src/ServerFsync/Alloc.antt =====
-- fsync_alloc_shm of server/fsync_pro10.c, whole.
use menano.Prelude.{
  ℕ, ◌+◌, ◌-◌, ◌*◌, ◌%◌, ◌≤◌, ◌<◌, ◌≡◌, refl, ◌≢◌, inl, inr, true, false, arith, length,
  length-append, length-replicate, get_or_beyond, if◌then◌else◌, ◌==◌, ap, sym, ◌∙◌, replicate,
  Bool,
}
use menano.Prelude.Words.{test_bit}
use menano.ServerFsync.Defs.{
  Slot, Shm, all_free, word, alloc_shm_idx_from_word, search_map, expand, init_slot, grow_map,
  fsync_alloc_shm,
}
use menano.ServerFsync.FreeMap.{word-grow}
use menano.ServerFsync.Invariant.{IsValid, is_free, max_words}
use menano.ServerFsync.TakeIndex.{Takes, alloc_shm_idx_from_word-Takes}
use menano.ServerFsync.Search.{
  Searched, search_map-Searched, Takes-ne-zero, Expands, expand-Expands,
}

-- The result of an allocation: the index was free and is not 0, no other index changes hands, its
-- slot alone is written, and the state stays valid.
pub record Allocated (low high : ℕ) (s : Shm) (idx : ℕ) (s' : Shm) : Type 0 where
  pub nonzero : idx ≢ 0
  pub fresh : is_free s idx ≡ true
  pub taken : (j : ℕ) → is_free s' j ≡ (if idx == j then false else is_free s j)
  pub written :
      (j : ℕ)
      → s'.slots j
        ≡ (if idx == j then record { low = low; high = high; ref = 1; last_pid = 0 } else s.slots j)
  pub inside : idx < length s'.free_map * 64
  pub valid : IsValid s'

-- The rest of the function, once an index is taken.
init_slot-Allocated :
    (low high : ℕ) (s : Shm) (idx : ℕ) (t : Shm)
    → IsValid s
    → Takes s idx t
    → Allocated low high s (init_slot low high (idx, t)).0 (init_slot low high (idx, t)).1
unfolding init_slot
init_slot-Allocated low high s idx t v k = record {
  nonzero = ne;
  fresh = k.fresh;
  taken = k.taken;
  written = λ j. ground (arith, ap (λ (f : ℕ → Slot). f j) k.slots_same);
  inside = k.inside;
  valid = record {
    words = k.words;
    reserved = ground (arith, k.taken 0, v.reserved);
    nonempty = omega (arith, v.nonempty, k.long);
    hint_first = k.hint_first;
    hint_le = k.hint_le;
    pages = x.whole (rw k.size_same v.pages);
    mapped = λ j h. ground (arith, k.taken j, v.mapped j, x.covers, x.grows, k.size_same);
  };
}
  where
    ne : idx ≢ 0
    ne = Takes-ne-zero s t idx v.reserved k

    x : Expands idx t.shm_size (expand (idx * 16 + 1) idx t.shm_size)
    x = expand-Expands (idx * 16 + 1) idx t.shm_size (omega arith)

Takes-of_same :
    (s g t : Shm) (idx : ℕ)
    → ((j : ℕ) → is_free g j ≡ is_free s j)
    → length s.free_map ≤ length g.free_map
    → g.shm_size ≡ s.shm_size
    → g.slots ≡ s.slots
    → Takes g idx t
    → Takes s idx t
Takes-of_same s g t idx same longer size slots k = record {
  fresh = sym (same idx) ∙ k.fresh;
  taken = λ j. k.taken j ∙ ap (λ o. if idx == j then false else o) (same j);
  words = k.words;
  hint_first = k.hint_first;
  hint_le = k.hint_le;
  long = omega (arith, k.long, longer);
  inside = k.inside;
  size_same = k.size_same ∙ size;
  slots_same = k.slots_same ∙ slots;
}

-- A full map is grown by 256 words, and the index comes from the first of them.
module _ (s : Shm) (v : IsValid s) (b : length s.free_map + 256 ≤ max_words)
    (full : (k : ℕ) → k < length s.free_map → word s.free_map k ≡ 0) where
  length-grow_map : length (grow_map s).free_map ≡ length s.free_map + 256
  unfolding grow_map
  length-grow_map =
      omega
        (arith, length-append s.free_map (replicate 256 all_free), length-replicate 256 all_free)

  word-grow_map : (k : ℕ) → word (grow_map s).free_map k ≡ word s.free_map k
  unfolding grow_map
  word-grow_map k = word-grow s.free_map 256 k

  new_word : word (grow_map s).free_map (length s.free_map) ≢ 0
  new_word e = omega (
    arith,
    word-grow_map (length s.free_map),
    get_or_beyond s.free_map (length s.free_map) all_free (omega arith),
    e,
  )

  grow_map-Takes :
      Takes s
        (alloc_shm_idx_from_word (grow_map s) (length s.free_map)).0
        (alloc_shm_idx_from_word (grow_map s) (length s.free_map)).1
  unfolding grow_map
  grow_map-Takes =
      Takes-of_same s (grow_map s) _ _ (λ j. ap (λ w. test_bit w (j % 64)) (word-grow_map _))
        (omega (arith, length-grow_map)) refl refl
        (alloc_shm_idx_from_word-Takes (grow_map s) (length s.free_map)
          (λ k. rw (word-grow_map k) (v.words k)) (λ k h. rw (word-grow_map k) (full k h))
          (omega (arith, length-grow_map)) (omega (arith, length-grow_map)) new_word)

module _ (s : Shm) (v : IsValid s) (garbage low high : ℕ) (ready : s.is_fsync_initialized ≡ true)
    (b : length s.free_map + 256 ≤ max_words) (hint_in : s.hint < length s.free_map) where
  found : ℕ × Shm
  found = search_map (length s.free_map - s.hint) s.hint garbage s

  found-Searched : Searched (length s.free_map - s.hint) garbage s found
  unfolding found
  found-Searched =
      search_map-Searched (length s.free_map - s.hint) s.hint garbage s v.words v.reserved
        (omega arith) v.hint_first (omega (arith, v.hint_le))

  alloc_hit : found.0 ≢ 0 → fsync_alloc_shm garbage true low high s ≡ init_slot low high found
  unfolding fsync_alloc_shm found
  alloc_hit ne = ground arith

  alloc_grow :
      found.0 ≡ 0
      → found.1 ≡ s
      → fsync_alloc_shm garbage true low high s
        ≡ init_slot low high (alloc_shm_idx_from_word (grow_map s) (length s.free_map))
  unfolding fsync_alloc_shm found
  alloc_grow zero_idx same = ground arith

  -- An allocation on an initialised section, with memory and a hint inside the map: it returns an
  -- index that was free and is not 0, whatever the uninitialised variable holds.
  pub fsync_alloc_shm-Allocated :
      Allocated low high s
        (fsync_alloc_shm garbage true low high s).0
        (fsync_alloc_shm garbage true low high s).1
  fsync_alloc_shm-Allocated = elim found-Searched [
    | inl (t, ne) ↦ rw (alloc_hit ne) (init_slot-Allocated low high s found.0 found.1 v t)
    | inr (same, full, _, looked) ↦
        rw (alloc_grow (looked (omega arith)) same)
          (init_slot-Allocated low high s _ _ v (grow_map-Takes s v b full))
  ]

-- With the hint past the map the search loop makes no round: the uninitialised variable, if it is
-- not 0, is returned as the index, and that index's slot is overwritten, free or not.
pub fsync_alloc_shm_uninitialised :
    (s : Shm) (garbage low high : ℕ) (memory : Bool)
    → s.is_fsync_initialized ≡ true
    → length s.free_map ≤ s.hint
    → garbage ≢ 0
    → let r = fsync_alloc_shm garbage memory low high s in
      (r.0 ≡ garbage)
      × (r.1.free_map ≡ s.free_map)
      × (r.1.slots garbage ≡ record { low = low; high = high; ref = 1; last_pid = 0 })
unfolding fsync_alloc_shm init_slot search_map
fsync_alloc_shm_uninitialised s garbage low high memory ready past ne =
    let e : length s.free_map - s.hint ≡ 0 = omega arith in rw (e, ready) (ground arith)
