-- ===== src/ServerFsync/Search.antt =====
-- The search loop of fsync_alloc_shm, and the loop that expands the section.
use menano.Prelude.{
  ℕ, zero, suc, ◌+◌, ◌*◌, ◌%◌, ◌^◌, ◌≤◌, ◌<◌, ◌≡◌, refl, ◌≢◌, ◌⊎◌, inl, inr, false, arith, length,
  Bool-cases, ◌==◌, ==_iff, leb, leb→le,
}
use menano.ServerFsync.Defs.{Shm, word, page_size, alloc_shm_idx_from_word, search_map, expand}
use menano.ServerFsync.Invariant.{is_free, max_words}
use menano.ServerFsync.TakeIndex.{Takes, alloc_shm_idx_from_word-Takes}

-- What the search gives from word `i` on with `n` words left.
abbrev pub Searched : ℕ → ℕ → Shm → ℕ × Shm → Type 0
Searched n garbage s r =
    (Takes s r.0 r.1 × (r.0 ≢ 0))
    ⊎ ((r.1 ≡ s)
        × ((k : ℕ) → k < length s.free_map → word s.free_map k ≡ 0)
        × (n ≡ 0 → r.0 ≡ garbage)
        × (0 < n → r.0 ≡ 0))

pub alloc_shm_idx_from_word_zero :
    (s : Shm) (i : ℕ) → word s.free_map i ≡ 0 → alloc_shm_idx_from_word s i ≡ (0, s)
unfolding alloc_shm_idx_from_word
alloc_shm_idx_from_word_zero s i e = ground arith

pub Takes-ne-zero : (s s' : Shm) (idx : ℕ) → is_free s 0 ≡ false → Takes s idx s' → idx ≢ 0
Takes-ne-zero s s' idx r t e = ground (arith, rw e at (t.fresh))

search_map_miss :
    (n i garbage : ℕ) (s : Shm)
    → word s.free_map i ≡ 0
    → search_map (suc n) i garbage s ≡ search_map n (i + 1) 0 s
unfolding search_map
search_map_miss n i garbage s e = ground (arith, alloc_shm_idx_from_word_zero s i)

search_map_hit :
    (n i garbage : ℕ) (s : Shm)
    → (alloc_shm_idx_from_word s i).0 ≢ 0
    → search_map (suc n) i garbage s ≡ alloc_shm_idx_from_word s i
unfolding search_map
search_map_hit n i garbage s ne = ground arith

pub search_map-Searched :
    (n i garbage : ℕ) (s : Shm)
    → ((k : ℕ) → word s.free_map k < 2 ^ 64)
    → is_free s 0 ≡ false
    → length s.free_map ≤ max_words
    → ((k : ℕ) → k < i → word s.free_map k ≡ 0)
    → i + n ≡ length s.free_map
    → Searched n garbage s (search_map n i garbage s)
unfolding search_map
search_map-Searched zero i garbage s w r b before e =
    inr (refl, (λ k h. before k (omega arith)), (λ _. refl), (λ h. absurd (omega arith)))
search_map-Searched (suc n) i garbage s w r b before e =
    elim (Bool-cases (word s.free_map i == 0)) [
      | inl empty ↦
          let none_here : word s.free_map i ≡ 0 = (==_iff _ 0).0 empty in
          rw (search_map_miss n i garbage s none_here) (
            skip (search_map n (i + 1) 0 s)
              (search_map-Searched n (i + 1) 0 s w r b (λ k h. extend k h none_here) (omega arith)))
      | inr hit ↦
          let t : Takes s (alloc_shm_idx_from_word s i).0 (alloc_shm_idx_from_word s i).1 =
            alloc_shm_idx_from_word-Takes s i w before (omega arith) b (ground arith) in
          let ne : (alloc_shm_idx_from_word s i).0 ≢ 0 = Takes-ne-zero s _ _ r t in
          rw (search_map_hit n i garbage s ne) (inl (t, ne))
    ]
  where
    extend : (k : ℕ) → k < i + 1 → word s.free_map i ≡ 0 → word s.free_map k ≡ 0
    extend k h z = elim (Bool-cases (k == i)) [
      | inl same ↦ let p : k ≡ i = (==_iff k i).0 same in rw p z
      | inr other ↦ before k (ground arith)
    ]

    skip : (q : ℕ × Shm) → Searched n 0 s q → Searched (suc n) garbage s q
    skip q (inl t) = inl t
    skip q (inr (same, zeros, stopped, looked)) =
        inr (same, zeros, (λ h. absurd (omega arith)), (λ _. pick n stopped looked))
      where
        pick : (m : ℕ) → (m ≡ 0 → q.0 ≡ 0) → (0 < m → q.0 ≡ 0) → q.0 ≡ 0
        pick zero f g = f refl
        pick (suc m) f g = g (omega arith)

-- The loop ends by its test, has added whole pages only, and added none that it did not need.
pub record Expands (shm_idx size size' : ℕ) : Type 0 where
  pub covers : shm_idx * 16 < size'
  pub grows : size ≤ size'
  pub whole : size % page_size ≡ 0 → size' % page_size ≡ 0
  pub least : (size' ≡ size) ⊎ (size' ≤ shm_idx * 16 + page_size)

pub expand-Expands :
    (n shm_idx size : ℕ) → shm_idx * 16 < size + n → Expands shm_idx size (expand n shm_idx size)
unfolding expand
expand-Expands zero shm_idx size h = record {
  covers = omega arith;
  grows = omega arith;
  whole = λ e. e;
  least = inl refl;
}
expand-Expands (suc n) shm_idx size h = elim (Bool-cases (leb size (shm_idx * 16))) [
  | inl more ↦
      rw (more, expand)
        (again (leb→le _ _ more) (expand-Expands n shm_idx (size + page_size) (omega arith)))
  | inr enough ↦
      rw (enough, expand)
        (record { covers = ground arith; grows = omega arith; whole = λ e. e; least = inl refl })
]
  where
    again :
        size ≤ shm_idx * 16
        → Expands shm_idx (size + page_size) (expand n shm_idx (size + page_size))
        → Expands shm_idx size (expand n shm_idx (size + page_size))
    again le r = record {
      covers = r.covers;
      grows = omega arith;
      whole = λ e. r.whole (omega arith);
      least = inr (ground arith);
    }
