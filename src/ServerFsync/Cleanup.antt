-- ===== src/ServerFsync/Cleanup.antt =====
-- fsync_cleanup_process_shm_indices of server/fsync_pro10.c.
use menano.Prelude.{
  ℕ, zero, suc, ◌+◌, ◌-◌, ◌*◌, ◌/◌, ◌%◌, ◌≤◌, ◌<◌, ◌≡◌, refl, inl, inr, Bool, true, false, not,
  ◌&&◌, Option, some, arith, length, if◌then◌else◌, ◌==◌, Bool-cases, leb, ltb, ◌∙◌, ==_iff,
}
use menano.Prelude.Words.{test_bit, test_bit-ones}
use menano.ServerFsync.Defs.{
  Shm, word, all_free, is_stale, cleanup_bits, cleanup_word, cleanup_words,
  fsync_cleanup_process_shm_indices, fsync_free_shm_idx,
}
use menano.ServerFsync.Invariant.{IsValid, is_free}
use menano.ServerFsync.Free.{Dereferenced, fsync_free_shm_idx-Dereferenced}

-- Index `k` lies from `lo` to below `hi`, is in use, and its last reference is the process `id`'s.
abbrev pub swept : ℕ → ℕ → ℕ → Shm → ℕ → Bool
swept id lo hi s k = leb lo k && ltb k hi && not (is_free s k) && is_stale id (s.slots k)

-- Exactly these indices are freed, and nothing else changes.
pub record Swept (id lo hi : ℕ) (s s' : Shm) : Type 0 where
  pub free_after : (k : ℕ) → is_free s' k ≡ (if swept id lo hi s k then true else is_free s k)
  pub slots_after :
      (k : ℕ)
      → s'.slots k ≡ (if swept id lo hi s k then record (s.slots k) { ref = 0 } else s.slots k)
  pub valid : IsValid s'
  pub same_length : length s'.free_map ≡ length s.free_map

Swept-none :
    (id lo hi : ℕ) (s : Shm)
    → IsValid s
    → ((k : ℕ) → swept id lo hi s k ≡ false)
    → Swept id lo hi s s
Swept-none id lo hi s v none_of = record {
  free_after = λ k. rw (none_of k);
  slots_after = λ k. rw (none_of k);
  valid = v;
  same_length = refl;
}

module _ (id lo mid hi : ℕ) (s t u : Shm) (p : lo ≤ mid) (q : mid ≤ hi) (a : Swept id lo mid s t)
    (c : Swept id mid hi t u) where
  free_trans : (k : ℕ) → is_free u k ≡ (if swept id lo hi s k then true else is_free s k)
  free_trans k = ground (arith, a.free_after k, c.free_after k, a.slots_after k)

  slots_trans :
      (k : ℕ)
      → u.slots k ≡ (if swept id lo hi s k then record (s.slots k) { ref = 0 } else s.slots k)
  slots_trans k = ground (arith, a.free_after k, c.slots_after k, a.slots_after k)

  Swept-trans : Swept id lo hi s u
  Swept-trans = record {
    free_after = free_trans;
    slots_after = slots_trans;
    valid = c.valid;
    same_length = c.same_length ∙ a.same_length;
  }

Dereferenced-Swept :
    (id k : ℕ) (s t : Shm)
    → is_free s k ≡ false
    → is_stale id (s.slots k) ≡ true
    → Dereferenced s k t
    → Swept id k (k + 1) s t
Dereferenced-Swept id k s t used stale d = record {
  free_after = λ j. ground (arith, d.free_after j);
  slots_after = λ j. ground (arith, d.slots_after j);
  valid = d.valid;
  same_length = d.same_length;
}

abbrev Cleans : ℕ → ℕ → ℕ → Shm → Option Shm → Type 0
Cleans id lo hi s r = (s' : Shm) × (r ≡ some s') × Swept id lo hi s s'

-- The bits of word `i` from `j` on. `free_word` was read before the loop; it still shows the bits
-- that are not yet passed.
module _ (id i free_word : ℕ) where
  abbrev Fits : ℕ → Shm → Type 0
  Fits j s = (k : ℕ) → j ≤ k → k < 64 → test_bit free_word k ≡ is_free s (i * 64 + k)

  cleanup_bits-step :
      (n j : ℕ) (s t : Shm)
      → (not (test_bit free_word j) && is_stale id (s.slots (i * 64 + j))) ≡ true
      → fsync_free_shm_idx s (i * 64 + j) ≡ some t
      → cleanup_bits (suc n) i j free_word id s ≡ cleanup_bits n i (j + 1) free_word id t
  unfolding cleanup_bits
  cleanup_bits-step n j s t h e = rw (h, e, cleanup_bits)

  cleanup_bits-skip :
      (n j : ℕ) (s : Shm)
      → (not (test_bit free_word j) && is_stale id (s.slots (i * 64 + j))) ≡ false
      → cleanup_bits (suc n) i j free_word id s ≡ cleanup_bits n i (j + 1) free_word id s
  unfolding cleanup_bits
  cleanup_bits-skip n j s h = rw (h, cleanup_bits)

  abbrev hits : ℕ → Shm → Bool
  hits j s = not (test_bit free_word j) && is_stale id (s.slots (i * 64 + j))

  free_stale :
      (j : ℕ) (s : Shm)
      → IsValid s
      → i < length s.free_map
      → 0 < i * 64 + j
      → j < 64
      → Fits j s
      → hits j s ≡ true
      → (t : Shm) × (fsync_free_shm_idx s (i * 64 + j) ≡ some t)
        × Swept id (i * 64 + j) (i * 64 + j + 1) s t
        × Fits (j + 1) t
  free_stale j s v h p b fits hit = (d.0, d.1, one, λ k a c. later k a c)
    where
      used : is_free s (i * 64 + j) ≡ false
      used = ground (arith, fits j (omega arith) b)

      d : (t : Shm) × (fsync_free_shm_idx s (i * 64 + j) ≡ some t) × Dereferenced s (i * 64 + j) t
      d = fsync_free_shm_idx-Dereferenced s (i * 64 + j) v (omega arith) (omega arith) used

      one : Swept id (i * 64 + j) (i * 64 + j + 1) s d.0
      one = Dereferenced-Swept id (i * 64 + j) s d.0 used (ground arith) d.2

      later : (k : ℕ) → j + 1 ≤ k → k < 64 → test_bit free_word k ≡ is_free d.0 (i * 64 + k)
      later k a c = ground (arith, fits k (omega arith) c, d.2.free_after (i * 64 + k))

  live_bit :
      (j : ℕ) (s : Shm)
      → IsValid s
      → j < 64
      → Fits j s
      → hits j s ≡ false
      → Swept id (i * 64 + j) (i * 64 + j + 1) s s
  live_bit j s v b fits miss = Swept-none id (i * 64 + j) (i * 64 + j + 1) s v (λ k. here k)
    where
      here : (k : ℕ) → swept id (i * 64 + j) (i * 64 + j + 1) s k ≡ false
      here k = elim (Bool-cases (i * 64 + j == k)) [
        | inl same ↦
            let e : i * 64 + j ≡ k = (==_iff _ k).0 same in
            rw (← e) (ground (arith, fits j (omega arith) b))
        | inr other ↦ ground arith
      ]

  -- One round of the loop, given what the rounds after it do.
  module _ (n j : ℕ) (s : Shm) (v : IsValid s) (h : i < length s.free_map) (p : 0 < i * 64 + j)
      (b : j < 64) (fits : Fits j s)
      (rest : (t : Shm)
        → IsValid t
        → i < length t.free_map
        → Fits (j + 1) t
        → Cleans id
            (i * 64 + j + 1)
            (i * 64 + 64)
            t
            (cleanup_bits n i (j + 1) free_word id t)) where
    tail :
        (t : Shm)
        → Swept id (i * 64 + j) (i * 64 + j + 1) s t
        → Fits (j + 1) t
        → cleanup_bits (suc n) i j free_word id s ≡ cleanup_bits n i (j + 1) free_word id t
        → Cleans id (i * 64 + j) (i * 64 + 64) s (cleanup_bits (suc n) i j free_word id s)
    tail t one fits' step = (
      r.0,
      step ∙ r.1,
      Swept-trans id (i * 64 + j) (i * 64 + j + 1) (i * 64 + 64) s t r.0 (omega arith) (omega arith)
          one r.2,
    )
      where
        r : Cleans id (i * 64 + j + 1) (i * 64 + 64) t (cleanup_bits n i (j + 1) free_word id t)
        r = rest t one.valid (omega (arith, one.same_length)) fits'

    round-Swept : Cleans id (i * 64 + j) (i * 64 + 64) s (cleanup_bits (suc n) i j free_word id s)
    round-Swept = elim (Bool-cases (hits j s)) [
      | inl stale ↦
          let d = free_stale j s v h p b fits stale in
          tail d.0 d.2 d.3 (cleanup_bits-step n j s d.0 stale d.1)
      | inr live ↦
          tail s (live_bit j s v b fits live) (λ k a c. fits k (omega arith) c)
            (cleanup_bits-skip n j s live)
    ]

  cleanup_bits-Swept :
      (n j lo : ℕ) (s : Shm)
      → IsValid s
      → i < length s.free_map
      → 0 < lo
      → lo ≡ i * 64 + j
      → j + n ≡ 64
      → Fits j s
      → Cleans id lo (i * 64 + 64) s (cleanup_bits n i j free_word id s)
  cleanup_bits-Swept zero j lo s v h p l e fits =
      (s, unfold cleanup_bits in refl, Swept-none id lo (i * 64 + 64) s v (λ k. ground arith))
  cleanup_bits-Swept (suc n) j lo s v h p l e fits = rw l (
      round-Swept n j s v h (omega arith) (omega arith) fits (λ t v' h' f.
        cleanup_bits-Swept n (j + 1) (i * 64 + j + 1) t v' h' (omega arith) (omega arith)
          (omega arith) f))

-- The first index of a word that is looked at.
abbrev first_of_word : ℕ → ℕ
first_of_word i = if i == 0 then 1 else i * 64

module _ (i id : ℕ) (s : Shm) (v : IsValid s) (h : i < length s.free_map) where
  full_word : word s.free_map i ≡ all_free → (k : ℕ) → k / 64 ≡ i → is_free s k ≡ true
  full_word full k e = rw (e, full) (test_bit-ones 64 (k % 64) (omega arith))

  bits_of_word : Fits id i (word s.free_map i) 0 s
  bits_of_word k a b =
      let q : (i * 64 + k) / 64 ≡ i = omega arith in
      let r : (i * 64 + k) % 64 ≡ k = omega arith in rw (q, r)

  full-Swept : word s.free_map i ≡ all_free → Swept id (first_of_word i) (i * 64 + 64) s s
  full-Swept full =
      Swept-none id (first_of_word i) (i * 64 + 64) s v (λ k. ground (arith, full_word full k))

  from_first :
      (first : ℕ)
      → first ≤ 64
      → 0 < i * 64 + first
      → Cleans id
          (i * 64 + first)
          (i * 64 + 64)
          s
          (cleanup_bits (64 - first) i first (word s.free_map i) id s)
  from_first first a b =
      cleanup_bits-Swept id i (word s.free_map i) (64 - first) first (i * 64 + first) s v h b refl
        (omega arith) (λ k c d. bits_of_word k (omega arith) d)

  partly-Swept : Cleans id (first_of_word i) (i * 64 + 64) s (
      let first : ℕ = if i == 0 then 1 else 0 in
      cleanup_bits (64 - first) i first (word s.free_map i) id s)
  partly-Swept = elim (Bool-cases (i == 0)) [
    | inl yes_first ↦
        let e : i ≡ 0 = (==_iff i 0).0 yes_first in
        let l : first_of_word i ≡ i * 64 + 1 = ground arith in
        rw (l, yes_first) (from_first 1 (omega arith) (omega arith))
    | inr later ↦
        let l : first_of_word i ≡ i * 64 + 0 = ground arith in
        rw (l, later) (from_first 0 (omega arith) (ground arith))
  ]

  cleanup_word-Swept : Cleans id (first_of_word i) (i * 64 + 64) s (cleanup_word i id s)
  unfolding cleanup_word
  cleanup_word-Swept = elim (Bool-cases (word s.free_map i == all_free)) [
    | inl full ↦ rw (full, cleanup_word) (s, refl, full-Swept ((==_iff _ _).0 full))
    | inr partly ↦ rw (partly, cleanup_word) partly-Swept
  ]

module _ (n i id size : ℕ) (s : Shm) (v : IsValid s) (e : i + suc n ≡ size)
    (len : length s.free_map ≡ size)
    (rest : (t : Shm)
      → IsValid t
      → length t.free_map ≡ size
      → Cleans id (i * 64 + 64) (size * 64) t (cleanup_words n (i + 1) id t)) where
  this_word : Cleans id (first_of_word i) (i * 64 + 64) s (cleanup_word i id s)
  this_word = cleanup_word-Swept i id s v (omega arith)

  other_words :
      Cleans id (i * 64 + 64) (size * 64) this_word.0 (cleanup_words n (i + 1) id this_word.0)
  other_words = rest this_word.0 this_word.2.valid (this_word.2.same_length ∙ len)

  one_word : cleanup_words (suc n) i id s ≡ cleanup_words n (i + 1) id this_word.0
  unfolding cleanup_words
  one_word = rw (this_word.1, cleanup_words)

  words_round : Cleans id (first_of_word i) (size * 64) s (cleanup_words (suc n) i id s)
  words_round = (
    other_words.0,
    one_word ∙ other_words.1,
    Swept-trans id (first_of_word i) (i * 64 + 64) (size * 64) s this_word.0 other_words.0
        (ground arith) (omega arith) this_word.2 other_words.2,
  )

cleanup_words-Swept :
    (n i id lo size : ℕ) (s : Shm)
    → IsValid s
    → i + n ≡ size
    → length s.free_map ≡ size
    → lo ≡ first_of_word i
    → Cleans id lo (size * 64) s (cleanup_words n i id s)
cleanup_words-Swept zero i id lo size s v e len l =
    (s, unfold cleanup_words in refl, Swept-none id lo (size * 64) s v (λ k. ground arith))
cleanup_words-Swept (suc n) i id lo size s v e len l = rw l (
    words_round n i id size s v e len (λ t v' len'.
      cleanup_words-Swept n (i + 1) id (i * 64 + 64) size t v' (omega arith) len' (ground arith)))

-- Cleaning up after a killed process fails no assert, keeps the state valid, and frees exactly the
-- indices in use from 1 on whose last reference is that process's.
pub fsync_cleanup_process_shm_indices-Swept :
    (id : ℕ) (s : Shm)
    → IsValid s
    → (s' : Shm) × (fsync_cleanup_process_shm_indices id s ≡ some s')
      × Swept id 1 (length s.free_map * 64) s s'
unfolding fsync_cleanup_process_shm_indices
fsync_cleanup_process_shm_indices-Swept id s v =
    cleanup_words-Swept (length s.free_map) 0 id 1 (length s.free_map) s v (omega arith) refl refl
