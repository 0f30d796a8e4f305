-- ===== src/ServerFsync/Free.antt =====
-- fsync_free_shm_idx of server/fsync_pro10.c.
use menano.Prelude.{
  ℕ, ◌+◌, ◌-◌, ◌*◌, ◌/◌, ◌%◌, ◌<◌, ◌≡◌, refl, ◌≢◌, inl, inr, true, false, not, ◌&&◌, some, arith,
  length, length-set, if◌then◌else◌, ◌==◌, Bool-cases, ltb, set,
}
use menano.Prelude.Words.{set_bit, set_bit-lt, le_zero32}
use menano.ServerFsync.Defs.{Shm, word, update, set_ref, release_idx, fsync_free_shm_idx}
use menano.ServerFsync.FreeMap.{bit_at-set, word-set}
use menano.ServerFsync.Invariant.{IsValid, is_free}

-- One reference to `idx` is given up: the last one frees the index, a count that is not positive is
-- left alone, and nothing else changes.
pub record Dereferenced (s : Shm) (idx : ℕ) (s' : Shm) : Type 0 where
  pub free_after :
      (j : ℕ) → is_free s' j ≡ (if idx == j && (s.slots idx).ref == 1 then true else is_free s j)
  pub slots_after :
      (j : ℕ)
      → s'.slots j ≡ (
          if idx == j && not (le_zero32 (s.slots idx).ref)
          then record (s.slots idx) { ref = (s.slots idx).ref - 1 }
          else s.slots j)
  pub valid : IsValid s'
  pub same_length : length s'.free_map ≡ length s.free_map

module _ (s : Shm) (idx : ℕ) (v : IsValid s) (nonzero : idx ≢ 0)
    (inside : idx < length s.free_map * 64) (used : is_free s idx ≡ false) where
  abbrev i : ℕ
  i = idx / 64

  abbrev w : ℕ
  w = set_bit (word s.free_map i) (idx % 64)

  released : Shm
  released = record s {
    free_map = set s.free_map i w;
    hint = if ltb i s.hint then i else s.hint;
    slots = update s.slots idx (record (s.slots idx) { ref = (s.slots idx).ref - 1 });
  }

  released_free : (j : ℕ) → is_free released j ≡ (if idx == j then true else is_free s j)
  unfolding released
  released_free j =
      let e : i * 64 + idx % 64 ≡ idx = omega arith in
      ground (arith, bit_at-set s.free_map i (idx % 64) j (omega arith) (omega arith))

  released_word : (k : ℕ) → word released.free_map k ≡ (if i == k then w else word s.free_map k)
  unfolding released
  released_word k = word-set s.free_map i w k (omega arith)

  released-IsValid : IsValid released
  unfolding released
  released-IsValid = record {
    words = λ k. ground (
      arith,
      released_word k,
      v.words k,
      set_bit-lt 64 (word s.free_map i) (idx % 64) (v.words i),
    );
    reserved = ground (arith, released_free 0, v.reserved);
    nonempty = omega (arith, v.nonempty, length-set s.free_map i w);
    hint_first = λ k h. ground (arith, released_word k, v.hint_first k);
    hint_le = ground (arith, length-set s.free_map i w, v.hint_le);
    pages = v.pages;
    mapped = λ j h. ground (arith, released_free j, v.mapped j);
  }

  last_ref : (s.slots idx).ref ≡ 1 → fsync_free_shm_idx s idx ≡ some released
  unfolding fsync_free_shm_idx release_idx released
  last_ref e = ground arith

  more_refs :
      le_zero32 (s.slots idx).ref ≡ false
      → (s.slots idx).ref ≢ 1
      → fsync_free_shm_idx s idx ≡ some (set_ref s idx ((s.slots idx).ref - 1))
  unfolding fsync_free_shm_idx
  more_refs p e = ground arith

  no_refs : le_zero32 (s.slots idx).ref ≡ true → fsync_free_shm_idx s idx ≡ some s
  unfolding fsync_free_shm_idx
  no_refs p = ground arith

  -- Freeing an index in use never fails an assert, and gives up exactly one reference to it.
  pub fsync_free_shm_idx-Dereferenced :
      (s' : Shm) × (fsync_free_shm_idx s idx ≡ some s') × Dereferenced s idx s'
  fsync_free_shm_idx-Dereferenced = elim (Bool-cases (le_zero32 (s.slots idx).ref)) [
    | inl none_left ↦ (
      s,
      no_refs none_left,
      record {
        free_after = λ j. ground arith;
        slots_after = λ j. ground arith;
        valid = v;
        same_length = refl;
      },
    )
    | inr positive ↦ elim (Bool-cases ((s.slots idx).ref == 1)) [
      | inl last ↦ (
        released,
        last_ref (ground arith),
        record {
          free_after = λ j. ground (arith, released_free j);
          slots_after = λ j. unfold released in ground arith;
          valid = released-IsValid;
          same_length = unfold released in length-set s.free_map i w;
        },
      )
      | inr more ↦ (
        set_ref s idx ((s.slots idx).ref - 1),
        more_refs positive (ground arith),
        record {
          free_after = λ j. ground arith;
          slots_after = λ j. ground arith;
          valid = record {
            words = v.words;
            reserved = v.reserved;
            nonempty = v.nonempty;
            hint_first = v.hint_first;
            hint_le = v.hint_le;
            pages = v.pages;
            mapped = v.mapped;
          };
          same_length = refl;
        },
      )
    ]
  ]
