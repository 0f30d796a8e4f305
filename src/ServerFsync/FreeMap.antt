-- ===== src/ServerFsync/FreeMap.antt =====
-- The free map as a function from an index to whether it is free.
use menano.Prelude.{
  ℕ, zero, suc, ◌+◌, ◌-◌, ◌*◌, ◌/◌, ◌%◌, ◌^◌, ◌≤◌, ◌<◌, ◌≡◌, refl, ◌≢◌, Bool, true, false, List,
  ◌++◌, arith, ◌==◌, if◌then◌else◌, length, get_or, set, replicate, get_or-set_self, get_or-set_ne,
  get_or-append_left, get_or-append_right, get_or_beyond, get_or-replicate, ==_iff, Bool-cases, ◌⊎◌,
  inl, inr,
}
use menano.Prelude.Words.{test_bit, set_bit, clear_bit, test_bit-set_bit, test_bit-clear_bit}
use menano.ServerFsync.Defs.{all_free, word}

-- Whether index `j` is free. An index beyond the map is free: the map can grow.
abbrev pub bit_at : List ℕ → ℕ → Bool
bit_at m j = test_bit (word m (j / 64)) (j % 64)

pub word-set :
    (m : List ℕ) (i v k : ℕ) → i < length m → word (set m i v) k ≡ (if i == k then v else word m k)
word-set m i v k h = elim (Bool-cases (i == k)) [
  | inl e ↦ rw e (let p : i ≡ k = (==_iff i k).0 e in rw (← p) (get_or-set_self m i v all_free h))
  | inr e ↦ rw e (get_or-set_ne m i k v all_free (λ p. ground arith))
]

-- Clearing bit `b` of word `i` takes index `i * 64 + b`, and no other.
pub bit_at-clear :
    (m : List ℕ) (i b j : ℕ)
    → i < length m
    → b < 64
    → bit_at (set m i (clear_bit (word m i) b)) j ≡ (if i * 64 + b == j then false else bit_at m j)
bit_at-clear m i b j h hb =
    rw (word-set m i (clear_bit (word m i) b) (j / 64) h)
      (ground (arith, test_bit-clear_bit (word m i) b (j % 64)))

-- Setting it gives the index back, and no other.
pub bit_at-set :
    (m : List ℕ) (i b j : ℕ)
    → i < length m
    → b < 64
    → bit_at (set m i (set_bit (word m i) b)) j ≡ (if i * 64 + b == j then true else bit_at m j)
bit_at-set m i b j h hb =
    rw (word-set m i (set_bit (word m i) b) (j / 64) h)
      (ground (arith, test_bit-set_bit (word m i) b (j % 64)))

pub word-replicate : (n k : ℕ) → word (replicate n all_free) k ≡ all_free
word-replicate zero k = refl
word-replicate (suc n) zero = refl
word-replicate (suc n) (suc k) = word-replicate n k

-- A map grown by words that are all free is the same map.
pub word-grow : (m : List ℕ) (n i : ℕ) → word (m ++ replicate n all_free) i ≡ word m i
word-grow m n i = elim (Bool-cases (menano.Prelude.ltb i (length m))) [
  | inl e ↦ get_or-append_left m (replicate n all_free) i all_free (ground arith)
  | inr e ↦
      rw (get_or-append_right m (replicate n all_free) i (i - length m) all_free (ground arith))
        (rw (get_or_beyond m i all_free (ground arith)) (word-replicate n (i - length m)))
]
