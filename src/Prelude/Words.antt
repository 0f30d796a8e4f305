-- ===== src/Prelude/Words.antt =====
-- Machine words as numbers: single bits, and the int that a 32-bit pattern stands for.
use Prim.Native.Nat.{ℕ, zero, suc, ◌+◌, ◌-◌, ◌*◌, ◌/◌, ◌%◌, ◌^◌, ◌≤◌, ◌<◌}
use native.Mathlib.Nat.{pow-suc, one-le-pow}
use mathlib.Core.Path.{◌≡◌, refl}
use mathlib.Core.Logic.{◌≢◌}
use mathlib.Core.Bool.{Bool, true, false, ◌||◌}
use native.Mathlib.Omega.{arith}
use menano.Prelude.Tests.{leb, ◌==◌, if◌then◌else◌}

-- `x & (1 << j)` is not zero.
unfoldable pub test_bit : ℕ → ℕ → Bool
test_bit w zero = w % 2 == 1
test_bit w (suc j) = test_bit (w / 2) j

-- `w | (1 << j)`
unfoldable pub set_bit : ℕ → ℕ → ℕ
set_bit w zero = w / 2 * 2 + 1
set_bit w (suc j) = set_bit (w / 2) j * 2 + w % 2

-- `w & ~(1 << j)`
unfoldable pub clear_bit : ℕ → ℕ → ℕ
clear_bit w zero = w / 2 * 2
clear_bit w (suc j) = clear_bit (w / 2) j * 2 + w % 2

-- `__builtin_ctz` of a word of at most `k` bits that is not zero.
unfoldable pub ctz : ℕ → ℕ → ℕ
ctz zero w = 0
ctz (suc k) w = let rest = ctz k (w / 2) in if w % 2 == 1 then 0 else suc rest

-- A 32-bit pattern read as an int is at most 0.
abbrev pub le_zero32 : ℕ → Bool
le_zero32 w = w == 0 || leb (2 ^ 31) w

pub test_bit-set_bit :
    (w i j : ℕ) → test_bit (set_bit w i) j ≡ (if i == j then true else test_bit w j)
unfolding test_bit set_bit
test_bit-set_bit w zero zero = ground arith
test_bit-set_bit w zero (suc j) =
    let e : (w / 2 * 2 + 1) / 2 ≡ w / 2 = omega arith in rw e (ground arith)
test_bit-set_bit w (suc i) zero = ground arith
test_bit-set_bit w (suc i) (suc j) =
    let e : (set_bit (w / 2) i * 2 + w % 2) / 2 ≡ set_bit (w / 2) i = omega arith in
    rw e (ground (arith, test_bit-set_bit (w / 2) i j))

pub test_bit-clear_bit :
    (w i j : ℕ) → test_bit (clear_bit w i) j ≡ (if i == j then false else test_bit w j)
unfolding test_bit clear_bit
test_bit-clear_bit w zero zero = ground arith
test_bit-clear_bit w zero (suc j) =
    let e : (w / 2 * 2) / 2 ≡ w / 2 = omega arith in rw e (ground arith)
test_bit-clear_bit w (suc i) zero = ground arith
test_bit-clear_bit w (suc i) (suc j) =
    let e : (clear_bit (w / 2) i * 2 + w % 2) / 2 ≡ clear_bit (w / 2) i = omega arith in
    rw e (ground (arith, test_bit-clear_bit (w / 2) i j))

pub clear_bit-le : (w i : ℕ) → clear_bit w i ≤ w
unfolding clear_bit
clear_bit-le w zero = omega arith
clear_bit-le w (suc i) = omega (arith, clear_bit-le (w / 2) i)

pub set_bit-lt : (k w i : ℕ) → w < 2 ^ k → i < k → set_bit w i < 2 ^ k
unfolding set_bit
set_bit-lt zero w i h l = absurd (omega arith)
set_bit-lt (suc k) w zero h l = omega (arith, pow-suc 2 k)
set_bit-lt (suc k) w (suc i) h l =
    omega (arith, pow-suc 2 k, set_bit-lt k (w / 2) i (omega (arith, pow-suc 2 k)) (omega arith))

pub set_bit-ne-zero : (w i : ℕ) → set_bit w i ≢ 0
unfolding set_bit
set_bit-ne-zero w zero = omega arith
set_bit-ne-zero w (suc i) = omega (arith, set_bit-ne-zero (w / 2) i)

-- The lowest set bit: in range, set, and with none below it.
pub ctz-lt : (k w : ℕ) → w ≢ 0 → w < 2 ^ k → ctz k w < k
unfolding ctz
ctz-lt zero w n h = absurd (omega arith)
ctz-lt (suc k) w n h = ground (arith, pow-suc 2 k, ctz-lt k (w / 2))

pub test_bit-ctz : (k w : ℕ) → w ≢ 0 → w < 2 ^ k → test_bit w (ctz k w) ≡ true
unfolding ctz test_bit
test_bit-ctz zero w n h = absurd (omega arith)
test_bit-ctz (suc k) w n h = ground (arith, pow-suc 2 k, test_bit-ctz k (w / 2))

pub test_bit_below_ctz : (k w j : ℕ) → j < ctz k w → test_bit w j ≡ false
unfolding ctz test_bit
test_bit_below_ctz zero w j h = absurd (omega arith)
test_bit_below_ctz (suc k) w zero h = ground arith
test_bit_below_ctz (suc k) w (suc j) h = ground (arith, test_bit_below_ctz k (w / 2) j)

pub test_bit-zero : (j : ℕ) → test_bit 0 j ≡ false
unfolding test_bit
test_bit-zero zero = refl
test_bit-zero (suc j) = test_bit-zero j

pub ne-zero_of_test_bit : (w j : ℕ) → test_bit w j ≡ true → w ≢ 0
ne-zero_of_test_bit w j h = ground (arith, test_bit-zero j)

pub test_bit-ones : (k j : ℕ) → j < k → test_bit (2 ^ k - 1) j ≡ true
unfolding test_bit
test_bit-ones zero j h = absurd (omega arith)
test_bit-ones (suc k) zero h = ground (arith, pow-suc 2 k, one-le-pow k 2)
test_bit-ones (suc k) (suc j) h =
    let e : (2 ^ suc k - 1) / 2 ≡ 2 ^ k - 1 = omega (arith, pow-suc 2 k, one-le-pow k 2) in
    rw e (test_bit-ones k j (omega arith))
