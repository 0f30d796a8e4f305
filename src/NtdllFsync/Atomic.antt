-- ===== src/NtdllFsync/Atomic.antt =====
-- The compare-and-swap loop of fsync_release_semaphore among other threads,
-- dlls/ntdll/unix/fsync_pro10.c.
use menano.Prelude.{ℕ, ◌+◌, ◌<◌, ◌≢◌, ◌%◌, ◌^◌, ◌≤◌, ◌≡◌, ◌⊎◌, Option, none, some, List, [], ◌∷◌}
use menano.ServerFsync.Defs.{Slot, update}
use menano.NtdllFsync.Defs.{Client, Status, success, semaphore_limit_exceeded}

-- What other threads do in one round.
abbrev pub Others : Type 0
Others = (ℕ → Slot) → ℕ → Slot

-- Other threads leave the maximum of the semaphore `idx` alone.
abbrev pub KeepsMax : ℕ → Others → Type 0
KeepsMax idx others = (f : ℕ → Slot) → (others f idx).high ≡ (f idx).high

-- The rounds that were lost: as long as other threads change the count within a round, the next one
-- begins in the memory that they leave.
pub data Lost (idx : ℕ) : List Others → (ℕ → Slot) → List Others → (ℕ → Slot) → Type 0 where
  none_lost : {l : List Others} {f : ℕ → Slot} → Lost idx l f l f
  lost :
      {o : Others} {l l' : List Others} {f m : ℕ → Slot}
      → (o f idx).low ≢ (f idx).low
      → Lost idx l (o f) l' m
      → Lost idx (o ∷ l) f l' m

-- The memory of the swap in the round that begins in `f`: other threads have acted before it, and left
-- the count.
abbrev pub Unchanged : ℕ → List Others → (ℕ → Slot) → (ℕ → Slot) → Type 0
Unchanged idx [] f m = m ≡ f
Unchanged idx (o ∷ l) f m = (m ≡ o f) × ((m idx).low ≡ (f idx).low)

abbrev pub with_slots : Client → (ℕ → Slot) → Client
with_slots c f = record c { shm = record (c.shm) { slots = f } }

-- The release fails in the round that begins in `f`: the new count would be over the maximum, and the
-- release changes nothing.
abbrev pub IsOver : ℕ → ℕ → ℕ → Client → (ℕ → Slot) → Status × Option ℕ → Client → Type 0
IsOver idx count max c f r c' =
    (r ≡ (semaphore_limit_exceeded, none))
    × (max < (count + (f idx).low) % 2 ^ 32)
    × (c' ≡ with_slots c f)

-- The release adds `count` to the count of the memory `m` of its swap, tells the count that was
-- there, changes nothing else and wakes the waiters.
pub record Adds (idx count max : ℕ) (c : Client) (m : ℕ → Slot) (r : Status × Option ℕ)
    (c' : Client) : Type 0 where
  pub told : r ≡ (success, some (m idx).low)
  pub limit : (count + (m idx).low) % 2 ^ 32 ≤ max
  pub added : c' ≡ record c {
    shm = record (c.shm) {
      slots = update m idx (record (m idx) { low = (count + (m idx).low) % 2 ^ 32 });
    };
    woken = idx ∷ c.woken;
  }

-- How a release that begins in the memory `f0`, with `others` in its rounds, ends.
abbrev pub Outcome :
    ℕ → ℕ → ℕ → List Others → (ℕ → Slot) → Client → Status × Option ℕ → Client → Type 0
Outcome idx count max others f0 c r c' =
    (l : List Others) × (f : ℕ → Slot) × Lost idx others f0 l f
    × (IsOver idx count max c f r c'
        ⊎ ((m : ℕ → Slot) × Unchanged idx l f m × Adds idx count max c m r c'))
