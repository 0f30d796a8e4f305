-- ===== src/Sysvshm/Tests.antt =====
-- The theorems on path/android_sysvshm.c at concrete tables, and runs of the code.
use menano.Prelude.{
  ℕ, ◌≡◌, refl, inl, inr, Bool, true, false, none, some, [], ◌∷◌, arith, ◌==◌, if◌then◌else◌,
  Bool-cases,
}
use menano.Sysvshm.Defs.{
  Shmemory, Table, Replies, request_delete, close_fd, munmap, shmget, shmat, shmdt, shmctl_rmid,
  sysvshm_delete, round_up, find_shmemory_index, remove_at, find_addr,
}
use menano.Sysvshm.Lookup.{Distinct}
use menano.Sysvshm.Operations.{Becomes, Creation, shmget-Creation, Attachment, shmat-Attachment}
use menano.Sysvshm.Removals.{Detachment, shmdt-Detachment, Removal, shmctl_rmid-Removal}
use menano.Sysvshm.Lifecycle.{
  IsValid, Pending, start, step, get, Reachable-IsValid, shmdt-shmctl_rmid, shmdt-shmat-shmat,
  Alone,
}

abbrev empty : Table
empty = record { shmemories = []; effects = [] }

abbrev mapped_segment : Shmemory
mapped_segment = record { id = 7; addr = 100; fd = some 3; size = 4096; marked_for_delete = false }

abbrev one : Table
one = record { shmemories = mapped_segment ∷ []; effects = [] }

abbrev new_segment : Replies
new_segment = record { connected = true; shmid = 7; fd = some 3 }

one-Distinct : Distinct one.shmemories
one-Distinct = (refl, omega arith, tt)

-- A segment of 5000 bytes takes two pages.
shmget_new :
    (shmget 4096 new_segment true 5000 empty).1.shmemories
    ≡ record { id = 7; addr = 0; fd = some 3; size = 8192; marked_for_delete = false } ∷ []
unfolding shmget round_up
shmget_new = refl

-- Removed while attached: the descriptor is closed and the server told at the detach.
shmdt_removed :
    (shmdt true 100 (shmctl_rmid true 7 one)).effects
    ≡ close_fd 3 ∷ request_delete 7 ∷ munmap 100 4096 ∷ []
unfolding shmdt shmctl_rmid sysvshm_delete find_shmemory_index find_addr remove_at
shmdt_removed = refl

shmget-Creation_example :
    Creation 4096 7 5000 empty true (some 3) (shmget 4096 new_segment true 5000 empty)
shmget-Creation_example = shmget-Creation 4096 5000 new_segment true empty tt refl

shmat-Attachment_test : Attachment 200 7 one (some mapped_segment) (shmat 200 7 one)
shmat-Attachment_test = shmat-Attachment 200 7 one one-Distinct

shmdt-Detachment_test : Detachment 100 one (shmdt true 100 one)
shmdt-Detachment_test = shmdt-Detachment true 100 one one-Distinct

shmctl_rmid-Removal_test : Removal 7 one (some mapped_segment) (shmctl_rmid true 7 one)
shmctl_rmid-Removal_test = shmctl_rmid-Removal true 7 one one-Distinct

Reachable-IsValid_example : IsValid (shmget 4096 new_segment true 5000 empty).1
Reachable-IsValid_example =
    Reachable-IsValid (shmget 4096 new_segment true 5000 empty).1
      (step start (get 4096 5000 new_segment true empty refl))

one-IsValid : IsValid one
one-IsValid = record { distinct = one-Distinct; pending = λ j. by_hit j (7 == j) refl }
  where
    by_hit : (j : ℕ) (b : Bool) → (7 == j) ≡ b → Pending (if b then some mapped_segment else none)
    by_hit j true e = λ h. absurd (ground arith)
    by_hit j false e = tt

one-Alone : Alone one 7 mapped_segment one-IsValid refl (omega arith)
one-Alone j n e at_m = elim (Bool-cases (7 == j)) [
  | inl hit ↦ ground arith
  | inr miss ↦ absurd (ground (arith, rw miss at e))
]

shmdt-shmctl_rmid_test : Becomes one 7 none (shmdt true 100 (shmctl_rmid true 7 one))
shmdt-shmctl_rmid_test =
    shmdt-shmctl_rmid one 7 mapped_segment one-IsValid refl (omega arith) true one-Alone

shmdt-shmat-shmat_example :
    Becomes one 7
      (some (record mapped_segment { addr = 0 }))
      (shmdt true 100 (shmat 300 7 (shmat 200 7 one).1).1)
shmdt-shmat-shmat_example =
    shmdt-shmat-shmat one 7 mapped_segment one-IsValid refl (omega arith) true 200 300 one-Alone
