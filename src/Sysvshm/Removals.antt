-- ===== src/Sysvshm/Removals.antt =====
-- shmdt and shmctl of path/android_sysvshm.c on the map from ids to segments.
use menano.Prelude.{
  ℕ, zero, suc, ◌≡◌, refl, ◌≢◌, ◌⊎◌, inl, inr, Bool, true, false, Option, none, some, List, [], ◌∷◌,
  ◌==◌, if◌then◌else◌, Bool-cases, set, ap, ◌∙◌, sym, subst,
}
use menano.Sysvshm.Defs.{
  Shmemory, Table, munmap, find_shmemory_index, remove_at, find_addr, sysvshm_delete, close_if_open,
  request, emit, request_delete, shmdt, shmctl_rmid,
}
use menano.Sysvshm.Lookup.{
  Distinct, Found, Search, AddrSearch, get_elem?-Found, lookup-Found, find_shmemory_index-Search,
  find_addr-AddrSearch,
}
use menano.Sysvshm.Operations.{segment, Becomes, set_segment, delete_segment}

-- What shmdt leaves of a segment that is attached, and shmctl of one that is to be removed.
abbrev pub detached : Shmemory → Option Shmemory
detached m = if m.marked_for_delete then none else some (record m { addr = 0 })

abbrev pub removed : Shmemory → Option Shmemory
removed m = if m.addr == 0 then none else some (record m { marked_for_delete = true })

abbrev pub Detachment : ℕ → Table → Table → Type 0
Detachment addr t t' =
    ((t' ≡ t) × ((id : ℕ) (m : Shmemory) → segment t id ≡ some m → m.addr ≢ addr))
    ⊎ ((m : Shmemory) × (m.addr ≡ addr)
        × (segment t m.id ≡ some m)
        × Becomes t m.id (detached m) t')

shmemories-sysvshm_delete :
    (connected : Bool) (i : ℕ) (m : Shmemory) (t : Table)
    → (sysvshm_delete connected i m t).shmemories ≡ remove_at t.shmemories i
unfolding sysvshm_delete
shmemories-sysvshm_delete connected i m t = by_parts m.fd connected
  where
    by_parts :
        (fd : Option ℕ) (c : Bool)
        → remove_at (close_if_open fd (request c (request_delete m.id) t)).shmemories i
          ≡ remove_at t.shmemories i
    by_parts none true = refl
    by_parts none false = refl
    by_parts (some n) true = refl
    by_parts (some n) false = refl

-- Writing an entry with its own id and then removing it is removing it.
remove_at-set : (l : List Shmemory) (i : ℕ) (v : Shmemory) → remove_at (set l i v) i ≡ remove_at l i
unfolding remove_at
remove_at-set [] i v = refl
remove_at-set (x ∷ l) zero v = refl
remove_at-set (x ∷ l) (suc i) v = ap (λ k. x ∷ k) (remove_at-set l i v)

-- The entry as it is written when the segment is detached.
abbrev unmapped : ℕ → Shmemory → Table → Table
unmapped i m t =
    emit (munmap m.addr m.size)
      (record t { shmemories = set t.shmemories i (record m { addr = 0 }) })

detached-Becomes :
    (connected : Bool) (i : ℕ) (m : Shmemory) (t : Table)
    → Distinct t.shmemories
    → Found t.shmemories i m
    → (marked : Bool)
    → Becomes t m.id (if marked then none else some (record m { addr = 0 })) (
        if marked
        then sysvshm_delete connected i (record m { addr = 0 }) (unmapped i m t)
        else unmapped i m t)
detached-Becomes connected i m t d f true =
    delete_segment t (sysvshm_delete connected i (record m { addr = 0 }) (unmapped i m t)) i m d f (
      shmemories-sysvshm_delete connected i (record m { addr = 0 }) (unmapped i m t)
      ∙ remove_at-set t.shmemories i (record m { addr = 0 }))
detached-Becomes connected i m t d f false =
    set_segment t (unmapped i m t) i m (record m { addr = 0 }) d f refl refl

-- In a table without an id twice, shmdt of an address at which no segment is attached changes nothing;
-- otherwise it detaches one segment at the address, which is gone if it was marked, and no other
-- segment changes.
pub shmdt-Detachment :
    (connected : Bool) (addr : ℕ) (t : Table)
    → Distinct t.shmemories
    → Detachment addr t (shmdt connected addr t)
unfolding shmdt
shmdt-Detachment connected addr t d =
    by_search (find_addr t.shmemories addr) (find_addr-AddrSearch t.shmemories addr d) refl
  where
    by_search :
        (r : Option (ℕ × Shmemory))
        → AddrSearch t.shmemories addr r
        → find_addr t.shmemories addr ≡ r
        → Detachment addr t (shmdt connected addr t)
    by_search none s e = rw (e, shmdt) (inl (refl, s))
    by_search (some (i, m)) (q, f) e =
        rw (e, shmdt)
          (inr (
            m,
            q,
            lookup-Found t.shmemories i m f,
            detached-Becomes connected i m t d f m.marked_for_delete,
          ))

abbrev pub Removal : ℕ → Table → Option Shmemory → Table → Type 0
Removal id t none t' = t' ≡ t
Removal id t (some m) t' = Becomes t id (removed m) t'

-- In a table without an id twice, shmctl with IPC_RMID marks a segment that is attached and removes
-- one that is not, and changes no other; an id that is not in the table changes nothing.
pub shmctl_rmid-Removal :
    (connected : Bool) (id : ℕ) (t : Table)
    → Distinct t.shmemories
    → Removal id t (segment t id) (shmctl_rmid connected id t)
unfolding shmctl_rmid
shmctl_rmid-Removal connected id t d =
    by_search (find_shmemory_index t.shmemories id) (find_shmemory_index-Search t.shmemories id)
      refl
  where
    by_search :
        (r : Option ℕ)
        → Search t.shmemories id r
        → find_shmemory_index t.shmemories id ≡ r
        → Removal id t (segment t id) (shmctl_rmid connected id t)
    by_search none s e = rw (e, s, shmctl_rmid) refl
    by_search (some i) (m, q, f) e =
        let looked : segment t id ≡ some m =
          ap (λ k. segment t k) (sym q) ∙ lookup-Found t.shmemories i m f in
        elim (Bool-cases (m.addr == 0)) [
          | inl away ↦
              rw (e, shmctl_rmid, looked, get_elem?-Found t.shmemories i m f)
                (rw away (
                  subst (λ k. Becomes t k none (sysvshm_delete connected i m t)) q
                    (delete_segment t (sysvshm_delete connected i m t) i m d f
                      (shmemories-sysvshm_delete connected i m t))))
          | inr attached ↦
              rw (e, shmctl_rmid, looked, get_elem?-Found t.shmemories i m f)
                (rw attached (
                  subst
                    (λ k. Becomes t k (some (record m { marked_for_delete = true })) (record t {
                      shmemories = set t.shmemories i (record m { marked_for_delete = true });
                    }))
                    q
                    (set_segment t
                      (record t {
                        shmemories = set t.shmemories i (record m { marked_for_delete = true });
                      })
                      i m (record m { marked_for_delete = true }) d f refl refl)))
        ]
