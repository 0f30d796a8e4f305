-- ===== src/Sysvshm/Operations.antt =====
-- shmget and shmat of path/android_sysvshm.c on the map from ids to segments.
use menano.Prelude.{
  ℕ, ◌%◌, ◌^◌, ◌≡◌, refl, ◌≢◌, inl, inr, Bool, true, false, not, ◌&&◌, Option, none, some, ◌∷◌,
  arith, ◌==◌, ==_iff, if◌then◌else◌, Bool-cases, set, ap, ◌∙◌, sym, subst,
}
use menano.Sysvshm.Defs.{
  Shmemory, Table, Replies, mmap, request_shmget, request_get_fd, round_up, find_shmemory_index,
  remove_at, emit, shmget, attach, shmat,
}
use menano.Sysvshm.Lookup.{
  lookup, Distinct, Found, Search, get_elem?-Found, lookup-Found, find_shmemory_index-Search,
  lookup-set, lookup-remove_at, lookup-append, set-Distinct, remove_at-Distinct, append-Distinct,
}

abbrev pub segment : Table → ℕ → Option Shmemory
segment t id = lookup t.shmemories id

-- `t'` has `v` at the id, what `t` has elsewhere, and still no id twice.
abbrev pub Becomes : Table → ℕ → Option Shmemory → Table → Type 0
Becomes t id v t' =
    ((j : ℕ) → segment t' j ≡ (if id == j then v else segment t j)) × Distinct t'.shmemories

-- The new segment of shmget.
abbrev pub created : ℕ → ℕ → ℕ → ℕ → Shmemory
created page_size id fd size = record {
  id = id;
  addr = 0;
  fd = some fd;
  size = round_up size page_size;
  marked_for_delete = false;
}

-- By whether the key is IPC_PRIVATE and the server gives an id, and by its descriptor.
abbrev pub Creation : ℕ → ℕ → ℕ → Table → Bool → Option ℕ → Option ℕ × Table → Type 0
Creation page_size id size t false fd (r, t') = (r ≡ none) × (t'.shmemories ≡ t.shmemories)
Creation page_size id size t true none (r, t') =
    (r ≡ none)
    × (t'.shmemories ≡ t.shmemories)
    × (t'.effects ≡ request_get_fd id ∷ request_shmget (size % 2 ^ 32) ∷ t.effects)
Creation page_size id size t true (some fd) (r, t') =
    (r ≡ some id) × Becomes t id (some (created page_size id fd size)) t'

abbrev pub has_id : Replies → Bool → Bool
has_id replies is_private = is_private && replies.connected && not (replies.shmid == 0)

-- In a table without an id twice, where the server never gives an id that is in use: shmget adds the
-- server's new id as a detached segment, if it has a descriptor; without one it fails and changes no
-- segment, and asks the server for nothing more, so that the server keeps the id; and it fails, with
-- no segment changed, for another key or without an id.
pub shmget-Creation :
    (page_size size : ℕ) (replies : Replies) (is_private : Bool) (t : Table)
    → Distinct t.shmemories
    → segment t replies.shmid ≡ none
    → Creation page_size replies.shmid size t
        (has_id replies is_private)
        replies.fd
        (shmget page_size replies is_private size t)
unfolding shmget
shmget-Creation page_size size replies is_private t d fresh =
    by_replies replies.shmid replies.fd replies.connected is_private fresh
  where
    by_replies :
        (id : ℕ) (fd : Option ℕ) (connected is_private : Bool)
        → segment t id ≡ none
        → Creation page_size id size t (is_private && connected && not (id == 0)) fd (
            shmget page_size
              (record { connected = connected; shmid = id; fd = fd })
              is_private
              size
              t)
    by_replies id fd connected false fresh = (refl, refl)
    by_replies id fd false true fresh = (refl, refl)
    by_replies id none true true fresh = elim (Bool-cases (id == 0)) [
      | inl gone ↦ rw gone (refl, refl)
      | inr given ↦ rw given (refl, refl, refl)
    ]
    by_replies id (some fd) true true fresh = elim (Bool-cases (id == 0)) [
      | inl gone ↦ rw gone (refl, refl)
      | inr given ↦
          let nonzero : id ≢ 0 = ground arith in
          let m = created page_size id fd size in
          rw given (
            refl,
            (
              (λ j. lookup-append t.shmemories m j fresh),
              append-Distinct t.shmemories m d nonzero fresh,
            ),
          )
    ]

-- Where the segment is after shmat: where it was, or where the kernel maps it.
abbrev pub address : ℕ → Shmemory → ℕ
address mapped m = if m.addr == 0 then mapped else m.addr

abbrev pub Attachment : ℕ → ℕ → Table → Option Shmemory → Option ℕ × Table → Type 0
Attachment mapped id t none r = r ≡ (none, t)
Attachment mapped id t (some m) (r, t') =
    (r ≡ (if address mapped m == 0 then none else some (address mapped m)))
    × Becomes t id (some (record m { addr = address mapped m })) t'

same_segment :
    (t : Table) (m : Shmemory)
    → Distinct t.shmemories
    → segment t m.id ≡ some m
    → Becomes t m.id (some m) t
same_segment t m d found = (
  λ j. elim (Bool-cases (m.id == j)) [
    | inl hit ↦ rw hit (ap (λ i. segment t i) (sym ((==_iff m.id j).0 hit)) ∙ found)
    | inr miss ↦ rw miss
  ],
  d,
)

pub set_segment :
    (t t' : Table) (i : ℕ) (m v : Shmemory)
    → Distinct t.shmemories
    → Found t.shmemories i m
    → v.id ≡ m.id
    → t'.shmemories ≡ set t.shmemories i v
    → Becomes t m.id (some v) t'
set_segment t t' i m v d f e s = (
  (λ j. ap (λ l. lookup l j) s ∙ lookup-set t.shmemories i j m v f e),
  subst (λ l. Distinct l) (sym s) (set-Distinct t.shmemories i m v d f e),
)

pub delete_segment :
    (t t' : Table) (i : ℕ) (m : Shmemory)
    → Distinct t.shmemories
    → Found t.shmemories i m
    → t'.shmemories ≡ remove_at t.shmemories i
    → Becomes t m.id none t'
delete_segment t t' i m d f s = (
  (λ j. ap (λ l. lookup l j) s ∙ lookup-remove_at t.shmemories i j m d f),
  subst (λ l. Distinct l) (sym s) (remove_at-Distinct t.shmemories i m d f),
)

attach-Attachment :
    (mapped i : ℕ) (m : Shmemory) (t : Table)
    → Distinct t.shmemories
    → Found t.shmemories i m
    → Attachment mapped m.id t (some m) (attach mapped i m t)
unfolding attach
attach-Attachment mapped i m t d f = elim (Bool-cases (m.addr == 0)) [
  | inl detached ↦ rw detached (
    refl,
    set_segment t
        (emit (mmap mapped m.size)
          (record t { shmemories = set t.shmemories i (record m { addr = mapped }) }))
        i m (record m { addr = mapped }) d f refl refl,
  )
  | inr attached ↦
      rw attached (rw attached refl, same_segment t m d (lookup-Found t.shmemories i m f))
]

-- In a table without an id twice, shmat of an id in the table gives the address at which the segment
-- is attached, or the kernel's if it is not, or fails if the kernel fails; the segment is there
-- afterwards and no other changes. It fails on an id that is not in the table.
pub shmat-Attachment :
    (mapped id : ℕ) (t : Table)
    → Distinct t.shmemories
    → Attachment mapped id t (segment t id) (shmat mapped id t)
unfolding shmat
shmat-Attachment mapped id t d =
    by_search (find_shmemory_index t.shmemories id) (find_shmemory_index-Search t.shmemories id)
      refl
  where
    by_search :
        (r : Option ℕ)
        → Search t.shmemories id r
        → find_shmemory_index t.shmemories id ≡ r
        → Attachment mapped id t (segment t id) (shmat mapped id t)
    by_search none s e = rw (e, s, shmat) refl
    by_search (some i) (m, q, f) e =
        let looked : segment t id ≡ some m =
          ap (λ k. segment t k) (sym q) ∙ lookup-Found t.shmemories i m f in
        rw (e, shmat, looked, get_elem?-Found t.shmemories i m f)
          (subst (λ k. Attachment mapped k t (some m) (attach mapped i m t)) q
            (attach-Attachment mapped i m t d f))
