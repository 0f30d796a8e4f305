-- ===== src/Sysvshm/Lifecycle.antt =====
-- The life of a segment of path/android_sysvshm.c over any sequence of calls.
use menano.Prelude.{
  ℕ, ◌≡◌, refl, ◌≢◌, inl, inr, Bool, true, false, Option, none, some, List, [], ◌∷◌, arith, ◌==◌,
  ==_iff, ==_self, if◌then◌else◌, Bool-cases, ap, ◌∙◌, sym, subst,
}
use menano.Sysvshm.Defs.{Shmemory, Table, Replies, shmget, shmat, shmdt, shmctl_rmid}
use menano.Sysvshm.Lookup.{lookup, Distinct}
use menano.Sysvshm.Operations.{
  segment, Becomes, Creation, created, has_id, shmget-Creation, Attachment, address,
  shmat-Attachment,
}
use menano.Sysvshm.Removals.{detached, shmdt-Detachment, Removal, removed, shmctl_rmid-Removal}

-- A segment that is to be deleted is still attached.
abbrev pub Pending : Option Shmemory → Type 0
Pending none = Unit {0}
Pending (some m) = m.marked_for_delete ≡ true → m.addr ≢ 0

pub record IsValid (t : Table) : Type 0 where
  pub distinct : Distinct t.shmemories
  pub pending : (id : ℕ) → Pending (segment t id)

-- One call. The server never gives an id that is in use.
pub data Step : Table → Table → Type 0 where
  get :
      (page_size size : ℕ) (replies : Replies) (is_private : Bool) (t : Table)
      → segment t replies.shmid ≡ none
      → Step t (shmget page_size replies is_private size t).1
  attach : (mapped id : ℕ) (t : Table) → Step t (shmat mapped id t).1
  detach : (connected : Bool) (addr : ℕ) (t : Table) → Step t (shmdt connected addr t)
  remove : (connected : Bool) (id : ℕ) (t : Table) → Step t (shmctl_rmid connected id t)

pub data Reachable : Table → Type 0 where
  start : Reachable (record { shmemories = []; effects = [] })
  step : {t t' : Table} → Reachable t → Step t t' → Reachable t'

Becomes-IsValid :
    (t t' : Table) (id : ℕ) (v : Option Shmemory)
    → IsValid t
    → Becomes t id v t'
    → Pending v
    → IsValid t'
Becomes-IsValid t t' id v a (l, d) p = record {
  distinct = d;
  pending = λ j. elim (Bool-cases (id == j)) [
    | inl hit ↦ rw (l j, hit) p
    | inr miss ↦ rw (l j, miss) (a.pending j)
  ];
}

same-IsValid : (t t' : Table) → IsValid t → t'.shmemories ≡ t.shmemories → IsValid t'
same-IsValid t t' a e = record { distinct = rw e a.distinct; pending = λ j. rw e (a.pending j) }

shmget-IsValid :
    (page_size size : ℕ) (replies : Replies) (is_private : Bool) (t : Table)
    → IsValid t
    → segment t replies.shmid ≡ none
    → IsValid (shmget page_size replies is_private size t).1
shmget-IsValid page_size size replies is_private t a fresh =
    by_outcome (has_id replies is_private) replies.fd (shmget page_size replies is_private size t)
      (shmget-Creation page_size size replies is_private t a.distinct fresh)
  where
    by_outcome :
        (ok : Bool) (fd : Option ℕ) (r : Option ℕ × Table)
        → Creation page_size replies.shmid size t ok fd r
        → IsValid r.1
    by_outcome false fd (r, t') (_, s) = same-IsValid t t' a s
    by_outcome true none (r, t') (_, s, _) = same-IsValid t t' a s
    by_outcome true (some fd) (r, t') (_, b) =
        Becomes-IsValid t t' replies.shmid (some (created page_size replies.shmid fd size)) a b
          (λ marked. absurd (ground arith))

shmat-IsValid : (mapped id : ℕ) (t : Table) → IsValid t → IsValid (shmat mapped id t).1
shmat-IsValid mapped id t a =
    by_segment (segment t id) (shmat mapped id t) (a.pending id)
      (shmat-Attachment mapped id t a.distinct)
  where
    by_segment :
        (s : Option Shmemory) (r : Option ℕ × Table)
        → Pending s
        → Attachment mapped id t s r
        → IsValid r.1
    by_segment none r p e = rw e a
    by_segment (some m) (r, t') p (_, b) =
        Becomes-IsValid t t' id (some (record m { addr = address mapped m })) a b
          (λ marked. ground (arith, p marked))

shmdt-IsValid :
    (connected : Bool) (addr : ℕ) (t : Table) → IsValid t → IsValid (shmdt connected addr t)
shmdt-IsValid connected addr t a = elim (shmdt-Detachment connected addr t a.distinct) [
  | inl (e, _) ↦ rw e a
  | inr (m, _, _, b) ↦ Becomes-IsValid t _ m.id (detached m) a b (gone m m.marked_for_delete refl)
]
  where
    gone :
        (m : Shmemory) (marked : Bool)
        → m.marked_for_delete ≡ marked
        → Pending (if marked then none else some (record m { addr = 0 }))
    gone m true e = tt
    gone m false e = λ h. ground (arith, e, h)

shmctl_rmid-IsValid :
    (connected : Bool) (id : ℕ) (t : Table) → IsValid t → IsValid (shmctl_rmid connected id t)
shmctl_rmid-IsValid connected id t a =
    by_segment (segment t id) (shmctl_rmid-Removal connected id t a.distinct)
  where
    marked :
        (m : Shmemory) (b : Bool)
        → (m.addr == 0) ≡ b
        → Pending (if b then none else some (record m { marked_for_delete = true }))
    marked m true e = tt
    marked m false e = λ _. ground (arith, e)

    by_segment :
        (s : Option Shmemory)
        → Removal id t s (shmctl_rmid connected id t)
        → IsValid (shmctl_rmid connected id t)
    by_segment none e = rw e a
    by_segment (some m) b = Becomes-IsValid t _ id (removed m) a b (marked m (m.addr == 0) refl)

-- After any sequence of calls from the empty table, if the server never gives an id that is in use: no
-- id stands twice in the table, none is 0, and a segment that is marked for deletion is attached.
pub Reachable-IsValid : (t : Table) → Reachable t → IsValid t
Reachable-IsValid t start = record { distinct = tt; pending = λ j. tt }
Reachable-IsValid t (step r (get page_size size replies is_private t0 fresh)) =
    shmget-IsValid page_size size replies is_private t0 (Reachable-IsValid t0 r) fresh
Reachable-IsValid t (step r (attach mapped id t0)) =
    shmat-IsValid mapped id t0 (Reachable-IsValid t0 r)
Reachable-IsValid t (step r (detach connected addr t0)) =
    shmdt-IsValid connected addr t0 (Reachable-IsValid t0 r)
Reachable-IsValid t (step r (remove connected id t0)) =
    shmctl_rmid-IsValid connected id t0 (Reachable-IsValid t0 r)

some_injective : (x y : Shmemory) → some x ≡ some y → x ≡ y
some_injective x y e = ap (λ o. elim o [ none ↦ x | some z ↦ z ]) e

lookup_id : (l : List Shmemory) (id : ℕ) (m : Shmemory) → lookup l id ≡ some m → m.id ≡ id
lookup_id [] id m e = absurd (ground arith)
lookup_id (x ∷ l) id m e = elim (Bool-cases (x.id == id)) [
  | inl hit ↦ sym (ap (λ y. y.id) (some_injective x m (rw hit at e))) ∙ (==_iff x.id id).0 hit
  | inr miss ↦ lookup_id l id m (rw miss at e)
]

-- Attaching a segment that is attached changes nothing.
attach_again :
    (t : Table) (id : ℕ) (m : Shmemory)
    → Distinct t.shmemories
    → segment t id ≡ some m
    → m.addr ≢ 0
    → (mapped : ℕ) → Becomes t id (some m) (shmat mapped id t).1
attach_again t id m d found attached mapped =
    let not_null : (m.addr == 0) ≡ false = ground arith in
    let a : Attachment mapped id t (some m) (shmat mapped id t) =
      subst (λ s. Attachment mapped id t s (shmat mapped id t)) found
        (shmat-Attachment mapped id t d) in
    rw not_null at a.1

Becomes-trans :
    (t t1 t2 : Table) (id : ℕ) (v u : Option Shmemory)
    → Becomes t id v t1
    → Becomes t1 id u t2
    → Becomes t id u t2
Becomes-trans t t1 t2 id v u (a, _) (b, d) = (
  λ j. elim (Bool-cases (id == j)) [
    | inl hit ↦ b j ∙ rw hit refl
    | inr miss ↦ b j ∙ rw miss (a j ∙ rw miss refl)
  ],
  d,
)

module _ (t : Table) (id : ℕ) (m : Shmemory) (valid : IsValid t) (found : segment t id ≡ some m)
    (attached : m.addr ≢ 0) where
  -- No other segment is attached at the address.
  abbrev pub Alone : Type 0
  Alone = (j : ℕ) (n : Shmemory) → segment t j ≡ some n → n.addr ≡ m.addr → j ≡ id

  module _ (connected : Bool) (t' : Table) (v : Shmemory) (alone : Alone)
      (b : Becomes t id (some v) t') (at_m : v.addr ≡ m.addr) where
    here : segment t' id ≡ some v
    here = b.0 id ∙ rw (==_self id) refl

    only : (n : Shmemory) → n.addr ≡ m.addr → segment t' n.id ≡ some n → n.id ≡ id
    only n q l = elim (Bool-cases (id == n.id)) [
      | inl hit ↦ sym ((==_iff id n.id).0 hit)
      | inr miss ↦ alone n.id n (sym (b.0 n.id ∙ rw miss refl) ∙ l) q
    ]

    after :
        (n : Shmemory) (t2 : Table)
        → n.id ≡ id
        → n ≡ v
        → Becomes t' n.id (detached n) t2
        → Becomes t id (detached v) t2
    after n t2 p same (c, d) = (
      λ j. elim (Bool-cases (id == j)) [
        | inl hit ↦
            let there : (n.id == j) ≡ true = rw p hit in
            c j ∙ rw there (rw hit (ap (λ x. detached x) same))
        | inr miss ↦
            let there : (n.id == j) ≡ false = rw p miss in
            c j ∙ rw there (rw miss (b.0 j ∙ rw miss refl))
      ],
      d,
    )

    -- Detaching the one segment that is at the address.
    shmdt_alone : Becomes t id (detached v) (shmdt connected m.addr t')
    shmdt_alone = elim (shmdt-Detachment connected m.addr t' b.1) [
      | inl (_, away) ↦ absurd (away id v here at_m)
      | inr (n, q, l, c) ↦
          let p = only n q l in
          let same : n ≡ v = some_injective n v (sym l ∙ ap (λ k. segment t' k) p ∙ here) in
          after n (shmdt connected m.addr t') p same c
    ]

  removing : (connected : Bool) → Becomes t id (removed m) (shmctl_rmid connected id t)
  removing connected =
      subst (λ s. Removal id t s (shmctl_rmid connected id t)) found
        (shmctl_rmid-Removal connected id t valid.distinct)

  not_null : (m.addr == 0) ≡ false
  not_null = ground arith

  -- In a valid table, a segment that is attached at an address of its own, removed and then detached is
  -- gone, and no other segment changes.
  pub shmdt-shmctl_rmid :
      (connected : Bool)
      → Alone
      → Becomes t id none (shmdt connected m.addr (shmctl_rmid connected id t))
  shmdt-shmctl_rmid connected alone =
      shmdt_alone connected (shmctl_rmid connected id t) (record m { marked_for_delete = true })
        alone (rw not_null at (removing connected)) refl

  -- Attachments are not counted: a segment that is attached, at an address of its own, and is attached
  -- twice more, is detached by one shmdt, and gone if it was marked.
  pub shmdt-shmat-shmat :
      (connected : Bool) (mapped mapped' : ℕ)
      → Alone
      → Becomes t id
          (detached m)
          (shmdt connected m.addr (shmat mapped' id (shmat mapped id t).1).1)
  shmdt-shmat-shmat connected mapped mapped' alone =
      let t1 = (shmat mapped id t).1 in
      let b = attach_again t id m valid.distinct found attached mapped in
      let there : segment t1 id ≡ some m = b.0 id ∙ rw (==_self id) refl in
      let b' = attach_again t1 id m b.1 there attached mapped' in
      shmdt_alone connected (shmat mapped' id t1).1 m alone
        (Becomes-trans t t1 (shmat mapped' id t1).1 id (some m) (some m) b b') refl
