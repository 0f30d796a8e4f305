-- ===== src/Sysvshm/Lookup.antt =====
-- The table of path/android_sysvshm.c as a map from ids to segments.
use menano.Prelude.{
  ℕ, zero, suc, ◌≡◌, refl, ◌≢◌, inl, inr, false, Option, none, some, List, [], ◌∷◌, ◌++◌, arith,
  ◌==◌, ==_iff, ==_self, if◌then◌else◌, Bool-cases, get_elem?, set, ap, ◌∙◌, sym, subst,
}
use menano.Sysvshm.Defs.{Shmemory, find_shmemory_index, remove_at, find_addr}

-- The segment of an id.
abbrev pub lookup : List Shmemory → ℕ → Option Shmemory
lookup [] id = none
lookup (m ∷ l) id = if m.id == id then some m else lookup l id

-- No two segments have one id, and none has the id 0.
abbrev pub Distinct : List Shmemory → Type 0
Distinct [] = Unit {0}
Distinct (m ∷ l) = (lookup l m.id ≡ none) × (m.id ≢ 0) × Distinct l

-- The entry at `i` is `m`, and no entry before it has its id.
abbrev pub Found : List Shmemory → ℕ → Shmemory → Type 0
Found [] i m = ⊥
Found (x ∷ l) zero m = x ≡ m
Found (x ∷ l) (suc i) m = ((x.id == m.id) ≡ false) × Found l i m

pub get_elem?-Found :
    (l : List Shmemory) (i : ℕ) (m : Shmemory) → Found l i m → get_elem? l i ≡ some m
get_elem?-Found [] i m f = absurd f
get_elem?-Found (x ∷ l) zero m f = ap (λ y. some y) f
get_elem?-Found (x ∷ l) (suc i) m f = get_elem?-Found l i m f.1

pub lookup-Found : (l : List Shmemory) (i : ℕ) (m : Shmemory) → Found l i m → lookup l m.id ≡ some m
lookup-Found [] i m f = absurd f
lookup-Found (x ∷ l) zero m f = rw (f, ==_self m.id) refl
lookup-Found (x ∷ l) (suc i) m f = rw f.0 (lookup-Found l i m f.1)

-- What a search by id gives.
abbrev pub Search : List Shmemory → ℕ → Option ℕ → Type 0
Search l id none = lookup l id ≡ none
Search l id (some i) = (m : Shmemory) × (m.id ≡ id) × Found l i m

pub find_shmemory_index-Search :
    (l : List Shmemory) (id : ℕ) → Search l id (find_shmemory_index l id)
unfolding find_shmemory_index
find_shmemory_index-Search [] id = refl
find_shmemory_index-Search (x ∷ l) id = elim (Bool-cases (x.id == id)) [
  | inl hit ↦ rw hit (x, (==_iff x.id id).0 hit, refl)
  | inr miss ↦ rw miss (later (find_shmemory_index l id) (find_shmemory_index-Search l id) miss)
]
  where
    later :
        (r : Option ℕ)
        → Search l id r
        → (x.id == id) ≡ false
        → Search (x ∷ l) id (elim r [ none ↦ none | some i ↦ some (suc i) ])
    later none s miss = rw miss s
    later (some i) (m, e, f) miss = (m, e, (rw e miss, f))

-- What a search by address gives.
abbrev pub AddrSearch : List Shmemory → ℕ → Option (ℕ × Shmemory) → Type 0
AddrSearch l addr none = (id : ℕ) (m : Shmemory) → lookup l id ≡ some m → m.addr ≢ addr
AddrSearch l addr (some (i, m)) = (m.addr ≡ addr) × Found l i m

-- An id that is not in the table differs from every one that is.
absent_differs :
    (l : List Shmemory) (i : ℕ) (x m : Shmemory)
    → lookup l x.id ≡ none
    → Found l i m
    → (x.id == m.id) ≡ false
absent_differs l i x m gone f = elim (Bool-cases (x.id == m.id)) [
  | inr miss ↦ miss
  | inl hit ↦
      let e : x.id ≡ m.id = (==_iff x.id m.id).0 hit in
      let bad : none ≡ some m = sym gone ∙ ap (λ j. lookup l j) e ∙ lookup-Found l i m f in
      absurd (ground arith)
]

pub find_addr-AddrSearch :
    (l : List Shmemory) (addr : ℕ) → Distinct l → AddrSearch l addr (find_addr l addr)
unfolding find_addr
find_addr-AddrSearch [] addr d = λ id m e. absurd (ground arith)
find_addr-AddrSearch (x ∷ l) addr (gone, _, d) = elim (Bool-cases (x.addr == addr)) [
  | inl hit ↦ rw hit ((==_iff x.addr addr).0 hit, refl)
  | inr miss ↦ rw miss (later (find_addr l addr) (find_addr-AddrSearch l addr d) miss)
]
  where
    later :
        (r : Option (ℕ × Shmemory))
        → AddrSearch l addr r
        → (x.addr == addr) ≡ false
        → AddrSearch (x ∷ l) addr (elim r [ none ↦ none | some (i, m) ↦ some (suc i, m) ])
    later none s miss = λ id m e. elim (Bool-cases (x.id == id)) [
      | inl hit ↦ ground (arith, (rw hit at e))
      | inr other ↦ s id m (rw other at e)
    ]
    later (some (i, m)) (e, f) miss = (e, (absent_differs l i x m gone f, f))

-- Writing the entry of an id changes what that id looks up, and nothing else.
pub lookup-set :
    (l : List Shmemory) (i j : ℕ) (m v : Shmemory)
    → Found l i m
    → v.id ≡ m.id
    → lookup (set l i v) j ≡ (if m.id == j then some v else lookup l j)
lookup-set [] i j m v f e = absurd f
lookup-set (x ∷ l) zero j m v f e = elim (Bool-cases (m.id == j)) [
  | inl hit ↦ rw (e, hit)
  | inr miss ↦ rw (e, f, miss)
]
lookup-set (x ∷ l) (suc i) j m v (before, f) e = elim (Bool-cases (x.id == j)) [
  | inl hit ↦
      let p : x.id ≡ j = (==_iff x.id j).0 hit in
      let n : (m.id == j) ≡ false = ground (arith, p, before) in rw (hit, n)
  | inr miss ↦ rw miss (lookup-set l i j m v f e)
]

-- Removing the entry of an id takes that id away, and nothing else.
pub lookup-remove_at :
    (l : List Shmemory) (i j : ℕ) (m : Shmemory)
    → Distinct l
    → Found l i m
    → lookup (remove_at l i) j ≡ (if m.id == j then none else lookup l j)
unfolding remove_at
lookup-remove_at [] i j m d f = absurd f
lookup-remove_at (x ∷ l) zero j m (gone, _, d) f = elim (Bool-cases (m.id == j)) [
  | inl hit ↦ rw hit (ap (λ k. lookup l k) (sym (ap (λ y. y.id) f ∙ (==_iff m.id j).0 hit)) ∙ gone)
  | inr miss ↦ rw (f, miss)
]
lookup-remove_at (x ∷ l) (suc i) j m (gone, _, d) (before, f) = elim (Bool-cases (x.id == j)) [
  | inl hit ↦
      let p : x.id ≡ j = (==_iff x.id j).0 hit in
      let n : (m.id == j) ≡ false = ground (arith, p, before) in rw (hit, n)
  | inr miss ↦ rw miss (lookup-remove_at l i j m d f)
]

pub lookup-append :
    (l : List Shmemory) (m : Shmemory) (j : ℕ)
    → lookup l m.id ≡ none
    → lookup (l ++ (m ∷ [])) j ≡ (if m.id == j then some m else lookup l j)
lookup-append [] m j gone = refl
lookup-append (x ∷ l) m j gone = elim (Bool-cases (x.id == m.id)) [
  | inl same ↦ absurd (ground (arith, rw same at gone))
  | inr other ↦ elim (Bool-cases (x.id == j)) [
    | inl hit ↦
        let p : x.id ≡ j = (==_iff x.id j).0 hit in
        let n : (m.id == j) ≡ false = ground (arith, p, other) in rw (hit, n)
    | inr miss ↦ rw miss (lookup-append l m j (rw other at gone))
  ]
]

pub set-Distinct :
    (l : List Shmemory) (i : ℕ) (m v : Shmemory)
    → Distinct l
    → Found l i m
    → v.id ≡ m.id
    → Distinct (set l i v)
set-Distinct [] i m v d f e = absurd f
set-Distinct (x ∷ l) zero m v (gone, nonzero, d) f e =
    let same : x.id ≡ v.id = ap (λ y. y.id) f ∙ sym e in
    (subst (λ k. lookup l k ≡ none) same gone, subst (λ k. k ≢ 0) same nonzero, d)
set-Distinct (x ∷ l) (suc i) m v (gone, nonzero, d) (before, f) e =
    let n : (m.id == x.id) ≡ false = ground (arith, before) in
    (lookup-set l i x.id m v f e ∙ rw n gone, nonzero, set-Distinct l i m v d f e)

pub remove_at-Distinct :
    (l : List Shmemory) (i : ℕ) (m : Shmemory) → Distinct l → Found l i m → Distinct (remove_at l i)
unfolding remove_at
remove_at-Distinct [] i m d f = absurd f
remove_at-Distinct (x ∷ l) zero m d f = d.2
remove_at-Distinct (x ∷ l) (suc i) m (gone, nonzero, d) (before, f) =
    let n : (m.id == x.id) ≡ false = ground (arith, before) in
    (lookup-remove_at l i x.id m d f ∙ rw n gone, nonzero, remove_at-Distinct l i m d f)

pub append-Distinct :
    (l : List Shmemory) (m : Shmemory)
    → Distinct l
    → m.id ≢ 0
    → lookup l m.id ≡ none
    → Distinct (l ++ (m ∷ []))
append-Distinct [] m d n gone = (refl, n, tt)
append-Distinct (x ∷ l) m (away, nonzero, d) n gone = elim (Bool-cases (x.id == m.id)) [
  | inl same ↦ absurd (ground (arith, rw same at gone))
  | inr other ↦
      let o : (m.id == x.id) ≡ false = ground (arith, other) in
      let rest : lookup l m.id ≡ none = rw other at gone in
      (lookup-append l m x.id rest ∙ rw o away, nonzero, append-Distinct l m d n rest)
]
