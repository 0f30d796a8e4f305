-- ===== src/ServerThread/Conserved.antt =====
-- server/thread_pro11.c: no descriptor in flight is lost, and the one that was sent is found.
use menano.Prelude.{
  ℕ, zero, suc, ◌+◌, ◌<◌, ◌≡◌, refl, ap, subst, Bool, true, false, Option, none, some, List, [],
  ◌∷◌, ◌++◌, arith, ◌==◌, if◌then◌else◌, ==_self, length, get_or, set, get_or-set_self,
}
use menano.ServerThread.Inflight.{
  Fds, Table, is_client, is_free, next, find, server_of, put, close, add_at, thread_add_inflight_fd,
  thread_get_inflight_fd,
}

abbrev Slot : Type 0
Slot = Option Fds

next-eq-suc :
    (b : Bool) (o : Option ℕ) (i : ℕ)
    → (if b then some 0 else next o) ≡ some (suc i)
    → (b ≡ false) × (o ≡ some i)
next-eq-suc true o i e = absurd (ground arith)
next-eq-suc false none i e = absurd cc
next-eq-suc false (some k) i e = (refl, ap some (ground arith))

next-eq-zero : (b : Bool) (o : Option ℕ) → (if b then some 0 else next o) ≡ some 0 → b ≡ true
next-eq-zero true o e = refl
next-eq-zero false none e = absurd cc
next-eq-zero false (some k) e = absurd (ground arith)

next-eq-none :
    (b : Bool) (o : Option ℕ) → (if b then some 0 else next o) ≡ none → (b ≡ false) × (o ≡ none)
next-eq-none true o e = absurd cc
next-eq-none false none e = (refl, refl)
next-eq-none false (some k) e = absurd cc

-- Writing the first slot that passes a test keeps it first.
find-set_first :
    (p : Slot → Bool) (ss : List Slot) (i : ℕ) (v : Slot)
    → find p ss ≡ some i
    → p v ≡ true
    → find p (set ss i v) ≡ some i
unfolding find
find-set_first p [] i v e h = absurd cc
find-set_first p (s ∷ ss) zero v e h = rw h refl
find-set_first p (s ∷ ss) (suc i) v e h =
    let c = next-eq-suc (p s) (find p ss) i e in rw c.0 (ap next (find-set_first p ss i v c.1 h))

-- A slot that another test found is the first for a test that found none.
find-set_new :
    (p q : Slot → Bool) (ss : List Slot) (i : ℕ) (v : Slot)
    → find p ss ≡ none
    → find q ss ≡ some i
    → p v ≡ true
    → find p (set ss i v) ≡ some i
unfolding find
find-set_new p q [] i v n e h = absurd cc
find-set_new p q (s ∷ ss) zero v n e h = rw h refl
find-set_new p q (s ∷ ss) (suc i) v n e h =
    let c = next-eq-suc (q s) (find q ss) i e in
    let d = next-eq-none (p s) (find p ss) n in rw d.0 (ap next (find-set_new p q ss i v d.1 c.1 h))

-- The slot that is found passes the test and is in the table.
find_lem :
    (p : Slot → Bool) (ss : List Slot) (i : ℕ)
    → find p ss ≡ some i
    → (i < length ss) × (p (get_or ss i none) ≡ true)
unfolding find
find_lem p [] i e = absurd cc
find_lem p (s ∷ ss) zero e = (omega arith, next-eq-zero (p s) (find p ss) e)
find_lem p (s ∷ ss) (suc i) e =
    let c = next-eq-suc (p s) (find p ss) i e in let r = find_lem p ss i c.1 in (omega arith, r.1)

-- How often a descriptor is held.
unfoldable pub times_in : ℕ → List ℕ → ℕ
times_in fd [] = 0
times_in fd (x ∷ xs) = let rest = times_in fd xs in if x == fd then suc rest else rest

unfoldable pub times_slots : ℕ → List Slot → ℕ
unfolding times_in
times_slots fd [] = 0
times_slots fd (s ∷ ss) = times_in fd (server_of s) + times_slots fd ss

unfoldable pub held : ℕ → Table → ℕ
unfolding times_slots times_in
held fd t = times_slots fd t.slots + times_in fd t.closed

times_in-append :
    (fd : ℕ) (xs ys : List ℕ) → times_in fd (xs ++ ys) ≡ times_in fd xs + times_in fd ys
unfolding times_in
times_in-append fd [] ys = omega arith
times_in-append fd (x ∷ xs) ys = ground (arith, times_in-append fd xs ys)

times_slots-set :
    (fd : ℕ) (ss : List Slot) (i : ℕ) (v : Slot)
    → i < length ss
    → times_slots fd (set ss i v) + times_in fd (server_of (get_or ss i none))
      ≡ times_slots fd ss + times_in fd (server_of v)
unfolding times_slots
times_slots-set fd [] i v h = absurd (omega arith)
times_slots-set fd (s ∷ ss) zero v h = omega arith
times_slots-set fd (s ∷ ss) (suc i) v h =
    let r = times_slots-set fd ss i v (omega arith) in omega arith

held-close :
    (fd : ℕ) (fds : List ℕ) (t : Table) → held fd (close fds t) ≡ held fd t + times_in fd fds
unfolding held
held-close fd fds t = omega (arith, times_in-append fd t.closed fds)

held-put :
    (fd i client server : ℕ) (t : Table)
    → i < length t.slots
    → held fd (put i client server t) + times_in fd (server_of (get_or t.slots i none))
      ≡ held fd t + times_in fd (server ∷ [])
unfolding held
held-put fd i client server t h =
    let c = times_slots-set fd t.slots i (some (record { client = client; server = server })) h in
    omega arith

nothing_held : (fd : ℕ) (s : Slot) → is_free s ≡ true → times_in fd (server_of s) ≡ 0
unfolding times_in
nothing_held fd none h = refl
nothing_held fd (some f) h = absurd cc

held-add_at :
    (fd : ℕ) (o r : Option ℕ) (client server : ℕ) (t : Table)
    → find (is_client client) t.slots ≡ o
    → find is_free t.slots ≡ r
    → held fd (add_at o r client server t).1 ≡ held fd t + times_in fd (server ∷ [])
held-add_at fd (some i) r client server t e f =
    let old : List ℕ = server_of (get_or t.slots i none) in
    let l = find_lem (is_client client) t.slots i e in
    let c = held-close fd old t in
    let d = held-put fd i client server (close old t) l.0 in omega arith
held-add_at fd none (some i) client server t e f =
    let l = find_lem is_free t.slots i f in
    let d = held-put fd i client server t l.0 in
    let z = nothing_held fd (get_or t.slots i none) l.1 in omega arith
held-add_at fd none none client server t e f = held-close fd (server ∷ []) t

abbrev pub fd_of : Option ℕ → List ℕ
fd_of none = []
fd_of (some fd) = fd ∷ []

-- No descriptor is lost: a descriptor that is sent is afterwards in the table or closed, once, and
-- the others are where they were.
pub held-thread_add_inflight_fd :
    (fd : ℕ) (client server : Option ℕ) (t : Table)
    → held fd (thread_add_inflight_fd client server t).1 ≡ held fd t + times_in fd (fd_of server)
unfolding thread_add_inflight_fd times_in
held-thread_add_inflight_fd fd client none t = omega arith
held-thread_add_inflight_fd fd none (some server) t = held-close fd (server ∷ []) t
held-thread_add_inflight_fd fd (some client) (some server) t =
    held-add_at fd (find (is_client client) t.slots) (find is_free t.slots) client server t refl
      refl

abbrev of : ℕ → ℕ → Fds
of client server = record { client = client; server = server }

record IsAt (i client server : ℕ) (t : Table) : Type 0 where
  found : find (is_client client) t.slots ≡ some i
  slot : get_or t.slots i none ≡ some (of client server)

add_at-IsAt :
    (o r : Option ℕ) (i client server : ℕ) (t : Table)
    → find (is_client client) t.slots ≡ o
    → find is_free t.slots ≡ r
    → (add_at o r client server t).0 ≡ some i
    → IsAt i client server (add_at o r client server t).1
add_at-IsAt (some k) r i client server t e f h =
    let k_i : k ≡ i = ground arith in
    let l = find_lem (is_client client) t.slots k e in
    subst
      (λ j.
        IsAt j client server (put k client server (close (server_of (get_or t.slots k none)) t)))
      k_i
      (record {
        found =
            find-set_first (is_client client) t.slots k (some (of client server)) e
              (==_self client);
        slot = get_or-set_self t.slots k (some (of client server)) none l.0;
      })
add_at-IsAt none (some k) i client server t e f h =
    let k_i : k ≡ i = ground arith in
    let l = find_lem is_free t.slots k f in
    subst (λ j. IsAt j client server (put k client server t)) k_i
      (record {
        found =
            find-set_new (is_client client) is_free t.slots k (some (of client server)) e f
              (==_self client);
        slot = get_or-set_self t.slots k (some (of client server)) none l.0;
      })
add_at-IsAt none none i client server t e f h = absurd cc

get_at :
    (i client server : ℕ) (t : Table) (fs : List Fds)
    → IsAt i client server t
    → let r = thread_get_inflight_fd client fs t in (r.0 ≡ some server) × (r.1.0 ≡ fs)
unfolding thread_get_inflight_fd
get_at i client server t [] h = rw (h.found, h.slot) (refl, refl)
get_at i client server t (f ∷ fs) h = rw (h.found, h.slot) (refl, refl)

-- What is sent is found: a descriptor that was put into the table for a client is what the next
-- request of that client gets, without a look at the messages that still wait.
pub thread_get_inflight_fd-add :
    (client server i : ℕ) (t : Table) (fs : List Fds)
    → (thread_add_inflight_fd (some client) (some server) t).0 ≡ some i
    → let r =
        thread_get_inflight_fd client fs (thread_add_inflight_fd (some client) (some server) t).1 in
      (r.0 ≡ some server) × (r.1.0 ≡ fs)
unfolding thread_add_inflight_fd
thread_get_inflight_fd-add client server i t fs e =
    get_at i client server (thread_add_inflight_fd (some client) (some server) t).1 fs (
      add_at-IsAt (find (is_client client) t.slots) (find is_free t.slots) i client server t refl
        refl e)
