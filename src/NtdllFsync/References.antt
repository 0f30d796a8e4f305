-- ===== src/NtdllFsync/References.antt =====
-- An operation on a cached object takes a reference and gives it back, dlls/ntdll/unix/fsync_pro10.c.
use menano.Prelude.{
  ℕ, suc, ◌+◌, ◌-◌, ◌%◌, ◌^◌, ◌<◌, ◌≡◌, ◌≢◌, Bool, false, Option, some, arith, ◌||◌, ltb, leb, ◌==◌,
  fun_ext, ap, Bool-cases, ==_iff, inl, inr,
}
use menano.ServerFsync.Defs.{Slot, update}
use menano.NtdllFsync.Cache.{load}
use menano.NtdllFsync.Defs.{
  Client, Object, Status, Reply, object, M, ◌>>=◌, slot, with_ref, grab_object, put_object,
  grab_entry, get_cached_object, get_object, with_object,
}

-- The table knows the object of the handle, and its index has references left to count.
pub record IsCached (c : Client) (handle : ℕ) (o : Object) : Type 0 where
  pub known : load handle c.cache ≡ record { type = some o.type; shm_idx = o.shm_idx }
  pub nonzero : o.shm_idx ≢ 0
  pub referenced : 0 < (slot c o.shm_idx).ref
  pub countable : (slot c o.shm_idx).ref < 2 ^ 31 - 1

pub update-update : (f : ℕ → Slot) (i : ℕ) (a b : Slot) → update (update f i a) i b ≡ update f i b
update-update f i a b = fun_ext λ j. ground arith

pub update_same : (f : ℕ → Slot) (i : ℕ) → update f i (f i) ≡ f
update_same f i = fun_ext λ j. elim (Bool-cases (i == j)) [
  | inl hit ↦ let e : i ≡ j = (==_iff i j).0 hit in rw hit (ap f e)
  | inr miss ↦ rw miss
]

module _ (c : Client) (handle : ℕ) (o : Object) (k : IsCached c handle o) where
  abbrev ref : ℕ
  ref = (slot c o.shm_idx).ref

  abbrev pub held : Client
  held = with_ref c o.shm_idx (ref + 1)

  grab_entry-cached :
      (again : M (Option Object))
      → grab_entry again (record { type = some o.type; shm_idx = o.shm_idx }) c
        ≡ some (some o, held)
  unfolding grab_entry grab_object
  grab_entry-cached again =
      let kept : (o.shm_idx == 0) ≡ false = ground (arith, k.nonzero) in
      let sum : (ref + 1) % 2 ^ 32 ≡ ref + 1 = omega (arith, k.countable) in
      let alive : (ltb (ref + 1) 2 || leb (2 ^ 31) (ref + 1)) ≡ false =
        ground (arith, k.referenced, k.countable) in
      rw (kept, sum, alive)

  get_cached_object-cached :
      (fuel : ℕ) → get_cached_object (suc fuel) handle c ≡ some (some o, held)
  unfolding get_cached_object
  get_cached_object-cached fuel = rw (k.known, get_cached_object) (grab_entry-cached _)

  pub get_object-cached :
      (fuel : ℕ) (memory : Bool) (reply : Reply)
      → get_object (suc fuel) memory reply handle c ≡ some (object o, held)
  unfolding get_object
  get_object-cached fuel memory reply = rw (get_cached_object-cached fuel, ◌>>=◌)

  -- Putting back a reference that is not the last one.
  put_object_shared :
      (d : Client)
      → (slot d o.shm_idx).ref ≡ ref + 1
      → put_object o.shm_idx d ≡ some (tt, with_ref d o.shm_idx ref)
  unfolding put_object
  put_object_shared d e =
      let many : (ref + 1 == 1) ≡ false = ground (arith, k.referenced) in
      let back : (ref + 1 + 2 ^ 32 - 1) % 2 ^ 32 ≡ ref = omega (arith, k.countable) in
      rw (e, many, back)

  pub with_object-cached :
      {A : Type 0} (fuel : ℕ) (memory : Bool) (reply : Reply)
      (body : Object → M (Status × Option A)) (r : Status × Option A) (d : Client)
      → body o held ≡ some (r, d)
      → (slot d o.shm_idx).ref ≡ ref + 1
      → with_object (get_object (suc fuel) memory reply handle) body c
        ≡ some (r, with_ref d o.shm_idx ref)
  unfolding with_object
  with_object-cached fuel memory reply body r d ran kept =
      rw (get_object-cached fuel memory reply, ◌>>=◌)
        (rw (ran, ◌>>=◌) (rw (put_object_shared d kept, ◌>>=◌)))
