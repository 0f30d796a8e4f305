-- ===== src/NtdllFsync/Learns.antt =====
-- get_object of dlls/ntdll/unix/fsync_pro10.c on a handle that the process has not seen yet.
use menano.Prelude.{
  ℕ, suc, ◌+◌, ◌-◌, ◌%◌, ◌^◌, ◌<◌, ◌≡◌, refl, ◌≢◌, Bool, true, false, none, some, arith, leb, ◌==◌,
  ==_self, ◌∙◌,
}
use menano.ServerFsync.Objects.{FsyncType}
use menano.NtdllFsync.Cache.{IsHandle, empty_entry, load, load-add_to_list, add_to_list}
use menano.NtdllFsync.Defs.{
  Client, Object, Reply, index, object, ◌>>=◌, slot, with_ref, grab_entry, get_cached_object,
  ask_server, get_object,
}
use menano.NtdllFsync.References.{IsCached, get_object-cached}

module _ (handle idx fuel : ℕ) (type : FsyncType) (c : Client) (valid : IsHandle handle)
    (unknown : load handle c.cache ≡ empty_entry) (nonzero : idx ≢ 0)
    (countable : (slot c idx).ref + 1 < 2 ^ 31 - 1) where
  abbrev pub found : Object
  found = record { type = type; shm_idx = idx }

  abbrev pub learnt : Client
  learnt =
      let c' = with_ref c idx ((slot c idx).ref + 1) in
      record c' { cache = add_to_list true handle type idx c.cache }

  get_cached_object_misses : get_cached_object (suc fuel) handle c ≡ some (none, c)
  unfolding get_cached_object grab_entry
  get_cached_object_misses = rw (unknown, get_cached_object) refl

  learnt-IsCached : IsCached learnt handle found
  learnt-IsCached = record {
    known = load-add_to_list handle handle type idx c.cache valid valid ∙ rw (==_self handle) refl;
    nonzero = nonzero;
    referenced = rw (==_self idx) (omega arith);
    countable = rw (==_self idx) countable;
  }

  -- For a handle that is not cached, if there is memory for the table, the index is not 0 and there are
  -- references left to count, get_object takes the server's
  -- answer, with the reference that the server has taken, and caches it: from then on, whatever the
  -- server would answer, it gives the same object and takes a reference itself.
  pub get_object-get_object :
      (memory : Bool) (reply : Reply)
      → (get_object (suc fuel) true (index type idx) handle c ≡ some (object found, learnt))
        × (get_object (suc fuel) memory reply handle learnt
            ≡ some (object found, with_ref learnt idx ((slot learnt idx).ref + 1)))
  unfolding get_object ask_server
  get_object-get_object memory reply =
      let low : leb (2 ^ 63) handle ≡ false = ground (arith, valid.1, valid.2) in
      let some_handle : (handle == 0) ≡ false = ground (arith, valid.1) in
      let sum : ((slot c idx).ref + 1) % 2 ^ 32 ≡ (slot c idx).ref + 1 = omega (arith, countable) in
      (
        rw (get_cached_object_misses, ◌>>=◌)
            (rw (low, some_handle) (rw (get_cached_object_misses, ◌>>=◌) (rw sum refl))),
        get_object-cached learnt handle found learnt-IsCached fuel memory reply,
      )
