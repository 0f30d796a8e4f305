-- ===== src/ServerInproc/Tests.antt =====
-- server/inproc_sync_pro11.c on concrete servers.
use menano.Prelude.{
  ℕ, ◌+◌, ◌≡◌, refl, ap, ◌∙◌, Bool, true, false, ◌&&◌, Option, none, some, List, [], ◌∷◌, arith,
  ltb, ◌==◌, if◌then◌else◌,
}
use mathlib.Core.Option.{some_inj}
use menano.ServerInproc.Device.{
  Environment, Choice, get_inproc_device_fd, IsDecided, Descriptors, get_inproc_device_fd-IsDecided,
  undecided, kernel,
}
use menano.ServerInproc.Syncs.{
  InprocSync, Provider, FsyncCalls, Server, inproc_sync_destroy, alloc, inproc_sync_mutex,
  fsync_mutex, created,
}
use menano.ServerInproc.Isolated.{
  InprocOp, run_ops, IsIsolated, creates_event, creates_mutex, signals, abandons,
}
use menano.ServerInproc.Operations.{run_ops-IsIsolated}
use menano.ServerInproc.Lifetime.{
  IsAllocator, is_listed, IsUndone, made, inproc_sync_destroy-create_at,
}

-- A provider that hands out the descriptors 5, 6 and 7.
abbrev take : ℕ → Option ℕ × ℕ
take n = if ltb n 8 then (some n, n + 1) else (none, n)

abbrev counter : Provider ℕ
counter = record {
  create_event = λ manual signaled n. take n;
  create_mutex = λ owner count n. take n;
  create_sem = λ initial max n. take n;
  event_set = λ fd n. n + 100;
  event_reset = λ fd n. n + 1000;
  mutex_kill = λ fd tid n. n + 10000;
  close = λ fd n. n;
}

abbrev no_calls : FsyncCalls ℕ
no_calls = record {
  fsync_alloc_shm = λ low high n. take n;
  fsync_free_shm_idx = λ idx n. some n;
  fsync_set_event = λ idx shm. shm;
  fsync_reset_event = λ idx shm. shm;
  fsync_abandon_mutex = λ idx tid shm. shm;
  fsync_grab_shm_idx = λ idx shm. (idx, shm);
}

abbrev server : Bool → Bool → ℕ → Server ℕ ℕ
server fsync library next = record {
  do_fsync = fsync;
  ntsync_userspace = library;
  shm = next;
  device = next;
  library = next;
  mutexes = record { address = 1; kind = fsync_mutex; fd = some 3 } ∷ [];
}

abbrev environment : Environment
environment = record {
  no_ntsync = false;
  force_userspace = false;
  opened = some 11;
  probe = some 12;
  init = true;
}

abbrev initial_choice : Choice
initial_choice = record { fd = undecided; do_fsync = true; ntsync_userspace = false; closed = [] }

kernel_is_chosen : (get_inproc_device_fd environment initial_choice).0 ≡ kernel 11
unfolding get_inproc_device_fd
kernel_is_chosen = refl

get_inproc_device_fd-IsDecided_example :
    let r = get_inproc_device_fd environment initial_choice in
    IsDecided r.1
    × (get_inproc_device_fd (record environment { no_ntsync = true }) r.1 ≡ (r.0, r.1))
    × ((n : ℕ)
        → environment.no_ntsync ≡ false
        → environment.opened ≡ some n
        → Descriptors environment initial_choice r.1 n)
get_inproc_device_fd-IsDecided_example =
    get_inproc_device_fd-IsDecided environment (record environment { no_ntsync = true })
      initial_choice refl refl

-- PROTON_NO_KERNEL_NTSYNC: the userspace library.
abbrev forced : Choice
forced = (get_inproc_device_fd (record environment { force_userspace = true }) initial_choice).1

forced-IsDecided : IsDecided forced
unfolding get_inproc_device_fd
forced-IsDecided = record { decided = λ e. ground arith; library = refl; fsync = refl }

abbrev some_ops : List InprocOp
some_ops =
    creates_mutex (some 2) 4 1 ∷ creates_event (some 2) true false ∷ signals 6 ∷ abandons 4 ∷ []

some_ops_run : (run_ops counter counter no_calls some_ops (server false true 5)).library ≡ 20107
unfolding run_ops
some_ops_run = refl

run_ops-IsIsolated_example :
    IsIsolated counter counter no_calls
      (server false true 5)
      (run_ops counter counter no_calls some_ops (server false true 5))
unfolding get_inproc_device_fd
run_ops-IsIsolated_example =
    run_ops-IsIsolated counter counter no_calls forced some_ops (server false true 5)
      forced-IsDecided refl refl

-- A pool of descriptors: each one below `next` is open or closed.
record Pool : Type 0 where
  next : ℕ
  opened : ℕ → Bool

abbrev is_open : Pool → ℕ → Bool
is_open p j = ltb j p.next && p.opened j

abbrev open_next : Pool → Option ℕ × Pool
open_next p = (
  some p.next,
  record { next = p.next + 1; opened = λ j. if p.next == j then true else p.opened j },
)

abbrev close_one : ℕ → Pool → Pool
close_one n p = record p { opened = λ j. if n == j then false else p.opened j }

open_next-IsAllocator : IsAllocator is_open open_next (λ n p. some (close_one n p))
open_next-IsAllocator = record {
  fresh = λ a n e. not_yet a.next n (a.opened n) (some_inj.0 e);
  taken = λ a n e j.
      let same : a.next ≡ n = some_inj.0 e in
      one_more a.next j (a.opened j) ∙ ap (λ k. if k == j then true else is_open a j) same;
  given = λ a n u. (close_one n a, refl, λ j. one_less (ltb j a.next) (a.opened j) (n == j));
}
  where
    one_more :
        (k j : ℕ) (b : Bool)
        → (ltb j (k + 1) && (if k == j then true else b)) ≡ (if k == j then true else ltb j k && b)
    one_more k j b = ground arith

    not_yet : (k n : ℕ) (b : Bool) → k ≡ n → (ltb n k && b) ≡ false
    not_yet k n b e = ground arith

    one_less : (a b c : Bool) → (a && (if c then false else b)) ≡ (if c then false else a && b)
    one_less true b true = refl
    one_less true b false = refl
    one_less false b true = refl
    one_less false b false = refl

abbrev pool : Provider Pool
pool = record {
  create_event = λ manual signaled p. open_next p;
  create_mutex = λ owner count p. open_next p;
  create_sem = λ initial max p. open_next p;
  event_set = λ fd p. p;
  event_reset = λ fd p. p;
  mutex_kill = λ fd tid p. p;
  close = close_one;
}

abbrev pool_free : Option ℕ → Pool → Option Pool
pool_free none p = none
pool_free (some n) p = some (close_one n p)

abbrev pool_calls : FsyncCalls Pool
pool_calls = record {
  fsync_alloc_shm = λ low high p. open_next p;
  fsync_free_shm_idx = pool_free;
  fsync_set_event = λ idx p. p;
  fsync_reset_event = λ idx p. p;
  fsync_abandon_mutex = λ idx tid p. p;
  fsync_grab_shm_idx = λ idx p. (idx, p);
}

abbrev first_mutex : List InprocSync
first_mutex = record { address = 1; kind = fsync_mutex; fd = some 3 } ∷ []

abbrev some_pool : Pool
some_pool = record { next = 4; opened = λ j. j == 3 }

abbrev pool_server : Server Pool Pool
pool_server = record {
  do_fsync = true;
  ntsync_userspace = false;
  shm = some_pool;
  device = some_pool;
  library = some_pool;
  mutexes = first_mutex;
}

abbrev new_mutex : {D : Type 0} → Provider D → D → Option ℕ × D
new_mutex p = p.create_mutex 4 1

inproc_sync_destroy-create_at_example :
    (sync : InprocSync) × (t s' : Server Pool Pool) × (made pool pool pool_calls 4 1 new_mutex 2
        fsync_mutex inproc_sync_mutex true pool_server
      ≡ some (created sync, t))
    × (sync.fd ≡ some 4)
    × (inproc_sync_destroy pool pool pool_calls sync t ≡ some s')
    × IsUndone pool pool pool_calls 4 1 new_mutex is_open is_open first_mutex pool_server s'
unfolding is_listed alloc
inproc_sync_destroy-create_at_example =
    inproc_sync_destroy-create_at pool pool pool_calls 4 1 new_mutex 2 fsync_mutex inproc_sync_mutex
      true pool_server is_open is_open 4
      (record {
        of_fsync = open_next-IsAllocator;
        of_driver = open_next-IsAllocator;
        of_library = open_next-IsAllocator;
      })
      refl refl
