-- ===== src/Sysvshm/Defs.antt =====
-- path/android_sysvshm.c: the table of segments and the four calls. The server's replies, the kernel's
-- address for a mapping and the page size are arguments; what the calls ask of the outside is kept in
-- the order newest first. An address of 0 is NULL, and `none` is a negative file descriptor. The mutex
-- makes each call one step, and realloc is taken to succeed.
use menano.Prelude.{
  ℕ, zero, suc, ◌+◌, ◌-◌, ◌*◌, ◌/◌, ◌%◌, ◌^◌, Bool, true, false, not, ◌||◌, Option, none, some,
  List, [], ◌∷◌, ◌++◌, ◌==◌, if◌then◌else◌, get_elem?, set,
}

pub record Shmemory : Type 0 where
  pub id : ℕ
  pub addr : ℕ
  pub fd : Option ℕ
  pub size : ℕ
  pub marked_for_delete : Bool

-- Requests to the server, and calls of the kernel.
pub data Effect : Type 0 where
  request_shmget request_get_fd request_delete close_fd : ℕ → Effect
  mmap munmap : ℕ → ℕ → Effect

pub record Table : Type 0 where
  pub shmemories : List Shmemory
  pub effects : List Effect

-- What one connection to the server gives: whether it is there, the id of a new segment (0 for none),
-- and a descriptor for a segment.
pub record Replies : Type 0 where
  pub connected : Bool
  pub shmid : ℕ
  pub fd : Option ℕ

-- `ROUND_UP( size, getpagesize() )` on a size_t.
unfoldable pub round_up : ℕ → ℕ → ℕ
round_up n s = ((n + s + 2 ^ 64 - 1) % 2 ^ 64 / s * s) % 2 ^ 64

unfoldable pub find_shmemory_index : List Shmemory → ℕ → Option ℕ
find_shmemory_index [] shmid = none
find_shmemory_index (m ∷ l) shmid =
    let rest = find_shmemory_index l shmid in
    if m.id == shmid then some 0 else elim rest [ none ↦ none | some i ↦ some (suc i) ]

-- The memmove over the entry at an index.
unfoldable pub remove_at : List Shmemory → ℕ → List Shmemory
remove_at [] i = []
remove_at (m ∷ l) zero = l
remove_at (m ∷ l) (suc i) = m ∷ remove_at l i

abbrev pub emit : Effect → Table → Table
emit e t = record t { effects = e ∷ t.effects }

-- A request only goes out on a connection.
abbrev pub request : Bool → Effect → Table → Table
request connected e t = if connected then emit e t else t

abbrev pub close_if_open : Option ℕ → Table → Table
close_if_open none t = t
close_if_open (some fd) t = emit (close_fd fd) t

unfoldable pub sysvshm_delete : Bool → ℕ → Shmemory → Table → Table
sysvshm_delete connected index m t =
    let t' = close_if_open m.fd (request connected (request_delete m.id) t) in
    record t' { shmemories = remove_at t'.shmemories index }

-- `-1` is `none`. The server is sent the low four bytes of the size.
unfoldable pub shmget : ℕ → Replies → Bool → ℕ → Table → Option ℕ × Table
shmget page_size replies is_private size t =
    let t1 = request replies.connected (request_shmget (size % 2 ^ 32)) t in
    let t2 = emit (request_get_fd replies.shmid) t1 in
    if not is_private
    then (none, t)
    else if not replies.connected || replies.shmid == 0
    then (none, t1)
    else elim replies.fd [
      | none ↦ (none, t2)
      | some fd ↦ (
        some replies.shmid,
        record t2 {
          shmemories =
              t2.shmemories
              ++ (record {
                id = replies.shmid;
                addr = 0;
                fd = some fd;
                size = round_up size page_size;
                marked_for_delete = false;
              }
                  ∷ []);
        },
      )
    ]

-- `mapped` is the address that mmap gives, 0 for MAP_FAILED.
unfoldable pub attach : ℕ → ℕ → Shmemory → Table → Option ℕ × Table
attach mapped index m t =
    let t' =
      emit (mmap mapped m.size)
        (record t { shmemories = set t.shmemories index (record m { addr = mapped }) }) in
    if not (m.addr == 0) then (some m.addr, t) else (if mapped == 0 then none else some mapped, t')

unfoldable pub shmat : ℕ → ℕ → Table → Option ℕ × Table
unfolding attach
shmat mapped shmid t = elim (find_shmemory_index t.shmemories shmid) [
  | none ↦ (none, t)
  | some index ↦ elim (get_elem? t.shmemories index) [
    | none ↦ (none, t)
    | some m ↦ attach mapped index m t
  ]
]

-- The first entry at an address, which for NULL is one that is not attached.
unfoldable pub find_addr : List Shmemory → ℕ → Option (ℕ × Shmemory)
find_addr [] addr = none
find_addr (m ∷ l) addr =
    let rest = find_addr l addr in
    if m.addr == addr
    then some (0, m)
    else elim rest [ none ↦ none | some (i, m') ↦ some (suc i, m') ]

unfoldable pub shmdt : Bool → ℕ → Table → Table
unfolding sysvshm_delete
shmdt connected shmaddr t = elim (find_addr t.shmemories shmaddr) [
  | none ↦ t
  | some (i, m) ↦
      let m' = record m { addr = 0 } in
      let t' = emit (munmap m.addr m.size) (record t { shmemories = set t.shmemories i m' }) in
      if m.marked_for_delete then sysvshm_delete connected i m' t' else t'
]

unfoldable pub shmctl_rmid : Bool → ℕ → Table → Table
unfolding sysvshm_delete
shmctl_rmid connected shmid t = elim (find_shmemory_index t.shmemories shmid) [
  | none ↦ t
  | some index ↦ elim (get_elem? t.shmemories index) [
    | none ↦ t
    | some m ↦
        if not (m.addr == 0)
        then record t {
          shmemories = set t.shmemories index (record m { marked_for_delete = true });
        }
        else sysvshm_delete connected index m t
  ]
]

-- The size that IPC_STAT reports.
unfoldable pub shmctl_stat : Bool → ℕ → Table → Option ℕ
shmctl_stat buf shmid t = elim (find_shmemory_index t.shmemories shmid) [
  | none ↦ none
  | some index ↦ elim (get_elem? t.shmemories index) [
    | none ↦ none
    | some m ↦ if buf then some m.size else none
  ]
]
