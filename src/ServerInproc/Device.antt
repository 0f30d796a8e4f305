-- ===== src/ServerInproc/Device.antt =====
-- server/inproc_sync_pro11.c: which synchronization the server offers, get_inproc_device_fd.
use menano.Prelude.{
  ℕ, ◌≡◌, refl, sym, ap, subst, ◌≢◌, ◌⊎◌, inl, inr, Bool, true, false, not, ◌&&◌, Option, none,
  some, List, [], ◌∷◌, ◌++◌, arith, if◌then◌else◌, Bool-cases, Option-cases,
}

-- What the static `fd` stands for: not decided (-2), none (-1), a descriptor of /dev/ntsync, the
-- userspace library (0), or FSYNC_USED_BY_SERVER.
pub data Device : Type 0 where
  undecided unavailable userspace used_by_fsync : Device
  kernel : ℕ → Device

-- What the environment and the system answer: the variables PROTON_NO_NTSYNC and
-- PROTON_NO_KERNEL_NTSYNC, open and the probing ioctl with its descriptor, and ntsync_init.
pub record Environment : Type 0 where
  pub no_ntsync : Bool
  pub force_userspace : Bool
  pub opened : Option ℕ
  pub probe : Option ℕ
  pub init : Bool

-- The static variables, and the descriptors that were closed.
pub record Choice : Type 0 where
  pub fd : Device
  pub do_fsync : Bool
  pub ntsync_userspace : Bool
  pub closed : List ℕ

-- The descriptor that is left once it is known to be usable, and what was closed on the way.
abbrev pub probed : ℕ → Option ℕ → Option ℕ × List ℕ
probed fd none = (none, fd ∷ [])
probed fd (some p) = (some fd, p ∷ [])

abbrev pub tried : Bool → Option ℕ → Option ℕ → Option ℕ × List ℕ
tried force none probe = (none, [])
tried force (some fd) probe = if force then (none, fd ∷ []) else probed fd probe

unfoldable pub probe_device : Environment → Option ℕ × List ℕ
probe_device e = tried e.force_userspace e.opened e.probe

-- The last part: an fd that is not negative turns fsync off.
unfoldable pub settle : Option ℕ → Environment → Choice → Choice
settle (some fd) e c = record c { fd = kernel fd; do_fsync = false }
settle none e c =
    if not e.no_ntsync && e.init
    then record c { fd = userspace; do_fsync = false; ntsync_userspace = true }
    else record c { fd = if c.do_fsync then used_by_fsync else unavailable }

unfoldable pub decide : Environment → Choice → Choice
unfolding probe_device settle
decide e c =
    let p = probe_device e in
    if e.no_ntsync then settle none e c else settle p.0 e (record c { closed = c.closed ++ p.1 })

-- `if (fd == -2) { ... } return fd;`
unfoldable pub device_of : Device → Environment → Choice → Device × Choice
unfolding decide
device_of undecided e c = let c' = decide e c in (c'.fd, c')
device_of unavailable e c = (c.fd, c)
device_of userspace e c = (c.fd, c)
device_of used_by_fsync e c = (c.fd, c)
device_of (kernel n) e c = (c.fd, c)

unfoldable pub get_inproc_device_fd : Environment → Choice → Device × Choice
unfolding device_of
get_inproc_device_fd e c = device_of c.fd e c

abbrev pub is_kernel : Device → Bool
is_kernel (kernel n) = true
is_kernel undecided = false
is_kernel unavailable = false
is_kernel userspace = false
is_kernel used_by_fsync = false

abbrev pub is_userspace : Device → Bool
is_userspace userspace = true
is_userspace undecided = false
is_userspace unavailable = false
is_userspace (kernel n) = false
is_userspace used_by_fsync = false

abbrev pub is_fsync : Device → Bool
is_fsync used_by_fsync = true
is_fsync undecided = false
is_fsync unavailable = false
is_fsync (kernel n) = false
is_fsync userspace = false

-- The three ways exclude each other and the variables tell which was chosen.
pub record IsDecided (c : Choice) : Type 0 where
  pub decided : c.fd ≢ undecided
  pub library : c.ntsync_userspace ≡ is_userspace c.fd
  pub fsync : c.do_fsync ≡ is_fsync c.fd

decide-IsDecided :
    (e : Environment) (c : Choice) → c.ntsync_userspace ≡ false → IsDecided (decide e c)
unfolding decide probe_device settle
decide-IsDecided e c h = record {
  decided = ground arith;
  library = ground arith;
  fsync = ground arith;
}

settled : (d : Device) (e : Environment) (c : Choice) → d ≢ undecided → device_of d e c ≡ (c.fd, c)
unfolding device_of
settled undecided e c h = absurd (h refl)
settled unavailable e c h = refl
settled userspace e c h = refl
settled used_by_fsync e c h = refl
settled (kernel n) e c h = refl

-- The descriptor of the device becomes the server's and that of the probe is closed, or the
-- descriptor of the device is closed.
abbrev pub Descriptors : Environment → Choice → Choice → ℕ → Type 0
Descriptors e c c' n =
    ((c'.fd ≡ kernel n) × ((p : ℕ) × (e.probe ≡ some p) × (c'.closed ≡ c.closed ++ p ∷ [])))
    ⊎ (c'.closed ≡ c.closed ++ n ∷ [])

decide-Descriptors :
    (e : Environment) (c : Choice) (n : ℕ)
    → e.no_ntsync ≡ false
    → e.opened ≡ some n
    → Descriptors e c (decide e c) n
unfolding decide probe_device settle
decide-Descriptors e c n h k = elim (Bool-cases e.force_userspace) [
  | inl f ↦ inr (ground arith)
  | inr f ↦ elim (Option-cases e.probe) [
    | inl p ↦ inr (ground arith)
    | inr (q, p) ↦ inl (ground arith, (q, p, ground arith))
  ]
]

-- The server decides once: the first call leaves a decision, in which the userspace library is
-- active exactly if it was chosen and fsync is on exactly if it is what the server uses, so never
-- both; every later call returns the same without a change, whatever the environment says then;
-- and a descriptor of /dev/ntsync that was opened is either the device, with the object of the probe
-- closed, or closed.
pub get_inproc_device_fd-IsDecided :
    (e e' : Environment) (c : Choice)
    → c.fd ≡ undecided
    → c.ntsync_userspace ≡ false
    → let r = get_inproc_device_fd e c in
      IsDecided r.1
      × (get_inproc_device_fd e' r.1 ≡ (r.0, r.1))
      × ((n : ℕ) → e.no_ntsync ≡ false → e.opened ≡ some n → Descriptors e c r.1 n)
unfolding get_inproc_device_fd device_of
get_inproc_device_fd-IsDecided e e' c h u =
    let d = decide-IsDecided e c u in
    let P : Device × Choice → Type 0 = λ r.
      IsDecided r.1
      × (device_of r.1.fd e' r.1 ≡ (r.0, r.1))
      × ((n : ℕ) → e.no_ntsync ≡ false → e.opened ≡ some n → Descriptors e c r.1 n) in
    subst P (ap (λ k. device_of k e c) (sym h))
      (d, settled (decide e c).fd e' (decide e c) d.decided, decide-Descriptors e c)
