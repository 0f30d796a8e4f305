-- ===== src/Pulse/Lends.antt =====
-- dlls/winepulse.drv/11_17pulse.c: the client is lent memory within the buffers.
use menano.Prelude.{
  ℕ, ◌+◌, ◌-◌, ◌*◌, ◌/◌, ◌%◌, ◌≤◌, ◌<◌, ◌≡◌, refl, sym, subst, inl, inr, Bool, true, false, not,
  Option, none, some, arith, ltb, leb, ◌==◌, if◌then◌else◌, leb→le, ==_iff, Bool-cases,
  either_branch,
}
use menano.Pulse.Defs.{
  s_ok, audclnt_e_device_invalidated, audclnt_e_buffer_too_large, audclnt_e_out_of_order, Stream,
  int_min, int32, negate, wri_offs, tmp_taken, alloc_tmp_buffer, Answer, lend_tmp, lend_local, lend,
  pulse_get_render_buffer, null_data,
}
use menano.Pulse.Bounds.{IsBounded, touch-IsBounded, mod_below}
use native.Mathlib.Nat.{mul-le-mul_right}

-- NtAllocateVirtualMemory takes at least as many bytes as it is asked for.
abbrev pub AllocatesEnough : (ℕ → Option ℕ) → Type 0
AllocatesEnough allocate = (n m : ℕ) → allocate n ≡ some m → n ≤ m

-- A lent buffer is as long as the client asked for, and fits into an INT32.
abbrev Fits : ℕ → Stream → Type 0
Fits bytes s =
    (0 < bytes) × (bytes < int_min) × (s.held_bytes + bytes ≤ s.real_bufsize_bytes) × (s.locked ≡ 0)

lent_local-IsBounded :
    (bytes : ℕ) (s : Stream)
    → Fits bytes s
    → (s.lcl_offs_bytes + s.held_bytes) % s.real_bufsize_bytes + bytes ≤ s.real_bufsize_bytes
    → IsBounded s
    → IsBounded (record s { locked = int32 bytes })
unfolding int32
lent_local-IsBounded bytes s (p, q, f, z) l b =
    let e : bytes % 4294967296 ≡ bytes = omega arith in
    record {
      frame = b.frame;
      size = b.size;
      word = b.word;
      lcl = b.lcl;
      pa = b.pa;
      pa_held = b.pa_held;
      lock = omega arith;
      free = ground arith;
      lent_local = λ x. omega arith;
      lent_tmp = λ x. absurd (omega arith);
      inside = b.inside;
    }

lent_tmp-IsBounded :
    (bytes : ℕ) (s : Stream)
    → Fits bytes s
    → bytes ≤ s.tmp_buffer_bytes
    → IsBounded s
    → IsBounded (record s { locked = negate bytes })
unfolding negate
lent_tmp-IsBounded bytes s (p, q, f, z) l b =
    let e : (4294967296 - bytes % 4294967296) % 4294967296 ≡ 4294967296 - bytes = omega arith in
    record {
      frame = b.frame;
      size = b.size;
      word = b.word;
      lcl = b.lcl;
      pa = b.pa;
      pa_held = b.pa_held;
      lock = omega arith;
      free = ground arith;
      lent_local = λ x. absurd (omega arith);
      lent_tmp = λ x. omega arith;
      inside = b.inside;
    }

resized-IsBounded :
    (n : ℕ) (s : Stream)
    → s.locked ≡ 0
    → IsBounded s
    → IsBounded (record s { tmp_buffer_bytes = n })
resized-IsBounded n s z b = record {
  frame = b.frame;
  size = b.size;
  word = b.word;
  lcl = b.lcl;
  pa = b.pa;
  pa_held = b.pa_held;
  lock = b.lock;
  free = b.free;
  lent_local = b.lent_local;
  lent_tmp = λ x. absurd (omega arith);
  inside = b.inside;
}

-- An allocation that succeeds leaves room, one that fails leaves the stream bounded.
abbrev IsAllocated : ℕ → Bool × Stream → Type 0
IsAllocated bytes r = IsBounded r.1 × (r.0 ≡ true → (bytes ≤ r.1.tmp_buffer_bytes) × Fits bytes r.1)

alloc_tmp_buffer-IsAllocated :
    (allocate : ℕ → Option ℕ) (bytes : ℕ) (s : Stream)
    → AllocatesEnough allocate
    → Fits bytes s
    → IsBounded s
    → IsAllocated bytes (alloc_tmp_buffer allocate bytes s)
unfolding alloc_tmp_buffer tmp_taken
alloc_tmp_buffer-IsAllocated allocate bytes s enough f b =
    let y = tmp_taken s (allocate bytes) in
    elim (Bool-cases (leb bytes s.tmp_buffer_bytes)) [
      | inl n ↦
          let l = leb→le bytes s.tmp_buffer_bytes n in
          subst (λ c. IsAllocated bytes (if c then (true, s) else y)) (sym n) (b, λ e. (l, f))
      | inr n ↦
          subst (λ c. IsAllocated bytes (if c then (true, s) else y)) (sym n)
            (tmp_taken-IsAllocated (allocate bytes) refl)
    ]
  where
    tmp_taken-IsAllocated : (o : Option ℕ) → allocate bytes ≡ o → IsAllocated bytes (tmp_taken s o)
    tmp_taken-IsAllocated none e = (resized-IsBounded 0 s f.3 b, λ k. absurd cc)
    tmp_taken-IsAllocated (some m) e = (resized-IsBounded m s f.3 b, λ k. (enough bytes m e, f))

lend_tmp-IsBounded :
    (bytes : ℕ) (r : Bool × Stream) → IsAllocated bytes r → IsBounded (lend_tmp bytes r).2
unfolding lend_tmp
lend_tmp-IsBounded bytes (false, s) (b, k) = b
lend_tmp-IsBounded bytes (true, s) (b, k) =
    let l = (k refl).0 in
    touch-IsBounded 0 bytes s.tmp_buffer_bytes (record s { locked = negate bytes }) (omega arith)
      (lent_tmp-IsBounded bytes s (k refl).1 l b)

wri_offs-is :
    (s : Stream)
    → IsBounded s
    → wri_offs s ≡ (s.lcl_offs_bytes + s.held_bytes) % s.real_bufsize_bytes
wri_offs-is s b =
    let p = b.lcl in
    let w = b.word in
    let q = mod_below (s.lcl_offs_bytes + s.held_bytes) s.real_bufsize_bytes (omega arith) in
    omega arith

lend-IsBounded :
    (allocate : ℕ → Option ℕ) (bytes : ℕ) (s : Stream)
    → AllocatesEnough allocate
    → Fits bytes s
    → IsBounded s
    → IsBounded (lend allocate bytes s).2
unfolding lend lend_local
lend-IsBounded allocate bytes s enough f b =
    let x = lend_tmp bytes (alloc_tmp_buffer allocate bytes s) in
    let y = lend_local bytes s in
    let r = s.real_bufsize_bytes in
    elim (Bool-cases (ltb r (wri_offs s + bytes))) [
      | inl n ↦
          subst (λ c. IsBounded (if c then x else y).2) (sym n)
            (lend_tmp-IsBounded bytes (alloc_tmp_buffer allocate bytes s)
              (alloc_tmp_buffer-IsAllocated allocate bytes s enough f b))
      | inr n ↦
          let l = ltb-false r (wri_offs s + bytes) n in
          let e = wri_offs-is s b in
          subst (λ c. IsBounded (if c then x else y).2) (sym n)
            (touch-IsBounded (wri_offs s) bytes r (record s { locked = int32 bytes }) l
              (lent_local-IsBounded bytes s f (omega arith) b))
    ]
  where
    ltb-false : (a b : ℕ) → ltb a b ≡ false → b ≤ a
    ltb-false a b k = ground arith

-- The frames that fit beside the held ones, in bytes.
get-Fits :
    (frames : ℕ) (s : Stream)
    → IsBounded s
    → s.locked ≡ 0
    → 0 < frames
    → s.held_bytes / s.frame_size + frames ≤ s.bufsize_frames
    → Fits (frames * s.frame_size) s
get-Fits frames s b z p h =
    let g = b.frame in
    let d = b.size in
    let w = b.word in
    let one = mul-le-mul_right s.frame_size p in
    let all = mul-le-mul_right s.frame_size h in
    let twice : s.real_bufsize_bytes
        ≡ s.bufsize_frames * s.frame_size + s.bufsize_frames * s.frame_size =
      omega arith in
    let sum : (s.held_bytes / s.frame_size + frames) * s.frame_size
        ≡ s.held_bytes / s.frame_size * s.frame_size + frames * s.frame_size =
      omega arith in
    let parts = held_parts s.held_bytes s.frame_size g in
    let q = parts.0 in
    let m = parts.1 in
    let unit : s.frame_size ≤ frames * s.frame_size = omega arith in
    (omega arith, omega arith, omega arith, z)
  where
    held_parts : (h' k : ℕ) → 0 < k → (h' / k * k + h' % k ≡ h') × (h' % k < k)
    held_parts h' k l = omega arith

pub pulse_get_render_buffer-IsBounded :
    (allocate : ℕ → Option ℕ) (frames : ℕ) (s : Stream)
    → AllocatesEnough allocate
    → IsBounded s
    → IsBounded (pulse_get_render_buffer allocate frames s).2
unfolding pulse_get_render_buffer
pulse_get_render_buffer-IsBounded allocate frames s enough b =
    let k = s.held_bytes / s.frame_size + frames in
    let invalid : Answer = (audclnt_e_device_invalidated, none, s) in
    let order : Answer = (audclnt_e_out_of_order, none, s) in
    let empty : Answer = (s_ok, some null_data, s) in
    let large : Answer = (audclnt_e_buffer_too_large, none, s) in
    let lent : Answer = lend allocate (frames * s.frame_size) s in
    either_branch {A = Answer} (λ r. IsBounded r.2) (not s.valid) {x = invalid}
      {y = if not (s.locked == 0)
        then order
        else if frames == 0
        then empty
        else if ltb s.bufsize_frames k
        then large
        else lent}
      b
      (elim (Bool-cases (s.locked == 0)) [
        | inl z ↦ elim (Bool-cases (frames == 0)) [
          | inl y ↦
              subst
                (λ c.
                  IsBounded
                    (if not c
                      then order
                      else if frames == 0
                      then empty
                      else if ltb s.bufsize_frames k
                      then large
                      else lent).2)
                (sym z)
                (subst
                  (λ c.
                    IsBounded
                      (if c then empty else if ltb s.bufsize_frames k then large else lent).2)
                  (sym y) b)
          | inr y ↦
              subst
                (λ c.
                  IsBounded
                    (if not c
                      then order
                      else if frames == 0
                      then empty
                      else if ltb s.bufsize_frames k
                      then large
                      else lent).2)
                (sym z)
                (subst
                  (λ c.
                    IsBounded
                      (if c then empty else if ltb s.bufsize_frames k then large else lent).2)
                  (sym y)
                  (elim (Bool-cases (ltb s.bufsize_frames k)) [
                    | inl x ↦ subst (λ c. IsBounded (if c then large else lent).2) (sym x) b
                    | inr x ↦
                        subst (λ c. IsBounded (if c then large else lent).2) (sym x)
                          (lend-IsBounded allocate (frames * s.frame_size) s enough
                            (get-Fits frames s b ((==_iff s.locked 0).0 z) (not_zero frames y)
                              (not_less s.bufsize_frames k x))
                            b)
                  ]))
        ]
        | inr z ↦
            subst
              (λ c.
                IsBounded
                  (if not c
                    then order
                    else if frames == 0
                    then empty
                    else if ltb s.bufsize_frames k
                    then large
                    else lent).2)
              (sym z) b
      ])
  where
    not_zero : (n : ℕ) → (n == 0) ≡ false → 0 < n
    not_zero n h = ground arith

    not_less : (a c : ℕ) → ltb a c ≡ false → c ≤ a
    not_less a c h = ground arith
