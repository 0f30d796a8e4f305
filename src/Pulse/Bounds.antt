-- ===== src/Pulse/Bounds.antt =====
-- dlls/winepulse.drv/11_17pulse.c: no operation on the buffer touches memory outside of it.
use menano.Prelude.{
  ℕ, ◌+◌, ◌-◌, ◌*◌, ◌%◌, ◌≤◌, ◌<◌, ◌≡◌, refl, sym, subst, inl, inr, false, arith, ltb,
  if◌then◌else◌, ltb→lt, Bool-cases, either_branch, All,
}
use menano.Pulse.Defs.{
  Access, Stream, int_min, magnitude, min_of, touch, prebuffer, small_chunk, main_chunk,
  write_chunks, pulse_write,
}

abbrev pub IsInside : Access → Type 0
IsInside a = a.offset + a.length ≤ a.size

-- The ring holds twice what a client may fill, and its size is a UINT32.
pub record IsBounded (s : Stream) : Type 0 where
  pub frame : 0 < s.frame_size
  pub size : s.real_bufsize_bytes ≡ s.bufsize_frames * 2 * s.frame_size
  pub word : s.real_bufsize_bytes < 4294967296
  pub lcl : s.lcl_offs_bytes < s.real_bufsize_bytes
  pub pa : s.pa_offs_bytes < s.real_bufsize_bytes
  pub pa_held : s.pa_held_bytes ≤ s.real_bufsize_bytes
  pub lock : s.locked < 4294967296
  pub free : s.held_bytes + magnitude s.locked ≤ s.real_bufsize_bytes
  pub lent_local :
      s.locked < int_min
      → (s.lcl_offs_bytes + s.held_bytes) % s.real_bufsize_bytes + s.locked ≤ s.real_bufsize_bytes
  pub lent_tmp : int_min ≤ s.locked → 4294967296 - s.locked ≤ s.tmp_buffer_bytes
  pub inside : All IsInside s.accesses

pub touch-IsBounded : (o n k : ℕ) (s : Stream) → o + n ≤ k → IsBounded s → IsBounded (touch o n k s)
touch-IsBounded o n k s h b = record {
  frame = b.frame;
  size = b.size;
  word = b.word;
  lcl = b.lcl;
  pa = b.pa;
  pa_held = b.pa_held;
  lock = b.lock;
  free = b.free;
  lent_local = b.lent_local;
  lent_tmp = b.lent_tmp;
  inside = (h, b.inside);
}

pub prebuffer-IsBounded :
    (writable : ℕ) (s : Stream) → IsBounded s → IsBounded (prebuffer writable s)
unfolding prebuffer
prebuffer-IsBounded writable s b =
    either_branch {A = Stream} IsBounded s.just_underran
      (calmed (if ltb s.pa_held_bytes writable then t else s) (
        either_branch {A = Stream} IsBounded (ltb s.pa_held_bytes writable) {x = t} {y = s}
          (touch-IsBounded 0 (writable - s.pa_held_bytes) (writable - s.pa_held_bytes) s
            (omega arith) b)
          b))
      b
  where
    t : Stream
    t = touch 0 (writable - s.pa_held_bytes) (writable - s.pa_held_bytes) s

    calmed : (u : Stream) → IsBounded u → IsBounded (record u { just_underran = false })
    calmed u c = record {
      frame = c.frame;
      size = c.size;
      word = c.word;
      lcl = c.lcl;
      pa = c.pa;
      pa_held = c.pa_held;
      lock = c.lock;
      free = c.free;
      lent_local = c.lent_local;
      lent_tmp = c.lent_tmp;
      inside = c.inside;
    }

-- What PulseAudio's side of the ring does leaves the client's side alone.
pub moved-IsBounded :
    (o h : ℕ) (s : Stream)
    → o < s.real_bufsize_bytes
    → h ≤ s.real_bufsize_bytes
    → IsBounded s
    → IsBounded (record s { pa_offs_bytes = o; pa_held_bytes = h })
moved-IsBounded o h s p q b = record {
  frame = b.frame;
  size = b.size;
  word = b.word;
  lcl = b.lcl;
  pa = p;
  pa_held = q;
  lock = b.lock;
  free = b.free;
  lent_local = b.lent_local;
  lent_tmp = b.lent_tmp;
  inside = b.inside;
}

pub mod_below : (a r : ℕ) → 0 < r → a % r < r
mod_below a r h = omega arith

main_chunk-IsBounded :
    (n : ℕ) (s : Stream)
    → s.pa_offs_bytes + n ≤ s.real_bufsize_bytes
    → IsBounded s
    → IsBounded (main_chunk n s)
unfolding main_chunk
main_chunk-IsBounded n s h b =
    let u = record s {
      pa_offs_bytes = (s.pa_offs_bytes + n) % s.real_bufsize_bytes;
      pa_held_bytes = s.pa_held_bytes - n;
    } in
    let p = b.pa in
    let q = b.pa_held in
    touch-IsBounded s.pa_offs_bytes n s.real_bufsize_bytes u h (
      moved-IsBounded ((s.pa_offs_bytes + n) % s.real_bufsize_bytes) (s.pa_held_bytes - n) s
        (mod_below (s.pa_offs_bytes + n) s.real_bufsize_bytes (omega arith)) (omega arith) b)

small_chunk-IsBounded :
    (n : ℕ) (s : Stream)
    → s.pa_offs_bytes + n ≤ s.real_bufsize_bytes
    → IsBounded s
    → IsBounded (small_chunk n s)
unfolding small_chunk
small_chunk-IsBounded n s h b =
    let p = b.pa in
    let q = b.pa_held in
    touch-IsBounded s.pa_offs_bytes n s.real_bufsize_bytes
      (record s { pa_held_bytes = s.pa_held_bytes - n; pa_offs_bytes = 0 }) h
      (moved-IsBounded 0 (s.pa_held_bytes - n) s (omega arith) (omega arith) b)

write_chunks-IsBounded :
    (n : ℕ) (s : Stream) → n ≤ s.pa_held_bytes → IsBounded s → IsBounded (write_chunks n s)
unfolding write_chunks small_chunk
write_chunks-IsBounded n s h b =
    let p = b.pa in
    let q = b.pa_held in
    let w = b.word in
    let k = (s.real_bufsize_bytes - s.pa_offs_bytes) % 4294967296 in
    let e : k ≡ s.real_bufsize_bytes - s.pa_offs_bytes = omega arith in
    elim (Bool-cases (ltb s.real_bufsize_bytes (s.pa_offs_bytes + n))) [
      | inl y ↦
          let l = (ltb→lt s.real_bufsize_bytes (s.pa_offs_bytes + n)) y in
          subst
            (λ c. IsBounded (
              if c
              then main_chunk ((n + 4294967296 - k) % 4294967296) (small_chunk k s)
              else main_chunk n s))
            (sym y)
            (main_chunk-IsBounded ((n + 4294967296 - k) % 4294967296) (small_chunk k s)
              (omega arith) (small_chunk-IsBounded k s (omega arith) b))
      | inr y ↦
          subst
            (λ c. IsBounded (
              if c
              then main_chunk ((n + 4294967296 - k) % 4294967296) (small_chunk k s)
              else main_chunk n s))
            (sym y) (main_chunk-IsBounded n s (ground arith) b)
    ]

pub prebuffer-pa_held_bytes :
    (writable : ℕ) (s : Stream) → (prebuffer writable s).pa_held_bytes ≡ s.pa_held_bytes
unfolding prebuffer
prebuffer-pa_held_bytes writable s =
    let t = touch 0 (writable - s.pa_held_bytes) (writable - s.pa_held_bytes) s in
    either_branch {A = Stream} (λ u. u.pa_held_bytes ≡ s.pa_held_bytes) s.just_underran
      (either_branch {A = Stream} (λ u. u.pa_held_bytes ≡ s.pa_held_bytes)
        (ltb s.pa_held_bytes writable) {x = t} {y = s} refl refl)
      refl

pub pulse_write-IsBounded :
    (writable : ℕ) (s : Stream) → IsBounded s → IsBounded (pulse_write writable s)
unfolding pulse_write
pulse_write-IsBounded writable s b =
    let w = writable % 4294967296 in
    let e = prebuffer-pa_held_bytes w s in
    write_chunks-IsBounded (min_of s.pa_held_bytes w % 4294967296) (prebuffer w s) (ground arith)
      (prebuffer-IsBounded w s b)
