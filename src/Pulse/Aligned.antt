-- ===== src/Pulse/Aligned.antt =====
-- dlls/winepulse.drv/11_17pulse.c: the client and PulseAudio agree where the data ends.
use menano.Prelude.{
  ℕ, ◌+◌, ◌-◌, ◌%◌, ◌≤◌, ◌≡◌, refl, sym, ap, subst, ◌∙◌, inl, inr, Bool, true, false, not, ◌&&◌,
  arith, ltb, leb, ◌==◌, if◌then◌else◌, ltb→lt, Bool-cases, either_branch,
}
use menano.Pulse.Defs.{
  Stream, is_negative, min_of, touch, wri_offs, pulse_wrap_buffer, prebuffer, small_chunk,
  main_chunk, write_chunks, pulse_write, drop_oldest, silence_written, take_back, advance,
  timer_period,
}
use menano.Pulse.Bounds.{IsBounded, prebuffer-IsBounded, prebuffer-pa_held_bytes}
use menano.Pulse.Lent.{
  CanTake, silence_written-CanTake, counted, unlocked, drop_oldest-IsBounded, copied-CanTake,
  silence_written-locked,
}
use native.Mathlib.Nat.{mod-add-mod, add-mod_right}

abbrev pub client_end : Stream → ℕ
client_end s = (s.lcl_offs_bytes + s.held_bytes) % s.real_bufsize_bytes

abbrev pub pa_end : Stream → ℕ
pa_end s = (s.pa_offs_bytes + s.pa_held_bytes) % s.real_bufsize_bytes

-- Neither end moves, and a lent buffer stays lent.
pub record IsSteady (s u : Stream) : Type 0 where
  pub client : client_end u ≡ client_end s
  pub pa : pa_end u ≡ pa_end s
  pub lent : u.locked ≡ s.locked

abbrev pub IsAligned : Stream → Type 0
IsAligned s = client_end s ≡ pa_end s

pub IsSteady-IsAligned : (s u : Stream) → IsSteady s u → IsAligned s → IsAligned u
IsSteady-IsAligned s u k a = k.client ∙ a ∙ sym k.pa

IsSteady-refl : (s : Stream) → IsSteady s s
IsSteady-refl s = record { client = refl; pa = refl; lent = refl }

IsSteady-then : (s u v : Stream) → IsSteady s u → IsSteady u v → IsSteady s v
IsSteady-then s u v a b = record {
  client = b.client ∙ a.client;
  pa = b.pa ∙ a.pa;
  lent = b.lent ∙ a.lent;
}

prebuffer-IsSteady : (writable : ℕ) (s : Stream) → IsSteady s (prebuffer writable s)
unfolding prebuffer
prebuffer-IsSteady writable s =
    let t = touch 0 (writable - s.pa_held_bytes) (writable - s.pa_held_bytes) s in
    either_branch {A = Stream} (IsSteady s) s.just_underran
      (either_branch {A = Stream} (λ u. IsSteady s (record u { just_underran = false }))
        (ltb s.pa_held_bytes writable) {x = t} {y = s}
        (record { client = refl; pa = refl; lent = refl })
        (record { client = refl; pa = refl; lent = refl }))
      (IsSteady-refl s)

main_chunk-IsSteady : (n : ℕ) (s : Stream) → n ≤ s.pa_held_bytes → IsSteady s (main_chunk n s)
unfolding main_chunk
main_chunk-IsSteady n s h = record {
  client = refl;
  pa =
      mod-add-mod (s.pa_offs_bytes + n) s.real_bufsize_bytes (s.pa_held_bytes - n)
      ∙ ap (λ k. k % s.real_bufsize_bytes) (omega arith);
  lent = refl;
}

small_chunk-IsSteady :
    (n : ℕ) (s : Stream)
    → n ≤ s.pa_held_bytes
    → s.pa_offs_bytes + n ≡ s.real_bufsize_bytes
    → IsSteady s (small_chunk n s)
unfolding small_chunk
small_chunk-IsSteady n s h e =
    let sum : s.pa_held_bytes - n + s.real_bufsize_bytes ≡ s.pa_offs_bytes + s.pa_held_bytes =
      omega arith in
    record {
      client = refl;
      pa =
          ap (λ k. k % s.real_bufsize_bytes) (omega arith)
          ∙ sym (add-mod_right (s.pa_held_bytes - n) s.real_bufsize_bytes)
          ∙ ap (λ k. k % s.real_bufsize_bytes) sum;
      lent = refl;
    }

write_chunks-IsSteady :
    (n : ℕ) (s : Stream) → n ≤ s.pa_held_bytes → IsBounded s → IsSteady s (write_chunks n s)
unfolding write_chunks small_chunk
write_chunks-IsSteady n s h b =
    let p = b.pa in
    let q = b.pa_held in
    let w = b.word in
    let k = (s.real_bufsize_bytes - s.pa_offs_bytes) % 4294967296 in
    let e : k ≡ s.real_bufsize_bytes - s.pa_offs_bytes = omega arith in
    let x = main_chunk ((n + 4294967296 - k) % 4294967296) (small_chunk k s) in
    let y = main_chunk n s in
    elim (Bool-cases (ltb s.real_bufsize_bytes (s.pa_offs_bytes + n))) [
      | inl z ↦
          let l = ltb→lt s.real_bufsize_bytes (s.pa_offs_bytes + n) z in
          subst (λ c. IsSteady s (if c then x else y)) (sym z)
            (IsSteady-then s (small_chunk k s) x
              (small_chunk-IsSteady k s (omega arith) (omega arith))
              (main_chunk-IsSteady ((n + 4294967296 - k) % 4294967296) (small_chunk k s)
                (omega arith)))
      | inr z ↦ subst (λ c. IsSteady s (if c then x else y)) (sym z) (main_chunk-IsSteady n s h)
    ]

pub pulse_write-IsSteady :
    (writable : ℕ) (s : Stream) → IsBounded s → IsSteady s (pulse_write writable s)
unfolding pulse_write
pulse_write-IsSteady writable s b =
    let w = writable % 4294967296 in
    let e = prebuffer-pa_held_bytes w s in
    IsSteady-then s (prebuffer w s) (pulse_write writable s) (prebuffer-IsSteady w s) (
      write_chunks-IsSteady (min_of s.pa_held_bytes w % 4294967296) (prebuffer w s) (ground arith)
        (prebuffer-IsBounded w s b))

advance-IsSteady : (s : Stream) → IsSteady s (advance s)
unfolding advance
advance-IsSteady s =
    let adv = min_of s.period_bytes s.held_bytes in
    let l : adv ≤ s.held_bytes = ground arith in
    record {
      client =
          mod-add-mod (s.lcl_offs_bytes + adv) s.real_bufsize_bytes (s.held_bytes - adv)
          ∙ ap (λ n. n % s.real_bufsize_bytes) (omega arith);
      pa = refl;
      lent = refl;
    }

pub timer_period-IsSteady :
    (writable : ℕ) (s : Stream) → IsBounded s → IsSteady s (timer_period writable s)
unfolding timer_period
timer_period-IsSteady writable s b =
    let u = pulse_write writable s in
    either_branch {A = Stream} (IsSteady s) (s.started && not (s.held_bytes == 0)) {x = advance u}
      {y = s}
      (IsSteady-then s u (advance u) (pulse_write-IsSteady writable s b) (advance-IsSteady u))
      (IsSteady-refl s)

touch-IsSteady : (o n k : ℕ) (s u : Stream) → IsSteady s u → IsSteady s (touch o n k u)
touch-IsSteady o n k s u h = record { client = h.client; pa = h.pa; lent = h.lent }

silence_written-IsSteady :
    (silent : Bool) (written : ℕ) (s : Stream) → IsSteady s (silence_written silent written s)
unfolding silence_written
silence_written-IsSteady false written s = IsSteady-refl s
silence_written-IsSteady true written s =
    let o = (s.lcl_offs_bytes + s.held_bytes) % s.real_bufsize_bytes in
    either_branch {A = Stream} (IsSteady s) (is_negative s.locked)
      {x = touch 0 written s.tmp_buffer_bytes s} {y = touch o written s.real_bufsize_bytes s}
      (touch-IsSteady 0 written s.tmp_buffer_bytes s s (IsSteady-refl s))
      (touch-IsSteady o written s.real_bufsize_bytes s s (IsSteady-refl s))

pulse_wrap_buffer-IsSteady : (written : ℕ) (s : Stream) → IsSteady s (pulse_wrap_buffer written s)
unfolding pulse_wrap_buffer
pulse_wrap_buffer-IsSteady written s =
    let o = wri_offs s in
    let r = s.real_bufsize_bytes in
    let chunk = (r + 4294967296 - o) % 4294967296 in
    either_branch {A = Stream} (IsSteady s) (leb written chunk)
      {x = touch o written r (touch 0 written s.tmp_buffer_bytes s)}
      {y = touch 0 (written - chunk) r (
        touch chunk (written - chunk) s.tmp_buffer_bytes
          (touch o chunk r (touch 0 chunk s.tmp_buffer_bytes s)))}
      (record { client = refl; pa = refl; lent = refl })
      (record { client = refl; pa = refl; lent = refl })

-- What the client wrote is counted at both ends.
drop_oldest-IsAligned :
    (written clock : ℕ) (s : Stream)
    → IsAligned s
    → IsAligned (unlocked clock (drop_oldest (counted written s)))
unfolding drop_oldest
drop_oldest-IsAligned written clock s a =
    let r = s.real_bufsize_bytes in
    let more = s.pa_held_bytes + written in
    let o = (s.pa_offs_bytes + (more - r)) % r in
    let x : Stream = record (counted written s) { pa_offs_bytes = o; pa_held_bytes = r } in
    let y : Stream = counted written s in
    let both : (s.lcl_offs_bytes + (s.held_bytes + written)) % r ≡ (s.pa_offs_bytes + more) % r =
      shift (s.lcl_offs_bytes) s.held_bytes written r
      ∙ ap (λ k. (k + written) % r) a
      ∙ sym (shift s.pa_offs_bytes s.pa_held_bytes written r) in
    elim (Bool-cases (ltb r more)) [
      | inl n ↦
          let l = ltb→lt r more n in
          subst (λ c. IsAligned (unlocked clock (if c then x else y))) (sym n)
            (both
              ∙ sym
                  (mod-add-mod (s.pa_offs_bytes + (more - r)) r r ∙ ap (λ k. k % r) (omega arith)))
      | inr n ↦ subst (λ c. IsAligned (unlocked clock (if c then x else y))) (sym n) both
    ]
  where
    shift : (a' b' c' r' : ℕ) → (a' + (b' + c')) % r' ≡ ((a' + b') % r' + c') % r'
    shift a' b' c' r' = ap (λ k. k % r') (omega arith) ∙ sym (mod-add-mod (a' + b') r' c')

pub take_back-IsAligned :
    (silent : Bool) (written writable : ℕ) (s : Stream)
    → CanTake written s
    → IsAligned s
    → IsAligned (take_back silent written writable s)
unfolding take_back
take_back-IsAligned silent written writable s h k =
    let a = silence_written silent written s in
    let b = if is_negative s.locked then pulse_wrap_buffer written a else a in
    let c = drop_oldest (counted written b) in
    let u = unlocked (c.clock_written + written) c in
    let copied : IsSteady a b =
      either_branch {A = Stream} (IsSteady a) (is_negative s.locked)
        {x = pulse_wrap_buffer written a} {y = a} (pulse_wrap_buffer-IsSteady written a)
        (IsSteady-refl a) in
    IsSteady-IsAligned u (pulse_write writable u)
      (pulse_write-IsSteady writable u (
        drop_oldest-IsBounded written (c.clock_written + written) b (
          copied-CanTake written a (is_negative s.locked)
            (silence_written-CanTake silent written s h)
            (ap (λ n. is_negative n) (silence_written-locked silent written s)))))
      (drop_oldest-IsAligned written (c.clock_written + written) b (
        IsSteady-IsAligned a b copied
          (IsSteady-IsAligned s a (silence_written-IsSteady silent written s) k)))
