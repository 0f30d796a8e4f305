-- ===== src/Pulse/Lent.antt =====
-- dlls/winepulse.drv/11_17pulse.c: the client writes where it was lent memory.
use menano.Prelude.{
  ℕ, ◌+◌, ◌-◌, ◌*◌, ◌%◌, ◌≤◌, ◌<◌, ◌≡◌, refl, sym, ap, subst, inl, inr, Bool, true, false, ◌||◌,
  arith, ltb, leb, ◌==◌, if◌then◌else◌, leb→le, Bool-cases, either_branch,
}
use menano.Pulse.Defs.{
  s_ok, audclnt_e_out_of_order, audclnt_e_invalid_size, Stream, int_min, is_negative, magnitude,
  touch, wri_offs, pulse_wrap_buffer, drop_oldest, silence_written, take_back,
  pulse_release_render_buffer,
}
use menano.Pulse.Bounds.{IsBounded, touch-IsBounded, mod_below, pulse_write-IsBounded}

-- What the client lent is room enough for what it says that it has written.
abbrev pub CanTake : ℕ → Stream → Type 0
CanTake written s = IsBounded s × (written ≤ magnitude s.locked)

touch-CanTake :
    (written o n k : ℕ) (s : Stream)
    → o + n ≤ k
    → CanTake written s
    → CanTake written (touch o n k s)
touch-CanTake written o n k s h (b, m) = (touch-IsBounded o n k s h b, m)

in_tmp_buffer :
    (written : ℕ) (s : Stream)
    → CanTake written s
    → is_negative s.locked ≡ true
    → written ≤ s.tmp_buffer_bytes
in_tmp_buffer written s (b, m) y =
    let l = leb→le int_min s.locked y in
    let t = b.lent_tmp l in
    let k : written ≤ (if true then 4294967296 - s.locked else s.locked) =
      subst (λ c. written ≤ (if c then 4294967296 - s.locked else s.locked)) y m in
    omega arith

not_negative : (n : ℕ) → is_negative n ≡ false → n < int_min
not_negative n h = ground arith

in_ring :
    (written : ℕ) (s : Stream)
    → CanTake written s
    → is_negative s.locked ≡ false
    → (s.lcl_offs_bytes + s.held_bytes) % s.real_bufsize_bytes + written ≤ s.real_bufsize_bytes
in_ring written s (b, m) y =
    let t = b.lent_local (not_negative s.locked y) in
    let k : written ≤ (if false then 4294967296 - s.locked else s.locked) =
      subst (λ c. written ≤ (if c then 4294967296 - s.locked else s.locked)) y m in
    omega arith

pub silence_written-CanTake :
    (silent : Bool) (written : ℕ) (s : Stream)
    → CanTake written s
    → CanTake written (silence_written silent written s)
unfolding silence_written
silence_written-CanTake false written s h = h
silence_written-CanTake true written s h =
    let x : Stream = touch 0 written s.tmp_buffer_bytes s in
    let y : Stream =
      touch ((s.lcl_offs_bytes + s.held_bytes) % s.real_bufsize_bytes) written s.real_bufsize_bytes
        s in
    elim (Bool-cases (is_negative s.locked)) [
      | inl n ↦
          subst (λ c. CanTake written (if c then x else y)) (sym n)
            (touch-CanTake written 0 written s.tmp_buffer_bytes s
              (let t = in_tmp_buffer written s h n in omega arith) h)
      | inr n ↦
          subst (λ c. CanTake written (if c then x else y)) (sym n)
            (touch-CanTake written ((s.lcl_offs_bytes + s.held_bytes) % s.real_bufsize_bytes)
              written s.real_bufsize_bytes s (in_ring written s h n) h)
    ]

wri_offs-in_ring : (s : Stream) → IsBounded s → wri_offs s < s.real_bufsize_bytes
wri_offs-in_ring s b =
    let p = b.lcl in
    let q = mod_below (s.lcl_offs_bytes + s.held_bytes) s.real_bufsize_bytes (omega arith) in
    omega arith

pulse_wrap_buffer-CanTake :
    (written : ℕ) (s : Stream)
    → CanTake written s
    → written ≤ s.tmp_buffer_bytes
    → CanTake written (pulse_wrap_buffer written s)
unfolding pulse_wrap_buffer
pulse_wrap_buffer-CanTake written s h t =
    let o = wri_offs s in
    let r = s.real_bufsize_bytes in
    let l : o < r = wri_offs-in_ring s h.0 in
    let w : r < 4294967296 = h.0.word in
    let f = h.0.free in
    let m = h.1 in
    let chunk = (r + 4294967296 - o) % 4294967296 in
    let e : chunk ≡ r - o = omega arith in
    let below : written ≤ r = omega arith in
    let x : Stream = touch o written r (touch 0 written s.tmp_buffer_bytes s) in
    let y : Stream = touch 0 (written - chunk) r (
      touch chunk (written - chunk) s.tmp_buffer_bytes
        (touch o chunk r (touch 0 chunk s.tmp_buffer_bytes s))) in
    elim (Bool-cases (leb written chunk)) [
      | inl n ↦
          let k : written ≤ chunk = leb→le written chunk n in
          subst (λ c. CanTake written (if c then x else y)) (sym n)
            (touch-CanTake written o written r (touch 0 written s.tmp_buffer_bytes s) (omega arith)
              (touch-CanTake written 0 written s.tmp_buffer_bytes s (omega arith) h))
      | inr n ↦
          let k : chunk < written = leb-false written chunk n in
          subst (λ c. CanTake written (if c then x else y)) (sym n)
            (touch-CanTake written 0 (written - chunk) r
              (touch chunk (written - chunk) s.tmp_buffer_bytes
                (touch o chunk r (touch 0 chunk s.tmp_buffer_bytes s)))
              (omega arith)
              (touch-CanTake written chunk (written - chunk) s.tmp_buffer_bytes
                (touch o chunk r (touch 0 chunk s.tmp_buffer_bytes s)) (omega arith)
                (touch-CanTake written o chunk r (touch 0 chunk s.tmp_buffer_bytes s) (omega arith)
                  (touch-CanTake written 0 chunk s.tmp_buffer_bytes s (omega arith) h))))
    ]
  where
    leb-false : (a b : ℕ) → leb a b ≡ false → b < a
    leb-false a b k = ground arith

not_lent :
    (s : Stream)
    → IsBounded s
    → (s.lcl_offs_bytes + s.held_bytes) % s.real_bufsize_bytes + 0 ≤ s.real_bufsize_bytes
not_lent s b =
    let p = b.lcl in
    let q = mod_below (s.lcl_offs_bytes + s.held_bytes) s.real_bufsize_bytes (omega arith) in
    omega arith

-- The lent memory is taken back, and PulseAudio drops what is overwritten.
abbrev pub counted : ℕ → Stream → Stream
counted written s = record s {
  held_bytes = s.held_bytes + written;
  pa_held_bytes = s.pa_held_bytes + written;
}

abbrev pub unlocked : ℕ → Stream → Stream
unlocked clock s = record s { clock_written = clock; locked = 0 }

held_below :
    (written : ℕ) (s : Stream) → CanTake written s → s.held_bytes + written ≤ s.real_bufsize_bytes
held_below written s (b, m) = let f = b.free in omega arith

counted-IsBounded :
    (written clock o h : ℕ) (s : Stream)
    → o < s.real_bufsize_bytes
    → h ≤ s.real_bufsize_bytes
    → CanTake written s
    → IsBounded (record s {
      held_bytes = s.held_bytes + written;
      pa_offs_bytes = o;
      pa_held_bytes = h;
      clock_written = clock;
      locked = 0;
    })
counted-IsBounded written clock o h s p q (b, m) =
    let l = held_below written s (b, m) in
    let z = b.lcl in
    let k =
      mod_below (s.lcl_offs_bytes + (s.held_bytes + written)) s.real_bufsize_bytes (omega arith) in
    record {
      frame = b.frame;
      size = b.size;
      word = b.word;
      lcl = b.lcl;
      pa = p;
      pa_held = q;
      lock = omega arith;
      free = omega arith;
      lent_local = λ x. omega arith;
      lent_tmp = λ x. absurd (omega arith);
      inside = b.inside;
    }

pub drop_oldest-IsBounded :
    (written clock : ℕ) (s : Stream)
    → CanTake written s
    → IsBounded (unlocked clock (drop_oldest (counted written s)))
unfolding drop_oldest
drop_oldest-IsBounded written clock s h =
    let r = s.real_bufsize_bytes in
    let p = h.0.pa in
    let o = (s.pa_offs_bytes + (s.pa_held_bytes + written - r)) % r in
    let x : Stream = record (counted written s) { pa_offs_bytes = o; pa_held_bytes = r } in
    let y : Stream = counted written s in
    elim (Bool-cases (ltb r (s.pa_held_bytes + written))) [
      | inl n ↦
          subst (λ c. IsBounded (unlocked clock (if c then x else y))) (sym n)
            (counted-IsBounded written clock o r s
              (mod_below (s.pa_offs_bytes + (s.pa_held_bytes + written - r)) r (omega arith))
              (omega arith) h)
      | inr n ↦
          subst (λ c. IsBounded (unlocked clock (if c then x else y))) (sym n)
            (counted-IsBounded written clock s.pa_offs_bytes (s.pa_held_bytes + written) s p
              (ltb-false r (s.pa_held_bytes + written) n) h)
    ]
  where
    ltb-false : (a b : ℕ) → ltb a b ≡ false → b ≤ a
    ltb-false a b k = ground arith

pub copied-CanTake :
    (written : ℕ) (a : Stream) (b : Bool)
    → CanTake written a
    → is_negative a.locked ≡ b
    → CanTake written (if b then pulse_wrap_buffer written a else a)
copied-CanTake written a true h e =
    pulse_wrap_buffer-CanTake written a h (in_tmp_buffer written a h e)
copied-CanTake written a false h e = h

pub silence_written-locked :
    (silent : Bool) (written : ℕ) (s : Stream)
    → (silence_written silent written s).locked ≡ s.locked
unfolding silence_written
silence_written-locked false written s = refl
silence_written-locked true written s =
    let x : Stream = touch 0 written s.tmp_buffer_bytes s in
    let y : Stream =
      touch ((s.lcl_offs_bytes + s.held_bytes) % s.real_bufsize_bytes) written s.real_bufsize_bytes
        s in
    either_branch {A = Stream} (λ u. u.locked ≡ s.locked) (is_negative s.locked) {x = x} {y = y}
      refl refl

take_back-IsBounded :
    (silent : Bool) (written writable : ℕ) (s : Stream)
    → CanTake written s
    → IsBounded (take_back silent written writable s)
unfolding take_back
take_back-IsBounded silent written writable s h =
    let a = silence_written silent written s in
    let b = if is_negative s.locked then pulse_wrap_buffer written a else a in
    let c = drop_oldest (counted written b) in
    pulse_write-IsBounded writable (unlocked (c.clock_written + written) c) (
      drop_oldest-IsBounded written (c.clock_written + written) b (
        copied-CanTake written a (is_negative s.locked) (silence_written-CanTake silent written s h)
          (ap (λ k. is_negative k) (silence_written-locked silent written s))))

dropped-IsBounded : (s : Stream) → IsBounded s → IsBounded (record s { locked = 0 })
dropped-IsBounded s b =
    let k = not_lent s b in
    let f = b.free in
    record {
      frame = b.frame;
      size = b.size;
      word = b.word;
      lcl = b.lcl;
      pa = b.pa;
      pa_held = b.pa_held;
      lock = omega arith;
      free = omega arith;
      lent_local = λ x. k;
      lent_tmp = λ x. absurd (omega arith);
      inside = b.inside;
    }

pub pulse_release_render_buffer-IsBounded :
    (silent : Bool) (frames writable : ℕ) (s : Stream)
    → IsBounded s
    → IsBounded (pulse_release_render_buffer silent frames writable s).1
unfolding pulse_release_render_buffer
pulse_release_render_buffer-IsBounded silent frames writable s b =
    let n = frames * s.frame_size in
    let x : ℕ × Stream = (s_ok, take_back silent (n % 4294967296) writable s) in
    let y : ℕ × Stream = (audclnt_e_invalid_size, s) in
    let z : ℕ × Stream =
      (if frames == 0 then s_ok else audclnt_e_out_of_order, record s { locked = 0 }) in
    either_branch {A = ℕ × Stream} (λ r. IsBounded r.1) (s.locked == 0 || frames == 0) {x = z}
      {y = if ltb (magnitude s.locked) n then y else x} (dropped-IsBounded s b)
      (elim (Bool-cases (ltb (magnitude s.locked) n)) [
        | inl k ↦ subst (λ c. IsBounded (if c then y else x).1) (sym k) b
        | inr k ↦
            subst (λ c. IsBounded (if c then y else x).1) (sym k)
              (take_back-IsBounded silent (n % 4294967296) writable s
                (b, let l = ltb-false (magnitude s.locked) n k in omega arith))
      ])
  where
    ltb-false : (a b : ℕ) → ltb a b ≡ false → b ≤ a
    ltb-false a b k = ground arith
