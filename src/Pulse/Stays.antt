-- ===== src/Pulse/Stays.antt =====
-- dlls/winepulse.drv/11_17pulse.c: any sequence of calls and periods stays within the buffers.
use menano.Prelude.{
  ℕ, ◌+◌, ◌-◌, ◌%◌, ◌≤◌, ◌<◌, ◌≡◌, ap, ◌∙◌, Bool, true, false, not, ◌&&◌, ◌||◌, Option, List, [],
  ◌∷◌, arith, ◌==◌, either_branch,
}
use menano.Pulse.Defs.{
  s_ok, e_fail, e_outofmemory, Stream, int_min, magnitude, min_of, touch, pulse_write, advance,
  timer_period, pulse_start, pulse_stop, pulse_underflow_callback, clear_held, pulse_reset,
  pulse_set_sample_rate, StreamOp, apply, run, gets, releases, underruns, plays, starts, stops,
  resets, sets_rate,
}
use menano.Pulse.Bounds.{IsBounded, touch-IsBounded, mod_below, pulse_write-IsBounded}
use menano.Pulse.Lent.{pulse_release_render_buffer-IsBounded}
use menano.Pulse.Lends.{AllocatesEnough, pulse_get_render_buffer-IsBounded}
use native.Mathlib.Nat.{mod-add-mod}

advance-IsBounded : (s : Stream) → IsBounded s → IsBounded (advance s)
unfolding advance
advance-IsBounded s b =
    let adv = min_of s.period_bytes s.held_bytes in
    let l : adv ≤ s.held_bytes = ground arith in
    let p = b.lcl in
    let f = b.free in
    let r = s.real_bufsize_bytes in
    let k = mod_below (s.lcl_offs_bytes + adv) r (omega arith) in
    let same : ((s.lcl_offs_bytes + adv) % r + (s.held_bytes - adv)) % r
        ≡ (s.lcl_offs_bytes + s.held_bytes) % r =
      mod-add-mod (s.lcl_offs_bytes + adv) r (s.held_bytes - adv) ∙ ap (λ n. n % r) (omega arith) in
    record {
      frame = b.frame;
      size = b.size;
      word = b.word;
      lcl = k;
      pa = b.pa;
      pa_held = b.pa_held;
      lock = b.lock;
      free = omega arith;
      lent_local = λ x. let t = b.lent_local x in omega arith;
      lent_tmp = b.lent_tmp;
      inside = b.inside;
    }

clear_held-IsBounded : (s : Stream) → IsBounded s → IsBounded (clear_held s)
unfolding clear_held
clear_held-IsBounded s b =
    let p = b.lcl in
    let f = b.free in
    let r = s.real_bufsize_bytes in
    let z : (0 + 0) % r ≡ 0 = none_held r in
    record {
      frame = b.frame;
      size = b.size;
      word = b.word;
      lcl = omega arith;
      pa = omega arith;
      pa_held = omega arith;
      lock = b.lock;
      free = omega arith;
      lent_local = λ x. let m = in_magnitude s.locked x in omega arith;
      lent_tmp = b.lent_tmp;
      inside = b.inside;
    }
  where
    none_held : (r' : ℕ) → (0 + 0) % r' ≡ 0
    none_held r' = omega arith

    in_magnitude : (n : ℕ) → n < int_min → magnitude n ≡ n
    in_magnitude n h = ground arith

flagged-IsBounded :
    (running underran : Bool) (s : Stream)
    → IsBounded s
    → IsBounded (record s { started = running; just_underran = underran })
flagged-IsBounded running underran s b = record {
  frame = b.frame;
  size = b.size;
  word = b.word;
  lcl = b.lcl;
  pa = b.pa;
  pa_held = b.pa_held;
  lock = b.lock;
  free = b.free;
  lent_local = b.lent_local;
  lent_tmp = b.lent_tmp;
  inside = b.inside;
}

timer_period-IsBounded :
    (writable : ℕ) (s : Stream) → IsBounded s → IsBounded (timer_period writable s)
unfolding timer_period
timer_period-IsBounded writable s b =
    either_branch {A = Stream} IsBounded (s.started && not (s.held_bytes == 0))
      {x = advance (pulse_write writable s)} {y = s}
      (advance-IsBounded (pulse_write writable s) (pulse_write-IsBounded writable s b)) b

abbrev IsBoundedAfter : ℕ × Stream → Type 0
IsBoundedAfter r = IsBounded r.1

pulse_start-IsBounded :
    (has_event : Bool) (writable : ℕ) (uncorked : Bool) (s : Stream)
    → IsBounded s
    → IsBounded (pulse_start has_event writable uncorked s).1
unfolding pulse_start
pulse_start-IsBounded has_event writable uncorked s b =
    let t = pulse_write writable s in
    let c = pulse_write-IsBounded writable s b in
    let done : ℕ × Stream = (s_ok, record t { started = true }) in
    let failed : ℕ × Stream = (e_fail, t) in
    either_branch {A = ℕ × Stream} IsBoundedAfter (not s.valid) b (
      either_branch {A = ℕ × Stream} IsBoundedAfter (not has_event) b (
        either_branch {A = ℕ × Stream} IsBoundedAfter s.started b (
          either_branch {A = ℕ × Stream} IsBoundedAfter uncorked {x = done} {y = failed}
            (flagged-IsBounded true t.just_underran t c) c)))

pulse_stop-IsBounded :
    (corked : Bool) (s : Stream) → IsBounded s → IsBounded (pulse_stop corked s).1
unfolding pulse_stop
pulse_stop-IsBounded corked s b = either_branch {A = ℕ × Stream} IsBoundedAfter (not s.valid) b (
    either_branch {A = ℕ × Stream} IsBoundedAfter (not s.started) b (
      either_branch {A = ℕ × Stream} IsBoundedAfter corked
        (flagged-IsBounded false s.just_underran s b) b))

pulse_reset-IsBounded :
    (flushed : Bool) (s : Stream) → IsBounded s → IsBounded (pulse_reset flushed s).1
unfolding pulse_reset
pulse_reset-IsBounded flushed s b = either_branch {A = ℕ × Stream} IsBoundedAfter (not s.valid) b (
    either_branch {A = ℕ × Stream} IsBoundedAfter s.started b (
      either_branch {A = ℕ × Stream} IsBoundedAfter (not (s.locked == 0)) b (
        either_branch {A = ℕ × Stream} IsBoundedAfter
          ((not (s.held_bytes == 0) && flushed) || s.held_bytes == 0) (clear_held-IsBounded s b)
          b)))

paced-IsBounded :
    (period : ℕ) (s : Stream) → IsBounded s → IsBounded (record s { period_bytes = period })
paced-IsBounded period s b = record {
  frame = b.frame;
  size = b.size;
  word = b.word;
  lcl = b.lcl;
  pa = b.pa;
  pa_held = b.pa_held;
  lock = b.lock;
  free = b.free;
  lent_local = b.lent_local;
  lent_tmp = b.lent_tmp;
  inside = b.inside;
}

pulse_set_sample_rate-IsBounded :
    (updated : Bool) (period : ℕ) (s : Stream)
    → IsBounded s
    → IsBounded (pulse_set_sample_rate updated period s).1
unfolding pulse_set_sample_rate
pulse_set_sample_rate-IsBounded updated period s b =
    let c = clear_held-IsBounded s b in
    let u = record (clear_held s) { period_bytes = period } in
    let t = touch 0 s.real_bufsize_bytes s.real_bufsize_bytes u in
    either_branch {A = ℕ × Stream} IsBoundedAfter (not s.valid) b (
      either_branch {A = ℕ × Stream} IsBoundedAfter (not updated) {x = (e_outofmemory, s)}
        {y = (s_ok, t)} b
        (touch-IsBounded 0 s.real_bufsize_bytes s.real_bufsize_bytes u (omega arith)
          (paced-IsBounded period (clear_held s) c)))

pub apply-IsBounded :
    (allocate : ℕ → Option ℕ) (op : StreamOp) (s : Stream)
    → AllocatesEnough allocate
    → IsBounded s
    → IsBounded (apply allocate op s)
unfolding apply pulse_underflow_callback
apply-IsBounded allocate (gets frames) s e b =
    pulse_get_render_buffer-IsBounded allocate frames s e b
apply-IsBounded allocate (releases silent frames writable) s e b =
    pulse_release_render_buffer-IsBounded silent frames writable s b
apply-IsBounded allocate underruns s e b = flagged-IsBounded s.started true s b
apply-IsBounded allocate (plays writable) s e b = timer_period-IsBounded writable s b
apply-IsBounded allocate (starts has_event writable uncorked) s e b =
    pulse_start-IsBounded has_event writable uncorked s b
apply-IsBounded allocate (stops corked) s e b = pulse_stop-IsBounded corked s b
apply-IsBounded allocate (resets flushed) s e b = pulse_reset-IsBounded flushed s b
apply-IsBounded allocate (sets_rate updated period) s e b =
    pulse_set_sample_rate-IsBounded updated period s b

-- Any sequence of the client's calls, underruns and periods of the timer keeps a render stream
-- bounded, whatever PulseAudio answers and takes, if the allocator gives what it is asked for: the
-- offsets are in the ring, PulseAudio's data fits into it, what is held and what is lent fit into it
-- together, what is lent is in the ring or in the temporary buffer, and every memset, copy and write
-- was inside of its buffer.
pub run-IsBounded :
    (allocate : ℕ → Option ℕ) (ops : List StreamOp) (s : Stream)
    → AllocatesEnough allocate
    → IsBounded s
    → IsBounded (run allocate ops s)
unfolding run
run-IsBounded allocate [] s e b = b
run-IsBounded allocate (op ∷ ops) s e b =
    run-IsBounded allocate ops (apply allocate op s) e (apply-IsBounded allocate op s e b)
