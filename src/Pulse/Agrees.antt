-- ===== src/Pulse/Agrees.antt =====
-- dlls/winepulse.drv/11_17pulse.c: the two ends of the data agree through any sequence of calls.
use menano.Prelude.{
  ℕ, ◌+◌, ◌*◌, ◌/◌, ◌%◌, ◌≤◌, ◌≡◌, refl, sym, subst, ◌∙◌, inl, inr, Bool, true, false, not, ◌&&◌,
  ◌||◌, Option, none, some, List, [], ◌∷◌, map, arith, ltb, leb, ◌==◌, if◌then◌else◌, Bool-cases,
  either_branch,
}
use menano.Pulse.Defs.{
  s_ok, audclnt_e_out_of_order, audclnt_e_invalid_size, e_fail, e_outofmemory, Stream, magnitude,
  touch, wri_offs, tmp_taken, alloc_tmp_buffer, Answer, lend_tmp, lend_local, lend,
  pulse_get_render_buffer, pulse_write, take_back, pulse_release_render_buffer, timer_period,
  pulse_start, pulse_stop, pulse_underflow_callback, clear_held, pulse_reset, pulse_set_sample_rate,
  StreamOp, apply, run, gets, releases, underruns, plays, starts, stops, resets, sets_rate,
}
use menano.Pulse.Bounds.{IsBounded}
use menano.Pulse.Lends.{AllocatesEnough}
use menano.Pulse.Stays.{apply-IsBounded}
use menano.Pulse.Aligned.{
  client_end, pa_end, IsAligned, IsSteady-IsAligned, pulse_write-IsSteady, timer_period-IsSteady,
  take_back-IsAligned,
}

abbrev IsAlignedAfter : ℕ × Stream → Type 0
IsAlignedAfter r = IsAligned r.1

pulse_release_render_buffer-IsAligned :
    (silent : Bool) (frames writable : ℕ) (s : Stream)
    → IsBounded s
    → IsAligned s
    → IsAligned (pulse_release_render_buffer silent frames writable s).1
unfolding pulse_release_render_buffer
pulse_release_render_buffer-IsAligned silent frames writable s b a =
    let n = frames * s.frame_size in
    let x : ℕ × Stream = (s_ok, take_back silent (n % 4294967296) writable s) in
    let y : ℕ × Stream = (audclnt_e_invalid_size, s) in
    let z : ℕ × Stream =
      (if frames == 0 then s_ok else audclnt_e_out_of_order, record s { locked = 0 }) in
    either_branch {A = ℕ × Stream} IsAlignedAfter (s.locked == 0 || frames == 0) {x = z}
      {y = if ltb (magnitude s.locked) n then y else x} a
      (elim (Bool-cases (ltb (magnitude s.locked) n)) [
        | inl k ↦ subst (λ c. IsAlignedAfter (if c then y else x)) (sym k) a
        | inr k ↦
            subst (λ c. IsAlignedAfter (if c then y else x)) (sym k)
              (take_back-IsAligned silent (n % 4294967296) writable s
                (b, let l = ltb-false (magnitude s.locked) n k in omega arith) a)
      ])
  where
    ltb-false : (a' b' : ℕ) → ltb a' b' ≡ false → b' ≤ a'
    ltb-false a' b' k = ground arith

abbrev IsAlignedLent : Answer → Type 0
IsAlignedLent r = IsAligned r.2

lend_tmp-IsAligned :
    (bytes : ℕ) (r : Bool × Stream) → IsAligned r.1 → IsAlignedLent (lend_tmp bytes r)
unfolding lend_tmp
lend_tmp-IsAligned bytes (false, s) a = a
lend_tmp-IsAligned bytes (true, s) a = a

alloc_tmp_buffer-IsAligned :
    (allocate : ℕ → Option ℕ) (bytes : ℕ) (s : Stream)
    → IsAligned s
    → IsAligned (alloc_tmp_buffer allocate bytes s).1
unfolding alloc_tmp_buffer tmp_taken
alloc_tmp_buffer-IsAligned allocate bytes s a =
    either_branch {A = Bool × Stream} (λ r. IsAligned r.1) (leb bytes s.tmp_buffer_bytes)
      {x = (true, s)} {y = tmp_taken s (allocate bytes)} a (tmp_taken-IsAligned (allocate bytes))
  where
    tmp_taken-IsAligned : (o : Option ℕ) → IsAligned (tmp_taken s o).1
    tmp_taken-IsAligned none = a
    tmp_taken-IsAligned (some n) = a

pulse_get_render_buffer-IsAligned :
    (allocate : ℕ → Option ℕ) (frames : ℕ) (s : Stream)
    → IsAligned s
    → IsAligned (pulse_get_render_buffer allocate frames s).2
unfolding pulse_get_render_buffer lend lend_local
pulse_get_render_buffer-IsAligned allocate frames s a =
    let n = frames * s.frame_size in
    let x = lend_tmp n (alloc_tmp_buffer allocate n s) in
    let y = lend_local n s in
    either_branch {A = Answer} IsAlignedLent (not s.valid) a (
      either_branch {A = Answer} IsAlignedLent (not (s.locked == 0)) a (
        either_branch {A = Answer} IsAlignedLent (frames == 0) a (
          either_branch {A = Answer} IsAlignedLent
            (ltb s.bufsize_frames (s.held_bytes / s.frame_size + frames)) a
            (either_branch {A = Answer} IsAlignedLent (ltb s.real_bufsize_bytes (wri_offs s + n))
              {x = x} {y = y}
              (lend_tmp-IsAligned n (alloc_tmp_buffer allocate n s)
                (alloc_tmp_buffer-IsAligned allocate n s a))
              a))))

apply-IsAligned :
    (allocate : ℕ → Option ℕ) (op : StreamOp) (s : Stream)
    → IsBounded s
    → IsAligned s
    → IsAligned (apply allocate op s)
unfolding apply pulse_underflow_callback pulse_start pulse_stop pulse_reset pulse_set_sample_rate
    clear_held
apply-IsAligned allocate (gets frames) s b a = pulse_get_render_buffer-IsAligned allocate frames s a
apply-IsAligned allocate (releases silent frames writable) s b a =
    pulse_release_render_buffer-IsAligned silent frames writable s b a
apply-IsAligned allocate underruns s b a = a
apply-IsAligned allocate (plays writable) s b a =
    IsSteady-IsAligned s (timer_period writable s) (timer_period-IsSteady writable s b) a
apply-IsAligned allocate (starts has_event writable uncorked) s b a =
    let t = pulse_write writable s in
    let c = IsSteady-IsAligned s t (pulse_write-IsSteady writable s b) a in
    either_branch {A = ℕ × Stream} IsAlignedAfter (not s.valid) a (
      either_branch {A = ℕ × Stream} IsAlignedAfter (not has_event) a (
        either_branch {A = ℕ × Stream} IsAlignedAfter s.started a (
          either_branch {A = ℕ × Stream} IsAlignedAfter uncorked
            {x = (s_ok, record t { started = true })} {y = (e_fail, t)} c c)))
apply-IsAligned allocate (stops corked) s b a =
    either_branch {A = ℕ × Stream} IsAlignedAfter (not s.valid) a (
      either_branch {A = ℕ × Stream} IsAlignedAfter (not s.started) a
        (either_branch {A = ℕ × Stream} IsAlignedAfter corked a a))
apply-IsAligned allocate (resets flushed) s b a =
    either_branch {A = ℕ × Stream} IsAlignedAfter (not s.valid) a (
      either_branch {A = ℕ × Stream} IsAlignedAfter s.started a (
        either_branch {A = ℕ × Stream} IsAlignedAfter (not (s.locked == 0)) a (
          either_branch {A = ℕ × Stream} IsAlignedAfter
            ((not (s.held_bytes == 0) && flushed) || s.held_bytes == 0) {x = (s_ok, clear_held s)}
            refl a)))
apply-IsAligned allocate (sets_rate updated period) s b a =
    let u = record (clear_held s) { period_bytes = period } in
    either_branch {A = ℕ × Stream} IsAlignedAfter (not s.valid) a (
      either_branch {A = ℕ × Stream} IsAlignedAfter (not updated) {x = (e_outofmemory, s)}
        {y = (s_ok, touch 0 s.real_bufsize_bytes s.real_bufsize_bytes u)} a refl)

-- Any sequence of the client's calls, underruns and periods of the timer keeps the two readers of the
-- ring together, if the stream is bounded and the allocator gives what it is asked for: the data that
-- PulseAudio has not taken ends where the data ends that the client has written.
pub run-IsAligned :
    (allocate : ℕ → Option ℕ) (ops : List StreamOp) (s : Stream)
    → AllocatesEnough allocate
    → IsBounded s
    → client_end s ≡ pa_end s
    → client_end (run allocate ops s) ≡ pa_end (run allocate ops s)
unfolding run
run-IsAligned allocate [] s e b a = a
run-IsAligned allocate (op ∷ ops) s e b a =
    run-IsAligned allocate ops (apply allocate op s) e (apply-IsBounded allocate op s e b)
      (apply-IsAligned allocate op s b a)

-- What a client was lent in the ring stays at the end of its data, and stays lent, through any number
-- of periods of the timer, whatever PulseAudio takes meanwhile, in a bounded stream: the release
-- finds it where it was lent.
pub lent_stays :
    (allocate : ℕ → Option ℕ) (writables : List ℕ) (s : Stream)
    → AllocatesEnough allocate
    → IsBounded s
    → let u = run allocate (map (λ w. plays w) writables) s in
      (client_end u ≡ client_end s) × (u.locked ≡ s.locked)
unfolding run apply
lent_stays allocate [] s e b = (refl, refl)
lent_stays allocate (w ∷ ws) s e b =
    let t = timer_period w s in
    let k = timer_period-IsSteady w s b in
    let r = lent_stays allocate ws t e (apply-IsBounded allocate (plays w) s e b) in
    (r.0 ∙ k.client, r.1 ∙ k.lent)
