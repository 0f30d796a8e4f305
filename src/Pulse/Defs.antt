-- ===== src/Pulse/Defs.antt =====
-- dlls/winepulse.drv/11_17pulse.c: the ring buffer that a client fills and PulseAudio empties.
use menano.Prelude.{
  ℕ, ◌+◌, ◌-◌, ◌*◌, ◌/◌, ◌%◌, Bool, true, false, not, ◌&&◌, ◌||◌, Option, none, some, List, [], ◌∷◌,
  ltb, leb, ◌==◌, if◌then◌else◌,
}

abbrev pub s_ok : ℕ
s_ok = 0

abbrev pub audclnt_e_device_invalidated : ℕ
audclnt_e_device_invalidated = 0x88890004

abbrev pub audclnt_e_not_stopped : ℕ
audclnt_e_not_stopped = 0x88890005

abbrev pub audclnt_e_buffer_too_large : ℕ
audclnt_e_buffer_too_large = 0x88890006

abbrev pub audclnt_e_out_of_order : ℕ
audclnt_e_out_of_order = 0x88890007

abbrev pub audclnt_e_invalid_size : ℕ
audclnt_e_invalid_size = 0x88890009

abbrev pub audclnt_e_buffer_operation_pending : ℕ
audclnt_e_buffer_operation_pending = 0x8889000B

abbrev pub audclnt_e_eventhandle_not_set : ℕ
audclnt_e_eventhandle_not_set = 0x88890014

abbrev pub s_false : ℕ
s_false = 1

abbrev pub e_fail : ℕ
e_fail = 0x80004005

abbrev pub e_outofmemory : ℕ
e_outofmemory = 0x8007000E

-- A memset, a copy or a write of `length` bytes at `offset` of a buffer of `size` bytes.
pub record Access : Type 0 where
  pub offset : ℕ
  pub length : ℕ
  pub size : ℕ

-- A render stream. `locked` is an INT32 as the 32-bit word that it is; the numbers of type SIZE_T are
-- sums and products of numbers below 2 ^ 32, which fit into 64 bits. A temporary buffer of no bytes is
-- the null pointer. What a stream has for its clock, its connection and for capture is left out.
pub record Stream : Type 0 where
  pub valid : Bool
  pub started : Bool
  pub just_underran : Bool
  pub frame_size : ℕ
  pub bufsize_frames : ℕ
  pub real_bufsize_bytes : ℕ
  pub period_bytes : ℕ
  pub lcl_offs_bytes : ℕ
  pub pa_offs_bytes : ℕ
  pub held_bytes : ℕ
  pub pa_held_bytes : ℕ
  pub tmp_buffer_bytes : ℕ
  pub locked : ℕ
  pub clock_written : ℕ
  pub accesses : List Access

abbrev pub int_min : ℕ
int_min = 2147483648

unfoldable pub int32 : ℕ → ℕ
int32 n = n % 4294967296

unfoldable pub negate : ℕ → ℕ
negate n = (4294967296 - n % 4294967296) % 4294967296

abbrev pub is_negative : ℕ → Bool
is_negative n = leb int_min n

-- `n >= 0 ? n : -n`
abbrev pub magnitude : ℕ → ℕ
magnitude n = if is_negative n then 4294967296 - n else n

abbrev pub min_of : ℕ → ℕ → ℕ
min_of a b = if ltb a b then a else b

abbrev pub touch : ℕ → ℕ → ℕ → Stream → Stream
touch o n k s = record s { accesses = record { offset = o; length = n; size = k } ∷ s.accesses }

-- The end of the data that the client has written.
abbrev pub wri_offs : Stream → ℕ
wri_offs s = (s.lcl_offs_bytes + s.held_bytes) % s.real_bufsize_bytes % 4294967296

unfoldable pub tmp_taken : Stream → Option ℕ → Bool × Stream
tmp_taken s none = (false, record s { tmp_buffer_bytes = 0 })
tmp_taken s (some n) = (true, record s { tmp_buffer_bytes = n })

-- NtAllocateVirtualMemory answers the size that it took for a size.
unfoldable pub alloc_tmp_buffer : (ℕ → Option ℕ) → ℕ → Stream → Bool × Stream
unfolding tmp_taken
alloc_tmp_buffer allocate bytes s =
    if leb bytes s.tmp_buffer_bytes then (true, s) else tmp_taken s (allocate bytes)

-- Where the data pointer points to that a client gets.
pub data Place : Type 0 where
  null_data : Place
  in_local : ℕ → Place
  in_tmp : Place

abbrev pub Answer : Type 0
Answer = ℕ × Option Place × Stream

unfoldable pub lend_tmp : ℕ → Bool × Stream → Answer
unfolding negate
lend_tmp bytes (false, s) = (e_outofmemory, none, s)
lend_tmp bytes (true, s) =
    (s_ok, some in_tmp, touch 0 bytes s.tmp_buffer_bytes (record s { locked = negate bytes }))

unfoldable pub lend_local : ℕ → Stream → Answer
unfolding int32
lend_local bytes s = (
  s_ok,
  some (in_local (wri_offs s)),
  touch (wri_offs s) bytes s.real_bufsize_bytes (record s { locked = int32 bytes }),
)

unfoldable pub lend : (ℕ → Option ℕ) → ℕ → Stream → Answer
unfolding lend_tmp lend_local alloc_tmp_buffer
lend allocate bytes s =
    if ltb s.real_bufsize_bytes (wri_offs s + bytes)
    then lend_tmp bytes (alloc_tmp_buffer allocate bytes s)
    else lend_local bytes s

unfoldable pub pulse_get_render_buffer : (ℕ → Option ℕ) → ℕ → Stream → Answer
unfolding lend
pulse_get_render_buffer allocate frames s =
    if not s.valid
    then (audclnt_e_device_invalidated, none, s)
    else if not (s.locked == 0)
    then (audclnt_e_out_of_order, none, s)
    else if frames == 0
    then (s_ok, some null_data, s)
    else if ltb s.bufsize_frames (s.held_bytes / s.frame_size + frames)
    then (audclnt_e_buffer_too_large, none, s)
    else lend allocate (frames * s.frame_size) s

-- The two memcpy of a wrapped write touch the temporary buffer and the ring.
unfoldable pub pulse_wrap_buffer : ℕ → Stream → Stream
pulse_wrap_buffer written s =
    let chunk = (s.real_bufsize_bytes + 4294967296 - wri_offs s) % 4294967296 in
    if leb written chunk
    then touch (wri_offs s) written s.real_bufsize_bytes (touch 0 written s.tmp_buffer_bytes s)
    else touch 0 (written - chunk) s.real_bufsize_bytes (
        touch chunk (written - chunk) s.tmp_buffer_bytes
          (touch (wri_offs s) chunk s.real_bufsize_bytes (touch 0 chunk s.tmp_buffer_bytes s)))

-- calloc and write of silence, before the first data after an underrun.
unfoldable pub prebuffer : ℕ → Stream → Stream
prebuffer writable s =
    if s.just_underran
    then record (if ltb s.pa_held_bytes writable
        then touch 0 (writable - s.pa_held_bytes) (writable - s.pa_held_bytes) s
        else s) { just_underran = false }
    else s

-- The small chunk at the end of the ring, and the main chunk.
unfoldable pub small_chunk : ℕ → Stream → Stream
small_chunk to_write s =
    touch s.pa_offs_bytes to_write s.real_bufsize_bytes
      (record s { pa_held_bytes = s.pa_held_bytes - to_write; pa_offs_bytes = 0 })

unfoldable pub main_chunk : ℕ → Stream → Stream
main_chunk to_write s = touch s.pa_offs_bytes to_write s.real_bufsize_bytes (record s {
  pa_offs_bytes = (s.pa_offs_bytes + to_write) % s.real_bufsize_bytes;
  pa_held_bytes = s.pa_held_bytes - to_write;
})

unfoldable pub write_chunks : ℕ → Stream → Stream
unfolding small_chunk main_chunk
write_chunks bytes s =
    let to_write = (s.real_bufsize_bytes - s.pa_offs_bytes) % 4294967296 in
    if ltb s.real_bufsize_bytes (s.pa_offs_bytes + bytes)
    then main_chunk ((bytes + 4294967296 - to_write) % 4294967296) (small_chunk to_write s)
    else main_chunk bytes s

-- `writable` is what pa_stream_writable_size answers.
unfoldable pub pulse_write : ℕ → Stream → Stream
unfolding prebuffer write_chunks
pulse_write writable s =
    write_chunks (min_of s.pa_held_bytes (writable % 4294967296) % 4294967296)
      (prebuffer (writable % 4294967296) s)

-- What PulseAudio has not taken of the data that is about to be overwritten is dropped.
unfoldable pub drop_oldest : Stream → Stream
drop_oldest s =
    if ltb s.real_bufsize_bytes s.pa_held_bytes
    then record s {
      pa_offs_bytes =
          (s.pa_offs_bytes + (s.pa_held_bytes - s.real_bufsize_bytes)) % s.real_bufsize_bytes;
      pa_held_bytes = s.real_bufsize_bytes;
    }
    else s

unfoldable pub silence_written : Bool → ℕ → Stream → Stream
silence_written silent written s =
    if silent
    then (if is_negative s.locked
        then touch 0 written s.tmp_buffer_bytes s
        else touch ((s.lcl_offs_bytes + s.held_bytes) % s.real_bufsize_bytes) written
            s.real_bufsize_bytes s)
    else s

unfoldable pub take_back : Bool → ℕ → ℕ → Stream → Stream
unfolding silence_written pulse_wrap_buffer drop_oldest pulse_write
take_back silent written writable s =
    let a = silence_written silent written s in
    let b = if is_negative s.locked then pulse_wrap_buffer written a else a in
    let c = drop_oldest (record b {
      held_bytes = b.held_bytes + written;
      pa_held_bytes = b.pa_held_bytes + written;
    }) in
    pulse_write writable (record c { clock_written = c.clock_written + written; locked = 0 })

unfoldable pub pulse_release_render_buffer : Bool → ℕ → ℕ → Stream → ℕ × Stream
unfolding take_back
pulse_release_render_buffer silent frames writable s =
    if s.locked == 0 || frames == 0
    then (if frames == 0 then s_ok else audclnt_e_out_of_order, record s { locked = 0 })
    else if ltb (magnitude s.locked) (frames * s.frame_size)
    then (audclnt_e_invalid_size, s)
    else (s_ok, take_back silent (frames * s.frame_size % 4294967296) writable s)

unfoldable pub advance : Stream → Stream
advance s =
    let adv = min_of s.period_bytes s.held_bytes in
    record s {
      lcl_offs_bytes = (s.lcl_offs_bytes + adv) % s.real_bufsize_bytes;
      held_bytes = s.held_bytes - adv;
    }

-- A period of the timer thread when the clock says so: it plays on whatever PulseAudio takes.
unfoldable pub timer_period : ℕ → Stream → Stream
unfolding pulse_write advance
timer_period writable s =
    if s.started && not (s.held_bytes == 0) then advance (pulse_write writable s) else s

-- `has_event` is false if the client waits for events and gave no handle; `uncorked` is whether the
-- stream is not corked, or PulseAudio uncorked it.
unfoldable pub pulse_start : Bool → ℕ → Bool → Stream → ℕ × Stream
unfolding pulse_write
pulse_start has_event writable uncorked s =
    let t = pulse_write writable s in
    if not s.valid
    then (s_ok, s)
    else if not has_event
    then (audclnt_e_eventhandle_not_set, s)
    else if s.started
    then (audclnt_e_not_stopped, s)
    else if uncorked
    then (s_ok, record t { started = true })
    else (e_fail, t)

-- `corked` is whether PulseAudio corked the stream.
unfoldable pub pulse_stop : Bool → Stream → ℕ × Stream
pulse_stop corked s =
    if not s.valid
    then (audclnt_e_device_invalidated, s)
    else if not s.started
    then (s_false, s)
    else if corked
    then (s_ok, record s { started = false })
    else (e_fail, s)

unfoldable pub pulse_underflow_callback : Stream → Stream
pulse_underflow_callback s = record s { just_underran = true }

unfoldable pub clear_held : Stream → Stream
clear_held s = record s {
  clock_written = 0;
  pa_offs_bytes = 0;
  lcl_offs_bytes = 0;
  held_bytes = 0;
  pa_held_bytes = 0;
}

-- `flushed` is whether PulseAudio flushed the stream.
unfoldable pub pulse_reset : Bool → Stream → ℕ × Stream
unfolding clear_held
pulse_reset flushed s =
    if not s.valid
    then (audclnt_e_device_invalidated, s)
    else if s.started
    then (audclnt_e_not_stopped, s)
    else if not (s.locked == 0)
    then (audclnt_e_buffer_operation_pending, s)
    else if (not (s.held_bytes == 0) && flushed) || s.held_bytes == 0
    then (s_ok, clear_held s)
    else (s_ok, s)

-- `updated` is whether PulseAudio took the rate, `period` the new size of a period.
unfoldable pub pulse_set_sample_rate : Bool → ℕ → Stream → ℕ × Stream
unfolding clear_held
pulse_set_sample_rate updated period s =
    if not s.valid
    then (audclnt_e_device_invalidated, s)
    else if not updated
    then (e_outofmemory, s)
    else (
      s_ok,
      touch 0 s.real_bufsize_bytes s.real_bufsize_bytes
          (record (clear_held s) { period_bytes = period }),
    )

-- What happens to a stream: the client's calls with what PulseAudio answers, underruns and periods.
pub data StreamOp : Type 0 where
  gets : ℕ → StreamOp
  releases : Bool → ℕ → ℕ → StreamOp
  underruns : StreamOp
  plays : ℕ → StreamOp
  starts : Bool → ℕ → Bool → StreamOp
  stops : Bool → StreamOp
  resets : Bool → StreamOp
  sets_rate : Bool → ℕ → StreamOp

unfoldable pub apply : (ℕ → Option ℕ) → StreamOp → Stream → Stream
unfolding pulse_get_render_buffer pulse_release_render_buffer pulse_underflow_callback timer_period
    pulse_start pulse_stop pulse_reset pulse_set_sample_rate
apply allocate (gets frames) s = (pulse_get_render_buffer allocate frames s).2
apply allocate (releases silent frames writable) s =
    (pulse_release_render_buffer silent frames writable s).1
apply allocate underruns s = pulse_underflow_callback s
apply allocate (plays writable) s = timer_period writable s
apply allocate (starts has_event writable uncorked) s =
    (pulse_start has_event writable uncorked s).1
apply allocate (stops corked) s = (pulse_stop corked s).1
apply allocate (resets flushed) s = (pulse_reset flushed s).1
apply allocate (sets_rate updated period) s = (pulse_set_sample_rate updated period s).1

unfoldable pub run : (ℕ → Option ℕ) → List StreamOp → Stream → Stream
unfolding apply
run allocate [] s = s
run allocate (op ∷ ops) s = run allocate ops (apply allocate op s)
