-- ===== src/Pulse/Capture.antt =====
-- dlls/winepulse.drv/11_17pulse.c: the packets of a capture stream.
use menano.Prelude.{
  ℕ, ◌+◌, ◌-◌, ◌*◌, ◌/◌, Bool, true, false, not, Option, none, some, List, [], ◌∷◌, ◌++◌, ◌==◌,
  if◌then◌else◌,
}
use menano.Pulse.Defs.{
  s_ok, audclnt_e_device_invalidated, audclnt_e_not_stopped, audclnt_e_out_of_order,
  audclnt_e_invalid_size, audclnt_e_buffer_operation_pending,
}

abbrev pub audclnt_s_buffer_empty : ℕ
audclnt_s_buffer_empty = 0x08890001

-- `data` is the number of the packet's part of the buffer.
pub record Packet : Type 0 where
  pub data_part : ℕ
  pub qpcpos : ℕ
  pub discont : Bool

-- A capture stream. The two lists own the packets that are not locked.
pub record Capture : Type 0 where
  pub valid : Bool
  pub started : Bool
  pub frame_size : ℕ
  pub period_bytes : ℕ
  pub held_bytes : ℕ
  pub locked : ℕ
  pub locked_ptr : Option Packet
  pub packet_free : List Packet
  pub packet_filled : List Packet
  pub clock_written : ℕ

abbrev pub stamped : ℕ → Packet → Packet
stamped stamp p = record p { qpcpos = stamp; discont = false }

unfoldable pub stamp_last : ℕ → List Packet → List Packet
stamp_last stamp [] = []
stamp_last stamp (p ∷ []) = stamped stamp p ∷ []
stamp_last stamp (p ∷ q ∷ ps) = p ∷ stamp_last stamp (q ∷ ps)

-- No packet is free: the oldest filled one is taken, or the newest if the oldest is marked. `none` is
-- a write to the head of the list as to a packet.
unfoldable pub reuse : ℕ → List Packet → Option (List Packet)
unfolding stamp_last
reuse stamp [] = some []
reuse stamp (p ∷ []) = if p.discont then some (stamped stamp p ∷ []) else none
reuse stamp (p ∷ q ∷ ps) =
    if p.discont
    then some (stamp_last stamp (p ∷ q ∷ ps))
    else some ((record q { discont = true } ∷ ps) ++ stamped stamp p ∷ [])

abbrev pub filled_with : Capture → Option (List Packet) → Option Capture
filled_with s none = none
filled_with s (some ps) = some (record s { packet_filled = ps })

-- A period of data arrives.
unfoldable pub take_packet : ℕ → List Packet → Capture → Option Capture
unfolding reuse
take_packet stamp [] s = filled_with s (reuse stamp s.packet_filled)
take_packet stamp (p ∷ ps) s = some (record s {
  packet_free = ps;
  packet_filled = s.packet_filled ++ stamped stamp p ∷ [];
  held_bytes = s.held_bytes + s.period_bytes;
})

unfoldable pub read_period : ℕ → Capture → Option Capture
unfolding take_packet
read_period stamp s = if s.started then take_packet stamp s.packet_free s else some s

unfoldable pub lock_first : Option Packet → List Packet → Capture → Capture
lock_first none (p ∷ ps) s = record s { locked_ptr = some p; packet_filled = ps }
lock_first none [] s = s
lock_first (some p) ps s = s

unfoldable pub pulse_capture_padding : Capture → Capture
unfolding lock_first
pulse_capture_padding s = lock_first s.locked_ptr s.packet_filled s

abbrev pub frames_of : Option Packet → Capture → ℕ
frames_of none s = 0
frames_of (some p) s = s.period_bytes / s.frame_size

unfoldable pub pulse_get_capture_buffer : Capture → ℕ × Capture
unfolding pulse_capture_padding
pulse_get_capture_buffer s =
    let t = pulse_capture_padding s in
    let frames = frames_of t.locked_ptr t in
    if not s.valid
    then (audclnt_e_device_invalidated, s)
    else if not (s.locked == 0)
    then (audclnt_e_out_of_order, s)
    else (if frames == 0 then audclnt_s_buffer_empty else s_ok, record t { locked = frames })

-- `none` reads a packet through a null pointer.
abbrev pub give_back_packet : Option Packet → Capture → Option (ℕ × Capture)
give_back_packet none s = none
give_back_packet (some p) s = some (
  s_ok,
  record s {
    locked_ptr = none;
    held_bytes = s.held_bytes - s.period_bytes;
    clock_written = s.clock_written + (if p.discont then 2 * s.period_bytes else s.period_bytes);
    packet_free = s.packet_free ++ p ∷ [];
    locked = 0;
  },
)

unfoldable pub pulse_release_capture_buffer : ℕ → Capture → Option (ℕ × Capture)
pulse_release_capture_buffer done s =
    if done == 0
    then some (s_ok, record s { locked = 0 })
    else if s.locked == 0
    then some (audclnt_e_out_of_order, s)
    else if not (s.locked == done)
    then some (audclnt_e_invalid_size, s)
    else give_back_packet s.locked_ptr s

abbrev pub locked_packets : Option Packet → List Packet
locked_packets none = []
locked_packets (some p) = p ∷ []

unfoldable pub reset_capture : Capture → ℕ × Capture
reset_capture s =
    if not s.valid
    then (audclnt_e_device_invalidated, s)
    else if s.started
    then (audclnt_e_not_stopped, s)
    else if not (s.locked == 0)
    then (audclnt_e_buffer_operation_pending, s)
    else (
      s_ok,
      record s {
        clock_written = s.clock_written + s.held_bytes;
        held_bytes = 0;
        locked_ptr = none;
        packet_free = (s.packet_free ++ locked_packets s.locked_ptr) ++ s.packet_filled;
        packet_filled = [];
      },
    )

pub data CaptureOp : Type 0 where
  reads : ℕ → CaptureOp
  asks : CaptureOp
  gets_packet : CaptureOp
  gives_packet : ℕ → CaptureOp
  resets_capture : CaptureOp
  switches : Bool → CaptureOp

abbrev pub after : Option (ℕ × Capture) → Option Capture
after none = none
after (some r) = some r.1

unfoldable pub apply_capture : CaptureOp → Capture → Option Capture
unfolding read_period pulse_capture_padding pulse_get_capture_buffer pulse_release_capture_buffer
    reset_capture
apply_capture (reads stamp) s = read_period stamp s
apply_capture asks s = some (pulse_capture_padding s)
apply_capture gets_packet s = some (pulse_get_capture_buffer s).1
apply_capture (gives_packet done) s = after (pulse_release_capture_buffer done s)
apply_capture resets_capture s = some (reset_capture s).1
apply_capture (switches running) s = some (record s { started = running })

abbrev pub and_then : (Capture → Option Capture) → Option Capture → Option Capture
and_then f none = none
and_then f (some s) = f s

unfoldable pub run_capture : List CaptureOp → Capture → Option Capture
unfolding apply_capture
run_capture [] s = some s
run_capture (op ∷ ops) s = and_then (run_capture ops) (apply_capture op s)
