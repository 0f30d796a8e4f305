-- ===== src/Pulse/Tests.antt =====
-- dlls/winepulse.drv/11_17pulse.c on a concrete stream: a ring of 16 frames of 4 bytes.
use menano.Prelude.{
  ℕ, ◌+◌, ◌≡◌, refl, inl, true, false, Option, none, some, List, [], ◌∷◌, ◌++◌, map, arith,
}
use menano.Pulse.Defs.{Stream, StreamOp, run, gets, releases, plays, sets_rate, starts}
use menano.Pulse.Bounds.{IsBounded}
use menano.Pulse.Lends.{AllocatesEnough}
use menano.Pulse.Stays.{run-IsBounded}
use menano.Pulse.Aligned.{client_end, pa_end}
use menano.Pulse.Capture.{
  Packet, Capture, CaptureOp, run_capture, reads, gets_packet, gives_packet, resets_capture,
  switches,
}
use menano.Pulse.Packets.{weigh, weight, IsFilled, run_capture-IsConserved}
use menano.Pulse.Agrees.{run-IsAligned, lent_stays}
use mathlib.Core.Option.{some_inj}

abbrev created : Stream
created = record {
  valid = true;
  started = false;
  just_underran = false;
  frame_size = 4;
  bufsize_frames = 8;
  real_bufsize_bytes = 64;
  period_bytes = 16;
  lcl_offs_bytes = 0;
  pa_offs_bytes = 0;
  held_bytes = 0;
  pa_held_bytes = 0;
  tmp_buffer_bytes = 0;
  locked = 0;
  clock_written = 0;
  accesses = [];
}

abbrev pages : ℕ → Option ℕ
pages n = some (n + 4095)

pages-AllocatesEnough : AllocatesEnough pages
pages-AllocatesEnough n m e = let k : n + 4095 ≡ m = some_inj.0 e in omega arith

created-IsBounded : IsBounded created
created-IsBounded = record {
  frame = omega arith;
  size = refl;
  word = omega arith;
  lcl = omega arith;
  pa = omega arith;
  pa_held = omega arith;
  lock = omega arith;
  free = omega arith;
  lent_local = λ x. omega arith;
  lent_tmp = λ x. absurd (omega arith);
  inside = tt;
}

-- The client writes 8, 6 and 4 frames, the last ones across the end of the ring.
abbrev session : List StreamOp
session =
    gets 8
    ∷ releases false 8 20
    ∷ starts true 0 true
    ∷ plays 16
    ∷ plays 16
    ∷ gets 6
    ∷ releases true 6 4
    ∷ plays 4
    ∷ gets 4
    ∷ plays 0
    ∷ []

session_lends : (run pages session created).locked ≡ 4294967280
unfolding run
session_lends = refl

session_offsets :
    ((run pages session created).lcl_offs_bytes ≡ 56)
    × ((run pages session created).pa_offs_bytes ≡ 40)
unfolding run
session_offsets = (refl, refl)

abbrev released : List StreamOp
released = session ++ releases false 4 8 ∷ []

-- A change of the rate moves the place of a lent buffer from 16 to 0.
abbrev lent_at : Stream
lent_at = run pages (gets 4 ∷ releases false 4 8 ∷ gets 2 ∷ []) created

rate_moves_lent :
    (client_end lent_at ≡ 16)
    × (client_end (run pages (sets_rate true 16 ∷ []) lent_at) ≡ 0)
    × ((run pages (sets_rate true 16 ∷ []) lent_at).locked ≡ 8)
unfolding run
rate_moves_lent = (refl, refl, refl)

run-IsBounded_example : IsBounded (run pages released created)
run-IsBounded_example = run-IsBounded pages released created pages-AllocatesEnough created-IsBounded

run-IsAligned_example :
    client_end (run pages released created) ≡ pa_end (run pages released created)
run-IsAligned_example =
    run-IsAligned pages released created pages-AllocatesEnough created-IsBounded refl

lent_stays_example :
    let s = run pages session created in
    let u = run pages (map (λ w. plays w) (16 ∷ 0 ∷ 4 ∷ [])) s in
    (client_end u ≡ client_end s) × (u.locked ≡ s.locked)
lent_stays_example =
    lent_stays pages (16 ∷ 0 ∷ 4 ∷ []) (run pages session created) pages-AllocatesEnough
      (run-IsBounded pages session created pages-AllocatesEnough created-IsBounded)

abbrev packet : ℕ → Packet
packet n = record { data_part = n; qpcpos = 0; discont = false }

abbrev recorder : Capture
recorder = record {
  valid = true;
  started = true;
  frame_size = 4;
  period_bytes = 16;
  held_bytes = 0;
  locked = 0;
  locked_ptr = none;
  packet_free = packet 0 ∷ packet 1 ∷ packet 2 ∷ [];
  packet_filled = [];
  clock_written = 0;
}

-- Five periods arrive while the client holds the first packet: the second one is overwritten.
abbrev recording : List CaptureOp
recording =
    reads 1
    ∷ gets_packet
    ∷ reads 2
    ∷ reads 3
    ∷ reads 4
    ∷ reads 5
    ∷ gives_packet 4
    ∷ switches false
    ∷ resets_capture
    ∷ []

recorder-IsFilled : IsFilled recorder
unfolding weigh
recorder-IsFilled = record { held = refl; lent = inl refl }

abbrev parts : Option Capture → List ℕ
parts none = []
parts (some s) = map (λ p. p.data_part) s.packet_free

recorded_in_order : parts (run_capture recording recorder) ≡ 0 ∷ 2 ∷ 1 ∷ []
unfolding run_capture
recorded_in_order = refl

run_capture-IsConserved_example :
    (s' : Capture) × (run_capture recording recorder ≡ some s')
    × ((w : ℕ → ℕ) → weight w s' ≡ weight w recorder)
    × IsFilled s'
unfolding weigh
run_capture-IsConserved_example =
    run_capture-IsConserved recording recorder (omega arith) recorder-IsFilled
