-- ===== src/Pulse/Packets.antt =====
-- dlls/winepulse.drv/11_17pulse.c: no packet of a capture stream is lost.
use menano.Prelude.{
  ℕ, ◌+◌, ◌-◌, ◌*◌, ◌≤◌, ◌≡◌, refl, sym, ap, subst, ◌∙◌, ◌⊎◌, inl, inr, true, false, not, Option,
  none, some, List, [], ◌∷◌, ◌++◌, arith, ◌==◌, if◌then◌else◌, ==_iff, Bool-cases, either_branch,
}
use menano.Pulse.Defs.{
  s_ok, audclnt_e_out_of_order, audclnt_e_invalid_size, audclnt_e_buffer_operation_pending,
}
use menano.Pulse.Capture.{
  audclnt_s_buffer_empty, Packet, Capture, stamped, stamp_last, reuse, filled_with, take_packet,
  read_period, lock_first, pulse_capture_padding, frames_of, pulse_get_capture_buffer,
  give_back_packet, pulse_release_capture_buffer, locked_packets, reset_capture, CaptureOp, after,
  apply_capture, and_then, run_capture, reads, asks, gets_packet, gives_packet, resets_capture,
  switches,
}

-- The sum of a weight of the packets' parts of the buffer.
unfoldable pub weigh : (ℕ → ℕ) → List Packet → ℕ
weigh w [] = 0
weigh w (p ∷ ps) = w p.data_part + weigh w ps

abbrev pub weight : (ℕ → ℕ) → Capture → ℕ
weight w s = weigh w s.packet_free + weigh w s.packet_filled + weigh w (locked_packets s.locked_ptr)

abbrev pub one : ℕ → ℕ
one n = 1

-- What is held is a period for each packet that is filled or locked, and frames are lent from a
-- locked packet.
pub record IsFilled (s : Capture) : Type 0 where
  pub held :
      s.held_bytes
      ≡ s.period_bytes * (weigh one s.packet_filled + weigh one (locked_packets s.locked_ptr))
  pub lent : (s.locked ≡ 0) ⊎ ((p : Packet) × (s.locked_ptr ≡ some p))

abbrev pub IsConserved : Capture → Option Capture → Type 0
IsConserved s o =
    (s' : Capture) × (o ≡ some s') × ((w : ℕ → ℕ) → weight w s' ≡ weight w s) × IsFilled s'

abbrev IsKept : Capture → Capture → Type 0
IsKept s s' = ((w : ℕ → ℕ) → weight w s' ≡ weight w s) × IsFilled s'

weigh-append : (w : ℕ → ℕ) (ps qs : List Packet) → weigh w (ps ++ qs) ≡ weigh w ps + weigh w qs
unfolding weigh
weigh-append w [] qs = omega arith
weigh-append w (p ∷ ps) qs = let r = weigh-append w ps qs in omega arith

weigh-stamp_last :
    (w : ℕ → ℕ) (stamp : ℕ) (ps : List Packet) → weigh w (stamp_last stamp ps) ≡ weigh w ps
unfolding weigh stamp_last
weigh-stamp_last w stamp [] = refl
weigh-stamp_last w stamp (p ∷ []) = refl
weigh-stamp_last w stamp (p ∷ q ∷ ps) = let r = weigh-stamp_last w stamp (q ∷ ps) in omega arith

-- With two packets or more, a packet is found.
abbrev IsReused : List Packet → Option (List Packet) → Type 0
IsReused ps o = (qs : List Packet) × (o ≡ some qs) × ((w : ℕ → ℕ) → weigh w qs ≡ weigh w ps)

reuse-IsReused : (stamp : ℕ) (ps : List Packet) → 2 ≤ weigh one ps → IsReused ps (reuse stamp ps)
unfolding reuse weigh
reuse-IsReused stamp [] h = absurd (omega arith)
reuse-IsReused stamp (p ∷ []) h = absurd (omega arith)
reuse-IsReused stamp (p ∷ q ∷ ps) h =
    let turned = (record q { discont = true } ∷ ps) ++ stamped stamp p ∷ [] in
    either_branch {A = Option (List Packet)} (IsReused (p ∷ q ∷ ps)) p.discont
      {x = some (stamp_last stamp (p ∷ q ∷ ps))} {y = some turned}
      (stamp_last stamp (p ∷ q ∷ ps), refl, λ w. weigh-stamp_last w stamp (p ∷ q ∷ ps))
      (turned, refl, λ w. let r = weigh-append w ps (stamped stamp p ∷ []) in omega arith)

locked_at_most_one : (o : Option Packet) → weigh one (locked_packets o) ≤ 1
unfolding weigh
locked_at_most_one none = omega arith
locked_at_most_one (some p) = omega arith

read-IsConserved :
    (stamp : ℕ) (free : List Packet) (s : Capture)
    → s.packet_free ≡ free
    → 3 ≤ weight one s
    → IsFilled s
    → IsConserved s (take_packet stamp free s)
unfolding take_packet weigh
read-IsConserved stamp [] s e h k =
    let f : weigh one s.packet_free ≡ 0 = ap (weigh one) e in
    let l = locked_at_most_one s.locked_ptr in
    let r = reuse-IsReused stamp s.packet_filled (omega arith) in
    let same = r.2 one in
    (
      record s { packet_filled = r.0 },
      ap (filled_with s) r.1,
      λ w. let q = r.2 w in omega arith,
      record {
        held =
            k.held
            ∙ ap (λ n. s.period_bytes * (n + weigh one (locked_packets s.locked_ptr))) (sym same);
        lent = k.lent;
      },
    )
read-IsConserved stamp (p ∷ ps) s e h k = (
  record s {
    packet_free = ps;
    packet_filled = s.packet_filled ++ stamped stamp p ∷ [];
    held_bytes = s.held_bytes + s.period_bytes;
  },
  refl,
  λ w.
      let f : weigh w s.packet_free ≡ w p.data_part + weigh w ps = ap (weigh w) e in
      let r = weigh-append w s.packet_filled (stamped stamp p ∷ []) in omega arith,
  record {
    held =
        let r = weigh-append one s.packet_filled (stamped stamp p ∷ []) in
        let z = k.held in
        ap (λ n. n + s.period_bytes) z
        ∙ more s.period_bytes (weigh one s.packet_filled) (weigh one (locked_packets s.locked_ptr))
        ∙ ap (λ n. s.period_bytes * (n + weigh one (locked_packets s.locked_ptr))) (sym r);
    lent = k.lent;
  },
)
  where
    more : (a b c : ℕ) → a * (b + c) + a ≡ a * (b + (1 + 0) + c)
    more a b c = omega arith

lock_first-IsKept :
    (o : Option Packet) (filled : List Packet) (s : Capture)
    → s.locked_ptr ≡ o
    → s.packet_filled ≡ filled
    → IsFilled s
    → IsKept s (lock_first o filled s)
unfolding lock_first weigh
lock_first-IsKept none [] s e f k = (λ w. refl, k)
lock_first-IsKept (some p) ps s e f k = (λ w. refl, k)
lock_first-IsKept none (p ∷ ps) s e f k = (
  λ w.
      let a : weigh w s.packet_filled ≡ w p.data_part + weigh w ps = ap (weigh w) f in
      let b : weigh w (locked_packets s.locked_ptr) ≡ 0 = ap (λ q. weigh w (locked_packets q)) e in
      omega arith,
  record {
    held =
        let a : weigh one s.packet_filled ≡ 1 + weigh one ps = ap (weigh one) f in
        let b : weigh one (locked_packets s.locked_ptr) ≡ 0 =
          ap (λ q. weigh one (locked_packets q)) e in
        k.held ∙ ap (λ n. s.period_bytes * n) (omega arith);
    lent = inr (p, refl);
  },
)

frames_of-lent :
    (o : Option Packet) (t : Capture)
    → t.locked_ptr ≡ o
    → (frames_of o t ≡ 0) ⊎ ((p : Packet) × (t.locked_ptr ≡ some p))
frames_of-lent none t e = inl refl
frames_of-lent (some p) t e = inr (p, e)

pulse_get_capture_buffer-IsKept :
    (s : Capture) → IsFilled s → IsKept s (pulse_get_capture_buffer s).1
unfolding pulse_get_capture_buffer pulse_capture_padding
pulse_get_capture_buffer-IsKept s k =
    let t = pulse_capture_padding s in
    let c = lock_first-IsKept s.locked_ptr s.packet_filled s refl refl k in
    let frames = frames_of t.locked_ptr t in
    either_branch {A = ℕ × Capture} (λ r. IsKept s r.1) (not s.valid) (λ w. refl, k)
      (either_branch {A = ℕ × Capture} (λ r. IsKept s r.1) (not (s.locked == 0))
        {x = (audclnt_e_out_of_order, s)}
        {y = (if frames == 0 then audclnt_s_buffer_empty else s_ok, record t { locked = frames })}
        (λ w. refl, k) (c.0, record { held = c.1.held; lent = frames_of-lent t.locked_ptr t refl }))

-- An answer that keeps the packets.
abbrev IsKeptAfter : Capture → Option (ℕ × Capture) → Type 0
IsKeptAfter s o =
    (r : ℕ × Capture) × (o ≡ some r) × ((w : ℕ → ℕ) → weight w r.1 ≡ weight w s) × IsFilled r.1

give_back_packet-IsKeptAfter :
    (o : Option Packet) (s : Capture)
    → s.locked_ptr ≡ o
    → ((s.locked ≡ 0) → ⊥)
    → IsFilled s
    → IsKeptAfter s (give_back_packet o s)
unfolding weigh
give_back_packet-IsKeptAfter none s e n k = elim k.lent [
  | inl z ↦ absurd (n z)
  | inr q ↦ let x : none ≡ some q.0 = sym e ∙ q.1 in absurd cc
]
give_back_packet-IsKeptAfter (some p) s e n k = (
  (
    s_ok,
    record s {
      locked_ptr = none;
      held_bytes = s.held_bytes - s.period_bytes;
      clock_written = s.clock_written + (if p.discont then 2 * s.period_bytes else s.period_bytes);
      packet_free = s.packet_free ++ p ∷ [];
      locked = 0;
    },
  ),
  refl,
  λ w.
      let b : weigh w (locked_packets s.locked_ptr) ≡ w p.data_part + 0 =
        ap (λ q. weigh w (locked_packets q)) e in
      let r = weigh-append w s.packet_free (p ∷ []) in omega arith,
  record {
    held =
        let b : weigh one (locked_packets s.locked_ptr) ≡ 1 + 0 =
          ap (λ q. weigh one (locked_packets q)) e in
        ap (λ h. h - s.period_bytes)
          (k.held ∙ ap (λ q. s.period_bytes * (weigh one s.packet_filled + q)) b)
        ∙ less s.period_bytes (weigh one s.packet_filled);
    lent = inl refl;
  },
)
  where
    less : (a b : ℕ) → a * (b + (1 + 0)) - a ≡ a * (b + 0)
    less a b = omega arith

pulse_release_capture_buffer-IsKeptAfter :
    (done : ℕ) (s : Capture) → IsFilled s → IsKeptAfter s (pulse_release_capture_buffer done s)
unfolding pulse_release_capture_buffer
pulse_release_capture_buffer-IsKeptAfter done s k =
    let order : Option (ℕ × Capture) = some (audclnt_e_out_of_order, s) in
    let size : Option (ℕ × Capture) = some (audclnt_e_invalid_size, s) in
    let back = give_back_packet s.locked_ptr s in
    either_branch {A = Option (ℕ × Capture)} (IsKeptAfter s) (done == 0)
      {x = some (s_ok, record s { locked = 0 })}
      {y = if s.locked == 0 then order else if not (s.locked == done) then size else back}
      ((s_ok, record s { locked = 0 }), refl, λ w. refl, record { held = k.held; lent = inl refl })
      (elim (Bool-cases (s.locked == 0)) [
        | inl z ↦
            subst
              (λ c.
                IsKeptAfter s (if c then order else if not (s.locked == done) then size else back))
              (sym z) ((audclnt_e_out_of_order, s), refl, λ w. refl, k)
        | inr z ↦
            subst
              (λ c.
                IsKeptAfter s (if c then order else if not (s.locked == done) then size else back))
              (sym z)
              (either_branch {A = Option (ℕ × Capture)} (IsKeptAfter s) (not (s.locked == done))
                {x = size} {y = back} ((audclnt_e_invalid_size, s), refl, λ w. refl, k)
                (give_back_packet-IsKeptAfter s.locked_ptr s refl (not_zero s.locked z) k))
      ])
  where
    not_zero : (n : ℕ) → (n == 0) ≡ false → n ≡ 0 → ⊥
    not_zero n h e = ground arith

reset_capture-IsKept : (s : Capture) → IsFilled s → IsKept s (reset_capture s).1
unfolding reset_capture weigh
reset_capture-IsKept s k =
    let t = record s {
      clock_written = s.clock_written + s.held_bytes;
      held_bytes = 0;
      locked_ptr = none;
      packet_free = (s.packet_free ++ locked_packets s.locked_ptr) ++ s.packet_filled;
      packet_filled = [];
    } in
    let pending : ℕ × Capture = (audclnt_e_buffer_operation_pending, s) in
    let done : ℕ × Capture = (s_ok, t) in
    either_branch {A = ℕ × Capture} (λ r. IsKept s r.1) (not s.valid) (λ w. refl, k)
      (either_branch {A = ℕ × Capture} (λ r. IsKept s r.1) s.started (λ w. refl, k)
        (elim (Bool-cases (s.locked == 0)) [
          | inl z ↦
              subst (λ c. IsKept s (if not c then pending else done).1) (sym z)
                (
                  λ w.
                      let a =
                        weigh-append w (s.packet_free ++ locked_packets s.locked_ptr)
                          s.packet_filled in
                      let b = weigh-append w s.packet_free (locked_packets s.locked_ptr) in
                      omega arith,
                  record { held = omega arith; lent = inl ((==_iff s.locked 0).0 z) },
                )
          | inr z ↦ subst (λ c. IsKept s (if not c then pending else done).1) (sym z) (λ w. refl, k)
        ]))

apply_capture-IsConserved :
    (op : CaptureOp) (s : Capture)
    → 3 ≤ weight one s
    → IsFilled s
    → IsConserved s (apply_capture op s)
unfolding apply_capture read_period pulse_capture_padding
apply_capture-IsConserved (reads stamp) s h k =
    either_branch {A = Option Capture} (IsConserved s) s.started
      {x = take_packet stamp s.packet_free s} {y = some s}
      (read-IsConserved stamp s.packet_free s refl h k) (s, refl, λ w. refl, k)
apply_capture-IsConserved asks s h k =
    let c = lock_first-IsKept s.locked_ptr s.packet_filled s refl refl k in
    (pulse_capture_padding s, refl, c.0, c.1)
apply_capture-IsConserved gets_packet s h k =
    let c = pulse_get_capture_buffer-IsKept s k in ((pulse_get_capture_buffer s).1, refl, c.0, c.1)
apply_capture-IsConserved (gives_packet done) s h k =
    let c = pulse_release_capture_buffer-IsKeptAfter done s k in
    (c.0.1, ap (λ o. after o) c.1, c.2, c.3)
apply_capture-IsConserved resets_capture s h k =
    let c = reset_capture-IsKept s k in ((reset_capture s).1, refl, c.0, c.1)
apply_capture-IsConserved (switches running) s h k =
    (record s { started = running }, refl, λ w. refl, record { held = k.held; lent = k.lent })

-- With three packets or more in a capture stream whose count of held bytes fits its lists, any sequence
-- of periods, of the client's calls and of resets comes to an end without reading a packet through a
-- null pointer or writing one through the head of a list: no packet is lost or doubled (whatever weight
-- the parts of the buffer have, their sum over the two lists and the locked packet stays), and what is
-- held is a period for each packet that is filled or locked.
pub run_capture-IsConserved :
    (ops : List CaptureOp) (s : Capture)
    → 3 ≤ weight one s
    → IsFilled s
    → (s' : Capture) × (run_capture ops s ≡ some s')
      × ((w : ℕ → ℕ) → weight w s' ≡ weight w s)
      × IsFilled s'
unfolding run_capture
run_capture-IsConserved [] s h k = (s, refl, λ w. refl, k)
run_capture-IsConserved (op ∷ ops) s h k =
    let a = apply_capture-IsConserved op s h k in
    let same = a.2 one in
    let b = run_capture-IsConserved ops a.0 (omega arith) a.3 in
    (b.0, ap (and_then (run_capture ops)) a.1 ∙ b.1, λ w. b.2 w ∙ a.2 w, b.3)
