-- ===== src/Pl011/Line.antt =====
-- A small device for the driver of kernel/pl011/src/lib.rs.
use aarch.Base.{
  ℕ, ◌<◌, ◌≡◌, ◌⊎◌, inl, inr, refl, arith, List, [], ◌∷◌, ◌++◌, Bool, true, false, if◌then◌else◌,
  ◌==◌, not, ◌||◌, bit_and,
}
use aarch.Pl011.{Device, Pl011, uartfr, uartfr_busy, load, store}
use aarch.Pl011.Sending.{Waits, Port}

-- What the line has seen, whether the port is busy, and its control register.
pub record Wire : Type 0 where
  pub sent : List ℕ
  pub busy : Bool
  pub control : ℕ

-- A port that is busy at a read after each byte. It loses a byte that is written while it is busy
-- or not enabled.
abbrev pub line : Device
line = record {
  State = Wire;
  read = λ a s.
      if a == 0x9000018
      then (if s.busy then 8 else 0, record s { busy = false })
      else if a == 0x9000030
      then (s.control, s)
      else (0, s);
  write = λ a v s.
      if a == 0x9000000
      then if s.busy || not (s.control == 0x101)
        then s
        else record s { sent = s.sent ++ v ∷ []; busy = true }
      else if a == 0x9000030
      then record s { control = v }
      else s;
}

abbrev pub on_line : ℕ → Wire
on_line control = record { sent = []; busy = true; control = control }

abbrev pub serial : Pl011
serial = record {
  base_address = 0x9000000;
  base_clock = 24000000;
  baudrate = 115200;
  data_bits = 8;
  stop_bits = 1;
}

unfoldable one_if : Bool → ℕ
one_if true = 1
one_if false = 0

unfoldable pub line_waits : Waits line serial 2
unfolding load one_if
line_waits = record {
  pending = λ s. one_if s.busy;
  read_waits = λ s. waits s s.busy refl;
  bounded = λ s. small s.busy;
}
  where
    waits :
        (s : Wire) (busy : Bool)
        → s.busy ≡ busy
        → (bit_and ((load line serial uartfr s).0) uartfr_busy ≡ 0)
          ⊎ (one_if ((load line serial uartfr s).1).busy < one_if s.busy)
    waits s true e = inr (rw e (omega arith))
    waits s false e = inl (rw e refl)

    small : (busy : Bool) → one_if busy < 2
    small true = omega arith
    small false = omega arith

unfoldable pub line_port : Port line serial 2
unfolding load store line_waits
line_port = record {
  waits = line_waits;
  sent = λ s. s.sent;
  Enabled = λ s. s.control ≡ 0x101;
  Empty = λ s. s.busy ≡ false;
  read_sent = λ s. refl;
  read_Enabled = λ s on. on;
  read_Empty = λ s idle. refl;
  write_sent = λ b s small on empty. rw (on, empty) refl;
  write_Enabled = λ b s on. kept b s on (s.busy || not (s.control == 0x101)) refl;
}
  where
    kept :
        (b : ℕ) (s : Wire)
        → s.control ≡ 0x101
        → (lost : Bool) → (s.busy || not (s.control == 0x101)) ≡ lost
        → (line.write 0x9000000 b s).control ≡ 0x101
    kept b s on true e = rw e on
    kept b s on false e = rw e on
