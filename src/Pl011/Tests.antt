-- ===== src/Pl011/Tests.antt =====
-- The driver of kernel/pl011/src/lib.rs at the inputs of its test, and on a small device.
use aarch.Base.{ℕ, ◌+◌, ◌*◌, ◌≤◌, ◌<◌, ◌≡◌, refl, arith, [], ◌∷◌, map, ok, false}
use aarch.Pl011.{Pl011, send, calculate_divisors}
use aarch.Pl011.Divisors.{calculate_divisors-nearest}
use aarch.Pl011.Sending.{send-with_returns}
use aarch.Pl011.Line.{Wire, line, on_line, serial, line_port}

abbrev at_rate : ℕ → Pl011
at_rate baudrate = record {
  base_address = 0;
  base_clock = 4000000;
  baudrate = baudrate;
  data_bits = 0;
  stop_bits = 0;
}

divisors :
    map
      (λ rate. calculate_divisors (at_rate rate))
      (230400 ∷ 76800 ∷ 38400 ∷ 14400 ∷ 2400 ∷ 110 ∷ [])
    ≡ ok (0x1, 0x5)
      ∷ ok (0x3, 0x10)
      ∷ ok (0x6, 0x21)
      ∷ ok (0x11, 0x17)
      ∷ ok (0x68, 0xb)
      ∷ ok (0x8e0, 0x2f)
      ∷ []
unfolding calculate_divisors
divisors = refl

calculate_divisors-nearest_example :
    (ibrd fbrd : ℕ) × (calculate_divisors (at_rate 115200) ≡ ok (ibrd, fbrd))
    × (fbrd < 64)
    × ((64 * ibrd + fbrd) * 230400 ≤ 32115200)
    × (32000000 < (64 * ibrd + fbrd) * 230400 + 115200)
calculate_divisors-nearest_example =
    calculate_divisors-nearest (at_rate 115200) (omega arith) (omega arith) (omega arith)
      (omega arith)

send-with_returns_example :
    (s' : Wire) × (send line serial 2 (b'h' ∷ (b'\n' ∷ [])) (on_line 0x101) ≡ ok s')
    × (s'.sent ≡ b'h' ∷ (b'\r' ∷ (b'\n' ∷ [])))
    × (s'.control ≡ 0x101)
    × (s'.busy ≡ false)
unfolding line_port
send-with_returns_example =
    send-with_returns line serial 2 line_port (b'h' ∷ (b'\n' ∷ [])) (on_line 0x101)
      (omega arith, (omega arith, tt)) refl
