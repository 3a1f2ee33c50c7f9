-- ===== src/Pl011.antt =====
-- kernel/pl011/src/lib.rs: the driver of the PL011 serial port.
pub mod Divisors
pub mod Sending
pub mod Fresh
pub mod Line
mod Tests
use aarch.Base.{
  ℕ, zero, suc, ◌+◌, ◌-◌, ◌*◌, ◌/◌, ◌%◌, ◌^◌, List, [], ◌∷◌, bit_and, bit_or, ◌==◌, if◌then◌else◌,
  u32, u64, u32_max, Result, ok, panic, stuck, ◌>>=◌,
}

-- The device: what a volatile read of an address gives, and what a read and a write do to it.
pub record Device : Type 1 where
  pub State : Type 0
  pub read : ℕ → State → ℕ × State
  pub write : ℕ → ℕ → State → State

pub record Pl011 : Type 0 where
  pub base_address : ℕ
  pub base_clock : ℕ
  pub baudrate : ℕ
  pub data_bits : ℕ
  pub stop_bits : ℕ

pub data Register : Type 0 where
  uartdr uartfr uartibrd uartfbrd uartlcr uartcr uartimsc uarticr uartdmacr : Register

abbrev pub register_offset : Register → ℕ
register_offset uartdr = 0x000
register_offset uartfr = 0x018
register_offset uartibrd = 0x024
register_offset uartfbrd = 0x028
register_offset uartlcr = 0x02c
register_offset uartcr = 0x030
register_offset uartimsc = 0x038
register_offset uarticr = 0x044
register_offset uartdmacr = 0x048

abbrev pub uartfr_busy : ℕ
uartfr_busy = 2 ^ 3

abbrev pub uartlcr_stp2 : ℕ
uartlcr_stp2 = 2 ^ 3

abbrev pub uartlcr_fen : ℕ
uartlcr_fen = 2 ^ 4

abbrev pub uartcr_en : ℕ
uartcr_en = 2 ^ 0

abbrev pub uartcr_txen : ℕ
uartcr_txen = 2 ^ 8

-- The arithmetic is on 32 bits, and a division by zero panics.
unfoldable pub calculate_divisors : Pl011 → Result (ℕ × ℕ)
calculate_divisors p =
    let twice = u32 (2 * p.baudrate) in
    let div = u32 (8 * p.base_clock + p.baudrate) / twice in
    if twice == 0 then panic else ok (bit_and (div / 2 ^ 6) 0xffff, bit_and div 0x3f)

module _ (dev : Device) (p : Pl011) where
  unfoldable pub load : Register → dev.State → ℕ × dev.State
  load r s = dev.read (u64 (p.base_address + register_offset r)) s

  unfoldable pub store : Register → ℕ → dev.State → dev.State
  store r value s = dev.write (u64 (p.base_address + register_offset r)) value s

  -- The program waits for as long as it takes; the model stops after `fuel` reads.
  unfoldable pub wait_tx_complete : ℕ → dev.State → Result dev.State
  unfolding load
  wait_tx_complete zero s = stuck
  wait_tx_complete (suc fuel) s =
      let (flags, s') = load uartfr s in
      let rest = wait_tx_complete fuel s' in if bit_and flags uartfr_busy == 0 then ok s' else rest

  -- `store` of one byte, and the wait after it.
  unfoldable pub put : ℕ → ℕ → dev.State → Result dev.State
  unfolding store wait_tx_complete
  put fuel b s = wait_tx_complete fuel (store uartdr b s)

  unfoldable pub send_bytes : ℕ → List ℕ → dev.State → Result dev.State
  unfolding put
  send_bytes fuel [] s = ok s
  send_bytes fuel (b ∷ bs) s = do
    s ← if b == b'\n' then put fuel b'\r' s else ok s
    s ← put fuel b s
    send_bytes fuel bs s

  unfoldable pub send : ℕ → List ℕ → dev.State → Result dev.State
  unfolding send_bytes wait_tx_complete
  send fuel text s = do s ← wait_tx_complete fuel s; send_bytes fuel text s

  unfoldable pub line_control : ℕ
  line_control =
      let lcr = bit_and (u32 (p.data_bits + u32_max)) 0x3 * 2 ^ 5 in
      if p.stop_bits == 2 then bit_or lcr uartlcr_stp2 else lcr

  unfoldable pub reset : ℕ → dev.State → Result dev.State
  unfolding load store wait_tx_complete calculate_divisors line_control
  reset fuel s = do
    let (cr, s) = load uartcr s
    let (lcr, s) = load uartlcr s
    s ← wait_tx_complete fuel (store uartcr (bit_and cr (u32_max - uartcr_en)) s)
    let s = store uartlcr (bit_and lcr (u32_max - uartlcr_fen)) s
    let s = store uartimsc 0x7ff s
    let s = store uarticr 0x7ff s
    let s = store uartdmacr 0x0 s
    (ibrd, fbrd) ← calculate_divisors p
    let s = store uartibrd ibrd s
    let s = store uartfbrd fbrd s
    let s = store uartlcr line_control s
    let s = store uartcr uartcr_txen s
    ok (store uartcr (bit_or uartcr_txen uartcr_en) s)

-- `PL011::new`, and the device after it.
unfoldable pub new : (dev : Device) → ℕ → ℕ → ℕ → dev.State → Result (Pl011 × dev.State)
unfolding wait_tx_complete reset
new dev fuel base_address base_clock s =
    let p : Pl011 = record {
      base_address = base_address;
      base_clock = base_clock;
      baudrate = 115200;
      data_bits = 8;
      stop_bits = 1;
    } in
    do s ← wait_tx_complete dev p fuel s; s ← reset dev p fuel s; ok (p, s)
