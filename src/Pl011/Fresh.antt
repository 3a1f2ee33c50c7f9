-- ===== src/Pl011/Fresh.antt =====
-- `PL011::new` of kernel/pl011/src/lib.rs comes to an end.
use aarch.Base.{ℕ, ◌≡◌, refl, Result, ok, bind-ok, ◌>>=◌}
use aarch.Pl011.{Device, Pl011, uartfr, load, wait_tx_complete, calculate_divisors, reset, new}
use aarch.Pl011.Sending.{Waits, wait-Kept}

-- The port as it is made.
abbrev pub made : ℕ → ℕ → Pl011
made base_address base_clock = record {
  base_address = base_address;
  base_clock = base_clock;
  baudrate = 115200;
  data_bits = 8;
  stop_bits = 1;
}

module _ (dev : Device) (fuel base_address base_clock : ℕ)
    (waits : Waits dev (made base_address base_clock) fuel) where
  abbrev p : Pl011
  p = made base_address base_clock

  then_ok :
      (m : Result dev.State) (g : dev.State → dev.State)
      → (s1 : dev.State) × (m ≡ ok s1)
      → (s2 : dev.State) × ((m >>= λ s. ok (g s)) ≡ ok s2)
  then_ok m g (s1, runs) = (g s1, bind-ok m (λ s. ok (g s)) runs refl)

  idle : (s : dev.State) → (s1 : dev.State) × (wait_tx_complete dev p fuel s ≡ ok s1)
  idle s =
      let (t, runs, _, _) =
        wait-Kept dev p fuel waits (λ _. Unit {0}) (λ _ _. tt) fuel s (waits.bounded s) tt in
      ((load dev p uartfr t).1, runs)

  reset-ok : (s : dev.State) → (s' : dev.State) × (reset dev p fuel s ≡ ok s')
  unfolding reset calculate_divisors
  reset-ok s = then_ok _ _ (idle _)

  -- For a port that is busy for less than fuel reads, PL011::new returns the port, with 8 data bits,
  -- one stop bit and 115200 baud.
  pub new-ok :
      (s : dev.State) → (s' : dev.State) × (new dev fuel base_address base_clock s ≡ ok (p, s'))
  unfolding new
  new-ok s =
      let (s1, idles) = idle s in
      let (s2, resets) = reset-ok s1 in
      (
        s2,
        bind-ok (wait_tx_complete dev p fuel s) _ idles
            (bind-ok (reset dev p fuel s1) _ resets refl),
      )
