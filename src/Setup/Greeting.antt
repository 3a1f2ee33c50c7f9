-- ===== src/Setup/Greeting.antt =====
-- kernel/kernel/src/lib.rs: `start_kernel`, up to the loop that it ends in.
use aarch.Base.{ℕ, ◌<◌, arith, All, ◌≡◌, ap, ◌∙◌, List, [], ◌∷◌, ◌++◌, Result, ok, bind-ok, ◌>>=◌}
use aarch.Pl011.{Device, send}
use aarch.Pl011.Sending.{Port, with_returns, send-with_returns}
use aarch.Memory.Start.{Sizes}
use aarch.Bootstrap.{BootCode}
use aarch.Setup.Logger.{Logger, new, logger_log}
use aarch.Setup.Kernel.{Kernel, log, from_devicetree}

-- "Hello from Rust\n"
abbrev pub hello : List ℕ
hello =
    b'H' ∷ b'e' ∷ b'l' ∷ b'l' ∷ b'o' ∷ b' ' ∷ b'f' ∷ b'r' ∷ b'o' ∷ b'm' ∷ b' ' ∷ b'R' ∷ b'u' ∷ b's'
    ∷ b't' ∷ b'\n' ∷ []

-- The device and the kernel where the endless loop begins.
unfoldable pub start_kernel :
    Sizes → (dev : Device) → ℕ → BootCode → dev.State → Result (Kernel × dev.State)
unfolding from_devicetree logger_log
start_kernel sizes dev fuel boot s = do
  (kernel, s) ← from_devicetree sizes dev fuel boot s
  s ← logger_log dev fuel (new kernel.logger) hello s
  ok (kernel, s)

-- For a logger whose port is busy for less than fuel reads one after the other, is empty once
-- its flags have not said busy, sends a byte that is written to its data register while it is
-- enabled and empty, sends nothing for a read of its flags, and stays enabled through both, log
-- of a message of bytes to the enabled port ends, has sent the message with a carriage return
-- before each line feed, and then a carriage return and a line feed, and leaves the port
-- enabled and empty.
pub logger_log-with_returns :
    (dev : Device) (fuel : ℕ) (logger : Logger) (port : Port dev logger.sink.serial fuel)
    (msg : List ℕ) (s : dev.State)
    → All (λ b. b < 256) msg
    → port.Enabled s
    → (s' : dev.State) × (logger_log dev fuel logger msg s ≡ ok s')
      × (port.sent s' ≡ port.sent s ++ with_returns msg ++ b'\r' ∷ b'\n' ∷ [])
      × port.Enabled s'
      × port.Empty s'
unfolding logger_log log
logger_log-with_returns dev fuel logger port msg s small on =
    let (s1, first, sent1, on1, _) =
      send-with_returns dev logger.sink.serial fuel port msg s small on in
    let (s2, second, sent2, on2, empty) =
      send-with_returns dev logger.sink.serial fuel port (b'\n' ∷ []) s1 (omega arith, tt) on1 in
    (
      s2,
      bind-ok (send dev logger.sink.serial fuel msg s)
          (λ s. send dev logger.sink.serial fuel (b'\n' ∷ []) s) first second,
      sent2 ∙ ap (λ t. t ++ b'\r' ∷ b'\n' ∷ []) sent1,
      on2,
      empty,
    )
