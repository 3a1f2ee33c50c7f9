-- ===== src/Setup/Logger.antt =====
-- kernel/log/src/lib.rs: the logger, with the sink of kernel/kernel/src/setup.rs.
use aarch.Base.{ℕ, List, Result}
use aarch.Pl011.{Device}
use aarch.Setup.Kernel.{SerialSink, log}

-- `Logger`, whose sink is that of the serial port.
pub record Logger : Type 0 where
  pub sink : SerialSink

abbrev pub new : SerialSink → Logger
new sink = record { sink = sink }

unfoldable pub logger_log : (dev : Device) → ℕ → Logger → List ℕ → dev.State → Result dev.State
unfolding log
logger_log dev fuel logger msg s = log dev fuel logger.sink msg s
