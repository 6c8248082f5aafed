-- ===== src/Simulator/Using/Exclusive.antt =====
-- Which calls of the companion are exclusive.
use simgadget.Prelude.Text.{Text}
use simgadget.Prelude.Run.{Run}
use simgadget.Simulator.Inputs.Ordered.{Ordered}
