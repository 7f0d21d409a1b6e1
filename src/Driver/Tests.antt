-- ===== src/Driver/Tests.antt =====
-- A device with a call is disconnected.
use datacard.Base.{refl, sym, some, none≢some, arith}
use datacard.Calls.{call_init, outgoing}
use datacard.Calls.Change.{new_channel}
use datacard.Calls.ChangeState.{new_channel-IsValid}
use datacard.Calls.Reach.{new_channel-AreLive}
use datacard.Calls.Tests.{idle, idle-IsValid}
use datacard.Calls.Valid.{IsValid}
use datacard.Calls.Live.{AreLive}
use datacard.Commands.{World}
use datacard.Commands.Tests.{env, quiet}
use datacard.Driver.{disconnect_datacard}
use datacard.Driver.Disconnect.{Disconnected, disconnect_datacard-Disconnected}

abbrev calling : World
calling = record quiet { pvt = (new_channel idle (some 7) (some 3) 1 outgoing call_init).1 }

calling-IsValid : IsValid calling.pvt
calling-IsValid =
    new_channel-IsValid idle 7 (some 3) 1 outgoing call_init (λ e. absurd (omega (arith, e)))
      (λ m. m.1) (λ e. none≢some (sym e)) (omega arith) idle-IsValid

calling-AreLive : AreLive calling.pvt
calling-AreLive = new_channel-AreLive idle 7 (some 3) 1 outgoing call_init refl tt

disconnect_datacard-Disconnected_example : Disconnected (disconnect_datacard env calling).pvt
disconnect_datacard-Disconnected_example =
    disconnect_datacard-Disconnected env calling calling-AreLive calling-IsValid
