-- ===== src/Io/Platform/Running.antt =====
-- The handler on a platform, from its start on.
use chik.Io.Handler.{handle_message, setup}
use chik.Prelude.{Eq, Option, String, nat_eq, some, string_eq, ◌≡◌}
use chik.Io.Bus.{Bus}
use chik.Io.Devices.{Io}
use chik.Io.Handler.{handle_event}
use chik.Io.Platform.{AnyBus, Hardware, Platform, any_bus, bus_list, new_io}
use chik.Json.{Numbers, Value}
use chik.Messaging.{Message}
use chik.Prelude.Dict.{Dict, insert, lookup}
use chik.Types.Time.{TimeIndication}

module _ {N B : Type 0} ⦃ops : Numbers N⦄ ⦃keys : Eq N⦄ (format_time : TimeIndication → String)
    (bus : Bus N B) (loops : B → B → Type 0) where
  -- What happens after the set-up: a message, a change that a listener passed on, or a round of a loop of a bus,
  -- which runs beside the handler.
  pub data IoStep : Io N B → Io N B → Type 0 where
    message_step :
        (h : Io N B) (now : TimeIndication) (m : Message N)
        → IoStep h (handle_message format_time bus now h m).state
    change_step :
        (h : Io N B) (now : TimeIndication) (id : String)
        → IoStep h (handle_event format_time bus now h id).state
    poll_step :
        (h : Io N B) (name : String) (b b' : B)
        → lookup name h.actuators ≡ some b
        → loops b b'
        → IoStep h (record h { actuators = insert name b' h.actuators })

  pub data IoRun (h : Io N B) : Io N B → Type 0 where
    set_up : IoRun h h
    then_step : {h' h'' : Io N B} → IoRun h h' → IoStep h' h'' → IoRun h h''

module _ {N P : Type 0} ⦃ops : Numbers N⦄ ⦃keys : Eq N⦄ (format_time : TimeIndication → String)
    (hw : Hardware N P) where
  -- The handler of a platform after its set-up.
  abbrev pub started : Platform → TimeIndication → (String → Option (Value N)) → Io N (AnyBus N P)
  started p now config = (setup format_time (any_bus hw) now config (new_io (bus_list p))).state
