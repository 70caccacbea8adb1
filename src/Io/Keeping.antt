-- ===== src/Io/Keeping.antt =====
-- Every message keeps what the handler remembers in order.
use chik.Io.Handler.{handle_message}
use chik.Prelude.{
  Bool, Bool-cases, Eq, Option, Option-cases, String, false, inl, inr, nat_eq, none, refl, some,
  string_eq, true, ◌==◌, ◌≡◌,
}
use chik.Controller.{Step}
use chik.Io.Bus.{Bus, KeepsDevices, analog_output_device}
use chik.Io.Devices.{Found, Io, get_device, no_device, not_found, on_bus}
use chik.Io.Handler.{
  analog_on, digital_on, execute_analog, execute_digital, is_digital, on_found,
  parse_analog_command, parse_digital_command,
}
use chik.Io.Remembering.{
  IsSound, finish-IsSound, get_device-IsSound, keeps-execute_analog, keeps-execute_digital,
  with_bus-IsSound,
}
use chik.Json.{Numbers, Value}
use chik.Messaging.{Message}
use chik.Prelude.Dict.{lookup}
use chik.Types.Command.{AnalogCommand, DigitalCommand, analog_command_type, digital_command_type}
use chik.Types.Command.Decoding.{decode_analog, decode_digital}
use chik.Types.Time.{TimeIndication}

module _ {N B : Type 0} ⦃ops : Numbers N⦄ ⦃keys : Eq N⦄ (format_time : TimeIndication → String)
    (bus : Bus N B) (laws : KeepsDevices bus) (now : TimeIndication) where
  digital_on-IsSound :
      (c : DigitalCommand) (name : String) (b : B) (h : Io N B)
      → lookup name h.actuators ≡ some b
      → IsSound bus h
      → IsSound bus (digital_on format_time bus now c name b h).state
  unfolding digital_on
  digital_on-IsSound c name b h found s =
      elim (Bool-cases (is_digital bus (bus.kind c.appliance_id b))) [
        | inr other ↦ rw (digital_on, other) s
        | inl fits ↦ elim (Option-cases (execute_digital bus c.action c.appliance_id b)) [
          | inl halted ↦ rw (digital_on, fits, halted) s
          | inr (b', ran) ↦
              rw (digital_on, fits, ran)
                (finish-IsSound bus laws format_time now c.appliance_id _ (
                  with_bus-IsSound bus name b b' h s found
                    (keeps-execute_digital bus laws c.action c.appliance_id b b' ran)))
        ]
      ]

  analog_on-IsSound :
      (c : AnalogCommand N) (name : String) (b : B) (h : Io N B)
      → lookup name h.actuators ≡ some b
      → IsSound bus h
      → IsSound bus (analog_on format_time bus now c name b h).state
  unfolding analog_on
  analog_on-IsSound c name b h found s =
      go (bus.kind c.appliance_id b == analog_output_device) (execute_analog bus c b) refl refl
    where
      go :
          (fits : Bool) (o : Option (Option B))
          → (bus.kind c.appliance_id b == analog_output_device) ≡ fits
          → execute_analog bus c b ≡ o
          → IsSound bus (analog_on format_time bus now c name b h).state
      go false o f e = rw (analog_on, f) s
      go true none f e = rw (analog_on, f, e) s
      go true (some none) f e = rw (analog_on, f, e) s
      go true (some (some b')) f e =
          rw (analog_on, f, e)
            (finish-IsSound bus laws format_time now c.appliance_id _
              (with_bus-IsSound bus name b b' h s found (keeps-execute_analog bus laws c b b' e)))

  on_found-IsSound :
      (id : String) (run : String → B → Io N B → Step N (Io N B)) (h : Io N B)
      → ((name : String) (b : B) (h' : Io N B)
          → lookup name h'.actuators ≡ some b
          → IsSound bus h'
          → IsSound bus (run name b h').state)
      → IsSound bus h
      → IsSound bus (on_found format_time bus now id run h).state
  unfolding on_found
  on_found-IsSound id run h keeps s = go (get_device bus id h).0 refl
    where
      got : IsSound bus (get_device bus id h).1
      got = get_device-IsSound bus id h s

      go :
          (f : Found)
          → (get_device bus id h).0 ≡ f
          → IsSound bus (on_found format_time bus now id run h).state
      go no_device e = rw (on_found, e) got
      go not_found e = rw (on_found, e) got
      go (on_bus name) e = elim (Option-cases (lookup name (get_device bus id h).1.actuators)) [
        | inl missing ↦ rw (on_found, e, missing) got
        | inr (b, there) ↦ rw (on_found, e, there) (keeps name b (get_device bus id h).1 there got)
      ]

  parse_digital_command-IsSound :
      (content : Option (Value N)) (h : Io N B)
      → IsSound bus h
      → IsSound bus (parse_digital_command format_time bus now content h).state
  unfolding parse_digital_command
  parse_digital_command-IsSound content h s = elim (Option-cases (decode_digital content)) [
    | inl wrong ↦ rw (parse_digital_command, wrong) s
    | inr (c, read) ↦
        rw (parse_digital_command, read)
          (on_found-IsSound c.appliance_id (digital_on format_time bus now c) h
            (digital_on-IsSound c) s)
  ]

  parse_analog_command-IsSound :
      (content : Option (Value N)) (h : Io N B)
      → IsSound bus h
      → IsSound bus (parse_analog_command format_time bus now content h).state
  unfolding parse_analog_command
  parse_analog_command-IsSound content h s = elim (Option-cases (decode_analog content)) [
    | inl wrong ↦ rw (parse_analog_command, wrong) s
    | inr (c, read) ↦
        rw (parse_analog_command, read)
          (on_found-IsSound c.appliance_id (analog_on format_time bus now c) h (analog_on-IsSound c)
            s)
  ]

  -- Whatever message comes, every bus that the handler remembers for a device still has that device, if
  -- this was so before and the buses keep their contract.
  pub handle_message-IsSound :
      (h : Io N B) (m : Message N)
      → IsSound bus h
      → IsSound bus (handle_message format_time bus now h m).state
  unfolding handle_message
  handle_message-IsSound h m s = elim (Option-cases m.command) [
    | inl without ↦ simp (handle_message, without) s
    | inr (c, carried) ↦ elim (Bool-cases (c.kind == digital_command_type)) [
      | inl dig ↦ simp (handle_message, carried, dig) (parse_digital_command-IsSound c.content h s)
      | inr other ↦ elim (Bool-cases (c.kind == analog_command_type)) [
        | inl ana ↦
            simp (handle_message, carried, other, ana) (parse_analog_command-IsSound c.content h s)
        | inr none_of ↦ simp (handle_message, carried, other, none_of) s
      ]
    ]
  ]
