-- ===== src/Types/Command/Decoding.antt =====
-- How the command structs of types/commands.go are written as JSON and read back.
use chik.Json.Struct.{◌>>=◌}
use chik.Prelude.{Option, String, arith, if◌then◌else◌, nat_eq, some, string_eq, ◌<◌, ◌==◌, ◌≡◌}
use chik.Json.{Numbers, Value, end, field, num, obj, str}
use chik.Json.Struct.{decode_number, decode_string, decode_uint, names_field, unmarshal_struct}
use chik.Types.Command.{AnalogCommand, DigitalCommand, SimpleCommand, absolute, set}

module _ {N : Type 0} ⦃ops : Numbers N⦄ where
  set_simple : String → Value N → SimpleCommand → Option SimpleCommand
  set_simple k v c =
      if names_field k "action"
      then (do a ← decode_uint 65536 c.action v; some (record c { action = a }))
      else some c

  unfoldable pub decode_simple : Option (Value N) → Option SimpleCommand
  unfolding set_simple unmarshal_struct
  decode_simple = unmarshal_struct set_simple (record { action = set })

  set_digital : String → Value N → DigitalCommand → Option DigitalCommand
  set_digital k v c =
      if names_field k "action"
      then (do a ← decode_uint 65536 c.action v; some (record c { action = a }))
      else if names_field k "applianceID"
      then (do id ← decode_string c.appliance_id v; some (record c { appliance_id = id }))
      else some c

  unfoldable pub decode_digital : Option (Value N) → Option DigitalCommand
  unfolding set_digital unmarshal_struct
  decode_digital = unmarshal_struct set_digital (record { action = set; appliance_id = "" })

  set_analog : String → Value N → AnalogCommand N → Option (AnalogCommand N)
  set_analog k v c =
      if names_field k "applianceID"
      then (do id ← decode_string c.appliance_id v; some (record c { appliance_id = id }))
      else if names_field k "value"
      then (do x ← decode_number c.value v; some (record c { value = x }))
      else if names_field k "value_type"
      then (do t ← decode_uint 256 c.value_type v; some (record c { value_type = t }))
      else some c

  unfoldable pub decode_analog : Option (Value N) → Option (AnalogCommand N)
  unfolding set_analog unmarshal_struct
  decode_analog =
      unmarshal_struct set_analog
        (record { appliance_id = ""; value = ops.of_nat 0; value_type = absolute })

  -- json.Marshal of the structs.
  unfoldable pub digital_value : DigitalCommand → Value N
  digital_value c =
      obj
        (field "action" (num (ops.of_nat c.action)) (field "applianceID" (str c.appliance_id) end))

  -- `omitempty` leaves out the value type 0.
  unfoldable pub analog_value : AnalogCommand N → Value N
  analog_value c =
      let rest = field "value" (num c.value) (
        if c.value_type == 0
        then end
        else field "value_type" (num (ops.of_nat c.value_type)) end) in
      obj (field "applianceID" (str c.appliance_id) rest)

  -- An analog command whose value type fits a uint8 is read back as it was written.
  pub decode_analog-analog_value :
      (c : AnalogCommand N) → c.value_type < 256 → decode_analog (some (analog_value c)) ≡ some c
  unfolding decode_analog analog_value names_field
  decode_analog-analog_value c h = ground (arith, ops.to_nat-of_nat c.value_type)

-- A digital command whose action fits a uint16 is read back as it was written.
pub decode_digital-digital_value :
    (N : Type 0) ⦃ops : Numbers N⦄ (c : DigitalCommand)
    → c.action < 65536
    → decode_digital (some (digital_value {N = N} c)) ≡ some c
unfolding decode_digital digital_value names_field
decode_digital-digital_value N ⦃ops⦄ c h = ground (arith, ops.to_nat-of_nat c.action)
