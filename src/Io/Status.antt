-- ===== src/Io/Status.antt =====
-- handlers/io/io.go, `setStatus`: the status of the devices.
use chik.Io.Equality.{status_eq}
use chik.Prelude.{Bool, Eq, List, Option, String, [], false, nat_eq, none, some, string_eq, ◌∷◌}
use chik.Controller.{Publication, Step, crashed, done}
use chik.Io.Bus.{Bus, DeviceDescription, DeviceState, analog, digital}
use chik.Io.Devices.{Io, description_on, get_device, no_device, not_found, on_bus}
use chik.Io.Equality.{CurrentStatus, IoStatus}
use chik.Json.{Fields, Numbers, Value, bool, end, field, num, obj, str}
use chik.Prelude.Dict.{insert}
use chik.StatusHolder.{edit}
use chik.Types.Time.{TimeIndication}

module _ {N : Type 0} ⦃ops : Numbers N⦄ (format_time : TimeIndication → String) where
  state_value : DeviceState N → Value N
  state_value (digital b) = bool b
  state_value (analog x) = num x

  -- json.Marshal of the status; `format_time` writes a time as the time package does.
  current_value : CurrentStatus N → Value N
  unfolding state_value
  current_value c = obj (
      field "id" (str c.description.id) (
        field "kind" (num (ops.of_nat c.description.kind)) (
          field "state" (state_value c.description.state)
            (field "last_state_change" (str (format_time c.last_state_change)) end))))

  status_fields : IoStatus N → Fields N
  unfolding current_value
  status_fields [] = end
  status_fields ((id, c) ∷ status) = field id (current_value c) (status_fields status)

  unfoldable pub status_value : IoStatus N → Value N
  unfolding status_fields
  status_value status = obj (status_fields status)

module _ {N : Type 0} (now : TimeIndication) where
  abbrev pub or_empty : Option (IoStatus N) → IoStatus N
  or_empty none = []
  or_empty (some status) = status

  -- The edit of `setStatus`, with the description of the device if it is found.
  abbrev pub with_device :
      String → Option (DeviceDescription N) → Option (IoStatus N) → IoStatus N × Bool
  with_device id none old = (or_empty old, false)
  with_device id (some d) old =
      (insert id (record { description = d; last_state_change = now }) (or_empty old), false)

module _ {N B : Type 0} ⦃ops : Numbers N⦄ ⦃keys : Eq N⦄ (format_time : TimeIndication → String)
    (bus : Bus N B) (now : TimeIndication) where
  abbrev pub edit_status :
      String → Option (DeviceDescription N) → Io N B → Io N B × List (Publication N)
  edit_status id d h =
      let (status, sent) = edit (status_value format_time) (with_device now id d) h.status in
      (record h { status = status }, sent)

  -- `setStatus`; `none` is a panic.
  unfoldable pub update_status : String → Io N B → Option (Io N B × List (Publication N))
  unfolding get_device status_value
  update_status id h =
      let (found, h') = get_device bus id h in
      elim found [
        | no_device ↦ none
        | not_found ↦ some (edit_status id none h')
        | on_bus name ↦ elim (description_on bus id name h'.actuators) [
          | none ↦ none
          | some d ↦ some (edit_status id (some d) h')
        ]
      ]

  -- `setStatus` as the end of a step.
  unfoldable pub finish : String → Io N B → Step N (Io N B)
  unfolding update_status
  finish id h = elim (update_status id h) [
    | none ↦ record { state = h; sent = []; exit = crashed }
    | some (h', sent) ↦ record { state = h'; sent = sent; exit = done }
  ]
