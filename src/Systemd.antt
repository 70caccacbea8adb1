-- ===== src/Systemd.antt =====
-- handlers/systemd/systemd.go: the state of a systemd unit, asked for and changed over D-Bus. The client of
-- systemd's interfaces, which is generated, is an argument: whether a unit is found, its state (`none` is
-- an error); the calls to start and to stop are listed, as their errors are not looked at.
pub mod Units
use Prim.Native.String.{◌++◌ as append}
use chik.Types.Command.{Action}
use chik.Json.Struct.{◌>>=◌}
use chik.Prelude.{
  List, Option, String, [], if◌then◌else◌, nat_eq, none, some, string_eq, ◌==◌, ◌||◌, ◌∷◌,
}
use chik.Controller.{Step, crashed, done, reply}
use chik.Json.{Numbers, Value, end, field, obj, str}
use chik.Json.Struct.{decode_string, decode_uint, names_field, unmarshal_struct}
use chik.Messaging.{Message}
use chik.Types.Command.{reset, set, systemd_reply_command_type}

pub record SystemdRequestCommand : Type 0 where
  pub action : Action
  pub service_name : String

pub record SystemdReplyCommand : Type 0 where
  pub service_name : String
  pub status : String

pub record Manager (P : Type 0) : Type 0 where
  pub get_unit : String → Option P
  pub get_active_state : P → Option String

pub data UnitCall (P : Type 0) : Type 0 where
  start : P → UnitCall P
  stop : P → UnitCall P

-- What a request leads to: the calls, and the state that is replied.
pub record Served (P : Type 0) : Type 0 where
  pub calls : List (UnitCall P)
  pub status : String

module _ {P : Type 0} where
  -- The `switch` on the action.
  unfoldable pub switch_unit : Action → P → String → Served P
  switch_unit action unit active_state =
      if action == set
      then (if active_state == "active"
          then record { calls = []; status = active_state }
          else record { calls = start unit ∷ []; status = "active" })
      else if action == reset
      then (if active_state == "inactive" || active_state == "failed"
          then record { calls = []; status = active_state }
          else record { calls = stop unit ∷ []; status = "inactive" })
      else record { calls = []; status = active_state }

  -- A request for a service; `none` where its unit is not found.
  unfoldable pub serve_request : Manager P → SystemdRequestCommand → Option (Served P)
  unfolding switch_unit
  serve_request manager c = elim (manager.get_unit (append c.service_name ".service")) [
    | none ↦ none
    | some unit ↦ some (
        switch_unit c.action unit (elim (manager.get_active_state unit) [
          | none ↦ "unknown"
          | some active_state ↦ active_state
        ]))
  ]

module _ {N P : Type 0} ⦃ops : Numbers N⦄ (manager : Manager P) where
  set_request : String → Value N → SystemdRequestCommand → Option SystemdRequestCommand
  set_request k v c =
      if names_field k "action"
      then (do a ← decode_uint 65536 c.action v; some (record c { action = a }))
      else if names_field k "service_name"
      then (do name ← decode_string c.service_name v; some (record c { service_name = name }))
      else some c

  unfoldable pub decode_request : Option (Value N) → Option SystemdRequestCommand
  unfolding set_request unmarshal_struct
  decode_request = unmarshal_struct set_request (record { action = set; service_name = "" })

  unfoldable pub reply_value : SystemdReplyCommand → Value N
  reply_value r =
      obj (field "service_name" (str r.service_name) (field "status" (str r.status) end))

  -- `HandleMessage`: the calls, and the step. A request that is not understood, and one for a unit that is
  -- not found, is only logged.
  unfoldable pub handle_message : Message N → List (UnitCall P) × Step N (Unit {0})
  unfolding decode_request serve_request reply reply_value
  handle_message m = elim m.command [
    | none ↦ ([], record { state = tt; sent = []; exit = crashed })
    | some c ↦ elim (decode_request c.content) [
      | none ↦ ([], record { state = tt; sent = []; exit = done })
      | some wanted ↦ elim (serve_request manager wanted) [
        | none ↦ ([], record { state = tt; sent = []; exit = done })
        | some answer ↦ (
          answer.calls,
          record {
            state = tt;
            sent =
                reply m systemd_reply_command_type (
                  reply_value
                    (record { service_name = wanted.service_name; status = answer.status }))
                ∷ [];
            exit = done;
          },
        )
      ]
    ]
  ]
