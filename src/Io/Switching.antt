-- ===== src/Io/Switching.antt =====
-- What a digital command does.
use chik.Io.Handler.{handle_message}
use chik.Prelude.{
  Eq, String, [], ap, if◌then◌else◌, nat_eq, refl, some, string_eq, true, ◌∙◌, ◌∷◌, ◌≡◌,
}
use chik.Controller.{done}
use chik.Io.Bus.{Bus, DeviceDescription, KeepsDevices}
use chik.Io.Devices.{Io, get_device, on_bus}
use chik.Io.Dispatching.{dispatched, finish_lem, get_device_lem, status-edit}
use chik.Io.Equality.{IoStatus, status_eq}
use chik.Io.Handler.{digital_on, execute_digital, is_digital, on_found, with_bus}
use chik.Io.Remembering.{IsSound, get_device-IsSound, keeps-execute_digital, with_bus-IsSound}
use chik.Io.Status.{edit_status, or_empty, status_value, with_device}
use chik.Json.{Numbers}
use chik.Messaging.{Message}
use chik.Prelude.Dict.{insert, lookup, lookup-insert_self}
use chik.StatusHolder.{emit_status_changed, is_status}
use chik.Types.Command.{Command, DigitalCommand, digital_command_type}
use chik.Types.Command.Decoding.{decode_digital}
use chik.Types.Time.{TimeIndication}

module _ {N B : Type 0} ⦃ops : Numbers N⦄ ⦃keys : Eq N⦄ (format_time : TimeIndication → String)
    (bus : Bus N B) (laws : KeepsDevices bus) (now : TimeIndication) where
  switched_lem :
      (dc : DigitalCommand) (name : String) (b b' : B) (h : Io N B) {d : DeviceDescription N}
      → IsSound bus h
      → (get_device bus dc.appliance_id h).0 ≡ on_bus name
      → lookup name h.actuators ≡ some b
      → is_digital bus (bus.kind dc.appliance_id b) ≡ true
      → execute_digital bus dc.action dc.appliance_id b ≡ some b'
      → bus.description dc.appliance_id b' ≡ some d
      → (let h₂ : Io N B =
            with_bus format_time bus now name b' (get_device bus dc.appliance_id h).1 in
          on_found format_time bus now dc.appliance_id (digital_on format_time bus now dc) h
          ≡ record {
            state = (edit_status format_time bus now dc.appliance_id (some d) h₂).0;
            sent = (edit_status format_time bus now dc.appliance_id (some d) h₂).1;
            exit = done;
          })
  unfolding on_found digital_on
  switched_lem dc name b b' h {d} s found there fits ran shown =
      let id = dc.appliance_id in
      let h₁ : Io N B = (get_device bus id h).1 in
      let (known, acts, stat) = get_device_lem bus id name h found in
      let there₁ : lookup name h₁.actuators ≡ some b = ap (lookup name) acts ∙ there in
      let sound₂ =
        with_bus-IsSound bus name b b' h₁ (get_device-IsSound bus id h s) there₁
          (keeps-execute_digital bus laws dc.action id b b' ran) in
      let last =
        finish_lem format_time bus now id name b' (with_bus format_time bus now name b' h₁) known
          (sound₂.remembered id name known) (lookup-insert_self name b' h₁.actuators) shown in
      rw (on_found, found, there₁, digital_on, fits, ran) last

  -- A digital command for a digital device of a bus runs on that device: the bus is then as its method
  -- left it, the status has the device's new description with the present time and is otherwise as
  -- before, and the handler publishes that status, or nothing exactly if it is the status that it had.
  pub handle_message-switches :
      (h : Io N B) (m : Message N) (dc : DigitalCommand) (name : String) (b b' : B) {c : Command N}
      {d : DeviceDescription N}
      → IsSound bus h
      → m.command ≡ some c
      → c.kind ≡ digital_command_type
      → decode_digital c.content ≡ some dc
      → (get_device bus dc.appliance_id h).0 ≡ on_bus name
      → lookup name h.actuators ≡ some b
      → is_digital bus (bus.kind dc.appliance_id b) ≡ true
      → execute_digital bus dc.action dc.appliance_id b ≡ some b'
      → bus.description dc.appliance_id b' ≡ some d
      → (let st = handle_message format_time bus now h m in
          let status : IoStatus N =
            insert dc.appliance_id
              (record { description = d; last_state_change = now })
              (or_empty now h.status.status) in
          (st.exit ≡ done)
          × (lookup name st.state.actuators ≡ some b')
          × (st.state.status.status ≡ some status)
          × (st.sent ≡ (
              if is_status ⦃keys = status_eq⦄ status h.status
              then []
              else emit_status_changed (status_value format_time) h.status.module_name status
                ∷ [])))
  handle_message-switches h m dc name b b' {c} {d} s carried kind read found there fits ran shown =
      let id = dc.appliance_id in
      let (known, acts, stat) = get_device_lem bus id name h found in
      let all =
        dispatched format_time bus now h m dc carried kind read
        ∙ switched_lem dc name b b' h s found there fits ran shown in
      let edited =
        status-edit ⦃keys = status_eq⦄ (status_value format_time) (with_device now id (some d))
          (get_device bus id h).1.status in
      rw all (
        refl,
        lookup-insert_self name b' (get_device bus id h).1.actuators,
        simp (← stat) edited.0,
        simp (← stat) edited.1,
      )
