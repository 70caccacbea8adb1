-- ===== src/Io/Dispatching.antt =====
-- From a message to its device, and the devices that are missing.
use chik.Io.Handler.{handle_message}
use chik.Prelude.{
  Bool, Bool-cases, Eq, Option, Option-cases, String, [], ap, arith, if◌then◌else◌, inl, inr,
  nat_eq, none, not, refl, some, string_eq, true, ◌&&◌, ◌∙◌, ◌∷◌, ◌≡◌,
}
use chik.Controller.{Step, crashed, done}
use chik.Io.Bus.{Bus, DeviceDescription}
use chik.Io.Devices.{
  Io, description_on, get_device, has_device, no_device, not_found, on_bus, search,
}
use chik.Io.Handler.{digital_on, on_found, parse_digital_command}
use chik.Io.Status.{edit_status, finish}
use chik.Json.{Numbers, Value}
use chik.Messaging.{Message}
use chik.Prelude.Dict.{Dict, lookup, lookup-insert_self}
use chik.StatusHolder.{StatusHolder, edit, edit_cases, emit_status_changed, is_status}
use chik.Types.Command.{Command, DigitalCommand, digital_command_type}
use chik.Types.Command.Decoding.{decode_digital}
use chik.Types.Time.{TimeIndication}

module _ {N B : Type 0} (bus : Bus N B) where
  -- A device that is found is remembered, and nothing else changes.
  pub get_device_lem :
      (id name : String) (h : Io N B)
      → (get_device bus id h).0 ≡ on_bus name
      → (lookup id (get_device bus id h).1.bus_by_device ≡ some name)
        × ((get_device bus id h).1.actuators ≡ h.actuators)
        × ((get_device bus id h).1.status ≡ h.status)
  unfolding get_device
  get_device_lem id name h found = elim (Option-cases (lookup id h.bus_by_device)) [
    | inr (n, known) ↦ ground (arith, known)
    | inl unknown ↦ elim (Option-cases (search bus id h.actuators)) [
      | inl missing ↦ ground (arith, unknown, missing)
      | inr (n, there) ↦ ground (arith, unknown, there, lookup-insert_self id n h.bus_by_device)
    ]
  ]

  get_device_again :
      (id name : String) (h : Io N B)
      → lookup id h.bus_by_device ≡ some name
      → has_device bus id name h.actuators ≡ true
      → get_device bus id h ≡ (on_bus name, h)
  unfolding get_device
  get_device_again id name h known has = rw (get_device, known, has)

module _ {N B : Type 0} (bus : Bus N B) where
  get_device_missing :
      (id : String) (h : Io N B)
      → lookup id h.bus_by_device ≡ none
      → search bus id h.actuators ≡ none
      → get_device bus id h ≡ (elim h.actuators [ [] ↦ no_device | e ∷ rest ↦ not_found ], h)
  unfolding get_device
  get_device_missing id h unknown missing = rw (get_device, unknown, missing)

module _ {N A : Type 0} ⦃keys : Eq A⦄ where
  -- Whether it publishes or not, the holder has the status that the edit function returned, and it publishes it
  -- unless it had it and the edit does not force it.
  pub status-edit :
      (to_value : A → Value N) (change : Option A → A × Bool) (s : StatusHolder A)
      → ((edit to_value change s).0.status ≡ some (change s.status).0)
        × ((edit to_value change s).1 ≡ (
            if not (change s.status).1 && is_status (change s.status).0 s
            then []
            else emit_status_changed to_value s.module_name (change s.status).0 ∷ []))
  unfolding edit
  status-edit to_value change s =
      elim (Bool-cases (not (change s.status).1 && is_status (change s.status).0 s)) [
        | inr other ↦ (rw other refl, rw other refl)
        | inl same ↦ (
          elim (edit_cases to_value change s) [
            | inl (kept, free, known) ↦ rw kept known
            | inr (stored, sent) ↦ stored
          ],
          rw same refl,
        )
      ]

module _ {N B : Type 0} ⦃ops : Numbers N⦄ ⦃keys : Eq N⦄ (format_time : TimeIndication → String)
    (bus : Bus N B) (now : TimeIndication) where
  -- A command that the device takes, from the found device on.
  pub finish_lem :
      (id name : String) (b : B) (h : Io N B) {d : DeviceDescription N}
      → lookup id h.bus_by_device ≡ some name
      → has_device bus id name h.actuators ≡ true
      → lookup name h.actuators ≡ some b
      → bus.description id b ≡ some d
      → finish format_time bus now id h ≡ record {
        state = (edit_status format_time bus now id (some d) h).0;
        sent = (edit_status format_time bus now id (some d) h).1;
        exit = done;
      }
  unfolding finish
  finish_lem id name b h {d} known has there shown =
      let again = get_device_again bus id name h known has in
      let which : (get_device bus id h).0 ≡ on_bus name = ap (λ r. r.0) again in
      let same : (get_device bus id h).1 ≡ h = ap (λ r. r.1) again in
      let description : description_on bus id name h.actuators ≡ some d =
        ground (arith, there, shown) in
      rw (finish, which, same, description) (rw same)

  pub dispatched :
      (h : Io N B) (m : Message N) (dc : DigitalCommand) {c : Command N}
      → m.command ≡ some c
      → c.kind ≡ digital_command_type
      → decode_digital c.content ≡ some dc
      → handle_message format_time bus now h m
        ≡ on_found format_time bus now dc.appliance_id (digital_on format_time bus now dc) h
  unfolding handle_message parse_digital_command
  dispatched h m dc carried kind read = ground (arith, carried, kind, read)

  on_found_missing :
      (id : String) (run : String → B → Io N B → Step N (Io N B)) (h : Io N B)
      (actuators : Dict String B)
      → h.actuators ≡ actuators
      → lookup id h.bus_by_device ≡ none
      → search bus id h.actuators ≡ none
      → on_found format_time bus now id run h ≡ record {
        state = h;
        sent = [];
        exit = elim h.actuators [ [] ↦ crashed | e ∷ rest ↦ done ];
      }
  unfolding on_found
  on_found_missing id run h [] e unknown missing =
      let miss = get_device_missing bus id h unknown missing in
      let which : (get_device bus id h).0 ≡ no_device = ap (λ r. r.0) miss ∙ rw e in
      let same : (get_device bus id h).1 ≡ h = ap (λ r. r.1) miss in
      rw (on_found, which, same) (simp e)
  on_found_missing id run h (x ∷ rest) e unknown missing =
      let miss = get_device_missing bus id h unknown missing in
      let which : (get_device bus id h).0 ≡ not_found = ap (λ r. r.0) miss ∙ rw e in
      let same : (get_device bus id h).1 ≡ h = ap (λ r. r.1) miss in
      rw (on_found, which, same) (simp e)

  -- A digital command for a device that no bus has, and that is not remembered, changes and publishes
  -- nothing. If the handler has no buses at all it panics.
  pub handle_message-unknown :
      (h : Io N B) (m : Message N) (dc : DigitalCommand) {c : Command N}
      → m.command ≡ some c
      → c.kind ≡ digital_command_type
      → decode_digital c.content ≡ some dc
      → lookup dc.appliance_id h.bus_by_device ≡ none
      → search bus dc.appliance_id h.actuators ≡ none
      → handle_message format_time bus now h m ≡ record {
        state = h;
        sent = [];
        exit = elim h.actuators [ [] ↦ crashed | e ∷ rest ↦ done ];
      }
  handle_message-unknown h m dc carried kind got unknown missing =
      dispatched h m dc carried kind got
      ∙ on_found_missing dc.appliance_id (digital_on format_time bus now dc) h h.actuators refl
          unknown missing
