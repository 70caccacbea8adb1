-- ===== src/Io/Modbus/Grouping.antt =====
-- Which devices a poll asks.
-- The identifiers of the group of a register.
use mathlib.Core.List.{append-nil, append_assoc}
use chik.Prelude.{
  Bool, Bool-cases, List, String, [], arith, if◌then◌else◌, inl, inr, keep_if, map, nat_eq, refl,
  string_eq, sym, ℕ, ◌&&◌, ◌++◌, ◌==◌, ◌∙◌, ◌∷◌, ◌≡◌,
}
use chik.Io.Modbus.{ModbusDevice}
use chik.Io.Modbus.Polling.{Groups, add_to_groups, is_polled, or_nothing, polled_registers}
use chik.Prelude.Dict.{insert, lookup, lookup-insert}
use chik.Prelude.Int.{int_eq}

abbrev pub group_of : ℕ → ℕ → Groups → List String
group_of address register groups = or_nothing (lookup register (or_nothing (lookup address groups)))

-- An input on that register.
abbrev pub is_polled_at : ℕ → ℕ → ModbusDevice → Bool
is_polled_at address register d =
    is_polled d && (d.device_address == address && d.register == register)

group_of-add :
    (d : ModbusDevice) (groups : Groups) (address register : ℕ)
    → group_of address register (add_to_groups d groups)
      ≡ group_of address register groups
        ++ (if is_polled_at address register d then d.id ∷ [] else [])
unfolding add_to_groups
group_of-add d groups address register =
    let registers = or_nothing (lookup d.device_address groups) in
    let current = or_nothing (lookup d.register registers) in
    let group : List String = current ++ d.id ∷ [] in
    elim (Bool-cases (is_polled d)) [
      | inl polled ↦ ground (
        arith,
        append-nil (group_of address register groups),
        lookup-insert d.device_address address (insert d.register group registers) groups,
        lookup-insert d.register register group registers,
      )
      | inr skipped ↦ ground (arith, append-nil (group_of address register groups))
    ]

group_of-polled :
    (devices : List ModbusDevice) (groups : Groups) (address register : ℕ)
    → group_of address register (polled_registers devices groups)
      ≡ group_of address register groups
        ++ map (λ d. d.id) (keep_if (is_polled_at address register) devices)
unfolding polled_registers
group_of-polled [] groups address register = sym (append-nil (group_of address register groups))
group_of-polled (d ∷ devices) groups address register =
    let before = group_of address register groups in
    let others = map (λ d. d.id) (keep_if (is_polled_at address register) devices) in
    elim (Bool-cases (is_polled_at address register d)) [
      | inl there ↦
          group_of-polled devices (add_to_groups d groups) address register
          ∙ rw (group_of-add d groups address register, there)
              (append_assoc before (d.id ∷ []) others)
      | inr apart ↦
          group_of-polled devices (add_to_groups d groups) address register
          ∙ rw (group_of-add d groups address register, apart, append-nil before)
    ]

-- The poll asks each register of each slave for exactly the inputs on it that are no coils, in their
-- order: an input that is configured as a coil is never polled.
pub group_of-polled_registers :
    (devices : List ModbusDevice) (address register : ℕ)
    → group_of address register (polled_registers devices [])
      ≡ map (λ d. d.id) (keep_if (is_polled_at address register) devices)
group_of-polled_registers devices address register =
    group_of-polled devices [] address register ∙ (unfold lookup in refl)
