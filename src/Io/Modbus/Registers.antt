-- ===== src/Io/Modbus/Registers.antt =====
-- The bits that are written to a register and read from it.
use chik.Prelude.{
  All, Bool, Bool-cases, List, Option-cases, [], any_of, arith, false, get_elem?, if◌then◌else◌,
  inl, inr, keep_if, map, nat_eq, none, not, refl, replicate, some, string_eq, suc, true, zero, ℕ,
  ◌&&◌, ◌<◌, ◌==◌, ◌||◌, ◌∷◌, ◌≡◌, ◌≢◌,
}
use chik.Io.Modbus.{ModbusDevice, collect, is_high_on, poll_group, register_command, set_bit}

get_elem-set_bit :
    (n k : ℕ) (v : Bool) (bits : List Bool) {b : Bool}
    → get_elem? bits k ≡ some b
    → get_elem? (set_bit n v bits) k ≡ some (if n == k then v else b)
unfolding set_bit
get_elem-set_bit n k v [] there = cc
get_elem-set_bit zero zero v (b ∷ bits) there = ground arith
get_elem-set_bit zero (suc k) v (b ∷ bits) there = ground arith
get_elem-set_bit (suc n) zero v (b ∷ bits) there = ground arith
get_elem-set_bit (suc n) (suc k) v (b ∷ bits) there =
    let ih = get_elem-set_bit n k v bits there in ground (arith, ih)

get_elem-replicate : (n k : ℕ) → k < n → get_elem? (replicate n false) k ≡ some false
get_elem-replicate zero k low = absurd (omega arith)
get_elem-replicate (suc n) zero low = refl
get_elem-replicate (suc n) (suc k) low = get_elem-replicate n k (omega arith)

-- An output on the same register that is on and has the bit.
abbrev pub is_on_at : ModbusDevice → ℕ → ModbusDevice → Bool
is_on_at device k d = is_high_on device d && d.bit_number == k

get_elem-collect :
    (device : ModbusDevice) (devices : List ModbusDevice) (word : List Bool) (k : ℕ) (b : Bool)
    → get_elem? word k ≡ some b
    → get_elem? (collect device devices word) k ≡ some (b || any_of (is_on_at device k) devices)
unfolding collect
get_elem-collect device [] word k b there = ground (arith, there)
get_elem-collect device (d ∷ devices) word k b there = elim (Bool-cases (is_high_on device d)) [
  | inl high ↦
      let ih =
        get_elem-collect device devices (set_bit d.bit_number true word) k
          (if d.bit_number == k then true else b)
          (get_elem-set_bit d.bit_number k true word there) in
      rw high (rw ih (ground arith))
  | inr low ↦ rw low (rw (get_elem-collect device devices word k b there))
]

-- The command for a register has the new value at the bit of the device, and at every other bit it has
-- a one exactly if an output of the same register that is on has that bit.
pub get_elem-register_command :
    (devices : List ModbusDevice) (device : ModbusDevice) (high : Bool) (k : ℕ)
    → k < 16
    → get_elem? (register_command devices device high) k
      ≡ some (if device.bit_number == k then high else any_of (is_on_at device k) devices)
unfolding register_command
get_elem-register_command devices device high k low =
    get_elem-set_bit device.bit_number k high (collect device devices (replicate 16 false))
      (get_elem-collect device devices (replicate 16 false) k false (get_elem-replicate 16 k low))

-- The bit of a device, and whether its status differs from it.
abbrev pub bit_of : List Bool → ModbusDevice → Bool
bit_of word d = elim (get_elem? word d.bit_number) [ none ↦ false | some b ↦ b ]

abbrev pub differs : List Bool → ModbusDevice → Bool
differs word d = if d.status then not (bit_of word d) else bit_of word d

abbrev pub with_bit : List Bool → ModbusDevice → ModbusDevice
with_bit word d = record d { status = bit_of word d }

-- After a poll every device of the group has the status of its bit, and exactly the devices whose status
-- was another one are reported, in their order. Each device has a bit of the register.
pub poll_group-reports :
    (word : List Bool) (devices : List ModbusDevice)
    → All (λ d. get_elem? word d.bit_number ≢ none) devices
    → poll_group word devices
      ≡ some (map (with_bit word) devices, map (λ d. d.id) (keep_if (differs word) devices))
unfolding poll_group
poll_group-reports word [] inside = refl
poll_group-reports word (d ∷ devices) (present, inside) =
    let ih = poll_group-reports word devices inside in
    elim (Option-cases (get_elem? word d.bit_number)) [
      | inl missing ↦ absurd (present missing)
      | inr (b, found) ↦ ground (arith, ih, found)
    ]
