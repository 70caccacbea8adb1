-- ===== src/Io/Contract.antt =====
-- The contract of a bus, for the buses that keep their devices in maps.
use chik.Prelude.{List, Option, String, arith, ℕ}
use chik.Io.Bus.{BusLaws}
use chik.Io.Mapped.Local.{mapped_bus-BusLaws}
use chik.Io.Modbus.{ModbusDevice, switch_to, toggle_switch}
use chik.Io.Modbus.Polling.{modbus_bus, modbus_methods}
use chik.Io.Soft.{SoftDevice, soft_bus}
use chik.Io.Softly.{soft_bus-BusLaws}
use chik.Io.Unipi.{UnipiDevice, unipi_bus}
use chik.Io.Unipi.Onboard.{unipi_bus-BusLaws}
use chik.Io.W1.{W1Device, w1_bus, w1_methods}
use chik.Json.{Numbers, Value}
use chik.Prelude.Int.{ℤ}

module _ {N : Type 0} where
  w1_bus-BusLaws : (decode : Option (Value N) → List (W1Device N)) → BusLaws (w1_bus decode)
  unfolding w1_bus
  w1_bus-BusLaws decode =
      mapped_bus-BusLaws w1_methods _ (λ d d' got. cc) (λ d d' got. cc) (λ d d' got. cc)
        (λ x d d' got. cc) (λ x d d' got. cc)

  modbus_bus-BusLaws : (decode : Option (Value N) → List ModbusDevice) → BusLaws (modbus_bus decode)
  unfolding modbus_bus switch_to toggle_switch
  modbus_bus-BusLaws decode =
      mapped_bus-BusLaws modbus_methods _ (λ d d' got. ground arith) (λ d d' got. ground arith)
        (λ d d' got. ground arith) (λ x d d' got. cc) (λ x d d' got. cc)

module _ {N : Type 0} ⦃ops : Numbers N⦄ (of_int : ℤ → N) (round : N → ℤ) where
  -- The soft bus, the Unipi bus, the 1-wire bus and the Modbus bus keep what the handler relies on: each
  -- call of a method changes at most the device that it is for, and the kind of none.
  pub buses-BusLaws :
      (decode_soft : Option (Value N) → List (SoftDevice N))
      (decode_unipi : Option (Value N) → List UnipiDevice)
      (decode_w1 : Option (Value N) → List (W1Device N))
      (decode_modbus : Option (Value N) → List ModbusDevice) (reading : String → Option (List ℕ))
      → BusLaws (soft_bus decode_soft)
        × BusLaws (unipi_bus of_int round decode_unipi reading)
        × BusLaws (w1_bus decode_w1)
        × BusLaws (modbus_bus decode_modbus)
  buses-BusLaws decode_soft decode_unipi decode_w1 decode_modbus reading = (
    soft_bus-BusLaws decode_soft,
    unipi_bus-BusLaws of_int round decode_unipi reading,
    w1_bus-BusLaws decode_w1,
    modbus_bus-BusLaws decode_modbus,
  )
