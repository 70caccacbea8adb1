-- ===== src/Io/Mapped/Local.antt =====
-- A bus that is a map of devices keeps the contract of a bus, if no method changes the kind of a device.
use chik.Prelude.{
  Option, Option-cases, String, arith, eq_iff, inl, inr, nat_eq, some, string_eq, ◌≡◌,
}
use chik.Io.Bus.{BusLaws, IsLocal}
use chik.Io.Mapped.{DeviceMethods, mapped_bus, on_entry}
use chik.Json.{Value}
use chik.Prelude.Dict.{Dict, insert, lookup, lookup-insert}

module _ {D : Type 0} where
  -- A call that succeeds puts a changed device in the place of the old.
  on_entry_lem :
      (call : D → Option D) (id : String) (b b' : Dict String D)
      → on_entry call id b ≡ some b'
      → (d : D) × (d' : D) × (lookup id b ≡ some d) × (call d ≡ some d') × (b' ≡ insert id d' b)
  unfolding on_entry
  on_entry_lem call id b b' got = elim (Option-cases (lookup id b)) [
    | inl missing ↦ absurd (ground arith)
    | inr (d, found) ↦ elim (Option-cases (call d)) [
      | inl halt ↦ absurd (ground arith)
      | inr (d', next) ↦ (d, d', found, next, ground arith)
    ]
  ]

  pub on_entry_met :
      (call : D → Option D) (id : String) (b : Dict String D) {d d' : D}
      → lookup id b ≡ some d
      → call d ≡ some d'
      → on_entry call id b ≡ some (insert id d' b)
  unfolding on_entry
  on_entry_met call id b found next = ground arith

module _ {N D : Type 0} (methods : DeviceMethods N D) where
  abbrev pub KeepsKind : (D → Option D) → Type 0
  KeepsKind call = (d d' : D) → call d ≡ some d' → methods.kind d' ≡ methods.kind d

  module _ (initialize : Option (Value N) → Dict String D → Dict String D) where
    on_entry-IsLocal :
        (call : D → Option D)
        → KeepsKind call
        → (id : String) → IsLocal (mapped_bus methods initialize) id (on_entry call id)
    unfolding mapped_bus
    on_entry-IsLocal call keeps id = record {
      keeps_device = λ b b' got asked.
          let (d, d', found, next, put) = on_entry_lem call id b b' got in
          (rw (put, mapped_bus, lookup-insert) (ground (arith, found, eq_iff id asked)));
      keeps_kind = λ b b' got asked.
          let (d, d', found, next, put) = on_entry_lem call id b b' got in
          (rw (put, mapped_bus, lookup-insert)
            (ground (arith, found, eq_iff id asked, keeps d d' next)));
      keeps_others = λ b b' got asked other.
          let (d, d', found, next, put) = on_entry_lem call id b b' got in
          (rw (put, mapped_bus, lookup-insert) (ground (arith, found, eq_iff id asked)));
    }

    pub mapped_bus-BusLaws :
        KeepsKind methods.turn_on
        → KeepsKind methods.turn_off
        → KeepsKind methods.toggle
        → ((x : N) → KeepsKind (methods.set_value x))
        → ((x : N) → KeepsKind (methods.add_value x))
        → BusLaws (mapped_bus methods initialize)
    unfolding mapped_bus
    mapped_bus-BusLaws on off flip set_to add_to = record {
      turn_on_local = on_entry-IsLocal methods.turn_on on;
      turn_off_local = on_entry-IsLocal methods.turn_off off;
      toggle_local = on_entry-IsLocal methods.toggle flip;
      set_value_local = λ x. on_entry-IsLocal (methods.set_value x) (set_to x);
      add_value_local = λ x. on_entry-IsLocal (methods.add_value x) (add_to x);
    }

    pub described :
        (id : String) (b : Dict String D) {d : D}
        → lookup id b ≡ some d
        → (mapped_bus methods initialize).description id b ≡ methods.description d
    unfolding mapped_bus
    described id b found = ground arith
