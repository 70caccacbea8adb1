-- ===== src/Systemd/Units.antt =====
-- What requests do to a unit.
use chik.Types.Command.{Action}
use chik.Systemd.{stop}
use chik.Prelude.{
  Bool-cases, String, [], arith, eq_iff, inl, inr, nat_eq, string_eq, ◌==◌, ◌||◌, ◌∷◌, ◌≡◌, ◌≢◌,
  ◌⊎◌,
}
use chik.Systemd.{start, switch_unit}
use chik.Types.Command.{reset, set}

-- Only a SET of a unit that is not active starts it, and only a RESET of one that is neither inactive nor
-- failed stops it; whatever the request, repeating it on a unit that has the state which was replied makes
-- no call and gives the same reply.
pub switch_unit-settles :
    {P : Type 0} (action : Action) (unit : P) (active_state : String)
    → (let first = switch_unit action unit active_state in
        ((first.calls ≡ [])
          ⊎ (((first.calls ≡ start unit ∷ [])
                × (action ≡ set)
                × (active_state ≢ "active")
                × (first.status ≡ "active"))
              ⊎ ((first.calls ≡ stop unit ∷ [])
                  × (action ≡ reset)
                  × (active_state ≢ "inactive")
                  × (active_state ≢ "failed")
                  × (first.status ≡ "inactive"))))
        × (switch_unit action unit first.status ≡ record { calls = []; status = first.status }))
unfolding switch_unit
switch_unit-settles action unit active_state =
    let active = eq_iff active_state "active" in
    let inactive = eq_iff active_state "inactive" in
    let halted = eq_iff active_state "failed" in
    elim (Bool-cases (action == set)) [
      | inl on ↦ elim (Bool-cases (active_state == "active")) [
        | inl there ↦ (inl (ground arith), ground arith)
        | inr absent ↦ (
          inr (inl (ground arith, ground arith, λ e. ground (arith, active), ground arith)),
          (let shown : (switch_unit action unit active_state).status ≡ "active" = ground arith in
              rw shown (ground arith)),
        )
      ]
      | inr other ↦ elim (Bool-cases (action == reset)) [
        | inl off ↦ elim (Bool-cases (active_state == "inactive" || active_state == "failed")) [
          | inl there ↦ (inl (ground arith), ground arith)
          | inr absent ↦ (
            inr (
                inr (
                  ground arith,
                  ground arith,
                  λ e. ground (arith, inactive),
                  λ e. ground (arith, halted),
                  ground arith,
                )),
            (let shown : (switch_unit action unit active_state).status ≡ "inactive" =
                  ground arith in
                rw shown (ground arith)),
          )
        ]
        | inr neither ↦ (inl (ground arith), ground arith)
      ]
    ]
