-- ===== src/Io/Snapcast/Clients.antt =====
-- handlers/io/bus/snapcast/snapcast.go, `Initialize`: the loop that asks the server for its clients, over
-- what the requests answer, and the clients that it makes known.
use chik.Prelude.{
  All, Bool-cases, List, Option, Option-cases, String, [], ap, arith, eq_iff, inl, inr, nat_eq,
  none, refl, replicate, some, string_eq, suc, zero, ℕ, ◌*◌, ◌==◌, ◌∙◌, ◌∷◌, ◌≡◌, ◌≢◌,
}
use chik.Io.Snapcast.{
  SnapcastBus, SnapcastDevice, clients_of, load_client, load_clients, update_known_clients,
}
use chik.Prelude.Dict.{lookup, lookup-insert, lookup-insert_self}
use chik.Snapcast.Structs.{Client, ServerStatus}

abbrev pub short_wait : ℕ
short_wait = 5

abbrev pub long_wait : ℕ
long_wait = 5 * 60

-- What one round of the loop leaves: the bus, and the seconds to the next round.
unfoldable pub poll_clients : Option ServerStatus → SnapcastBus → SnapcastBus × ℕ
unfolding update_known_clients
poll_clients none b = (b, short_wait)
poll_clients (some status) b = (update_known_clients status b, long_wait)

-- The rounds until the loop is stopped; `seconds` is the one before them.
unfoldable pub poll_loop : List (Option ServerStatus) → SnapcastBus × ℕ → SnapcastBus × ℕ
unfolding poll_clients
poll_loop [] (b, seconds) = (b, seconds)
poll_loop (answer ∷ answers) (b, seconds) = poll_loop answers (poll_clients answer b)

abbrev pub IsKnown : SnapcastBus → Client → Type 0
IsKnown b c = lookup c.id b.devices ≢ none

load_client_keeps :
    (c : Client) (b : SnapcastBus) (id : String) (d : SnapcastDevice)
    → lookup id b.devices ≡ some d
    → lookup id (load_client c b).devices ≡ some d
unfolding load_client
load_client_keeps c b id d known = elim (Option-cases (lookup c.id b.devices)) [
  | inl missing ↦
      let stored : SnapcastDevice = record { id = c.id; volume = c.config.volume } in
      rw (load_client, missing, lookup-insert c.id id stored b.devices)
        (elim (Bool-cases (c.id == id)) [
          | inl same ↦ absurd (
              let missing' = rw ((eq_iff c.id id).0 same) at missing in
              let clash = rw missing' at known in ground (arith, clash))
          | inr other ↦ rw other known
        ])
  | inr (e, there) ↦ rw (load_client, there) known
]

load_clients_keep :
    (clients : List Client) (b : SnapcastBus) (id : String) (d : SnapcastDevice)
    → lookup id b.devices ≡ some d
    → lookup id (load_clients clients b).devices ≡ some d
unfolding load_clients
load_clients_keep [] b id d known = known
load_clients_keep (c ∷ clients) b id d known =
    load_clients_keep clients (load_client c b) id d (load_client_keeps c b id d known)

load_client_stores :
    (c : Client) (b : SnapcastBus)
    → (d : SnapcastDevice) × (lookup c.id (load_client c b).devices ≡ some d)
unfolding load_client
load_client_stores c b = elim (Option-cases (lookup c.id b.devices)) [
  | inl missing ↦
      let stored : SnapcastDevice = record { id = c.id; volume = c.config.volume } in
      (stored, rw (load_client, missing) (lookup-insert_self c.id stored b.devices))
  | inr (e, there) ↦ (e, rw (load_client, there) there)
]

load_clients-IsKnown :
    (clients : List Client) (b : SnapcastBus) → All (IsKnown (load_clients clients b)) clients
unfolding load_clients
load_clients-IsKnown [] b = tt
load_clients-IsKnown (c ∷ clients) b =
    let (d, stored) = load_client_stores c b in
    let kept = load_clients_keep clients (load_client c b) c.id d stored in
    (
      λ unknown. (let clash = rw kept at unknown in ground (arith, clash)),
      load_clients-IsKnown clients (load_client c b),
    )

load_clients_known :
    (clients : List Client) (b : SnapcastBus) → All (IsKnown b) clients → load_clients clients b ≡ b
unfolding load_clients load_client
load_clients_known [] b known = refl
load_clients_known (c ∷ clients) b (known, others) = elim (Option-cases (lookup c.id b.devices)) [
  | inl missing ↦ absurd (known missing)
  | inr (d, there) ↦ rw (load_clients, load_client, there) (load_clients_known clients b others)
]

same_answers :
    (n : ℕ) (status : ServerStatus) (b : SnapcastBus) (seconds : ℕ)
    → poll_loop (replicate (suc n) (some status)) (b, seconds) ≡ poll_clients (some status) b
unfolding poll_clients poll_loop
same_answers zero status b seconds = refl
same_answers (suc n) status b seconds =
    let clients = clients_of status.groups in
    let b' : SnapcastBus = update_known_clients status b in
    same_answers n status b' long_wait
    ∙ ap (λ (b'' : SnapcastBus). (b'', long_wait))
        (unfold update_known_clients in
          load_clients_known clients b' (load_clients-IsKnown clients b))

-- After an answer of the server its clients are known, the known ones keep their volume, the next round is
-- five minutes away, and the same answer again changes and reports nothing.
pub poll_clients_settles :
    (status : ServerStatus) (b : SnapcastBus)
    → All (IsKnown (poll_clients (some status) b).0) (clients_of status.groups)
      × ((id : String) (d : SnapcastDevice)
          → lookup id b.devices ≡ some d
          → lookup id (poll_clients (some status) b).0.devices ≡ some d)
      × ((poll_clients (some status) b).1 ≡ 300)
      × ((n : ℕ)
          → poll_loop (replicate (suc n) (some status)) (b, short_wait)
            ≡ poll_clients (some status) b)
unfolding poll_clients poll_loop
poll_clients_settles status b = (
  (unfold update_known_clients in load_clients-IsKnown (clients_of status.groups) b),
  (unfold update_known_clients in load_clients_keep (clients_of status.groups) b),
  refl,
  λ n. same_answers n status b short_wait,
)
