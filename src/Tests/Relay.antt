-- ===== src/Tests/Relay.antt =====
-- Tests of the router.
use chik.Router.{handle_message, teardown}
use chik.Router.Forwarding.{next}
use chik.Router.Forwarding.{Server}
use chik.Prelude.{
  [], arith, if◌then◌else◌, nat_eq, refl, some, string_eq, true, ℕ, ◌==◌, ◌∷◌, ◌≡◌, ◌≢◌,
}
use chik.Prelude.Dict.{lookup}
use chik.Router.{Owner, Peers, forwarded}
use chik.Router.Forwarding.{
  IsConsistent, Reachable, Reachable-IsConsistent, forwards-to-receiver, handles, here, router_of,
  with_router,
}
use chik.Router.Registration.{torn_down_unreachable}
use chik.Tests.Samples.{message_of, nat_numbers}

-- Peers 7 and 8 are connected by the controllers 1 and 2; the server's device is 100.
abbrev first : Owner
first = record { ref = 1; id = 100 }

abbrev other : Owner
other = record { ref = 3; id = 100 }

abbrev table : Peers
table = (7, 1) ∷ (8, 2) ∷ []

handle_message_tests :
    ((handle_message first (message_of 7 8 0) (record { id = 7; peers = table })).sent
      ≡ (2, forwarded (message_of 7 8 0)) ∷ [])
    × ((handle_message first (message_of 7 9 0) (record { id = 7; peers = table })).sent ≡ [])
    × ((handle_message first (message_of 7 7 0) (record { id = 7; peers = table })).sent ≡ [])
    × ((handle_message first (message_of 0 8 0) (record { id = 7; peers = table })).failed ≡ true)
unfolding handle_message forwarded lookup
handle_message_tests = (refl, refl, refl, refl)

found_7 : lookup 7 table ≡ some 1
unfolding lookup
found_7 = refl

abbrev relay : Server
relay = record { ids = λ r. if r == 1 then 7 else if r == 2 then 8 else 0; peers = table }

relay-IsConsistent : IsConsistent relay
unfolding lookup
relay-IsConsistent = record { owned = λ p r found. ground arith }

abbrev later : Server
later =
    with_router relay other (handle_message other (message_of 9 7 0) (router_of relay other)).router

later_reached : Reachable ℕ relay later
later_reached = next here (handles relay other (message_of 9 7 0))

Reachable-IsConsistent_example : IsConsistent later
Reachable-IsConsistent_example = Reachable-IsConsistent relay-IsConsistent later_reached

forwards-to-receiver_example :
    (lookup 8 (handle_message first (message_of 7 8 0) (router_of relay first)).router.peers
      ≡ some 2)
    × (relay.ids 2 ≡ 8)
    × (forwarded (message_of 7 8 0) ≡ forwarded (message_of 7 8 0))
    × (◌≢◌ {A = ℕ} 8 7)
    × (◌≢◌ {A = ℕ} 8 100)
unfolding handle_message lookup
forwards-to-receiver_example =
    forwards-to-receiver first (message_of 7 8 0) relay-IsConsistent here refl refl

-- The router of peer 7 is torn down; then its peer sends a message.
abbrev without_7 : Server
without_7 = with_router relay first (teardown (router_of relay first))

abbrev spoken_again : Server
spoken_again =
    with_router without_7 first
      (handle_message first (message_of 7 8 0) (router_of without_7 first)).router

torn_down_unreachable_example :
    (lookup 7 spoken_again.peers ≢ some first.ref)
    × ((handle_message other (message_of 8 7 0) (router_of spoken_again other)).sent
        ≢ (first.ref, forwarded (message_of 8 7 0)) ∷ [])
torn_down_unreachable_example =
    torn_down_unreachable first relay-IsConsistent (omega arith)
      (next here (handles without_7 first (message_of 7 8 0))) 7 other (message_of 8 7 0)
