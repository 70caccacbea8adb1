-- ===== src/Router.antt =====
-- handlers/router/router.go: the relay between the connections of a server. Each connection has a
-- controller and a router of its own; the table of peers is shared by all of them.
pub mod Registration
pub mod Forwarding
use chik.Prelude.{
  Bool, List, [], false, if◌then◌else◌, nat_eq, none, some, string_eq, true, ℕ, ◌==◌, ◌||◌, ◌∷◌,
}
use chik.Controller.{Publication, message, publish}
use chik.Json.{null}
use chik.Messaging.{Message, Uuid, nil_uuid}
use chik.Prelude.Dict.{Dict, delete, insert, lookup}
use chik.Types.Command.{any_outgoing_command_type, new_command, remote_stop_command_type, topic_of}

-- A controller, as the table of peers holds it: a reference. `id` is its identity.
pub record Owner : Type 0 where
  pub ref : ℕ
  pub id : Uuid

abbrev pub Peers : Type 0
Peers = Dict Uuid ℕ

pub record Router : Type 0 where
  pub id : Uuid
  pub peers : Peers

-- What a call leaves: the router, what it publishes and on which controller, and whether it failed.
pub record Routed (N : Type 0) : Type 0 where
  pub router : Router
  pub sent : List (ℕ × Publication N)
  pub failed : Bool

unfoldable pub new_router : Peers → Router
new_router peers = record { id = nil_uuid; peers = peers }

module _ {N : Type 0} where
  -- A message as it is handed to the controller of its receiver.
  unfoldable pub forwarded : Message N → Publication N
  forwarded m = record { message = m; topics = topic_of any_outgoing_command_type ∷ [] }

  -- The second half of `HandleMessage`, for a registered peer.
  unfoldable pub route : Owner → Message N → Router → Routed N
  unfolding forwarded
  route owner m h =
      let quiet : Routed N = record { router = h; sent = []; failed = false } in
      if m.receiver == nil_uuid
      then quiet
      else if m.receiver == h.id || m.receiver == owner.id
      then quiet
      else elim (lookup m.receiver h.peers) [
        | none ↦ quiet
        | some ref ↦ record quiet { sent = (ref, forwarded m) ∷ [] }
      ]

  -- The first message of a new router: `LoadOrStore` of its sender.
  unfoldable pub register : Owner → Message N → Router → Routed N
  unfolding route publish
  register owner m h = elim (lookup m.sender h.peers) [
    | some running ↦ record {
      router = h;
      sent = (owner.ref, publish (new_command remote_stop_command_type null) m.sender) ∷ [];
      failed = true;
    }
    | none ↦ route owner m (record { id = m.sender; peers = insert m.sender owner.ref h.peers })
  ]

  -- `forwarding.HandleMessage`.
  unfoldable pub handle_message : Owner → Message N → Router → Routed N
  unfolding register route
  handle_message owner m h =
      if m.sender == nil_uuid
      then record { router = h; sent = []; failed = true }
      else if h.id == nil_uuid
      then register owner m h
      else if h.id == m.sender
      then route owner m h
      else record { router = h; sent = []; failed = true }

unfoldable pub teardown : Router → Router
teardown h = record h { peers = delete h.id h.peers }
