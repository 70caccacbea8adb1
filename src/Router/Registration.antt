-- ===== src/Router/Registration.antt =====
-- Who is in the table of peers.
use chik.Router.Forwarding.{Server, next}
use chik.Router.{teardown}
use chik.Router.{handle_message}
use chik.Prelude.{[], arith, false, nat_eq, none, refl, some, string_eq, true, ℕ, ◌∷◌, ◌≡◌, ◌≢◌}
use chik.Controller.{Publication, publish}
use chik.Json.{null}
use chik.Messaging.{Message, Uuid, nil_uuid}
use chik.Prelude.Dict.{insert, lookup, lookup-delete, lookup-insert}
use chik.Router.{Owner, Router, forwarded}
use chik.Router.Forwarding.{
  IsConsistent, Reachable, ServerStep, handle_message_cases, handles, here, router_of, torn_down,
  with_router,
}
use chik.Types.Command.{new_command, remote_stop_command_type}

module _ {N : Type 0} (owner : Owner) (m : Message N) (h : Router) where
  abbrev stop_command : Publication N
  stop_command = publish (new_command remote_stop_command_type null) m.sender

  duplicate_lem :
      {running : ℕ}
      → h.id ≡ nil_uuid
      → m.sender ≢ nil_uuid
      → lookup m.sender h.peers ≡ some running
      → handle_message owner m h
        ≡ record { router = h; sent = (owner.ref, stop_command) ∷ []; failed = true }
  unfolding handle_message
  duplicate_lem fresh named found = ground arith

  -- A second connection of a peer that is running fails, is told to stop, and neither its call nor its
  -- teardown takes the running connection out of the table.
  pub duplicate_keeps_peer :
      {running : ℕ}
      → h.id ≡ nil_uuid
      → m.sender ≢ nil_uuid
      → lookup m.sender h.peers ≡ some running
      → ((handle_message owner m h).failed ≡ true)
        × ((handle_message owner m h).sent ≡ (owner.ref, stop_command) ∷ [])
        × (lookup m.sender (teardown (handle_message owner m h).router).peers ≡ some running)
  unfolding teardown
  duplicate_keeps_peer fresh named found =
      rw (duplicate_lem fresh named found) (refl, refl, rw lookup-delete (ground arith))

  -- A fresh router takes the sender of its first message for its peer, and enters its own controller
  -- under it.
  pub handle_message-registers :
      h.id ≡ nil_uuid
      → m.sender ≢ nil_uuid
      → lookup m.sender h.peers ≡ none
      → ((handle_message owner m h).failed ≡ false)
        × ((handle_message owner m h).router
            ≡ record { id = m.sender; peers = insert m.sender owner.ref h.peers })
  unfolding handle_message
  handle_message-registers fresh named absent = ground arith

  -- A registered router refuses any other sender, and forwards nothing for it.
  pub handle_message_other_sender :
      h.id ≢ nil_uuid
      → h.id ≢ m.sender
      → handle_message owner m h ≡ record { router = h; sent = []; failed = true }
  unfolding handle_message
  handle_message_other_sender named other = ground arith

  -- A router with a peer never changes the table.
  pub handle_message-keeps : h.id ≢ nil_uuid → (handle_message owner m h).router ≡ h
  unfolding handle_message
  handle_message-keeps named = ground arith

-- A router with an identity that is not in the table.
record IsOut (ref : ℕ) (w : Server) : Type 0 where
  named : w.ids ref ≢ nil_uuid
  absent : (p : Uuid) → lookup p w.peers ≢ some ref

ServerStep-IsOut :
    {N : Type 0} (ref : ℕ) {w v : Server} → ServerStep N w v → IsOut ref w → IsOut ref v
ServerStep-IsOut ref (handles w owner m) out = record {
  named = ground (arith, handle_message_cases owner m (router_of w owner), out.named);
  absent = λ p found. grind (
    arith,
    handle_message_cases owner m (router_of w owner),
    lookup-insert m.sender p owner.ref w.peers,
    out.named,
    out.absent p,
  );
}
ServerStep-IsOut ref (torn_down w owner) out =
    unfold teardown in
    record {
      named = ground (arith, out.named);
      absent = λ p found. ground (arith, lookup-delete (w.ids owner.ref) p w.peers, out.absent p);
    }

Reachable-IsOut :
    {N : Type 0} (ref : ℕ) {w v : Server} → Reachable N w v → IsOut ref w → IsOut ref v
Reachable-IsOut ref here out = out
Reachable-IsOut ref (next before step) out =
    ServerStep-IsOut ref step (Reachable-IsOut ref before out)

teardown-IsOut :
    (owner : Owner) (w : Server)
    → IsConsistent w
    → w.ids owner.ref ≢ nil_uuid
    → IsOut owner.ref (with_router w owner (teardown (router_of w owner)))
unfolding teardown
teardown-IsOut owner w c named = record {
  named = ground (arith, named);
  absent =
      λ p found. ground (arith, lookup-delete (w.ids owner.ref) p w.peers, c.owned p owner.ref);
}

-- The teardown leaves the router's identity in place. So, in a server with a consistent table, a router that has a
-- peer and is torn down is never in the table again, under any identity, whatever messages it and the other routers
-- then receive and whichever are torn down: no message is forwarded to its controller any more.
pub torn_down_unreachable :
    {N : Type 0} (owner : Owner) {w v : Server}
    → IsConsistent w
    → w.ids owner.ref ≢ nil_uuid
    → Reachable N (with_router w owner (teardown (router_of w owner))) v
    → (p : Uuid) (other : Owner) (m : Message N)
    → (lookup p v.peers ≢ some owner.ref)
      × ((handle_message other m (router_of v other)).sent ≢ (owner.ref, forwarded m) ∷ [])
unfolding handle_message
torn_down_unreachable owner {w} {v} c named later p other m =
    let out = Reachable-IsOut owner.ref later (teardown-IsOut owner w c named) in
    (
      out.absent p,
      λ sent. grind (
        arith,
        out.named,
        out.absent m.receiver,
        lookup-insert m.sender m.receiver other.ref v.peers,
      ),
    )
