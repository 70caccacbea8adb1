-- ===== src/Router/Forwarding.antt =====
-- What a router forwards, and to whom.
use chik.Router.{teardown}
use chik.Router.{handle_message}
use chik.Prelude.{
  [], arith, false, if◌then◌else◌, inl, inr, nat_eq, none, some, string_eq, ℕ, ◌==◌, ◌∷◌, ◌≡◌, ◌≢◌,
  ◌⊎◌,
}
use chik.Controller.{Publication}
use chik.Messaging.{Message, Uuid, nil_uuid}
use chik.Prelude.Dict.{insert, lookup, lookup-delete, lookup-insert}
use chik.Router.{Owner, Peers, Router, forwarded}

-- All routers of a server: the identity that each has taken, by the reference of its controller, and
-- the table that they share.
pub record Server : Type 0 where
  pub ids : ℕ → Uuid
  pub peers : Peers

abbrev pub router_of : Server → Owner → Router
router_of w owner = record { id = w.ids owner.ref; peers = w.peers }

abbrev pub with_router : Server → Owner → Router → Server
with_router w owner h = record {
  ids = λ r. if r == owner.ref then h.id else w.ids r;
  peers = h.peers;
}

-- One event of the server: a router handles a message or is torn down. A router of a new connection is one that has
-- no identity yet.
pub data ServerStep (N : Type 0) : Server → Server → Type 0 where
  handles :
      (w : Server) (owner : Owner) (m : Message N)
      → ServerStep N w (with_router w owner (handle_message owner m (router_of w owner)).router)
  torn_down :
      (w : Server) (owner : Owner)
      → ServerStep N w (with_router w owner (teardown (router_of w owner)))

pub data Reachable (N : Type 0) (s : Server) : Server → Type 0 where
  here : Reachable N s s
  next : {t u : Server} → Reachable N s t → ServerStep N t u → Reachable N s u

-- Every entry of the table belongs to a router that has taken the entry's key for its peer.
pub record IsConsistent (w : Server) : Type 0 where
  pub owned : (p : Uuid) (r : ℕ) → lookup p w.peers ≡ some r → (w.ids r ≡ p) × (p ≢ nil_uuid)

-- What a message does to the router that handles it: nothing, or it registers the sender.
pub handle_message_cases :
    {N : Type 0} (owner : Owner) (m : Message N) (h : Router)
    → ((handle_message owner m h).router ≡ h)
      ⊎ ((h.id ≡ nil_uuid)
          × (m.sender ≢ nil_uuid)
          × (lookup m.sender h.peers ≡ none)
          × ((handle_message owner m h).router
              ≡ record { id = m.sender; peers = insert m.sender owner.ref h.peers }))
unfolding handle_message
handle_message_cases owner m h = ground arith

with_router-IsConsistent :
    (w : Server) (owner : Owner) (h : Router)
    → IsConsistent w
    → (h ≡ router_of w owner)
      ⊎ ((w.ids owner.ref ≡ nil_uuid)
          × (h.id ≢ nil_uuid)
          × (h.peers ≡ insert h.id owner.ref w.peers))
    → IsConsistent (with_router w owner h)
with_router-IsConsistent w owner h c (inl same) = record {
  owned = λ p r found. rw same (let old = c.owned p r (rw same at found) in ground (arith, old));
}
with_router-IsConsistent w owner h c (inr (fresh, named, entered)) = record {
  owned =
      λ p r found. let entry = rw (entered, lookup-insert) at found in ground (arith, c.owned p r);
}

torn_down-IsConsistent :
    (w : Server) (owner : Owner)
    → IsConsistent w
    → IsConsistent (with_router w owner (teardown (router_of w owner)))
unfolding teardown
torn_down-IsConsistent w owner c = record {
  owned = λ p r found. ground (arith, lookup-delete (w.ids owner.ref) p w.peers, c.owned p r);
}

Step-IsConsistent : {N : Type 0} {w v : Server} → ServerStep N w v → IsConsistent w → IsConsistent v
Step-IsConsistent (handles w owner m) c =
    with_router-IsConsistent w owner _ c
      (grind (arith, handle_message_cases owner m (router_of w owner)))
Step-IsConsistent (torn_down w owner) c = torn_down-IsConsistent w owner c

-- Whatever messages arrive and whichever routers are torn down, a table that held only entries of the
-- routers that own them goes on doing so.
pub Reachable-IsConsistent :
    {N : Type 0} {s w : Server} → IsConsistent s → Reachable N s w → IsConsistent w
Reachable-IsConsistent c here = c
Reachable-IsConsistent c (next r step) = Step-IsConsistent step (Reachable-IsConsistent c r)

module _ {N : Type 0} (owner : Owner) (m : Message N) where
  -- In a server that was reached from a consistent one, a message that a router accepts and passes on
  -- goes, unchanged, to the router that the table has for the message's receiver, which has taken this
  -- receiver for its peer; and the receiver is neither the sender nor the device of the server itself.
  pub forwards-to-receiver :
      {s w : Server} {ref : ℕ} {p : Publication N}
      → IsConsistent s
      → Reachable N s w
      → (handle_message owner m (router_of w owner)).failed ≡ false
      → (handle_message owner m (router_of w owner)).sent ≡ (ref, p) ∷ []
      → (lookup m.receiver (handle_message owner m (router_of w owner)).router.peers ≡ some ref)
        × (w.ids ref ≡ m.receiver)
        × (p ≡ forwarded m)
        × (m.receiver ≢ m.sender)
        × (m.receiver ≢ owner.id)
  unfolding handle_message
  forwards-to-receiver {w = w} {ref = ref} trusted reached fine sent =
      let c = Reachable-IsConsistent trusted reached in
      ground (arith, c.owned m.receiver ref, lookup-insert m.sender m.receiver owner.ref w.peers)
