-- ===== src/Snapcast/Restoring.antt =====
-- What a new connection does to the status and to the server.
use chik.Snapcast.Requests.{Server, get_status}
use chik.Prelude.{
  All, AllDistinct, Eq, List, Option, String, [], arith, beq_self, contains, eq_iff, false, length,
  map, nat_eq, none, refl, some, string_eq, true, ◌++◌, ◌∷◌, ◌≡◌,
}
use chik.Json.{Value}
use chik.Prelude.Outcome.{ok, panic}
use chik.Snapcast.Requests.{
  Snapcast, SnapcastStatus, call_server, connect, first_group, full, get_server_status, open_link,
  restore, simplified, take_status, with_result,
}
use chik.Snapcast.Structs.{ServerStatus, SimplifiedGroup, SimplifiedServerStatus}
use chik.StatusHolder.{emit_status_changed, set_status}

-- A group is the first of its identifier.
abbrev IsFirst : List SimplifiedGroup → SimplifiedGroup → Type 0
IsFirst current g = first_group g.id current ≡ some g

abbrev ids_of : List SimplifiedGroup → List String
ids_of groups = map (λ g. g.id) groups

IsFirst-cons :
    (c : SimplifiedGroup) (current groups : List SimplifiedGroup)
    → contains c.id (ids_of groups) ≡ false
    → All (IsFirst current) groups
    → All (IsFirst (c ∷ current)) groups
IsFirst-cons c current [] apart first = tt
IsFirst-cons c current (g ∷ groups) apart (one, rest) = (
  ground (arith, eq_iff c.id g.id, eq_iff g.id c.id),
  IsFirst-cons c current groups (ground arith) rest,
)

All-IsFirst :
    (current : List SimplifiedGroup) → AllDistinct (ids_of current) → All (IsFirst current) current
All-IsFirst [] distinct = tt
All-IsFirst (c ∷ current) (apart, distinct) =
    (rw (beq_self c.id) refl, IsFirst-cons c current current apart (All-IsFirst current distinct))

-- The handler with another status.
abbrev pub having : Option SnapcastStatus → Snapcast → Snapcast
having o h = record h { status = record h.status { status = o } }

-- What a connection leaves: one request, and an open client.
abbrev pub asked : Snapcast → Snapcast
asked h = record h { link = open_link; requests = h.requests ++ get_status ∷ [] }

module _ {N R : Type 0} ⦃keys : Eq SnapcastStatus⦄ (server : Server R)
    (to_value : SnapcastStatus → Value N) where
  restore_nothing :
      (current groups : List SimplifiedGroup) (h : Snapcast)
      → All (IsFirst current) groups
      → restore server to_value current groups h ≡ with_result (ok tt) h
  unfolding restore
  restore_nothing current [] h first = refl
  restore_nothing current (g ∷ groups) h (one, rest) =
      ground (arith, restore_nothing current groups h rest, beq_self g.stream_id)

  -- A connection that is made, whose server answers with its status: without a status of its own the
  -- handler takes that of the server and publishes it. With one, in which no two groups share an
  -- identifier, it only asks: it sends no stream to the server and keeps its status, whatever streams the
  -- server has. With the status that an update of the server leaves, it panics.
  pub connect_settles :
      (h : Snapcast) (r : R) (new current : SimplifiedServerStatus) (update : ServerStatus)
      → server.dial (length h.requests) ≡ true
      → server.call (length h.requests) get_status ≡ some r
      → server.simplified_of r ≡ some new
      → AllDistinct (ids_of current.groups)
      → (let first = connect server to_value (having none h) in
          let later = connect server to_value (having (some (simplified current)) h) in
          ((first.result ≡ ok tt)
            × (first.state ≡ having (some (simplified new)) (asked h))
            × (first.sent
                ≡ emit_status_changed to_value h.status.module_name (simplified new) ∷ []))
          × ((later.result ≡ ok tt)
              × (later.state ≡ having (some (simplified current)) (asked h))
              × (later.sent ≡ []))
          × ((connect server to_value (having (some (full update)) h)).result ≡ panic))
  unfolding connect get_server_status take_status call_server set_status
  connect_settles h r new current update reached answer readable distinct =
      let quiet =
        restore_nothing current.groups current.groups (having (some (simplified current)) (asked h))
          (All-IsFirst current.groups distinct) in
      (
        (ground arith, ground arith, ground arith),
        (ground (arith, quiet), ground (arith, quiet), ground (arith, quiet)),
        ground arith,
      )
