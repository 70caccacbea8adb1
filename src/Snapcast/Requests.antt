-- ===== src/Snapcast/Requests.antt =====
-- handlers/snapcast/snapcast.go: the requests of the handler to the server and its connection. The server
-- is an argument: what each dial and each call gives, by the number of the requests before it.
use chik.Prelude.{
  Bool, Eq, List, Option, String, [], if◌then◌else◌, length, nat_eq, none, some, string_eq, ℕ, ◌++◌,
  ◌==◌, ◌∷◌,
}
use chik.Controller.{Publication}
use chik.Json.{Value}
use chik.Prelude.Outcome.{Outcome, err, ok, or_error, panic}
use chik.Snapcast.Structs.{
  GroupStreamChanged, ServerStatus, SimplifiedGroup, SimplifiedServerStatus, Volume,
}
use chik.StatusHolder.{StatusHolder, set_status}

-- The methods that are called, with their parameters.
pub data Request : Type 0 where
  get_rpc_version : Request
  get_status : Request
  set_stream : String → String → Request
  set_clients : String → List String → Request
  set_volume : String → Volume → Request

pub record Server (R : Type 0) : Type 0 where
  pub dial : ℕ → Bool
  pub call : ℕ → Request → Option R
  pub simplified_of : R → Option SimplifiedServerStatus
  pub status_of : R → Option ServerStatus
  pub stream_of : R → Option GroupStreamChanged

-- `h.client`: nil, connected, or closed; a call on a closed client fails.
pub data Link : Type 0 where
  no_link : Link
  open_link : Link
  closed_link : Link

-- The values that the status is set to: what two different structs have of the server.
pub data SnapcastStatus : Type 0 where
  simplified : SimplifiedServerStatus → SnapcastStatus
  full : ServerStatus → SnapcastStatus

-- The handler, with the requests that it has sent.
pub record Snapcast : Type 0 where
  pub link : Link
  pub status : StatusHolder SnapcastStatus
  pub requests : List Request

-- A method: the handler, what it publishes, and its result, whose error is not told apart.
pub record Ran (N A : Type 0) : Type 0 where
  pub state : Snapcast
  pub sent : List (Publication N)
  pub result : Outcome (Unit {0}) A

abbrev pub M : Type 0 → Type 0 → Type 0
M N A = Snapcast → Ran N A

module _ {N : Type 0} where
  abbrev pub with_result : {A : Type 0} → Outcome (Unit {0}) A → M N A
  with_result r h = record { state = h; sent = []; result = r }

  abbrev pub after : {A B : Type 0} → Ran N A → (A → M N B) → Ran N B
  after r f = elim r.result [
    | ok a ↦ let more = f a r.state in record more { sent = r.sent ++ more.sent }
    | err e ↦ record { state = r.state; sent = r.sent; result = err e }
    | panic ↦ record { state = r.state; sent = r.sent; result = panic }
  ]

  infixl 5 ◌>>=◌ ◌>>◌
  abbrev pub ◌>>=◌ : {A B : Type 0} → M N A → (A → M N B) → M N B
  ◌>>=◌ m f h = after (m h) f

  abbrev pub ◌>>◌ : {B : Type 0} → M N (Unit {0}) → M N B → M N B
  m >> k = m >>= λ _. k

  -- A call whose error is not looked at; a panic goes on.
  abbrev pub ignoring : {A : Type 0} → M N A → M N (Unit {0})
  ignoring m h =
      let r = m h in
      record {
        state = r.state;
        sent = r.sent;
        result = elim r.result [ ok a ↦ ok tt | err e ↦ ok tt | panic ↦ panic ];
      }

  -- The result of an `Unmarshal`.
  abbrev pub decoded : {A : Type 0} → Option A → M N A
  decoded none = with_result (err tt)
  decoded (some a) = with_result (ok a)

  -- `Set` and `Edit` of the status.
  abbrev pub holding :
      StatusHolder SnapcastStatus × List (Publication N) → Snapcast → Ran N (Unit {0})
  holding (s, published) h = record {
    state = record h { status = s };
    sent = published;
    result = ok tt;
  }

module _ {N R : Type 0} (server : Server R) where
  -- `client.Call`.
  unfoldable pub call_server : Request → M N R
  call_server req h = record {
    state = record h { requests = h.requests ++ req ∷ [] };
    sent = [];
    result = elim h.link [
      | open_link ↦ or_error tt (server.call (length h.requests) req)
      | _ ↦ err tt
    ];
  }

-- `slices.IndexFunc`: the first group of the identifier.
abbrev pub first_group : String → List SimplifiedGroup → Option SimplifiedGroup
first_group id [] = none
first_group id (g ∷ groups) = if g.id == id then some g else first_group id groups

abbrev pub closed : Link → Link
closed no_link = no_link
closed _ = closed_link

-- `Teardown`.
unfoldable pub teardown : Snapcast → Snapcast
teardown h = record h { link = no_link }

module _ {N R : Type 0} ⦃keys : Eq SnapcastStatus⦄ (server : Server R)
    (to_value : SnapcastStatus → Value N) where
  -- The loop that sets the streams of the current status.
  unfoldable pub restore : List SimplifiedGroup → List SimplifiedGroup → M N (Unit {0})
  unfolding call_server
  restore current [] = with_result (ok tt)
  restore current (g ∷ groups) =
      let rest = restore current groups in
      elim (first_group g.id current) [
        | none ↦ rest
        | some found ↦
            if g.stream_id == found.stream_id
            then rest
            else ignoring (call_server server (set_stream g.id found.stream_id)) >> rest
      ]

  -- The rest of `getServerStatus`, after the answer.
  unfoldable pub take_status : SimplifiedServerStatus → M N (Unit {0})
  unfolding restore set_status
  take_status new h = elim h.status.status [
    | none ↦ holding (set_status to_value (simplified new) h.status) h
    | some (simplified current) ↦ restore current.groups current.groups h
    | some (full status) ↦ with_result panic h
  ]

  unfoldable pub get_server_status : M N (Unit {0})
  unfolding call_server take_status
  get_server_status = do
    r ← call_server server get_status
    new ← decoded (server.simplified_of r)
    take_status new

  unfoldable pub connect : M N (Unit {0})
  unfolding get_server_status
  connect h =
      if server.dial (length h.requests)
      then get_server_status (record h { link = open_link })
      else with_result (err tt) (record h { link = closed h.link })

  unfoldable pub snapcast_request : Request → M N R
  unfolding connect call_server
  snapcast_request req h = elim h.link [
    | no_link ↦ (connect >> call_server server req) h
    | _ ↦ call_server server req h
  ]

  -- `HandleTimerEvent`.
  unfoldable pub handle_timer_event : M N (Unit {0})
  unfolding connect snapcast_request
  handle_timer_event h = elim h.link [
    | no_link ↦ ignoring connect h
    | _ ↦
        let alive = snapcast_request get_rpc_version h in
        elim alive.result [
          | ok r ↦ record { state = alive.state; sent = alive.sent; result = ok tt }
          | err e ↦
              let again = ignoring connect alive.state in
              record again { sent = alive.sent ++ again.sent }
          | panic ↦ record { state = alive.state; sent = alive.sent; result = panic }
        ]
  ]
