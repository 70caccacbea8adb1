-- ===== src/Io/Teardown.antt =====
-- handlers/io/io.go, `Teardown` and the listeners that it waits for: each of them passes the changes of one bus
-- on to the channel of the handler, which nobody reads any more. A send to a full channel blocks.
pub mod Counting
pub mod Waiting
use chik.Prelude.{
  All, Bool, List, Option, String, [], false, if◌then◌else◌, length, none, some, true, ℕ, ◌++◌, ◌<◌,
  ◌∷◌, ◌≡◌,
}

-- A bus that was initialized, with what its Deinitialize depends on: whether the gpio library closes its
-- notifications, whether the poll was started, whether there is a serial port, and whether there is a connection.
pub data OpenBus : Type 0 where
  open_soft : OpenBus
  open_gpio : (closes : Bool) → OpenBus
  open_unipi : (polls : Bool) → OpenBus
  open_w1 : OpenBus
  open_modbus : (has_port : Bool) → OpenBus
  open_snapcast : (connected : Bool) → OpenBus

-- `Ticker.Stop` does not close the channel of the ticker.
abbrev pub stop_closes : Bool
stop_closes = false

-- `Deinitialize`: whether the channel of changes is closed after it, or then will be; `none` is a panic, for a
-- ticker that was never made, or a client that is not there. The Modbus and the snapcast bus never close it,
-- and the loops of the Unipi and the 1-wire bus close it when the channel of their ticker is closed.
unfoldable pub deinitialize : OpenBus → Option Bool
deinitialize open_soft = some true
deinitialize (open_gpio closes) = some closes
deinitialize (open_unipi polls) = if polls then some stop_closes else none
deinitialize open_w1 = some stop_closes
deinitialize (open_modbus has_port) = if has_port then some false else none
deinitialize (open_snapcast connected) = if connected then some false else none

-- A listener: what its bus still sends, and what it has read and not yet passed on.
pub record Listener : Type 0 where
  pub pending : List String
  pub held : Option String
  pub closed : Bool
  pub gone : Bool

-- The first loop of `Teardown`.
unfoldable pub deinitialize_all : List (OpenBus × Listener) → Option (List Listener)
unfolding deinitialize
deinitialize_all [] = some []
deinitialize_all ((bus, l) ∷ rest) = elim (deinitialize bus) [
  | none ↦ none
  | some closes ↦ elim (deinitialize_all rest) [
    | none ↦ none
    | some ls ↦ some (record l { closed = closes } ∷ ls)
  ]
]

abbrev pub capacity : ℕ
capacity = 5

-- The steps of a listener with the channel of the handler; a channel that is open may get another change.
pub data ListenerStep : Listener → List String → Listener → List String → Type 0 where
  take_change :
      (l : Listener) (sent : List String) (d : String) (ds : List String)
      → l.gone ≡ false
      → l.held ≡ none
      → l.pending ≡ d ∷ ds
      → ListenerStep l sent (record l { pending = ds; held = some d }) sent
  pass_on :
      (l : Listener) (sent : List String) (d : String)
      → l.held ≡ some d
      → length sent < capacity
      → ListenerStep l sent (record l { held = none }) (sent ++ d ∷ [])
  leave :
      (l : Listener) (sent : List String)
      → l.gone ≡ false
      → l.held ≡ none
      → l.pending ≡ []
      → l.closed ≡ true
      → ListenerStep l sent (record l { gone = true }) sent
  another_change :
      (l : Listener) (sent : List String) (d : String)
      → l.closed ≡ false
      → ListenerStep l sent (record l { pending = l.pending ++ d ∷ [] }) sent

-- Any listener may take the next step.
pub data Passing : List Listener → List String → List Listener → List String → Type 0 where
  at_first :
      {l l' : Listener} {sent sent' : List String} (ls : List Listener)
      → ListenerStep l sent l' sent'
      → Passing (l ∷ ls) sent (l' ∷ ls) sent'
  at_later :
      (l : Listener) {ls ls' : List Listener} {sent sent' : List String}
      → Passing ls sent ls' sent'
      → Passing (l ∷ ls) sent (l ∷ ls') sent'

pub data Passes (ls : List Listener) (sent : List String)
    : List Listener → List String → Type 0 where
  at_start : Passes ls sent ls sent
  moved_on :
      {ms ns : List Listener} {sent' sent'' : List String}
      → Passes ls sent ms sent'
      → Passing ms sent' ns sent''
      → Passes ls sent ns sent''

-- `wg.Wait` returns when all listeners have ended.
abbrev pub AllGone : List Listener → Type 0
AllGone = All (λ l. l.gone ≡ true)

abbrev pub CanReturn : List Listener → List String → Type 0
CanReturn ls sent =
    (ls' : List Listener) × (sent' : List String) × Passes ls sent ls' sent' × AllGone ls'
