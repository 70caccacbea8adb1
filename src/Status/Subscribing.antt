-- ===== src/Status/Subscribing.antt =====
-- Who can subscribe, and what a subscription brings.
use mathlib.Core.List.{Memᴰ}
use chik.Status.{get_status}
use chik.Prelude.{
  All, Bool-cases, List, Option, String, [], ap, arith, beq_self, contains, false, if◌then◌else◌,
  inl, inr, nat_eq, none, refl, some, string_eq, true, ℕ, ◌++◌, ◌-◌, ◌==◌, ◌∙◌, ◌∷◌, ◌≡◌, ◌≢◌, ◌≤◌,
  ◌⊎◌,
}
use chik.Controller.{Publication, loopback_id, reply}
use chik.Json.{Value}
use chik.Messaging.{Message, Uuid}
use chik.Prelude.Dict.{Dict, lookup, lookup-insert}
use chik.Status.{
  StatusCommand, StatusMap, StatusState, Subscriber, apply_update, handle_status_command,
  handle_status_update, inactivity, is_inactive, notification, notify_all, subscribed, subscribes,
}
use chik.Status.Updating.{apply_update_lem, lookup-active_only}
use chik.Types.Command.{set}

module _ {N : Type 0} (own : Uuid) (now : ℕ) (m : Message N) (content : StatusCommand)
    (h : StatusState N) where
  abbrev after_command : StatusState N
  after_command = (handle_status_command own now m content h).state

  -- A status command from this device or from the loopback, and any whose action is not SET, leaves
  -- the subscribers and the status as they are; it is answered with the queried status all the same.
  pub handle_status_command-reads :
      (m.sender ≡ loopback_id) ⊎ ((m.sender ≡ own) ⊎ (content.action ≢ set))
      → (after_command ≡ h)
        × ((handle_status_command own now m content h).sent
            ≡ notification (get_status content.query h) m.sender ∷ [])
  unfolding handle_status_command notification reply
  handle_status_command-reads only =
      let unmet : subscribes own m content ≡ false = ground arith in rw unmet (refl, refl)

  -- A SET of another device enters its query among what the device listens for, renews its contact,
  -- and keeps what it listened for before and what the others listen for.
  pub handle_status_command-subscribes :
      m.sender ≢ loopback_id
      → m.sender ≢ own
      → content.action ≡ set
      → (id : Uuid)
      → lookup id after_command.subscribers ≡ (
          if m.sender == id
          then some (subscribed content.query now (lookup id h.subscribers))
          else lookup id h.subscribers)
  unfolding handle_status_command
  handle_status_command-subscribes away other sets id =
      let met : subscribes own m content ≡ true = ground arith in
      rw (met, lookup-insert) (ground arith)

contact-subscribed :
    (query : String) (now : ℕ) (old : Option Subscriber)
    → (subscribed query now old).last_contact ≡ now
unfolding subscribed
contact-subscribed query now none = refl
contact-subscribed query now (some old) = refl

contains-subscribed :
    (query : String) (now : ℕ) (old : Option Subscriber)
    → contains query (subscribed query now old).listeners ≡ true
unfolding subscribed
contains-subscribed query now none = rw beq_self
contains-subscribed query now (some old) = elim (Bool-cases (contains query old.listeners)) [
  | inl had ↦ rw had had
  | inr new ↦ rw (new, beq_self)
]

module _ {N : Type 0} where
  notify_all-Memᴰ :
      (k : String) (v : Value N) (id : Uuid) (s : Subscriber) (subscribers : Dict Uuid Subscriber)
      → lookup id subscribers ≡ some s
      → contains k s.listeners ≡ true
      → Memᴰ (notification ((k, v) ∷ []) id) (notify_all k v subscribers)
  unfolding notify_all lookup
  notify_all-Memᴰ k v id s [] found listens = cc
  notify_all-Memᴰ k v id s ((j, t) ∷ rest) found listens = elim (Bool-cases (j == id)) [
    | inl first ↦
        let hears : contains k t.listeners ≡ true = ground arith in
        let same : id ≡ j = ground arith in
        rw hears (Memᴰ.head (ap (notification ((k, v) ∷ [])) same))
    | inr further ↦
        let later = notify_all-Memᴰ k v id s rest (rw further at found) listens in
        elim (Bool-cases (contains k t.listeners)) [
          | inl hears ↦ rw hears (Memᴰ.tail later)
          | inr deaf ↦ rw deaf later
        ]
  ]

  Memᴰ-append : {p : Publication N} (ps qs : List (Publication N)) → Memᴰ p ps → Memᴰ p (ps ++ qs)
  Memᴰ-append [] qs m = elim m [ ]
  Memᴰ-append (q ∷ ps) qs (Memᴰ.head e) = Memᴰ.head e
  Memᴰ-append (q ∷ ps) qs (Memᴰ.tail t) = Memᴰ.tail (Memᴰ-append ps qs t)

  -- The status after updates, each with its time.
  abbrev pub after_updates : List (ℕ × StatusMap N) → StatusState N → StatusState N
  after_updates [] h = h
  after_updates ((at, update) ∷ rest) h =
      after_updates rest (handle_status_update at update h).state

  kept_subscriber :
      (at : ℕ) (update : StatusMap N) (id : Uuid) (s : Subscriber) (h : StatusState N)
      → lookup id h.subscribers ≡ some s
      → is_inactive at s ≡ false
      → lookup id (handle_status_update at update h).state.subscribers ≡ some s
  unfolding handle_status_update
  kept_subscriber at [] id s h found active = (unfold apply_update in found)
  kept_subscriber at ((k, v) ∷ rest) id s h found active =
      rw (apply_update_lem ((k, v) ∷ rest) h).1
        (lookup-active_only at id s h.subscribers found active)

  kept_subscribers :
      (between : List (ℕ × StatusMap N)) (id : Uuid) (s : Subscriber) (h : StatusState N)
      → lookup id h.subscribers ≡ some s
      → All (λ e. e.0 - s.last_contact ≤ inactivity) between
      → lookup id (after_updates between h).subscribers ≡ some s
  kept_subscribers [] id s h found soon = found
  kept_subscribers ((at, update) ∷ rest) id s h found (recent, soon) =
      kept_subscribers rest id s (handle_status_update at update h).state
        (kept_subscriber at update id s h found (ground arith)) soon

  -- After a device has subscribed to a module, an update of that module sends it the new value, if nothing but
  -- updates, of whatever modules, comes between, each at most ten minutes after the subscription; whatever it and
  -- the others listened for before, and whenever that update itself comes.
  pub subscribed-is_notified :
      (own : Uuid) (now later : ℕ) (m : Message N) (content : StatusCommand) (h : StatusState N)
      (between : List (ℕ × StatusMap N)) (v : Value N)
      → m.sender ≢ loopback_id
      → m.sender ≢ own
      → content.action ≡ set
      → All (λ e. e.0 - now ≤ inactivity) between
      → Memᴰ
          (notification ((content.query, v) ∷ []) m.sender)
          (handle_status_update later
            ((content.query, v) ∷ [])
            (after_updates between (handle_status_command own now m content h).state)).sent
  unfolding handle_status_update apply_update
  subscribed-is_notified own now later m content h between v away other sets soon =
      let s : Subscriber = subscribed content.query now (lookup m.sender h.subscribers) in
      let entered : lookup m.sender (handle_status_command own now m content h).state.subscribers
          ≡ some s =
        handle_status_command-subscribes own now m content h away other sets m.sender
        ∙ rw beq_self in
      let contact : s.last_contact ≡ now = contact-subscribed content.query now _ in
      let kept = kept_subscribers between m.sender s _ entered (rw contact soon) in
      Memᴰ-append _ _ (
        Memᴰ-append _ [] (
          notify_all-Memᴰ content.query v m.sender _ _ kept
            (contains-subscribed content.query now (lookup m.sender h.subscribers))))
