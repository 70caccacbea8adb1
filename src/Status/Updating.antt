-- ===== src/Status/Updating.antt =====
-- What a status update changes, and who hears of it.
use chik.Prelude.{
  All, Bool-cases, List, Option, String, [], ap, arith, contains, false, if◌then◌else◌, inl, inr,
  keep_if, map, nat_eq, refl, some, string_eq, ℕ, ◌++◌, ◌-◌, ◌==◌, ◌∙◌, ◌∷◌, ◌≡◌, ◌≤◌,
}
use chik.Controller.{Publication, loopback_id}
use chik.Json.{Value}
use chik.Messaging.{Uuid}
use chik.Prelude.Dict.{Dict, insert, lookup, lookup-insert}
use chik.Status.{
  StatusMap, StatusState, Subscriber, active_only, apply_update, handle_status_update, inactivity,
  is_inactive, notification, notify_all,
}

module _ {N : Type 0} where
  -- The value of a module after the entries of an update, of which the last counts.
  abbrev pub updated : String → StatusMap N → Option (Value N) → Option (Value N)
  updated query [] old = old
  updated query ((k, v) ∷ rest) old = updated query rest (if k == query then some v else old)

  -- What the entries of an update say to the subscribers: each entry to those that listen for it.
  abbrev pub heard_by : String → Value N → Dict Uuid Subscriber → List (Publication N)
  heard_by k v subscribers =
      map (λ e. notification ((k, v) ∷ []) e.0)
        (keep_if (λ e. contains k e.1.listeners) subscribers)

  abbrev pub announced : StatusMap N → Dict Uuid Subscriber → List (Publication N)
  announced [] subscribers = []
  announced ((k, v) ∷ rest) subscribers = heard_by k v subscribers ++ announced rest subscribers

  notify_all-heard_by :
      (k : String) (v : Value N) (subscribers : Dict Uuid Subscriber)
      → notify_all k v subscribers ≡ heard_by k v subscribers
  unfolding notify_all
  notify_all-heard_by k v [] = refl
  notify_all-heard_by k v ((id, s) ∷ rest) = elim (Bool-cases (contains k s.listeners)) [
    | inl listens ↦ rw listens (rw (notify_all-heard_by k v rest))
    | inr deaf ↦ rw deaf (notify_all-heard_by k v rest)
  ]

  pub apply_update_lem :
      (update : StatusMap N) (h : StatusState N)
      → ((apply_update update h).1 ≡ announced update h.subscribers)
        × ((apply_update update h).0.subscribers ≡ h.subscribers)
  unfolding apply_update
  apply_update_lem [] h = (refl, refl)
  apply_update_lem ((k, v) ∷ rest) h =
      let ih = apply_update_lem rest (record h { current_status = insert k v h.current_status }) in
      (rw (notify_all-heard_by k v h.subscribers, ih.0), ih.1)

  lookup-apply_update :
      (query : String) (update : StatusMap N) (h : StatusState N)
      → lookup query (apply_update update h).0.current_status
        ≡ updated query update (lookup query h.current_status)
  unfolding apply_update
  lookup-apply_update query [] h = refl
  lookup-apply_update query ((k, v) ∷ rest) h =
      let ih =
        lookup-apply_update query rest
          (record h { current_status = insert k v h.current_status }) in
      ih ∙ ap (updated query rest) (lookup-insert k query v h.current_status)

  -- An update sends each of its entries to exactly the subscribers that listen for the entry's module,
  -- and then the whole new status on the loopback.
  pub handle_status_update-sent :
      (now : ℕ) (update : StatusMap N) (h : StatusState N)
      → (handle_status_update now update h).sent
        ≡ announced update h.subscribers
          ++ notification (handle_status_update now update h).state.current_status loopback_id ∷ []
  unfolding handle_status_update
  handle_status_update-sent now update h = rw (apply_update_lem update h).0

  -- The status of a module is the last value that the update has for it, and the old one if it has none.
  pub lookup-handle_status_update :
      (now : ℕ) (query : String) (update : StatusMap N) (h : StatusState N)
      → lookup query (handle_status_update now update h).state.current_status
        ≡ updated query update (lookup query h.current_status)
  unfolding handle_status_update
  lookup-handle_status_update now query update h = lookup-apply_update query update h

active_only-All :
    (now : ℕ) (subscribers : Dict Uuid Subscriber)
    → All (λ e. now - e.1.last_contact ≤ inactivity) (active_only now subscribers)
active_only-All now [] = tt
active_only-All now ((id, s) ∷ rest) = elim (Bool-cases (is_inactive now s)) [
  | inl silent ↦ rw silent (active_only-All now rest)
  | inr active ↦ rw active (ground arith, active_only-All now rest)
]

pub lookup-active_only :
    (now : ℕ) (id : Uuid) (s : Subscriber) (subscribers : Dict Uuid Subscriber)
    → lookup id subscribers ≡ some s
    → is_inactive now s ≡ false
    → lookup id (active_only now subscribers) ≡ some s
unfolding lookup
lookup-active_only now id s [] found active = cc
lookup-active_only now id s ((j, t) ∷ rest) found active =
    ground (arith, lookup-active_only now id s rest)

module _ {N : Type 0} where
  -- After an update that has an entry, every subscriber that is left was heard of in the last ten
  -- minutes, and no such subscriber was lost.
  pub handle_status_update-prunes :
      (now : ℕ) (k : String) (v : Value N) (rest : StatusMap N) (h : StatusState N)
      → All
          (λ e. now - e.1.last_contact ≤ inactivity)
          (handle_status_update now ((k, v) ∷ rest) h).state.subscribers
        × ((id : Uuid) (s : Subscriber)
            → lookup id h.subscribers ≡ some s
            → now - s.last_contact ≤ inactivity
            → lookup id (handle_status_update now ((k, v) ∷ rest) h).state.subscribers ≡ some s)
  unfolding handle_status_update
  handle_status_update-prunes now k v rest h = rw (apply_update_lem ((k, v) ∷ rest) h).1 (
    active_only-All now h.subscribers,
    λ id s found recent. lookup-active_only now id s h.subscribers found (ground arith),
  )
