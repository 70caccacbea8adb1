-- ===== src/Snapcast/Streams.antt =====
-- What a change of a stream does to the status.
use chik.Snapcast.Requests.{Server}
use chik.Snapcast.Events.{handle_channel_event}
use chik.Prelude.{
  Bool-cases, Eq, List, [], any_of, arith, beq_self, false, if◌then◌else◌, inl, inr, map, nat_eq,
  refl, some, string_eq, ◌==◌, ◌∷◌, ◌≡◌,
}
use chik.Json.{Value}
use chik.Prelude.Outcome.{ok, panic}
use chik.Snapcast.Events.{on_stream_changed, on_update, restream}
use chik.Snapcast.Requests.{Snapcast, SnapcastStatus, full, simplified}
use chik.Snapcast.Structs.{
  GroupStreamChanged, ServerStatus, SimplifiedGroup, SimplifiedServerStatus,
}
use chik.StatusHolder.{StatusHolder, edit, emit_status_changed, status-set_status}

-- The groups with the streams that a change leaves them.
abbrev pub stream_after : GroupStreamChanged → SimplifiedGroup → SimplifiedGroup
stream_after changed g =
    if g.id == changed.id then record g { stream_id = changed.stream_id } else g

restream_lem :
    (changed : GroupStreamChanged) (groups : List SimplifiedGroup)
    → (restream changed groups).0 ≡ map (stream_after changed) groups
unfolding restream
restream_lem changed [] = refl
restream_lem changed (g ∷ groups) = ground (arith, restream_lem changed groups)

restream_force :
    (changed : GroupStreamChanged) (groups : List SimplifiedGroup)
    → (restream changed groups).1 ≡ any_of (λ g. g.id == changed.id) groups
unfolding restream
restream_force changed [] = refl
restream_force changed (g ∷ groups) = ground (arith, restream_force changed groups)

restream_none :
    (changed : GroupStreamChanged) (groups : List SimplifiedGroup)
    → any_of (λ g. g.id == changed.id) groups ≡ false
    → map (stream_after changed) groups ≡ groups
restream_none changed [] apart = refl
restream_none changed (g ∷ groups) apart = ground (arith, restream_none changed groups)

abbrev pub restreamed : GroupStreamChanged → SimplifiedServerStatus → SnapcastStatus
restreamed changed current =
    simplified (record current { groups = map (stream_after changed) current.groups })

module _ {N R : Type 0} ⦃keys : Eq SnapcastStatus⦄ (server : Server R)
    (to_value : SnapcastStatus → Value N) where
  edit-restreamed :
      (changed : GroupStreamChanged) (current : SimplifiedServerStatus)
      (s : StatusHolder SnapcastStatus)
      → s.status ≡ some (simplified current)
      → (let new : SnapcastStatus =
            simplified (record current { groups = (restream changed current.groups).0 }) in
          let r = edit to_value (λ old. (new, (restream changed current.groups).1)) s in
          (r.0.status ≡ some (restreamed changed current))
          × (r.1 ≡ (
              if any_of (λ g. g.id == changed.id) current.groups
              then emit_status_changed to_value s.module_name (restreamed changed current) ∷ []
              else [])))
  unfolding edit
  edit-restreamed changed current s known =
      rw (restream_lem changed current.groups, restream_force changed current.groups)
        (elim (Bool-cases (any_of (λ g. g.id == changed.id) current.groups)) [
          | inl there ↦ rw there (refl, refl)
          | inr apart ↦
              rw (apart, restream_none changed current.groups apart)
                (ground (arith, known, beq_self ⦃keys = keys⦄ (simplified current)))
        ])

  -- A change of a stream, where the status is the one that a connection sets: every group of the identifier
  -- gets the stream and no other group changes, and the new status is published once, or not at all if
  -- there is no such group. But after an update of the server, whatever the state before it, any change of
  -- a stream makes the handler panic.
  pub stream_changes :
      (changed : GroupStreamChanged) (current : SimplifiedServerStatus) (update : ServerStatus)
      (h : Snapcast)
      → h.status.status ≡ some (simplified current)
      → (let event = handle_channel_event server to_value in
          let r = event (on_stream_changed (some changed)) h in
          ((r.result ≡ ok tt)
            × (r.state.status.status ≡ some (restreamed changed current))
            × (r.sent ≡ (
                if any_of (λ g. g.id == changed.id) current.groups
                then emit_status_changed to_value h.status.module_name (restreamed changed current)
                  ∷ []
                else []))
            × (r.state.requests ≡ h.requests))
          × ((event
                (on_stream_changed (some changed))
                (event (on_update (some update)) h).state).result
              ≡ panic))
  unfolding handle_channel_event
  stream_changes changed current update h known =
      let (status, sent) = edit-restreamed changed current h.status known in
      let after_update = status-set_status to_value (full update) h.status in
      (
        (
          ground (arith, known),
          ground (arith, known, status),
          ground (arith, known, sent),
          ground (arith, known),
        ),
        ground (arith, after_update),
      )
