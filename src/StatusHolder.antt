-- ===== src/StatusHolder.antt =====
-- handler.go, `StatusHolder`: the status of a handler, published when it changes. `reflect.DeepEqual`
-- is the equality of the status type; before the first status there is none (nil).
use mathlib.Core.Option
use chik.Prelude.{
  Bool, Bool-cases, Eq, List, Option, Option-cases, String, [], arith, false, if◌then◌else◌, inl,
  inr, map, nat_eq, none, not, refl, some, string_eq, true, ◌&&◌, ◌++◌, ◌==◌, ◌∷◌, ◌≡◌, ◌⊎◌,
}
use chik.Controller.{Publication, loopback_id, publish}
use chik.Json.{Value, end, field, obj}
use chik.Types.Command.{new_command, status_update_command_type}

pub record StatusHolder (A : Type 0) : Type 0 where
  pub status : Option A
  pub module_name : String

module _ {A : Type 0} where
  unfoldable pub new_status_holder : String → StatusHolder A
  new_status_holder name = record { status = none; module_name = name }

  -- The holder's status against a new one.
  abbrev pub is_status : ⦃keys : Eq A⦄ → A → StatusHolder A → Bool
  is_status new s = elim s.status [ none ↦ false | some old ↦ old == new ]

module _ {A : Type 0} ⦃keys : Eq A⦄ where
  -- The statuses that differ from the one before, the first from `old`.
  unfoldable pub changes : Option A → List A → List A
  changes old [] = []
  changes old (a ∷ rest) =
      let more = changes (some a) rest in
      if (elim old [ none ↦ false | some b ↦ b == a ]) then more else a ∷ more

module _ {N A : Type 0} (to_value : A → Value N) where
  -- `emitStatusChanged`: an internal status update with the handler's name as its only key.
  unfoldable pub emit_status_changed : String → A → Publication N
  emit_status_changed name new =
      publish (new_command status_update_command_type (obj (field name (to_value new) end)))
        loopback_id

  -- A changed status is stored and published.
  unfoldable pub change_to : A → StatusHolder A → StatusHolder A × List (Publication N)
  change_to new s = (record s { status = some new }, emit_status_changed s.module_name new ∷ [])

-- The last of a list, or what there was before it.
abbrev pub latest : {P : Type 0} → Option P → List P → Option P
latest before [] = before
latest before (p ∷ ps) = latest (some p) ps

pub latest-append :
    {P : Type 0} (before : Option P) (ps qs : List P)
    → latest before (ps ++ qs) ≡ latest (latest before ps) qs
latest-append before [] qs = refl
latest-append before (p ∷ ps) qs = latest-append (some p) ps qs

module _ {N A : Type 0} ⦃keys : Eq A⦄ (to_value : A → Value N) where
  -- `Set`.
  unfoldable pub set_status : A → StatusHolder A → StatusHolder A × List (Publication N)
  unfolding change_to
  set_status new s = if is_status new s then (s, []) else change_to to_value new s

  -- `Edit`: the edit function sees the old status and may force the change.
  unfoldable pub edit :
      (Option A → A × Bool) → StatusHolder A → StatusHolder A × List (Publication N)
  unfolding change_to
  edit change s =
      let (new, force) = change s.status in
      if not force && is_status new s then (s, []) else change_to to_value new s

  -- The statuses given one after the other.
  unfoldable pub set_all : List A → StatusHolder A → StatusHolder A × List (Publication N)
  set_all [] s = (s, [])
  set_all (a ∷ rest) s =
      let (s', sent) = set_status a s in let (s'', more) = set_all rest s' in (s'', sent ++ more)

  set_status_same :
      (a : A) (s : StatusHolder A)
      → is_status a s ≡ true
      → (set_status a s ≡ (s, [])) × (s.status ≡ some a)
  unfolding set_status
  set_status_same a s same = elim (Option-cases s.status) [
    | inl fresh ↦ absurd (ground arith)
    | inr (b, known) ↦ (rw same, ground (arith, keys.same_iff b a))
  ]

  set_all-cons :
      (a : A) (rest : List A) (s : StatusHolder A)
      → (set_all rest (set_status a s).0).1
        ≡ map (emit_status_changed to_value s.module_name) (changes (some a) rest)
      → (set_all (a ∷ rest) s).1
        ≡ map (emit_status_changed to_value s.module_name) (changes s.status (a ∷ rest))
  unfolding set_all changes
  set_all-cons a rest s ih = elim (Bool-cases (is_status a s)) [
    | inl same ↦ rw (same, ← ih) (rw (set_status_same a s same).0)
    | inr other ↦ rw (other, ← ih) (unfold set_status in rw other)
  ]

  pub module-set_status :
      (a : A) (s : StatusHolder A) → (set_status a s).0.module_name ≡ s.module_name
  unfolding set_status
  module-set_status a s = ground arith

  pub status-set_status : (a : A) (s : StatusHolder A) → (set_status a s).0.status ≡ some a
  status-set_status a s = elim (Bool-cases (is_status a s)) [
    | inl same ↦ rw (set_status_same a s same).0 (set_status_same a s same).1
    | inr other ↦ unfold set_status in rw other
  ]

  -- Whether it publishes or not, what was published last is the status, if this was so before.
  pub latest-set_status :
      (before : Option (Publication N)) (a : A) (s : StatusHolder A)
      → before ≡ Option.map (emit_status_changed to_value s.module_name) s.status
      → latest before (set_status a s).1 ≡ some (emit_status_changed to_value s.module_name a)
  latest-set_status before a s shown = elim (Bool-cases (is_status a s)) [
    | inl same ↦ let (kept, known) = set_status_same a s same in rw (kept, shown, known) refl
    | inr other ↦ unfold set_status in rw other refl
  ]

  -- Over any sequence of statuses the holder publishes exactly the changes, each once and in order.
  pub set_all-changes :
      (new : List A) (s : StatusHolder A)
      → (set_all new s).1 ≡ map (emit_status_changed to_value s.module_name) (changes s.status new)
  set_all-changes [] s = unfold set_all changes in refl
  set_all-changes (a ∷ rest) s = set_all-cons a rest s (
      let ih = set_all-changes rest (set_status a s).0 in
      rw (module-set_status a s, status-set_status a s) at ih)

  -- An edit that neither forces nor changes anything publishes nothing and keeps the holder; any other
  -- stores what the edit function returned and publishes it once.
  pub edit_cases :
      (change : Option A → A × Bool) (s : StatusHolder A)
      → ((edit change s ≡ (s, []))
          × ((change s.status).1 ≡ false)
          × (s.status ≡ some (change s.status).0))
        ⊎ ((edit change s).0.status ≡ some (change s.status).0)
          × ((edit change s).1
              ≡ emit_status_changed to_value s.module_name (change s.status).0 ∷ [])
  unfolding edit
  edit_cases change s = elim (Bool-cases (change s.status).1) [
    | inl forced ↦ inr (rw forced (refl, refl))
    | inr free ↦ elim (Bool-cases (is_status (change s.status).0 s)) [
      | inl same ↦ inl (rw (free, same) refl, free, (set_status_same (change s.status).0 s same).1)
      | inr other ↦ inr (rw (free, other) (refl, refl))
    ]
  ]
