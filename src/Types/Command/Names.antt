-- ===== src/Types/Command/Names.antt =====
-- The topic names of the generated table.
use chik.Prelude.{
  Bool, Bool-cases, List, String, [], arith, eq_iff, every_below, every_below_sound, false,
  get_elem?, inl, inr, length, ltb, ltb→lt, nat_beq, nat_eq, none, not, refl, some, string_eq, suc,
  true, zero, ℕ, ◌<◌, ◌==◌, ◌||◌, ◌∷◌, ◌≡◌, ◌≢◌, ◌≤◌,
}
use chik.Types.Command.{CommandType, topic_of}

-- The names as types/commands.go declares them, in the order of `iota`.
abbrev declared_names : List String
declared_names =
    "HeartbeatType" ∷ "DigitalCommandType" ∷ "AnalogCommandType" ∷ "StatusCommandType"
    ∷ "StatusNotificationCommandType" ∷ "VersionRequestCommandType" ∷ "VersionReplyCommandType"
    ∷ "ActionRequestCommandType" ∷ "ActionReplyCommandType" ∷ "StatusUpdateCommandType"
    ∷ "NullCommandType" ∷ "TelegramNotificationCommandType" ∷ "SystemdRequestCommandType"
    ∷ "SystemdReplyCommandType" ∷ "SnapcastManagerCommandType" ∷ "SnapcastClientCommandType"
    ∷ "SnapcastGroupCommandType" ∷ "AnyIncomingCommandType" ∷ "AnyOutgoingCommandType"
    ∷ "RemoteStopCommandType" ∷ "messageBound" ∷ []

abbrev is_named : ℕ → Bool
is_named t = elim (get_elem? declared_names t) [ none ↦ false | some s ↦ topic_of t == s ]

get_elem?-past : (xs : List String) (i : ℕ) → length xs ≤ i → get_elem? xs i ≡ none
get_elem?-past [] i h = refl
get_elem?-past (x ∷ xs) zero h = absurd (omega arith)
get_elem?-past (x ∷ xs) (suc i) h = get_elem?-past xs i (omega arith)

names_table : every_below is_named 21 ≡ true
unfolding every_below topic_of
names_table = refl

-- The table gives every declared command type the name of its constant.
pub topic_of-declared :
    (t : CommandType) (s : String) → get_elem? declared_names t ≡ some s → topic_of t ≡ s
topic_of-declared t s h = elim (Bool-cases (ltb t 21)) [
  | inl low ↦
      (eq_iff _ _).0 (ground (arith, every_below_sound is_named 21 t (ltb→lt t 21 low) names_table))
  | inr high ↦ cc (h, get_elem?-past declared_names t (ground arith))
]

abbrev told_apart : ℕ → ℕ → Bool
told_apart s t = nat_beq s t || not (topic_of s == topic_of t)

pairs_table : every_below (λ s. every_below (told_apart s) 256) 256 ≡ true
unfolding every_below topic_of
pairs_table = refl

pub topic_of_inj : (s t : CommandType) → s < 256 → t < 256 → topic_of s ≡ topic_of t → s ≡ t
topic_of_inj s t hs ht e =
    let row = every_below_sound (λ a. every_below (told_apart a) 256) 256 s hs pairs_table in
    let cell = every_below_sound (told_apart s) 256 t ht row in
    ground (arith, cell, eq_iff (topic_of s) (topic_of t))

-- Different command types, of the 256 that fit a uint8, have different topics.
pub topic_of_distinct : (s t : CommandType) → s < 256 → t < 256 → s ≢ t → topic_of s ≢ topic_of t
topic_of_distinct s t hs ht differ e = differ (topic_of_inj s t hs ht e)
