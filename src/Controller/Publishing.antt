-- ===== src/Controller/Publishing.antt =====
-- Which handlers a publication reaches.
use chik.Prelude.{
  All, Bool, List, String, [], any_of, arith, contains, eq_iff, every_below, every_below_sound,
  false, length, map, nat_eq, not, refl, replicate, string_eq, suc, true, zero, ℕ, ◌++◌, ◌<◌, ◌==◌,
  ◌∷◌, ◌≡◌, ◌≢◌,
}
use chik.Controller.{Publication, loopback_id, publish, topics_as_strings}
use chik.Messaging.{Uuid}
use chik.Types.Command.{Command, CommandType, any_outgoing_command_type, topic_of}
use chik.Types.Command.Names.{topic_of_inj}

module _ {N : Type 0} where
  -- The broker hands a publication to the subscribers of its topics.
  unfoldable pub delivered : List String → Publication N → Bool
  delivered subscribed p = any_of (λ t. contains t subscribed) p.topics

topic_of-ne-empty : every_below (λ t. not (topic_of t == "")) 256 ≡ true
unfolding every_below topic_of
topic_of-ne-empty = refl

contains-topics :
    (t : CommandType) (ts : List CommandType)
    → t < 256
    → All (λ u. u < 256) ts
    → contains (topic_of t) (map topic_of ts) ≡ contains t ts
contains-topics t [] h hs = refl
contains-topics t (u ∷ ts) h (hu, hs) =
    ground
      (arith, contains-topics t ts h hs, eq_iff (topic_of u) (topic_of t), topic_of_inj u t hu h)

contains-padding :
    (s : String) (n : ℕ) (xs : List String)
    → (s == "") ≡ false
    → contains s (replicate n "" ++ xs) ≡ contains s xs
contains-padding s zero xs h = refl
contains-padding s (suc n) xs h =
    ground (arith, contains-padding s n xs h, eq_iff "" s, eq_iff s "")

topic_of-nonempty : (t : CommandType) → t < 256 → (topic_of t == "") ≡ false
topic_of-nonempty t h =
    ground (arith, every_below_sound (λ u. not (topic_of u == "")) 256 t h topic_of-ne-empty)

-- A handler that subscribed to its command types receives an internal command exactly when the
-- command's type is one of them; the empty topics that it subscribes to besides bring nothing.
pub delivered-publish_loopback :
    {N : Type 0} (ts : List CommandType) (c : Command N)
    → c.kind < 256
    → All (λ t. t < 256) ts
    → delivered (topics_as_strings ts) (publish c loopback_id) ≡ contains c.kind ts
unfolding delivered publish topics_as_strings
delivered-publish_loopback ts c h hs = ground (
  arith,
  contains-padding (topic_of c.kind) (length ts) (map topic_of ts) (topic_of-nonempty c.kind h),
  contains-topics c.kind ts h hs,
)

-- A command for another device reaches exactly the subscribers of the outgoing topic, whatever its
-- type.
pub delivered-publish_outgoing :
    {N : Type 0} (ts : List CommandType) (c : Command N) (receiver : Uuid)
    → receiver ≢ loopback_id
    → All (λ t. t < 256) ts
    → delivered (topics_as_strings ts) (publish c receiver) ≡ contains any_outgoing_command_type ts
unfolding delivered publish topics_as_strings
delivered-publish_outgoing ts c receiver away hs = ground (
  arith,
  contains-padding (topic_of any_outgoing_command_type) (length ts) (map topic_of ts)
      (topic_of-nonempty any_outgoing_command_type (omega arith)),
  contains-topics any_outgoing_command_type ts (omega arith) hs,
)
