-- ===== src/Tests/Settings.antt =====
-- Tests of the configuration.
use Prim.Native.String.{◌++◌ as append}
use chik.Config.{bare}
use chik.Prelude.{
  String, [], arith, eq_iff, nat_eq, refl, some, string_eq, true, ℕ, ◌==◌, ◌||◌, ◌∷◌, ◌≡◌,
}
use chik.Config.{
  Config, Files, branch, entry, find, get_key, leaf, new_config, parse_config, put, set_key,
  split_dots, sync,
}
use chik.Config.Keys.{get_key-set_key, parted}
use chik.Config.Paths.{parse_config-last}
use chik.Prelude.Outcome.{ok}
use chik.Tests.Samples.{nat_numbers}

abbrev nested_key : String
nested_key = "sub.sub.key"

split_dots_test : split_dots nested_key ≡ "sub" ∷ "sub" ∷ "key" ∷ []
unfolding split_dots
split_dots_test = refl

abbrev some_config : Config ℕ
some_config = record new_config { entries = entry "key" (leaf 4) bare }

abbrev stored_config : Config ℕ
stored_config = record new_config {
  entries =
      entry "key" (leaf 4)
        (entry "sub" (branch (entry "sub" (branch (entry "key" (leaf 1) bare)) bare)) bare);
}

stored : set_key nested_key (leaf 1) some_config ≡ some stored_config
unfolding set_key split_dots find put
stored = refl

get_key-set_key_example :
    (get_key nested_key stored_config ≡ ok (leaf 1))
    × ((asked : String)
        → parted (split_dots asked) (split_dots nested_key) ≡ true
        → get_key asked stored_config ≡ get_key asked some_config)
get_key-set_key_example = get_key-set_key nested_key (leaf 1) some_config stored_config stored

-- Two of three folders have a file.
abbrev folders : Files
folders = record {
  is_abs = λ p. true;
  absolute = λ p. some p;
  clean = λ p. p;
  join = λ a b. append a (append "/" b);
  exists = λ p. p == "/a/config" || p == "/b/config";
}

abbrev searching : Config ℕ
searching = record new_config { search_paths = "/a" ∷ "/b" ∷ "/c" ∷ [] }

parse_config-last_example :
    (parse_config folders (λ p t. some t) searching
      ≡ (record searching { current_path = "/b" }, true))
    × (sync folders (parse_config folders (λ p t. some t) searching).0
        ≡ some (record {
          config = record searching { current_path = "/b" };
          moved = some ("/b/config", "/b/config.old");
          written = "/b/config";
        }))
parse_config-last_example =
    parse_config-last folders (λ p t. some t) searching refl (λ e. ground (arith, eq_iff "/b" ""))
      refl
