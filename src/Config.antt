-- ===== src/Config.antt =====
-- config/config.go: the configuration, a tree of maps addressed by keys with dots.
pub mod Keys
pub mod Paths
pub mod Tls
pub mod Pairs
use Prim.Native.String.{◌++◌ as append}
use Prim.Native.Char.{Char}
use Prim.Native.Char.{code}
use chik.Prelude.{
  Bool, List, Option, String, [], false, if◌then◌else◌, nat_eq, none, some, string_eq, true, ◌++◌,
  ◌==◌, ◌∷◌,
}
use chik.Prelude.Outcome.{Outcome, ok, panic}

mutual
  -- `nil`, a map[string]interface{}, a map of another Go type, or another value.
  pub data Tree (V : Type 0) : Type 0 where
    nil : Tree V
    branch : Branches V → Tree V
    foreign : V → Tree V
    leaf : V → Tree V

  pub data Branches (V : Type 0) : Type 0 where
    bare : Branches V
    entry : String → Tree V → Branches V → Branches V

-- `strings.Split` by dots.
abbrev pub with_letter : Char → List String → List String
with_letter c [] = String.◌∷◌ c "" ∷ []
with_letter c (word ∷ words) = String.◌∷◌ c word ∷ words

unfoldable pub split_dots : String → List String
split_dots String.[] = "" ∷ []
split_dots (String.◌∷◌ c text) =
    let words = split_dots text in if code c == b'.' then "" ∷ words else with_letter c words

module _ {V : Type 0} where
  -- A missing key gives nil.
  unfoldable pub find : String → Branches V → Tree V
  find k bare = nil
  find k (entry j t rest) = if j == k then t else find k rest

  unfoldable pub put : String → Tree V → Branches V → Branches V
  put k new bare = entry k new bare
  put k new (entry j t rest) = if j == k then entry k new rest else entry j t (put k new rest)

  -- The loop of `Get`; a map of another type panics unless the key ends there.
  unfoldable pub get_at : List String → Branches V → Outcome (Unit {0}) (Tree V)
  get_at [] sector = ok nil
  get_at (k ∷ []) sector = ok (find k sector)
  get_at (k ∷ j ∷ keys) sector = elim (find k sector) [
    | nil ↦ ok nil
    | branch b ↦ get_at (j ∷ keys) b
    | foreign v ↦ panic
    | leaf v ↦ ok nil
  ]

  -- The loop of `Set`, which makes the maps that are missing and panics on another value.
  unfoldable pub set_at : List String → Tree V → Branches V → Option (Branches V)
  set_at [] new sector = some sector
  set_at (k ∷ []) new sector = some (put k new sector)
  set_at (k ∷ j ∷ keys) new sector = elim (find k sector) [
    | nil ↦ elim (set_at (j ∷ keys) new bare) [
      | none ↦ none
      | some b' ↦ some (put k (branch b') sector)
    ]
    | branch b ↦ elim (set_at (j ∷ keys) new b) [
      | none ↦ none
      | some b' ↦ some (put k (branch b') sector)
    ]
    | foreign v ↦ none
    | leaf v ↦ none
  ]

-- The package's state.
pub record Config (V : Type 0) : Type 0 where
  pub search_paths : List String
  pub current_path : String
  pub file_name : String
  pub entries : Branches V

module _ {V : Type 0} where
  -- `new`.
  abbrev pub new_config : Config V
  new_config = record { search_paths = []; current_path = ""; file_name = "config"; entries = bare }

  -- `SetConfigFileName`.
  abbrev pub set_config_file_name : String → Config V → Config V
  set_config_file_name name conf = record conf { file_name = name }

  -- `Get`.
  unfoldable pub get_key : String → Config V → Outcome (Unit {0}) (Tree V)
  unfolding get_at
  get_key key conf = get_at (split_dots key) conf.entries

  -- `Set`.
  unfoldable pub set_key : String → Tree V → Config V → Option (Config V)
  unfolding set_at
  set_key key new conf = elim (set_at (split_dots key) new conf.entries) [
    | none ↦ none
    | some entries ↦ some (record conf { entries = entries })
  ]

-- What the package asks of path/filepath and of the file system.
pub record Files : Type 0 where
  pub is_abs : String → Bool
  pub absolute : String → Option String
  pub clean : String → String
  pub join : String → String → String
  pub exists : String → Bool

-- The files that `Sync` touches: one moved aside, and one written.
pub record Synced (V : Type 0) : Type 0 where
  pub config : Config V
  pub moved : Option (String × String)
  pub written : String

-- The loop of `ParseConfig`, from a path found so far.
unfoldable pub scan : (files : Files) → String → List String → String → String
scan files name [] found = found
scan files name (path ∷ paths) found =
    scan files name paths (if files.exists (files.join path name) then path else found)

module _ {V : Type 0} (files : Files) where
  -- `AddSearchPath`. The absolute form of a relative path is bound to a variable of the inner block, and
  -- is lost; `none` is an error.
  unfoldable pub add_search_path : String → Config V → Option (Config V)
  add_search_path path conf =
      let cleaned : Option String =
        if files.is_abs path
        then some (files.clean path)
        else elim (files.absolute path) [ none ↦ none | some p ↦ some path ] in
      elim cleaned [
        | none ↦ none
        | some p ↦
            if files.exists p
            then some (record conf { search_paths = conf.search_paths ++ p ∷ [] })
            else none
      ]

  -- `ParseConfig`; `parse` reads a file into the map that is there, or fails. The Boolean says that there is no error.
  unfoldable pub parse_config :
      (parse : String → Branches V → Option (Branches V)) → Config V → Config V × Bool
  unfolding scan
  parse_config parse conf =
      let path = scan files conf.file_name conf.search_paths "" in
      let moved : Config V = record conf { current_path = path } in
      if path == ""
      then (moved, false)
      else elim (parse (files.join path conf.file_name) conf.entries) [
        | none ↦ (moved, false)
        | some tree ↦ (record moved { entries = tree }, true)
      ]

  -- `Sync`, up to the writing of the file; `none` is the error that there is no path.
  unfoldable pub sync : Config V → Option (Synced V)
  sync conf =
      let old = files.join conf.current_path (append conf.file_name ".old") in
      if conf.current_path == ""
      then elim conf.search_paths [
        | [] ↦ none
        | path ∷ paths ↦ some (record {
          config = record conf { current_path = path };
          moved = none;
          written = files.join path conf.file_name;
        })
      ]
      else some (record {
        config = conf;
        moved = some (files.join conf.current_path conf.file_name, old);
        written = files.join conf.current_path conf.file_name;
      })
