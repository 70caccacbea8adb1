-- ===== src/Config/Paths.antt =====
-- Where the configuration is looked for and written.
use Prim.Native.String.{◌++◌ as append}
use chik.Prelude.{
  List, Option, String, [], arith, eq_iff, if◌then◌else◌, none, refl, some, true, ◌∷◌, ◌≡◌, ◌≢◌,
}
use chik.Config.{Branches, Config, Files, parse_config, scan, sync}

module _ (files : Files) where
  -- The last of the paths that has the file.
  abbrev pub last_with : String → List String → Option String
  last_with name [] = none
  last_with name (path ∷ paths) =
      let later = last_with name paths in
      elim later [
        | some p ↦ some p
        | none ↦ if files.exists (files.join path name) then some path else none
      ]

  scan_lem :
      (name found : String) (paths : List String)
      → scan files name paths found ≡ elim (last_with name paths) [ none ↦ found | some p ↦ p ]
  unfolding scan
  scan_lem name found [] = refl
  scan_lem name found (path ∷ paths) =
      let ih = scan_lem name (if files.exists (files.join path name) then path else found) paths in
      ground (arith, ih)

module _ {V : Type 0} (files : Files) (parse : String → Branches V → Option (Branches V)) where
  -- Of several search paths that have the file the last one is read, if it is not the empty path and its
  -- file parses, and it is the one where `Sync` then writes, after it has moved the old file aside.
  pub parse_config-last :
      (conf : Config V) {path : String} {entries : Branches V}
      → last_with files conf.file_name conf.search_paths ≡ some path
      → path ≢ ""
      → parse (files.join path conf.file_name) conf.entries ≡ some entries
      → (parse_config files parse conf
          ≡ (record conf { current_path = path; entries = entries }, true))
        × (sync files (parse_config files parse conf).0
            ≡ some (record {
              config = record conf { current_path = path; entries = entries };
              moved =
                  some (
                    files.join path conf.file_name,
                    files.join path (append conf.file_name ".old"),
                  );
              written = files.join path conf.file_name;
            }))
  parse_config-last conf {path} {entries} chosen full parsed = (read_so, rw read_so written)
    where
      read_so :
          parse_config files parse conf
          ≡ (record conf { current_path = path; entries = entries }, true)
      read_so =
          let found = scan_lem files conf.file_name "" conf.search_paths in
          unfold parse_config in ground (arith, found, eq_iff path "")

      written :
          sync files (record conf { current_path = path; entries = entries })
          ≡ some (record {
            config = record conf { current_path = path; entries = entries };
            moved =
                some
                  (files.join path conf.file_name, files.join path (append conf.file_name ".old"));
            written = files.join path conf.file_name;
          })
      written = unfold sync in ground (arith, eq_iff path "")
