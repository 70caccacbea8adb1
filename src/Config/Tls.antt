-- ===== src/Config/Tls.antt =====
-- config/tls.go: the certificate of a client and its key, asked for with a token and kept in two files. The
-- libraries for tokens, certificates and the authority, and what the file system does, are an argument.
use chik.Prelude.Outcome.{◌>>=◌}
use chik.Prelude.{
  Bool, List, Option, String, [], false, if◌then◌else◌, nat_eq, none, not, some, string_eq, true, ℕ,
  ◌&&◌, ◌==◌, ◌||◌, ◌∷◌,
}
use chik.Json.Struct.{folded}
use chik.Prelude.Dict.{Dict, insert, lookup}
use chik.Prelude.Outcome.{Outcome, err, ok, panic}

abbrev pub cert_file : String
cert_file = "client.cert"

abbrev pub key_file : String
key_file = "client.key"

pub record TokenClaims : Type 0 where
  pub root_sha : String
  pub audience : List String

-- The content of a file: a key, or the certificates that were encoded into it.
pub data Kept (K C : Type 0) : Type 0 where
  kept_key : K → Kept K C
  kept_certificates : List C → Kept K C

abbrev pub PairFiles : Type 0 → Type 0 → Type 0
PairFiles K C = Dict String (Kept K C)

-- What is not the source's: tokens, requests Q, keys K, certificates C, and loaded pairs P. `none` and
-- `false` are errors; `run_renewer` says whether NewTLSRenewer and RunContext, whose error is not looked at, run on
-- a pair without a panic: they read its leaf, which a pair that was not loaded does not have.
pub record Authority (T Q K C P : Type 0) : Type 0 where
  pub parse_signed : String → Option T
  pub claims_of : T → Option TokenClaims
  pub new_client : (audience : String) (pair : Option P) (root_sha : String) → Bool
  pub create_sign_request : String → Option (Q × K)
  pub write_key : Bool
  pub sign : Q → Option (C × C)
  pub serialize : C → Bool
  pub create_file : Bool
  pub encode : ℕ → Bool
  pub load : PairFiles K C → P × Bool
  pub run_renewer : P → Bool
  pub renew : P → Option (C × C)

-- `strings.HasPrefix(strings.ToLower(text), "http")`.
abbrev starts_http : List ℕ → Bool
starts_http (a ∷ b ∷ c ∷ d ∷ rest) = (a == b'h' && b == b't') && (c == b't' && d == b'p')
starts_http _ = false

abbrev pub is_url : String → Bool
is_url text = starts_http (folded text)

abbrev pub guard : Bool → Outcome (Unit {0}) (Unit {0})
guard true = ok tt
guard false = err tt

abbrev pub needed : {A : Type 0} → Option A → Outcome (Unit {0}) A
needed none = err tt
needed (some a) = ok a

-- The check of the claims: the first audience is taken without a look at their number.
unfoldable pub validate : TokenClaims → Outcome (Unit {0}) TokenClaims
validate claims =
    if claims.root_sha == ""
    then err tt
    else elim claims.audience [ [] ↦ panic | url ∷ rest ↦ if is_url url then ok claims else err tt ]

abbrev pub first_audience : TokenClaims → String
first_audience claims = elim claims.audience [ [] ↦ "" | url ∷ rest ↦ url ]

module _ {T Q K C P : Type 0} (a : Authority T Q K C P) where
  unfoldable pub parse_token : String → Outcome (Unit {0}) TokenClaims
  unfolding validate
  parse_token token = do
    t ← needed (a.parse_signed token)
    claims ← needed (a.claims_of t)
    validate claims

  unfoldable pub has_local_key_pair : PairFiles K C → Bool
  unfolding lookup
  has_local_key_pair files =
      (elim (lookup cert_file files) [ none ↦ false | some f ↦ true ])
      && (elim (lookup key_file files) [ none ↦ false | some f ↦ true ])

  -- `saveCertificate`, with the files that it leaves.
  unfoldable pub save_certificate :
      (server ca : C) → PairFiles K C → Outcome (Unit {0}) (Unit {0}) × PairFiles K C
  unfolding insert
  save_certificate server ca files =
      if not (a.serialize server && a.serialize ca) || not a.create_file
      then (err tt, files)
      else if not (a.encode 0)
      then (err tt, insert cert_file (kept_certificates []) files)
      else if not (a.encode 1)
      then (err tt, insert cert_file (kept_certificates (server ∷ [])) files)
      else (ok tt, insert cert_file (kept_certificates (server ∷ ca ∷ [])) files)

  -- The files with a new key; an error is not looked at.
  abbrev pub with_key : K → PairFiles K C → PairFiles K C
  with_key key files = if a.write_key then insert key_file (kept_key key) files else files

  -- The part of `TLSConfig` that gets a certificate.
  unfoldable pub enrol :
      String → TokenClaims → PairFiles K C → Outcome (Unit {0}) (Unit {0}) × PairFiles K C
  unfolding save_certificate insert
  enrol token claims files =
      if not (a.new_client (first_audience claims) none claims.root_sha)
      then (err tt, files)
      else elim (a.create_sign_request token) [
        | none ↦ (err tt, files)
        | some (req, key) ↦ elim (a.sign req) [
          | none ↦ (err tt, with_key key files)
          | some (server, ca) ↦ save_certificate server ca (with_key key files)
        ]
      ]

  -- The rest of it, with the pair that was loaded: an error of the loading is not looked at.
  abbrev pub with_pair : TokenClaims → PairFiles K C → Outcome (Unit {0}) P
  with_pair claims files =
      let pair = (a.load files).0 in
      if a.new_client (first_audience claims) (some pair) claims.root_sha
      then (if a.run_renewer pair then ok pair else panic)
      else err tt

  abbrev pub finish_config :
      TokenClaims
      → Outcome (Unit {0}) (Unit {0}) × PairFiles K C
      → Outcome (Unit {0}) P × PairFiles K C
  finish_config claims (result, files) = elim result [
    | ok u ↦ (with_pair claims files, files)
    | err e ↦ (err e, files)
    | panic ↦ (panic, files)
  ]

  -- `TLSConfig`: the pair that its configuration presents, and the files.
  unfoldable pub tls_config :
      (current_path token : String) → PairFiles K C → Outcome (Unit {0}) P × PairFiles K C
  unfolding parse_token has_local_key_pair enrol
  tls_config current_path token files =
      if current_path == "" then (err tt, files) else elim (parse_token token) [
        | err e ↦ (err e, files)
        | panic ↦ (panic, files)
        | ok claims ↦
            if has_local_key_pair files
            then (with_pair claims files, files)
            else finish_config claims (enrol token claims files)
      ]

  -- `getRenewFunction`: an error of the writing is not looked at, but one of the loading is.
  unfoldable pub renew_certificate :
      TokenClaims → PairFiles K C → Outcome (Unit {0}) P × PairFiles K C
  unfolding save_certificate
  renew_certificate claims files =
      let pair = (a.load files).0 in
      if not (a.new_client (first_audience claims) (some pair) claims.root_sha)
      then (err tt, files)
      else elim (a.renew pair) [
        | none ↦ (err tt, files)
        | some (server, ca) ↦
            let files' = (save_certificate server ca files).1 in
            let (pair', loaded) = a.load files' in (if loaded then ok pair' else err tt, files')
      ]
