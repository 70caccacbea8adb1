-- ===== src/Config/Pairs.antt =====
-- What an enrolment that fails leaves for the next start.
use chik.Prelude.{
  Bool, Bool-cases, List, Option-cases, [], arith, false, if◌then◌else◌, inl, inr, length, nat_eq,
  not, refl, some, string_eq, true, ◌&&◌, ◌||◌, ◌∷◌, ◌≡◌, ◌≤◌, ◌⊎◌,
}
use chik.Config.Tls.{
  Authority, Kept, PairFiles, TokenClaims, cert_file, first_audience, kept_certificates,
  renew_certificate, save_certificate,
}
use chik.Prelude.Dict.{lookup, lookup-insert}
use chik.Prelude.Outcome.{err, ok}

module _ {T Q K C P : Type 0} (a : Authority T Q K C P) where
  -- The certificate of an earlier time, or a file that was not written to its end.
  abbrev pub IsStale : PairFiles K C → PairFiles K C → Type 0
  IsStale files files' =
      (lookup cert_file files' ≡ lookup cert_file files)
      ⊎ ((cs : List C) × (lookup cert_file files' ≡ some (kept_certificates cs)) × (length cs ≤ 1))

  save_certificate_fails :
      (server ca : C) (files : PairFiles K C)
      → (save_certificate a server ca files).0 ≡ err tt
      → IsStale files (save_certificate a server ca files).1
  unfolding save_certificate
  save_certificate_fails server ca files fails =
      elim (Bool-cases (not (a.serialize server && a.serialize ca) || not a.create_file)) [
        | inl unmade ↦ inl (ground arith)
        | inr made ↦ elim (Bool-cases (a.encode 0)) [
          | inr cut ↦ inr (
            [],
            ground (arith, lookup-insert cert_file cert_file (kept_certificates []) files),
            omega arith,
          )
          | inl first ↦ elim (Bool-cases (a.encode 1)) [
            | inr cut ↦ inr (
              server ∷ [],
              ground (
                arith,
                lookup-insert cert_file cert_file (kept_certificates (server ∷ [])) files,
              ),
              omega arith,
            )
            | inl both ↦ absurd (ground arith)
          ]
        ]
      ]

  loaded_pair :
      (l : P × Bool) (pair : P)
      → (if l.1 then ok l.0 else err (tt {0})) ≡ ok pair
      → l ≡ (pair, true)
  loaded_pair (p, true) pair got = ground (arith, got)
  loaded_pair (p, false) pair got = absurd (ground (arith, got))

  save_certificate_leaves :
      (server ca : C) (files : PairFiles K C)
      → IsStale files (save_certificate a server ca files).1
        ⊎ (lookup cert_file (save_certificate a server ca files).1
            ≡ some (kept_certificates (server ∷ ca ∷ [])))
  unfolding save_certificate
  save_certificate_leaves server ca files =
      elim (Bool-cases (not (a.serialize server && a.serialize ca) || not a.create_file)) [
        | inl unmade ↦ inl (save_certificate_fails server ca files (ground arith))
        | inr made ↦ elim (Bool-cases (a.encode 0 && a.encode 1)) [
          | inr cut ↦ inl (save_certificate_fails server ca files (ground arith))
          | inl complete ↦
              let kept : Kept K C = kept_certificates (server ∷ ca ∷ []) in
              inr (ground (arith, lookup-insert cert_file cert_file kept files))
        ]
      ]

  -- A renewal leaves a certificate that is the earlier one or cut off, or the two certificates that the
  -- authority sent, and a pair that it answers with is the one that is then in the files.
  pub renew_certificate_leaves :
      (claims : TokenClaims) (files : PairFiles K C)
      → (IsStale files (renew_certificate a claims files).1
          ⊎ ((server : C) × (ca : C) × (a.renew (a.load files).0 ≡ some (server, ca))
              × (lookup cert_file (renew_certificate a claims files).1
                  ≡ some (kept_certificates (server ∷ ca ∷ [])))))
        × ((pair : P)
            → (renew_certificate a claims files).0 ≡ ok pair
            → a.load (renew_certificate a claims files).1 ≡ (pair, true))
  unfolding renew_certificate
  renew_certificate_leaves claims files =
      elim (Bool-cases
        (a.new_client (first_audience claims) (some (a.load files).0) claims.root_sha)) [
          | inr no_client ↦
              (inl (inl (ground (arith, no_client))), λ pair got. absurd (ground arith))
          | inl client ↦ elim (Option-cases (a.renew (a.load files).0)) [
            | inl denied ↦ (inl (inl (ground (arith, denied))), λ pair got. absurd (ground arith))
            | inr ((server, ca), sent) ↦
                rw (client, sent)
                  (
                    elim (save_certificate_leaves server ca files) [
                      | inl stale ↦ inl stale
                      | inr complete ↦ inr (server, ca, refl, complete)
                    ],
                    λ pair got.
                        loaded_pair (a.load (save_certificate a server ca files).1) pair got,
                  )
          ]
        ]
