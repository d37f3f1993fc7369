-- ===== src/Transport/Rejected.antt =====
-- A mismatch of a host is found exactly when its validated records reject the certificate.
use cipher_post.Prelude.{
  ◌≤◌, ◌≡◌, refl, sym, ap, ◌↔◌, ◌⊎◌, inl, inr, Bool, true, false, Option, none, some, List, [], ◌∷◌,
  arith, leb, Bool-cases, Option-cases, length, All,
}
use cipher_post.Prelude.Bytes.{Bytes}
use cipher_post.Prelude.Classes.{nat_eq, string_eq}
use cipher_post.Prelude.Dict.{Dict}
use cipher_post.Flows.{bytes_key}
use cipher_post.Alerts.{or_else}
use cipher_post.Transport.TlsaRecords.{
  TlsaRecord, Tlsa, Dnssec, unknown, not_published, insecure, dnssec_failed, bogus, secure,
  tlsa_matches, any_matches,
}
use cipher_post.Transport.Posture.{
  Mismatch, mta_sts_enforce_plaintext, mta_sts_enforce_bad_cert, dane_tlsa_mismatch, SessionInfo,
  is_secure, is_elsewhere, mismatches, judge_hosts,
}

abbrev pub IsIn : Mismatch → List Mismatch → Type 0
IsIn m [] = ⊥
IsIn m (x ∷ xs) = (x ≡ m) ⊎ IsIn m xs

module _ (public_key : Bytes → Option Bytes) (sha256 sha512 : Bytes → Bytes) where
  -- The validated records of a host reject the certificate of a session with it.
  abbrev pub Rejects : Bytes → Tlsa → SessionInfo → Type 0
  Rejects mx res session =
      (res.dnssec ≡ secure)
      × (1 ≤ length res.records)
      × (is_elsewhere session.mx_host mx ≡ false)
      × (cert_der : Bytes) × (or_else session.cert_der none ≡ some cert_der)
      × All (λ r. tlsa_matches public_key sha256 sha512 r cert_der ≡ false) res.records

  any_matches-All :
      (rs : List TlsaRecord) (cert_der : Bytes)
      → (any_matches public_key sha256 sha512 rs cert_der ≡ false)
        ↔ All (λ r. tlsa_matches public_key sha256 sha512 r cert_der ≡ false) rs
  unfolding any_matches
  any_matches-All [] cert_der = (λ _. tt, λ _. refl)
  any_matches-All (r ∷ rs) cert_der =
      let rest = any_matches-All rs cert_der in
      (λ h. (ground arith, rest.0 (ground arith)), λ h. ground (arith, h.0, rest.1 h.1))

  secure_iff : (d : Dnssec) → (is_secure d ≡ true) ↔ (d ≡ secure)
  secure_iff d = (to d, λ e. rw e refl)
    where
      to : (d : Dnssec) → is_secure d ≡ true → d ≡ secure
      to unknown h = absurd (ground arith)
      to not_published h = absurd (ground arith)
      to insecure h = absurd (ground arith)
      to dnssec_failed h = absurd (ground arith)
      to bogus h = absurd (ground arith)
      to secure h = refl

  mismatches-Rejects :
      (mx : Bytes) (res : Tlsa) (session : SessionInfo)
      → (mismatches public_key sha256 sha512 mx res session ≡ true) ↔ Rejects mx res session
  unfolding mismatches
  mismatches-Rejects mx res session = (to, from)
    where
      rs : List TlsaRecord
      rs = res.records

      found : Option Bytes
      found = or_else session.cert_der none

      to : mismatches public_key sha256 sha512 mx res session ≡ true → Rejects mx res session
      to h = elim (Bool-cases (is_secure res.dnssec)) [
        | inr s ↦ absurd (ground arith)
        | inl s ↦ elim (Bool-cases (leb (length rs) 0)) [
          | inl l ↦ absurd (ground arith)
          | inr l ↦ elim (Bool-cases (is_elsewhere session.mx_host mx)) [
            | inl w ↦ absurd (ground arith)
            | inr w ↦ elim (Option-cases found) [
              | inl c ↦ absurd (ground arith)
              | inr (der, c) ↦ (
                (secure_iff res.dnssec).0 s,
                ground (arith, l),
                w,
                der,
                c,
                (any_matches-All rs der).0 (ground arith),
              )
            ]
          ]
        ]
      ]

      from : Rejects mx res session → mismatches public_key sha256 sha512 mx res session ≡ true
      from (s, l, w, der, c, differ) =
          ground (arith, (secure_iff res.dnssec).1 s, l, w, c, (any_matches-All rs der).1 differ)

  -- Some host of this name rejects the session's certificate.
  abbrev pub IsRejected : Bytes → Dict Bytes Tlsa → SessionInfo → Type 0
  IsRejected mx [] session = ⊥
  IsRejected mx ((k, res) ∷ rest) session =
      ((k ≡ mx) × Rejects k res session) ⊎ IsRejected mx rest session

  pub judge_hosts-IsRejected :
      (mx : Bytes) (dane : Dict Bytes Tlsa) (session : SessionInfo)
      → IsIn (dane_tlsa_mismatch mx) (judge_hosts public_key sha256 sha512 dane session)
        ↔ IsRejected mx dane session
  unfolding judge_hosts
  judge_hosts-IsRejected mx [] session = (λ h. h, λ h. h)
  judge_hosts-IsRejected mx ((k, res) ∷ rest) session =
      let more = judge_hosts-IsRejected mx rest session in
      let own = mismatches-Rejects k res session in
      elim (Bool-cases (mismatches public_key sha256 sha512 k res session)) [
        | inl e ↦ rw e (
          λ h. elim h [
            | inl same ↦ inl (ground (arith, same), own.0 e)
            | inr later ↦ inr (more.0 later)
          ],
          λ h. elim h [
            | inl (same, _) ↦ inl (ap (λ m. dane_tlsa_mismatch m) same)
            | inr later ↦ inr (more.1 later)
          ],
        )
        | inr e ↦ rw e (
          λ h. inr (more.0 h),
          λ h. elim h [
            | inl (_, rejects) ↦ absurd (ground (arith, e, own.1 rejects))
            | inr later ↦ more.1 later
          ],
        )
      ]

  -- The findings on hosts are of the one kind only.
  abbrev pub is_on_host : Mismatch → Bool
  is_on_host mta_sts_enforce_plaintext = false
  is_on_host mta_sts_enforce_bad_cert = false
  is_on_host (dane_tlsa_mismatch mx) = true

  pub judge_hosts_kind :
      (m : Mismatch) (dane : Dict Bytes Tlsa) (session : SessionInfo)
      → IsIn m (judge_hosts public_key sha256 sha512 dane session)
      → is_on_host m ≡ true
  unfolding judge_hosts
  judge_hosts_kind m [] session = λ h. absurd h
  judge_hosts_kind m ((k, res) ∷ rest) session =
      elim (Bool-cases (mismatches public_key sha256 sha512 k res session)) [
        | inl e ↦ rw e (λ h. elim h [
          | inl same ↦ ap (λ m. is_on_host m) (sym same)
          | inr later ↦ judge_hosts_kind m rest session later
        ])
        | inr e ↦ rw e (judge_hosts_kind m rest session)
      ]
