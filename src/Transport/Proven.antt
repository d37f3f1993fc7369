-- ===== src/Transport/Proven.antt =====
-- A mismatch is found exactly when it is proven by the posture of the domain.
use cipher_post.Prelude.{
  ◌≡◌, refl, ap, ◌↔◌, ◌⊎◌, inl, inr, Bool, true, false, Option, none, some, List, [], ◌∷◌, ◌++◌,
  arith, Bool-cases,
}
use cipher_post.Prelude.Bytes.{Bytes, codes, bytes_eq, bytes_eq→eq}
use cipher_post.Prelude.Classes.{nat_eq, string_eq}
use cipher_post.Flows.{bytes_key}
use cipher_post.Alerts.{or_text}
use cipher_post.Transport.Policy.{Sts}
use cipher_post.Transport.TlsaRecords.{Tlsa}
use cipher_post.Transport.Posture.{
  Mismatch, mta_sts_enforce_plaintext, mta_sts_enforce_bad_cert, dane_tlsa_mismatch, SessionInfo,
  Posture, check_domain, judge_enforced, judge_policy, judge_hosts, evaluate_session,
}
use cipher_post.Transport.Rejected.{IsIn, IsRejected, judge_hosts-IsRejected, judge_hosts_kind}

IsIn-append : (m : Mismatch) (xs ys : List Mismatch) → IsIn m (xs ++ ys) ↔ (IsIn m xs ⊎ IsIn m ys)
IsIn-append m xs ys = (split xs, join xs)
  where
    split : (xs : List Mismatch) → IsIn m (xs ++ ys) → IsIn m xs ⊎ IsIn m ys
    split [] h = inr h
    split (x ∷ xs) (inl e) = inl (inl e)
    split (x ∷ xs) (inr h) = elim (split xs h) [ inl a ↦ inl (inr a) | inr b ↦ inr b ]

    join : (xs : List Mismatch) → IsIn m xs ⊎ IsIn m ys → IsIn m (xs ++ ys)
    join [] (inl h) = absurd h
    join [] (inr h) = h
    join (x ∷ xs) (inl (inl e)) = inl e
    join (x ∷ xs) (inl (inr h)) = inr (join xs (inl h))
    join (x ∷ xs) (inr h) = inr (join xs (inr h))

is_enforce :
    (mode : Option Bytes)
    → (bytes_eq (or_text mode []) (codes "enforce") ≡ true) ↔ (mode ≡ some (codes "enforce"))
unfolding bytes_eq
is_enforce mode = (to mode, λ e. rw e refl)
  where
    to :
        (mode : Option Bytes)
        → bytes_eq (or_text mode []) (codes "enforce") ≡ true
        → mode ≡ some (codes "enforce")
    to none h = absurd (unfold bytes_eq in ground (arith, h))
    to (some []) h = absurd (unfold bytes_eq in ground (arith, h))
    to (some (c ∷ cs)) h = ap (λ m. some m) (bytes_eq→eq (c ∷ cs) (codes "enforce") h)

module _ (public_key : Bytes → Option Bytes) (sha256 sha512 : Bytes → Bytes) where
  -- What proves a mismatch.
  abbrev pub IsProven : Posture → SessionInfo → Mismatch → Type 0
  IsProven posture session mta_sts_enforce_plaintext =
      (posture.mode ≡ some (codes "enforce")) × (session.used_tls ≡ false)
  IsProven posture session mta_sts_enforce_bad_cert =
      (posture.mode ≡ some (codes "enforce"))
      × ((session.used_tls ≡ true) × (session.cert_ok ≡ some false))
  IsProven posture session (dane_tlsa_mismatch mx) =
      IsRejected public_key sha256 sha512 mx posture.dane session

  only_one : {x m : Mismatch} → IsIn m (x ∷ []) → x ≡ m
  only_one (inl e) = e
  only_one (inr h) = absurd h

  -- The mismatch as it is told by the two facts on the session.
  abbrev IsTold : Bool → Option Bool → Mismatch → Type 0
  IsTold used_tls cert_ok mta_sts_enforce_plaintext = used_tls ≡ false
  IsTold used_tls cert_ok mta_sts_enforce_bad_cert = (used_tls ≡ true) × (cert_ok ≡ some false)
  IsTold used_tls cert_ok (dane_tlsa_mismatch mx) = ⊥

  judge_enforced-IsTold :
      (m : Mismatch) (used_tls : Bool) (cert_ok : Option Bool)
      → IsIn m (judge_enforced used_tls cert_ok) ↔ IsTold used_tls cert_ok m
  judge_enforced-IsTold mta_sts_enforce_plaintext false ok = (λ _. refl, λ _. inl refl)
  judge_enforced-IsTold mta_sts_enforce_plaintext true none =
      (λ h. absurd h, λ h. absurd (ground (arith, h)))
  judge_enforced-IsTold mta_sts_enforce_plaintext true (some true) =
      (λ h. absurd h, λ h. absurd (ground (arith, h)))
  judge_enforced-IsTold mta_sts_enforce_plaintext true (some false) =
      (λ h. absurd (ground (arith, only_one h)), λ h. absurd (ground (arith, h)))
  judge_enforced-IsTold mta_sts_enforce_bad_cert false ok =
      (λ h. absurd (ground (arith, only_one h)), λ h. absurd (ground (arith, h.0)))
  judge_enforced-IsTold mta_sts_enforce_bad_cert true none =
      (λ h. absurd h, λ h. absurd (ground (arith, h.1)))
  judge_enforced-IsTold mta_sts_enforce_bad_cert true (some true) =
      (λ h. absurd h, λ h. absurd (ground (arith, h.1)))
  judge_enforced-IsTold mta_sts_enforce_bad_cert true (some false) =
      (λ _. (refl, refl), λ _. inl refl)
  judge_enforced-IsTold (dane_tlsa_mismatch mx) false ok =
      (λ h. absurd (ground (arith, only_one h)), λ h. absurd h)
  judge_enforced-IsTold (dane_tlsa_mismatch mx) true none = (λ h. h, λ h. h)
  judge_enforced-IsTold (dane_tlsa_mismatch mx) true (some true) = (λ h. h, λ h. h)
  judge_enforced-IsTold (dane_tlsa_mismatch mx) true (some false) =
      (λ h. absurd (ground (arith, only_one h)), λ h. absurd h)

  judge_policy-IsTold :
      (m : Mismatch) (posture : Posture) (session : SessionInfo)
      → IsIn m (judge_policy posture session)
        ↔ ((posture.mode ≡ some (codes "enforce")) × IsTold session.used_tls session.cert_ok m)
  unfolding judge_policy
  judge_policy-IsTold m posture session =
      let enforce = is_enforce posture.mode in
      let told = judge_enforced-IsTold m session.used_tls session.cert_ok in
      elim (Bool-cases (bytes_eq (or_text posture.mode []) (codes "enforce"))) [
        | inl e ↦ rw e (λ h. (enforce.0 e, told.0 h), λ h. told.1 h.1)
        | inr e ↦ rw e (λ h. absurd h, λ h. absurd (ground (arith, e, enforce.1 h.0)))
      ]

  judged :
      (m : Mismatch) (posture : Posture) (session : SessionInfo)
      → (IsIn m (judge_policy posture session)
          ⊎ IsIn m (judge_hosts public_key sha256 sha512 posture.dane session))
        ↔ IsProven posture session m
  judged mta_sts_enforce_plaintext posture session =
      let told = judge_policy-IsTold mta_sts_enforce_plaintext posture session in
      (
        λ h. elim h [
          | inl p ↦ told.0 p
          | inr q ↦ absurd (
              ground (
                arith,
                judge_hosts_kind public_key sha256 sha512 mta_sts_enforce_plaintext posture.dane
                    session q,
              ))
        ],
        λ h. inl (told.1 h),
      )
  judged mta_sts_enforce_bad_cert posture session =
      let told = judge_policy-IsTold mta_sts_enforce_bad_cert posture session in
      (
        λ h. elim h [
          | inl p ↦ told.0 p
          | inr q ↦ absurd (
              ground (
                arith,
                judge_hosts_kind public_key sha256 sha512 mta_sts_enforce_bad_cert posture.dane
                    session q,
              ))
        ],
        λ h. inl (told.1 h),
      )
  judged (dane_tlsa_mismatch mx) posture session =
      let rejected = judge_hosts-IsRejected public_key sha256 sha512 mx posture.dane session in
      (
        λ h. elim h [
          | inl p ↦ absurd ((judge_policy-IsTold (dane_tlsa_mismatch mx) posture session).0 p).1
          | inr q ↦ rejected.0 q
        ],
        λ h. inr (rejected.1 h),
      )

  -- A mismatch is among the findings of a session exactly when the posture of the domain proves it:
  -- that TLS was not used, or was used with a certificate that failed validation, although the
  -- policy says enforce; or that the certificate of a session with some host, or with a host that is
  -- not known, matches none of the records that the host published and DNSSEC validated. Unsigned
  -- or rejected records never lead to a finding.
  pub evaluate_session-IsProven :
      (fetch_mta_sts : Bytes → Option Sts) (fetch_tlsa : Bytes → Tlsa) (domain : Bytes)
      (session : SessionInfo) (m : Mismatch)
      → IsIn m (evaluate_session public_key sha256 sha512 fetch_mta_sts fetch_tlsa domain session)
        ↔ IsProven (check_domain fetch_mta_sts fetch_tlsa domain) session m
  unfolding evaluate_session
  evaluate_session-IsProven fetch_mta_sts fetch_tlsa domain session m =
      let posture : Posture = check_domain fetch_mta_sts fetch_tlsa domain in
      let either =
        IsIn-append m (judge_policy posture session)
          (judge_hosts public_key sha256 sha512 posture.dane session) in
      let proven = judged m posture session in
      (λ h. proven.0 (either.0 h), λ h. either.1 (proven.1 h))
