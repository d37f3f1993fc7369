-- ===== src/Rules/Downgrade.antt =====
-- GREASE among the offered versions, which the rules on downgrades do not strip.
use Prim.Native.String.{String}
use cipher_post.Prelude.{
  ℕ, ◌≤◌, ◌<◌, max, ◌≡◌, refl, ap, ◌∙◌, inl, inr, Bool, true, ◌&&◌, none, some, List, [], ◌∷◌,
  arith, ◌==◌, lt→ltb, Bool-cases, Option-cases,
}
use cipher_post.Prelude.Classes.{nat_eq, string_eq}
use cipher_post.Handshake.ClientHello.{ClientHelloInfo}
use cipher_post.Handshake.ServerHello.{ServerHelloInfo}
use cipher_post.Handshake.Groups.{member}
use cipher_post.Rules.{critical, SessionAnalysis, add, add_if, on_some, given}
use cipher_post.Rules.Hellos.{rule_downgrade_sentinel, best_offer, maximum, above}
use cipher_post.Handshake.Groups.{is_grease}

maximum-above :
    (v : ℕ) (vs : List ℕ) → member v vs ≡ true → (w : ℕ) × (maximum vs ≡ some w) × (v ≤ w)
unfolding maximum
maximum-above v [] h = absurd (ground arith)
maximum-above v (x ∷ vs) h = elim (Bool-cases (v == x)) [
  | inl same ↦ elim (Option-cases (maximum vs)) [
    | inl e ↦ (x, rw e, ground arith)
    | inr (w, e) ↦ (max x w, rw e, ground arith)
  ]
  | inr other ↦
      let (w, e, le) = maximum-above v vs (ground (arith, other)) in
      (max x w, rw e, omega (arith, le))
]

above_best :
    (sa : SessionAnalysis) (ch : ClientHelloInfo) (v n : ℕ)
    → sa.client_hello ≡ some ch
    → sa.tls_version ≡ some n
    → member v ch.offered_versions ≡ true
    → n < v
    → (best : ℕ) × (best_offer sa ≡ some best) × (n < best)
above_best sa ch v n e t h less =
    let (w, m, le) = maximum-above v ch.offered_versions h in
    (
      w,
      ap (λ o. elim o [ none ↦ none | some c ↦ maximum c.offered_versions ]) e ∙ m,
      omega (arith, le, less),
    )

grease_above : (v n : ℕ) → is_grease v ≡ true → n ≤ 0x0304 → n < v
unfolding is_grease
grease_above v n g small = ground arith

-- If a client offers any GREASE value among its versions, a downgrade sentinel is reported as an
-- attack for every negotiated version up to TLS 1.3, whatever real versions the client offered.
pub downgrade_sentinel-grease :
    (sa : SessionAnalysis) (ch : ClientHelloInfo) (sh : ServerHelloInfo) (sentinel : String)
    (v n : ℕ)
    → sa.client_hello ≡ some ch
    → sa.server_hello ≡ some sh
    → sh.downgrade_sentinel ≡ some sentinel
    → sa.tls_version ≡ some n
    → n ≤ 0x0304
    → member v ch.offered_versions ≡ true
    → is_grease v ≡ true
    → rule_downgrade_sentinel sa ≡ add "downgrade-attack-detected" critical sa
unfolding rule_downgrade_sentinel given
downgrade_sentinel-grease sa ch sh sentinel v n e f s t small h g =
    ap
      (λ o.
        given o
          (λ k.
            add_if (on_some (λ d. true) k.downgrade_sentinel && over) "downgrade-attack-detected"
              critical sa)
          sa)
      f
    ∙ ap (λ b. add_if b "downgrade-attack-detected" critical sa)
        (ap (λ o. on_some (λ d. true) o && over) s ∙ is_over)
    ∙ (unfold add_if in refl)
  where
    over : Bool
    over = above (best_offer sa) sa.tls_version

    is_over : over ≡ true
    is_over =
        let (best, b, less) = above_best sa ch v n e t h (grease_above v n g small) in
        ap (λ o. above o sa.tls_version) b ∙ ap (λ o. above (some best) o) t ∙ lt→ltb n best less
