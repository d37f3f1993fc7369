-- ===== src/Auth/Tickets.antt =====
-- A ticket is accepted once.
use cipher_post.Prelude.{ℕ, ◌+◌, ◌≡◌, Option, none, some, List, [], ◌∷◌, if◌then◌else◌}
use cipher_post.Prelude.Bytes.{Bytes}
use cipher_post.Prelude.Classes.{eqb, nat_eq, string_eq}
use cipher_post.Flows.{bytes_key}
use cipher_post.Auth.{Claims, jti_of, consume_ticket}

abbrev counts : Bytes → Option Claims → ℕ
counts j none = 0
counts j (some claims) = if eqb (jti_of claims) j then 1 else 0

module _ (decode : Bytes → Option Claims) where
  -- How often these tokens, one after the other, are accepted for a ticket with this identifier.
  abbrev pub accepted : Bytes → Bytes → List Bytes → List Bytes → ℕ
  accepted scope j [] used = 0
  accepted scope j (token ∷ tokens) used =
      let (claims, next) = consume_ticket decode scope none token used in
      counts j claims + accepted scope j tokens next

  -- What each of these tokens, one after the other, is answered with.
  abbrev pub outcomes : Bytes → List Bytes → List Bytes → List (Bytes × Option Claims)
  outcomes scope [] used = []
  outcomes scope (token ∷ tokens) used =
      let (claims, next) = consume_ticket decode scope none token used in
      (token, claims) ∷ outcomes scope tokens next

  -- Claims are only given for a token that decodes to them, and for this scope.
  abbrev pub IsForScope : Bytes → Bytes × Option Claims → Type 0
  IsForScope scope (token, none) = Unit
  IsForScope scope (token, some claims) = (decode token ≡ some claims) × (claims.scope ≡ some scope)
