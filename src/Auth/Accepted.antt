-- ===== src/Auth/Accepted.antt =====
-- What a request that mfa_verify accepts has shown.
use cipher_post.Prelude.{ℕ, ◌≡◌, ◌⊎◌, Bool, true, false, Option, some, List}
use cipher_post.Prelude.Bytes.{Bytes, codes}
use cipher_post.Prelude.Classes.{nat_eq, string_eq}
use cipher_post.Prelude.Dict.{Dict, get}
use cipher_post.Flows.{bytes_key, lstrip, rstrip}
use cipher_post.Auth.{Claims, has_scope}
use cipher_post.Auth.Mfa.{Result, returns}
use cipher_post.Auth.MfaVerify.{
  Failures, mfa_locked, User, Store, Request, Answers, recover, code_ok, user_key_of,
}

module _ (sha256 : Bytes → Bytes) (decrypt : Bytes → Option Bytes)
    (check : Bytes → Bytes → ℕ → Result Bool) where
  -- The user is active and not locked, and the code is right, or else the recovery code is one of
  -- those that are left; `kept` are the recovery codes from then on.
  pub record IsShown (answers : Answers) (request : Request) (sub : Bytes) (now : ℕ)
      (users : Dict Bytes User) (failures : Failures) (next : Store) : Type 0 where
    user : User
    kept : List Bytes
    known : get sub users ≡ some user
    active : user.is_active ≡ true
    unlocked : mfa_locked answers.lock (user_key_of sub) now failures ≡ false
    shown :
        ((code_ok sha256 decrypt check user request.code now ≡ returns true)
          × (kept ≡ user.mfa_recovery))
        ⊎ ((code_ok sha256 decrypt check user request.code now ≡ returns false)
            × (recover sha256 request.recovery_code user.mfa_recovery ≡ some kept))
    stored : get sub next.users ≡ some (record user { mfa_recovery = kept; last_login = some now })

  module _ (decode : Bytes → Option Claims) where
    -- The ticket is one for this step, and the user it names has shown the second factor.
    pub record IsEntitled (answers : Answers) (request : Request) (now : ℕ) (self next : Store)
        : Type 0 where
      claims : Claims
      decoded : decode (rstrip (lstrip request.mfa_ticket)) ≡ some claims
      scoped : has_scope (codes "mfa-verify") claims ≡ true
      shown : IsShown answers request claims.sub now self.users self.mfa_failures next
