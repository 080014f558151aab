-- ===== src/Auth/Reset.antt =====
-- Reset of the password by a token.
use multi_tenant_saas_gatewa.Common.{
  ℕ, ◌+◌, ◌<◌, String, ◌≡◌, refl, ap, ◌≢◌, ◌⊎◌, inl, inr, true, false, none, some, ◌==◌, arith,
  Option-cases,
}
use multi_tenant_saas_gatewa.Common.Outcome.{ok, throw, bad_request}
use multi_tenant_saas_gatewa.Database.{Entity, IsLawful}
use multi_tenant_saas_gatewa.Database.Laws.{insert_cases, save_cases, find_one_cases, Result-cases}
use multi_tenant_saas_gatewa.Entities.{User, PasswordResetToken}
use multi_tenant_saas_gatewa.Gateway.{Gateway, State}
use multi_tenant_saas_gatewa.Users.{with_email}
use multi_tenant_saas_gatewa.Auth.{
  ForgotPasswordDto, ResetPasswordDto, request_reset, reset_password, usable, unused_of, new_token,
}

-- The user with the hash of a new password, and the token that has been used.
abbrev pub rehashed : Entity User → String → Entity User
rehashed u hashed = record u { own = record (u.own) { password_hash = hashed } }

abbrev pub spent : Entity PasswordResetToken → Entity PasswordResetToken
spent r = record r { own = record (r.own) { used = true } }

module _ (g : Gateway) (U : IsLawful g.users) (T : IsLawful g.reset_tokens)
    (sha256 : String → String) where
  -- The digests of the stored tokens differ.
  abbrev pub UniqueTokens : g.reset_tokens.Table → Type 0
  UniqueTokens t =
      (i j : String) (q r : Entity PasswordResetToken)
      → T.row t i ≡ some q
      → T.row t j ≡ some r
      → q.own.token ≡ r.own.token
      → i ≡ j

  -- What a reset that succeeds has found and written.
  pub record Reset (dto : ResetPasswordDto) (salt : String) (now : ℕ) (s s' : State g)
      : Type 0 where
    pub token : Entity PasswordResetToken
    pub owner : Entity User
    pub stored : T.row s.reset_tokens token.id ≡ some token
    pub live : usable g (sha256 dto.token) dto.tenant_id now token ≡ true
    pub owns : U.row s.users token.own.user_id ≡ some owner
    pub user_saved :
        (e : Entity User) × (g.users.save
            (rehashed owner (g.bcrypt.hash salt 10 dto.new_password))
            s.users
          ≡ ok (e, s'.users))
    pub token_saved :
        (e : Entity PasswordResetToken) × (g.reset_tokens.save (spent token) s.reset_tokens
          ≡ ok (e, s'.reset_tokens))

  pub reset_password-Reset :
      (dto : ResetPasswordDto) (salt : String) (now : ℕ) (s s' : State g)
      → reset_password g sha256 dto salt now s ≡ (ok tt, s')
      → Reset dto salt now s s'
  unfolding reset_password
  reset_password-Reset dto salt now s s' h =
      elim (find_one_cases T (unused_of g "") "" (usable g (sha256 dto.token) dto.tenant_id now)
        s.reset_tokens) [
          | inl missing ↦ absurd (ground arith)
          | inr (r, found, row, passed) ↦
              elim (find_one_cases U (with_email "" "") "" (λ u. u.id == r.own.user_id) s.users) [
                | inl gone ↦ absurd (ground arith)
                | inr (u, met, at_u, same) ↦
                    elim (Result-cases (
                      g.users.save (rehashed u (g.bcrypt.hash salt 10 dto.new_password)) s.users)) [
                        | inl (x, failed) ↦ absurd (ground arith)
                        | inr ((e, t), done) ↦
                            elim (Result-cases (g.reset_tokens.save (spent r) s.reset_tokens)) [
                              | inl (x, failed) ↦ absurd (ground arith)
                              | inr ((e', t'), done') ↦ record {
                                token = r;
                                owner = u;
                                stored = row;
                                live = passed;
                                owns = ground arith;
                                user_saved = (e, ground arith);
                                token_saved = (e', ground arith);
                              }
                            ]
                      ]
              ]
        ]

  -- A reset that succeeds: the token was stored for the tenant, was not used and had not expired;
  -- the row of its user then holds the hash of the new password and the row of the token is used.
  reset_sound :
      (dto : ResetPasswordDto) (salt : String) (now : ℕ) (s s' : State g)
      → reset_password g sha256 dto salt now s ≡ (ok tt, s')
      → (r : Entity PasswordResetToken) × (u u' : Entity User) × (T.row s.reset_tokens r.id
          ≡ some r)
        × (r.own.token ≡ sha256 dto.token)
        × (r.own.tenant_id ≡ dto.tenant_id)
        × (r.own.used ≡ false)
        × (now < r.own.expires_at)
        × (U.row s.users r.own.user_id ≡ some u)
        × (U.row s'.users r.own.user_id ≡ some u')
        × (u'.own ≡ record (u.own) { password_hash = g.bcrypt.hash salt 10 dto.new_password })
        × ((r' : Entity PasswordResetToken) × (T.row s'.reset_tokens r.id ≡ some r')
            × (r'.own ≡ record (r.own) { used = true }))
  reset_sound dto salt now s s' h =
      let R = reset_password-Reset dto salt now s s' h in
      let (e, saved) = R.user_saved in
      let (e', saved') = R.token_saved in
      let r = R.token in
      let u = R.owner in
      let row = R.stored in
      let live = R.live in
      let owns = R.owns in
      (
        r,
        u,
        e,
        row,
        ground (arith, live),
        ground (arith, live),
        ground (arith, live),
        ground (arith, live),
        owns,
        ground (
          arith,
          owns,
          saved,
          U.row_id s.users r.own.user_id u owns,
          save_cases U (with_email "" "") r.own.user_id
              (rehashed u (g.bcrypt.hash salt 10 dto.new_password)) u s.users,
        ),
        ground (
          arith,
          owns,
          saved,
          U.row_id s.users r.own.user_id u owns,
          save_cases U (with_email "" "") r.own.user_id
              (rehashed u (g.bcrypt.hash salt 10 dto.new_password)) u s.users,
        ),
        (
          e',
          ground
              (arith, row, saved', save_cases T (unused_of g "") r.id (spent r) r s.reset_tokens),
          ground
              (arith, row, saved', save_cases T (unused_of g "") r.id (spent r) r s.reset_tokens),
        ),
      )

  -- A token resets a password once: where the digests of the stored tokens differ, after a reset that
  -- succeeded, every further reset with the same token is refused as a bad request at any time and
  -- for any tenant, and changes nothing.
  pub reset_once :
      (dto again : ResetPasswordDto) (salt salt' : String) (now now' : ℕ) (s s' : State g)
      → UniqueTokens s.reset_tokens
      → reset_password g sha256 dto salt now s ≡ (ok tt, s')
      → again.token ≡ dto.token
      → reset_password g sha256 again salt' now' s'
        ≡ (throw (bad_request "Invalid or expired reset token"), s')
  unfolding reset_password
  reset_once dto again salt salt' now now' s s' unique h same =
      elim (find_one_cases T (unused_of g "") ""
        (usable g (sha256 again.token) again.tenant_id now') s'.reset_tokens) [
          | inl missing ↦ rw missing refl
          | inr (k, found, row, passed) ↦
              let R = reset_password-Reset dto salt now s s' h in
              let (e', saved') = R.token_saved in
              let stored = R.stored in
              let live = R.live in
              let hash = ap sha256 same in
              absurd (
                ground (
                  arith,
                  row,
                  passed,
                  stored,
                  live,
                  saved',
                  hash,
                  save_cases T (unused_of g "") k.id (spent R.token) R.token s.reset_tokens,
                  unique k.id R.token.id k R.token,
                ))
        ]

  -- A row after the tokens of a user were marked and a new one was inserted.
  left_over :
      (u : Entity User) (e : Entity PasswordResetToken) (new : PasswordResetToken)
      (t₀ t t' : g.reset_tokens.Table) (i : String)
      → g.reset_tokens.update (unused_of g u.id) (λ r. record r { used = true }) t₀ ≡ ok (tt, t)
      → g.reset_tokens.insert new t ≡ ok (e, t')
      → (T.row t' i ≡ none)
        ⊎ ((r : Entity PasswordResetToken) × (T.row t' i ≡ some r)
            × ((r.own.user_id ≢ u.id) ⊎ (r.own.used ≡ true) ⊎ (r ≡ e)))
  left_over u e new t₀ t t' i marked done = elim (Option-cases (T.row t' i)) [
    | inl gone ↦ inl gone
    | inr (r, row) ↦
        let before = T.update_ok (unused_of g u.id) (λ q. record q { used = true }) t₀ t marked i in
        inr (r, row, ground (arith, row, before, done, insert_cases T (unused_of g "") i new t))
  ]

  -- A request for a reset that is answered is answered with one fixed text, whether the email is known
  -- or not; an unknown email changes nothing; for a known user a new token with the digest, which lives
  -- for an hour, is stored, and every other token of the user that the table then holds is used.
  pub request_reset_blind :
      (dto : ForgotPasswordDto) (raw_token m : String) (now : ℕ) (s s' : State g) (i : String)
      → request_reset g sha256 dto raw_token now s ≡ (ok m, s')
      → (m ≡ "If that email exists, a reset link has been sent.")
        × (((g.users.find_one (with_email dto.tenant_id dto.email) s.users ≡ none) × (s' ≡ s))
            ⊎ ((u : Entity User) × (e : Entity PasswordResetToken) × (g.users.find_one
                    (with_email dto.tenant_id dto.email)
                    s.users
                  ≡ some u)
                × (T.row s'.reset_tokens e.id ≡ some e)
                × (e.own ≡ record {
                  user_id = u.id;
                  tenant_id = dto.tenant_id;
                  token = sha256 raw_token;
                  expires_at = now + 3600000;
                  used = false;
                })
                × ((T.row s'.reset_tokens i ≡ none)
                    ⊎ ((r : Entity PasswordResetToken) × (T.row s'.reset_tokens i ≡ some r)
                        × ((r.own.user_id ≢ u.id) ⊎ (r.own.used ≡ true) ⊎ (r ≡ e))))))
  unfolding request_reset
  request_reset_blind dto raw_token m now s s' i h =
      elim (Option-cases (g.users.find_one (with_email dto.tenant_id dto.email) s.users)) [
        | inl nobody ↦ (ground arith, inl (nobody, ground arith))
        | inr (u, met) ↦
            elim (Result-cases (
              g.reset_tokens.update (unused_of g u.id) (λ r. record r { used = true })
                s.reset_tokens)) [
                  | inl (x, failed) ↦ absurd (ground arith)
                  | inr ((_, t), marked) ↦
                      let new = new_token g u.id dto.tenant_id (sha256 raw_token) now in
                      elim (Result-cases (g.reset_tokens.insert new t)) [
                        | inl (x, failed) ↦ absurd (ground arith)
                        | inr ((e, t'), done) ↦
                            let same : s'.reset_tokens ≡ t' = ground arith in
                            (
                              ground arith,
                              inr (
                                u,
                                e,
                                met,
                                rw same (
                                    ground
                                      (arith, done, insert_cases T (unused_of g "") e.id new t)),
                                ground (arith, done, insert_cases T (unused_of g "") e.id new t),
                                rw same (left_over u e new s.reset_tokens t t' i marked done),
                              ),
                            )
                      ]
                ]
      ]
