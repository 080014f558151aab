-- ===== src/Auth/Passwords.antt =====
-- What a change or a reset of the password does to the logins that follow.
use multi_tenant_saas_gatewa.Common.{
  ℕ, ◌<◌, String, ◌≡◌, refl, ap, ◌∙◌, ◌⊎◌, inl, inr, true, false, some, arith, Bool-cases,
}
use multi_tenant_saas_gatewa.Common.Outcome.{Exception, ok, throw, unauthorized}
use multi_tenant_saas_gatewa.Database.{Entity, IsLawful}
use multi_tenant_saas_gatewa.Database.Laws.{find_one_cases, Result-cases}
use multi_tenant_saas_gatewa.Entities.{User, PasswordResetToken}
use multi_tenant_saas_gatewa.Gateway.{Gateway, State, IsLawfulBcrypt}
use multi_tenant_saas_gatewa.Users.{with_email, with_id}
use multi_tenant_saas_gatewa.Users.Emails.{UniqueEmails}
use multi_tenant_saas_gatewa.Auth.{
  LoginDto, ChangePasswordDto, ResetPasswordDto, login, change_password, reset_password, may_log_in,
  invalid_credentials,
}
use multi_tenant_saas_gatewa.Auth.Login.{logged_in, login_answer}
use multi_tenant_saas_gatewa.Auth.Reset.{rehashed, reset_password-Reset}

-- The credentials of the user with a password.
abbrev pub credentials : Entity User → String → LoginDto
credentials u password = record {
  email = u.own.email;
  password = password;
  tenant_id = u.own.tenant_id;
}

module _ (g : Gateway) (U : IsLawful g.users) where
  -- The user logs in with the new password, unless its status forbids it or the write of the login's
  -- time fails; and with any text that does not fit the new hash, it does not.
  abbrev pub Renewed : Entity User → String → String → String → ℕ → State g → Type 0
  Renewed u hashed new other now s =
      (((v : Entity User) × ((login g (credentials u new) now s).0 ≡ ok v)
          × (v.id ≡ u.id)
          × (v.own ≡ (logged_in (rehashed u hashed) now).own))
        ⊎ ((x : Exception) × (e : Entity User) × ((login g (credentials u new) now s).0 ≡ throw x)
            × (g.users.save (logged_in e now) s.users ≡ throw x))
        ⊎ ((may_log_in u.own.status ≡ false)
            × (login g (credentials u new) now s
                ≡ (throw (unauthorized "User inactive: USER_INACTIVE"), s))))
      × ((g.bcrypt.compare other hashed ≡ true)
          ⊎ (login g (credentials u other) now s ≡ (throw invalid_credentials, s)))

  -- After the write, the search by the email of the user finds its new row.
  find_rehashed :
      (u e : Entity User) (hashed : String) (t t' : g.users.Table)
      → UniqueEmails g U t
      → U.row t u.id ≡ some u
      → g.users.save (rehashed u hashed) t ≡ ok (e, t')
      → (e.id ≡ u.id)
        × (e.own ≡ (rehashed u hashed).own)
        × (U.row t' e.id ≡ some e)
        × (g.users.find_one (with_email u.own.tenant_id u.own.email) t' ≡ some e)
  find_rehashed u e hashed t t' unique row done =
      let (same, rows, _) = U.save_ok (rehashed u hashed) e u t t' row done in
      let q = with_email u.own.tenant_id u.own.email in
      let stored : U.row t' e.id ≡ some e = ground (arith, rows e.id) in
      (
        same.same_id,
        same.same_own,
        stored,
        elim (find_one_cases U q u.id q t') [
          | inl missing ↦
              absurd (ground (arith, missing, stored, same.same_own, U.find_one_none q t' e.id e))
          | inr (k, found, at_k, passed) ↦
              let alike : some k ≡ some e =
                ground (arith, at_k, passed, rows k.id, row, same.same_id, unique k.id u.id k u) in
              found ∙ alike
        ],
      )

  login_refused :
      (dto : LoginDto) (now : ℕ) (s : State g) (u : Entity User)
      → g.users.find_one (with_email dto.tenant_id dto.email) s.users ≡ some u
      → g.bcrypt.compare dto.password u.own.password_hash ≡ false
      → login g dto now s ≡ (throw invalid_credentials, s)
  unfolding login
  login_refused dto now s u found wrong = rw (found, wrong) refl

  login_inactive :
      (dto : LoginDto) (now : ℕ) (s : State g) (u : Entity User)
      → g.users.find_one (with_email dto.tenant_id dto.email) s.users ≡ some u
      → g.bcrypt.compare dto.password u.own.password_hash ≡ true
      → may_log_in u.own.status ≡ false
      → login g dto now s ≡ (throw (unauthorized "User inactive: USER_INACTIVE"), s)
  unfolding login
  login_inactive dto now s u found right dead = rw (found, right, dead) refl

  rehashed-Renewed :
      (B : IsLawfulBcrypt g.bcrypt) (u e : Entity User) (salt new other : String) (now : ℕ)
      (s s' : State g)
      → UniqueEmails g U s.users
      → U.row s.users u.id ≡ some u
      → g.users.save (rehashed u (g.bcrypt.hash salt 10 new)) s.users ≡ ok (e, s'.users)
      → Renewed u (g.bcrypt.hash salt 10 new) new other now s'
  rehashed-Renewed B u e salt new other now s s' unique row done =
      let hashed = g.bcrypt.hash salt 10 new in
      let (same, own, stored, found) = find_rehashed u e hashed s.users s'.users unique row done in
      (
        elim (Bool-cases (may_log_in u.own.status)) [
          | inl allowed ↦
              elim (login_answer g U (credentials u new) now s' e found stored
                (rw own (B.compare-hash salt 10 new)) (rw own allowed)) [
                  | inl (v, answer, v_id, v_own) ↦ inl (
                    v,
                    answer,
                    v_id ∙ same,
                    v_own ∙ ap {A = User} (λ f. record f { last_login_at = some now }) own,
                  )
                  | inr (x, answer, failed) ↦ inr (inl (x, e, answer, failed))
                ]
          | inr dead ↦ inr (
              inr (
                dead,
                login_inactive (credentials u new) now s' e found
                    (rw own (B.compare-hash salt 10 new)) (rw own dead),
              ))
        ],
        elim (Bool-cases (g.bcrypt.compare other hashed)) [
          | inl fits ↦ inl fits
          | inr wrong ↦ inr (login_refused (credentials u other) now s' e found (rw own wrong))
        ],
      )

  -- A change of the password that succeeds, where no two users of a tenant have the same email: the
  -- user of the given id and tenant was stored, and its password fitted. From then on a login with the
  -- email of the user and the new password is answered with that user, which has the hash of the new
  -- password, unless its status forbids it or the write of the login's time fails; and a login with any
  -- text that does not fit the new hash is refused and changes nothing.
  pub change_password-login :
      (B : IsLawfulBcrypt g.bcrypt) (user_id tenant_id salt other : String)
      (dto : ChangePasswordDto) (now : ℕ) (s s' : State g)
      → UniqueEmails g U s.users
      → change_password g user_id tenant_id dto salt s ≡ (ok tt, s')
      → (u : Entity User) × (U.row s.users user_id ≡ some u)
        × (u.own.tenant_id ≡ tenant_id)
        × (g.bcrypt.compare dto.current_password u.own.password_hash ≡ true)
        × Renewed u (g.bcrypt.hash salt 10 dto.new_password) dto.new_password other now s'
  unfolding change_password
  change_password-login B user_id tenant_id salt other dto now s s' unique h =
      elim (find_one_cases U (with_id tenant_id user_id) user_id (with_id tenant_id user_id)
        s.users) [
          | inl missing ↦ absurd (ground arith)
          | inr (u, found, row, passed) ↦
              elim (Result-cases
                (g.users.save (rehashed u (g.bcrypt.hash salt 10 dto.new_password)) s.users)) [
                  | inl (x, failed) ↦ absurd (ground arith)
                  | inr ((e, t), done) ↦ (
                    u,
                    ground arith,
                    ground arith,
                    ground arith,
                    rehashed-Renewed B u e salt dto.new_password other now s s' unique row
                        (ground arith),
                  )
                ]
        ]

  -- A reset of the password that succeeds, where no two users of a tenant have the same email: the
  -- token was stored for the given tenant, was not used and had not expired, and its user was stored.
  -- From then on a login with the email and the tenant of that user and the new password is answered
  -- with it, unless its status forbids it or the write of the login's time fails; and a login with any
  -- text that does not fit the new hash is refused and changes nothing.
  pub reset_password-login :
      (T : IsLawful g.reset_tokens) (B : IsLawfulBcrypt g.bcrypt) (sha256 : String → String)
      (salt other : String) (dto : ResetPasswordDto) (now later : ℕ) (s s' : State g)
      → UniqueEmails g U s.users
      → reset_password g sha256 dto salt now s ≡ (ok tt, s')
      → (r : Entity PasswordResetToken) × (u : Entity User) × (T.row s.reset_tokens r.id ≡ some r)
        × (r.own.token ≡ sha256 dto.token)
        × (r.own.tenant_id ≡ dto.tenant_id)
        × (r.own.used ≡ false)
        × (now < r.own.expires_at)
        × (U.row s.users r.own.user_id ≡ some u)
        × Renewed u (g.bcrypt.hash salt 10 dto.new_password) dto.new_password other later s'
  reset_password-login T B sha256 salt other dto now later s s' unique h =
      let R = reset_password-Reset g U T sha256 dto salt now s s' h in
      let (e, saved) = R.user_saved in
      let r = R.token in
      let u = R.owner in
      let live = R.live in
      let owns = R.owns in
      let row : U.row s.users u.id ≡ some u =
        ground (arith, owns, U.row_id s.users r.own.user_id u owns) in
      (
        r,
        u,
        R.stored,
        ground (arith, live),
        ground (arith, live),
        ground (arith, live),
        ground (arith, live),
        owns,
        rehashed-Renewed B u e salt dto.new_password other later s s' unique row saved,
      )
