-- ===== src/Auth/Login.antt =====
-- Registration, login and refresh.
use multi_tenant_saas_gatewa.Common.{
  ℕ, String, ◌≡◌, ◌≢◌, refl, ◌∙◌, ◌⊎◌, inl, inr, Bool, true, false, none, some, ◌==◌, if◌then◌else◌,
  arith,
}
use multi_tenant_saas_gatewa.Common.Outcome.{Exception, ok, throw, unauthorized}
use multi_tenant_saas_gatewa.Database.{Entity, IsLawful}
use multi_tenant_saas_gatewa.Database.Laws.{
  insert_cases, save_cases, find_one_cases, find_one_of_id,
}
use multi_tenant_saas_gatewa.Entities.{User}
use multi_tenant_saas_gatewa.Gateway.{Gateway, State, IsLawfulBcrypt}
use multi_tenant_saas_gatewa.Users.{with_id, with_email}
use multi_tenant_saas_gatewa.Users.Emails.{UniqueEmails, find_one_of_email}
use multi_tenant_saas_gatewa.Auth.{
  RegisterDto, LoginDto, JwtPayload, Jwt, registered, register, login, refresh, may_log_in,
}

-- The user with the time of a login.
abbrev pub logged_in : Entity User → ℕ → Entity User
logged_in u now = record u { own = record (u.own) { last_login_at = some now } }

module _ (g : Gateway) (U : IsLawful g.users) where
  -- A login that succeeds: the user is stored under the given tenant and email, the password was
  -- accepted, the status allows it; then the row holds the time of the login, every other row is as
  -- it was, and nothing else of the state has changed.
  pub login_sound :
      (dto : LoginDto) (now : ℕ) (s s' : State g) (u : Entity User)
      → login g dto now s ≡ (ok u, s')
      → (old : Entity User) × (U.row s.users old.id ≡ some old)
        × (old.own.tenant_id ≡ dto.tenant_id)
        × (old.own.email ≡ dto.email)
        × (g.bcrypt.compare dto.password old.own.password_hash ≡ true)
        × (may_log_in old.own.status ≡ true)
        × (u.own ≡ record (old.own) { last_login_at = some now })
        × ((i : String) → U.row s'.users i ≡ (if old.id == i then some u else U.row s.users i))
        × (s' ≡ record s { users = s'.users })
  unfolding login
  login_sound dto now s s' u h =
      elim (find_one_cases U (with_email dto.tenant_id dto.email) dto.email
        (with_email dto.tenant_id dto.email) s.users) [
          | inl missing ↦ absurd (ground arith)
          | inr (old, found, row, passed) ↦ (
            old,
            row,
            ground arith,
            ground arith,
            ground arith,
            ground arith,
            ground (
              arith,
              save_cases U (with_email dto.tenant_id dto.email) old.id (logged_in old now) old
                  s.users,
            ),
            λ i. ground (
              arith,
              save_cases U (with_email dto.tenant_id dto.email) i (logged_in old now) old s.users,
            ),
            ground (
              arith,
              save_cases U (with_email dto.tenant_id dto.email) old.id (logged_in old now) old
                  s.users,
            ),
          )
        ]

  register_inverted :
      (dto : RegisterDto) (salt : String) (s s' : State g) (u : Entity User)
      → register g dto salt s ≡ (ok u, s')
      → (g.users.find_one (with_email dto.tenant_id dto.email) s.users ≡ none)
        × (g.users.insert (registered dto (g.bcrypt.hash salt 10 dto.password)) s.users
            ≡ ok (u, s'.users))
  unfolding register
  register_inverted dto salt s s' u h = (ground arith, ground arith)

  -- After an insert of a user whose email was free, the search by email finds it.
  find_inserted :
      (f : User) (t t' : g.users.Table) (u : Entity User)
      → g.users.find_one (with_email f.tenant_id f.email) t ≡ none
      → g.users.insert f t ≡ ok (u, t')
      → (u.own ≡ f)
        × (U.row t' u.id ≡ some u)
        × (g.users.find_one (with_email f.tenant_id f.email) t' ≡ some u)
  find_inserted f t t' u free done = elim (find_one_cases U q u.id q t') [
    | inl missing ↦ absurd (ground (arith, insert_cases U q u.id f t, U.find_one_none q t' u.id u))
    | inr (k, found, stored, passed) ↦
        let same : some k ≡ some u =
          ground (arith, insert_cases U q k.id f t, U.find_one_none q t k.id k) in
        (
          ground (arith, insert_cases U q u.id f t),
          ground (arith, insert_cases U q u.id f t),
          found ∙ same,
        )
  ]
    where
      q : Entity User → Bool
      q = with_email f.tenant_id f.email

  -- The answer of a login that nothing forbids.
  pub login_answer :
      (dto : LoginDto) (now : ℕ) (s : State g) (u : Entity User)
      → g.users.find_one (with_email dto.tenant_id dto.email) s.users ≡ some u
      → U.row s.users u.id ≡ some u
      → g.bcrypt.compare dto.password u.own.password_hash ≡ true
      → may_log_in u.own.status ≡ true
      → ((v : Entity User) × ((login g dto now s).0 ≡ ok v)
          × (v.id ≡ u.id)
          × (v.own ≡ record (u.own) { last_login_at = some now }))
        ⊎ ((x : Exception) × ((login g dto now s).0 ≡ throw x)
            × (g.users.save (logged_in u now) s.users ≡ throw x))
  unfolding login
  login_answer dto now s u found row right allowed =
      elim (save_cases U (with_email dto.tenant_id dto.email) u.id (logged_in u now) u s.users
        row) [
          | inl (x, failed) ↦ inr (x, rw (found, right, allowed, failed) refl, failed)
          | inr (v, t, done, id, own, _, _) ↦
              inl (v, rw (found, right, allowed, done) refl, id, own)
        ]

  -- Whoever has just registered can log in with the same password: the answer is the new user, or
  -- the exception with which the write of the login's time failed.
  pub register-login :
      (B : IsLawfulBcrypt g.bcrypt) (dto : RegisterDto) (salt : String) (now : ℕ) (s s' : State g)
      (u : Entity User)
      → register g dto salt s ≡ (ok u, s')
      → let answer =
          (login g
            (record { email = dto.email; password = dto.password; tenant_id = dto.tenant_id })
            now
            s').0 in
        ((v : Entity User) × (answer ≡ ok v)
          × (v.id ≡ u.id)
          × (v.own ≡ record (u.own) { last_login_at = some now }))
        ⊎ ((x : Exception) × (answer ≡ throw x)
            × (g.users.save (logged_in u now) s'.users ≡ throw x))
  register-login B dto salt now s s' u h =
      let (free, done) = register_inverted dto salt s s' u h in
      let (own, row, found) =
        find_inserted (registered dto (g.bcrypt.hash salt 10 dto.password)) s.users s'.users u free
          done in
      login_answer _ now s' u found row (rw own (B.compare-hash salt 10 dto.password)) (rw own refl)

  -- With the right password, a user whose status is neither ACTIVE nor PENDING is refused by login,
  -- and yet gets a new pair of tokens for a refresh token that verifies.
  pub refresh_ignores_status :
      (jwt : Jwt) (secret token password : String) (payload : JwtPayload) (u : Entity User)
      (now : ℕ) (s : State g)
      → UniqueEmails g U s.users
      → U.row s.users u.id ≡ some u
      → may_log_in u.own.status ≡ false
      → g.bcrypt.compare password u.own.password_hash ≡ true
      → secret ≢ ""
      → jwt.verify token secret ≡ ok payload
      → payload.sub ≡ u.id
      → (login g
            (record { email = u.own.email; password = password; tenant_id = u.own.tenant_id })
            now
            s
          ≡ (throw (unauthorized "User inactive: USER_INACTIVE"), s))
        × (refresh g jwt
              (some secret)
              (record { refresh_token = token; tenant_id = u.own.tenant_id })
              s
            ≡ (ok u, s))
  unfolding login refresh
  refresh_ignores_status jwt secret token password payload u now s unique row dead right set
        verified same =
      (
        rw (find_one_of_email g U s.users u unique row, right, dead) refl,
        ground (
          arith,
          find_one_of_id U (with_id u.own.tenant_id u.id) s.users u.id u (λ k good. ground arith)
              row (ground arith),
        ),
      )
