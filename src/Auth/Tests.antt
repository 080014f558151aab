-- ===== src/Auth/Tests.antt =====
-- Authentication on the gateway in memory.
use multi_tenant_saas_gatewa.Common.{
  ◌<◌, String, ◌≡◌, ◌≢◌, refl, ◌⊎◌, true, false, none, some, [], ◌∷◌, arith, string_dec, concat,
  if◌then◌else◌, ◌==◌,
}
use multi_tenant_saas_gatewa.Common.Outcome.{Exception, ok, throw, unauthorized, bad_request}
use multi_tenant_saas_gatewa.Database.{Entity}
use multi_tenant_saas_gatewa.Database.Memory.{memory, memory-IsLawful}
use multi_tenant_saas_gatewa.Entities.{User, archived, PasswordResetToken}
use multi_tenant_saas_gatewa.Gateway.{State}
use multi_tenant_saas_gatewa.Gateway.Memory.{
  example, users-IsLawful, readable-IsLawfulBcrypt, tokens-IsLawful,
}
use multi_tenant_saas_gatewa.Users.{with_email}
use multi_tenant_saas_gatewa.Users.Emails.{UniqueEmails}
use multi_tenant_saas_gatewa.Users.Tests.{ada, one_user}
use multi_tenant_saas_gatewa.Auth.Reset.{
  UniqueTokens, reset_once, request_reset_blind, spent, rehashed,
}
use multi_tenant_saas_gatewa.Auth.{
  extract_hours, leading_number, reset_password, request_reset, ResetPasswordDto, ChangePasswordDto,
  change_password, ForgotPasswordDto, Jwt, LoginDto, RegisterDto, may_log_in, login, register,
  registered,
}
use multi_tenant_saas_gatewa.Auth.Passwords.{Renewed, change_password-login, reset_password-login}
use multi_tenant_saas_gatewa.Auth.Login.{login_sound, register-login, logged_in}

abbrev pub ada_in : LoginDto
ada_in = record { email = "ada@acme"; password = "pw"; tenant_id = "acme" }

unfoldable pub after_login : State example
unfolding memory one_user
after_login = record one_user { users = logged_in ada 77 ∷ [] }

logs_in : login example ada_in 77 one_user ≡ (ok (logged_in ada 77), after_login)
unfolding login memory string_dec concat one_user after_login
logs_in = refl

login_sound_example :
    (old : Entity User) × (users-IsLawful.row one_user.users old.id ≡ some old)
    × (old.own.tenant_id ≡ "acme")
    × (old.own.email ≡ "ada@acme")
    × (example.bcrypt.compare "pw" old.own.password_hash ≡ true)
    × (may_log_in old.own.status ≡ true)
    × ((logged_in ada 77).own ≡ record (old.own) { last_login_at = some 77 })
    × ((i : String)
        → users-IsLawful.row after_login.users i
          ≡ (if old.id == i then some (logged_in ada 77) else users-IsLawful.row one_user.users i))
    × (after_login ≡ record one_user { users = after_login.users })
login_sound_example =
    login_sound example users-IsLawful ada_in 77 one_user after_login (logged_in ada 77) logs_in

abbrev eve_dto : RegisterDto
eve_dto = record { email = "eve@acme"; name = "Eve"; password = "qw"; tenant_id = "acme" }

abbrev eve : Entity User
eve = record {
  base = record { id = "id+"; created_at = 1; updated_at = 1; deleted_at = none };
  own = registered eve_dto "#qw";
}

unfoldable after_register : State example
unfolding memory one_user
after_register = (register example eve_dto "s" one_user).1

registers : register example eve_dto "s" one_user ≡ (ok eve, after_register)
unfolding register memory string_dec concat one_user after_register
registers = refl

register-login_example :
    let answer =
      (login example
        (record { email = "eve@acme"; password = "qw"; tenant_id = "acme" })
        88
        after_register).0 in
    ((v : Entity User) × (answer ≡ ok v)
      × (v.id ≡ "id+")
      × (v.own ≡ record (eve.own) { last_login_at = some 88 }))
    ⊎ ((x : Exception) × (answer ≡ throw x)
        × (example.users.save (logged_in eve 88) after_register.users ≡ throw x))
register-login_example =
    register-login example users-IsLawful readable-IsLawfulBcrypt eve_dto "s" 88 one_user
      after_register eve registers

abbrev retired : Entity User
retired = record ada { own = record (ada.own) { status = archived } }

unfoldable one_retired : State example
unfolding memory one_user
one_retired = record one_user { users = retired ∷ [] }

one_retired-UniqueEmails : UniqueEmails example users-IsLawful one_retired.users
unfolding memory memory-IsLawful one_retired one_user
one_retired-UniqueEmails i j u v p q tenants emails = ground arith

-- The token is the text "t" and nothing else.
abbrev one_token : Jwt
one_token = record {
  sign = λ payload secret expires_in. ok "t";
  verify = λ token secret.
      if token == "t"
      then ok (record { sub = "u1"; email = "ada@acme"; tenant_id = "acme" })
      else throw (unauthorized "jwt malformed");
}

abbrev digest : String → String
digest t = concat ("d" ∷ t ∷ [])

abbrev ticket : Entity PasswordResetToken
ticket = record {
  base = record { id = "t1"; created_at = 0; updated_at = 0; deleted_at = none };
  own = record { user_id = "u1"; tenant_id = "acme"; token = "dx"; expires_at = 100; used = false };
}

unfoldable one_ticket : State example
unfolding memory one_user
one_ticket = record one_user { reset_tokens = ticket ∷ [] }

abbrev new_password : ResetPasswordDto
new_password = record { token = "x"; tenant_id = "acme"; new_password = "pw2" }

unfoldable after_reset : State example
unfolding memory one_user one_ticket
after_reset = record one_ticket {
  users = rehashed ada "#pw2" ∷ [];
  reset_tokens = spent ticket ∷ [];
}

resets : reset_password example digest new_password "s" 50 one_ticket ≡ (ok tt, after_reset)
unfolding reset_password memory string_dec concat one_user one_ticket after_reset
resets = refl

one_ticket-UniqueEmails : UniqueEmails example users-IsLawful one_ticket.users
unfolding memory memory-IsLawful one_ticket one_user
one_ticket-UniqueEmails i j u v p q tenants emails = ground arith

reset_password-login_example :
    (r : Entity PasswordResetToken) × (u : Entity User) × (tokens-IsLawful.row
        one_ticket.reset_tokens r.id
      ≡ some r)
    × (r.own.token ≡ digest "x")
    × (r.own.tenant_id ≡ "acme")
    × (r.own.used ≡ false)
    × (50 < r.own.expires_at)
    × (users-IsLawful.row one_ticket.users r.own.user_id ≡ some u)
    × Renewed example users-IsLawful u (example.bcrypt.hash "s" 10 "pw2") "pw2" "pw" 90 after_reset
reset_password-login_example =
    reset_password-login example users-IsLawful tokens-IsLawful readable-IsLawfulBcrypt digest "s"
      "pw" new_password 50 90 one_ticket after_reset one_ticket-UniqueEmails resets

one_ticket-UniqueTokens :
    UniqueTokens example users-IsLawful tokens-IsLawful digest one_ticket.reset_tokens
unfolding memory memory-IsLawful one_ticket one_user
one_ticket-UniqueTokens i j q r p p' same = ground arith

reset_once_example :
    reset_password example digest new_password "s" 60 after_reset
    ≡ (throw (bad_request "Invalid or expired reset token"), after_reset)
reset_once_example =
    reset_once example users-IsLawful tokens-IsLawful digest new_password new_password "s" "s" 50 60
      one_ticket after_reset one_ticket-UniqueTokens resets refl

abbrev change_dto : ChangePasswordDto
change_dto = record { current_password = "pw"; new_password = "pw3" }

unfoldable after_change : State example
unfolding memory one_user one_ticket
after_change = record one_ticket { users = rehashed ada "#pw3" ∷ [] }

changes : change_password example "u1" "acme" change_dto "s" one_ticket ≡ (ok tt, after_change)
unfolding change_password memory string_dec concat one_user one_ticket after_change
changes = refl

change_password-login_example :
    (u : Entity User) × (users-IsLawful.row one_ticket.users "u1" ≡ some u)
    × (u.own.tenant_id ≡ "acme")
    × (example.bcrypt.compare "pw" u.own.password_hash ≡ true)
    × Renewed example users-IsLawful u (example.bcrypt.hash "s" 10 "pw3") "pw3" "pw" 90 after_change
change_password-login_example =
    change_password-login example users-IsLawful readable-IsLawfulBcrypt "u1" "acme" "s" "pw"
      change_dto 90 one_ticket after_change one_ticket-UniqueEmails changes

-- The old password is refused from then on.
old_refused :
    login example (record ada_in { password = "pw" }) 90 after_change
    ≡ (throw (unauthorized "Invalid credentials: INVALID_CREDENTIALS"), after_change)
unfolding login memory string_dec concat one_user one_ticket after_change
old_refused = refl

abbrev forgotten : ForgotPasswordDto
forgotten = record { email = "ada@acme"; tenant_id = "acme" }

unfoldable after_request : State example
unfolding memory one_user
after_request = (request_reset example digest forgotten "y" 50 one_user).1

requests :
    request_reset example digest forgotten "y" 50 one_user
    ≡ (ok "If that email exists, a reset link has been sent.", after_request)
unfolding request_reset memory string_dec concat one_user after_request
requests = refl

request_reset_blind_example :
    (◌≡◌ {A = String} "If that email exists, a reset link has been sent."
      "If that email exists, a reset link has been sent.")
    × (((example.users.find_one (with_email "acme" "ada@acme") one_user.users ≡ none)
          × (after_request ≡ one_user))
        ⊎ ((u : Entity User) × (e : Entity PasswordResetToken) × (example.users.find_one
                (with_email "acme" "ada@acme")
                one_user.users
              ≡ some u)
            × (tokens-IsLawful.row after_request.reset_tokens e.id ≡ some e)
            × (e.own ≡ record {
              user_id = u.id;
              tenant_id = "acme";
              token = digest "y";
              expires_at = 3600050;
              used = false;
            })
            × ((tokens-IsLawful.row after_request.reset_tokens "t1" ≡ none)
                ⊎ ((r : Entity PasswordResetToken) × (tokens-IsLawful.row after_request.reset_tokens
                        "t1"
                      ≡ some r)
                    × ((r.own.user_id ≢ u.id) ⊎ (r.own.used ≡ true) ⊎ (r ≡ e))))))
request_reset_blind_example =
    request_reset_blind example users-IsLawful tokens-IsLawful digest forgotten "y" _ 50 one_user
      after_request "t1" requests

week : extract_hours "7d" ≡ 7
unfolding extract_hours leading_number
week = refl
