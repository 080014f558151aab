-- ===== src/Profile.antt =====
-- src/modules/profile/profile.service.ts: a user reads and changes its own profile. It writes the table
-- of users and leaves the cache of `UserService` alone.
pub mod Cached
mod Tests
use multi_tenant_saas_gatewa.Common.{ℕ, String, Bool, Option, get_or}
use multi_tenant_saas_gatewa.Common.Outcome.{M, pure, gets, ◌>>=◌, or_throw, not_found}
use multi_tenant_saas_gatewa.Database.{Entity}
use multi_tenant_saas_gatewa.Entities.{User}
use multi_tenant_saas_gatewa.Users.{with_id}
use multi_tenant_saas_gatewa.Gateway.{Gateway, State, save_user}

pub record ProfileResponseDto : Type 0 where
  pub id : String
  pub email : String
  pub name : String
  pub tenant_id : String
  pub email_verified : Bool
  pub last_login_at : Option ℕ
  pub created_at : ℕ
  pub updated_at : ℕ

unfoldable pub format : Entity User → ProfileResponseDto
format u = record {
  id = u.id;
  email = u.own.email;
  name = u.own.name;
  tenant_id = u.own.tenant_id;
  email_verified = u.own.email_verified;
  last_login_at = u.own.last_login_at;
  created_at = u.created_at;
  updated_at = u.updated_at;
}

module _ (g : Gateway) where
  unfoldable pub get_profile : String → String → M (State g) ProfileResponseDto
  get_profile user_id tenant_id = do
    found ← gets (λ s. g.users.find_one (with_id tenant_id user_id) s.users)
    u ← or_throw found (not_found "User not found")
    pure (format u)

  -- `name` is the one field of `UpdateProfileDto`.
  unfoldable pub update_profile : String → String → Option String → M (State g) ProfileResponseDto
  unfolding format
  update_profile user_id tenant_id name = do
    found ← gets (λ s. g.users.find_one (with_id tenant_id user_id) s.users)
    u ← or_throw found (not_found "User not found")
    saved ← save_user g (record u { own = record (u.own) { name = get_or name u.own.name } })
    pure (format saved)
