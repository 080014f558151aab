-- ===== src/Profile/Cached.antt =====
-- The copy of the user that the cache holds while the profile changes.
use multi_tenant_saas_gatewa.Common.{ℕ, String, ◌≡◌, inl, inr, some, arith}
use multi_tenant_saas_gatewa.Common.Outcome.{ok}
use multi_tenant_saas_gatewa.Database.{Entity, IsLawful}
use multi_tenant_saas_gatewa.Database.Laws.{find_one_cases, save_cases}
use multi_tenant_saas_gatewa.Entities.{User, UserResponseDto}
use multi_tenant_saas_gatewa.Redis
use multi_tenant_saas_gatewa.Gateway.{Gateway, State}
use multi_tenant_saas_gatewa.Users.{with_id, as_user, find_by_id}
use multi_tenant_saas_gatewa.Profile.{ProfileResponseDto, update_profile, format}

module _ (g : Gateway) (U : IsLawful g.users) (ttl : ℕ) where
  -- A user whose copy is cached changes its name: the answer and the row have the new name, and
  -- `findById` still answers with the cached copy, whatever name that has.
  pub update_profile_stale :
      (user_id tenant_id name : String) (d : UserResponseDto) (p : ProfileResponseDto)
      (s s' : State g)
      → as_user (Redis.get g.cache (Redis.user_key user_id) s.cache) ≡ some d
      → d.tenant_id ≡ tenant_id
      → update_profile g user_id tenant_id (some name) s ≡ (ok p, s')
      → (p.name ≡ name)
        × ((u : Entity User) × (U.row s'.users user_id ≡ some u) × (u.own.name ≡ name))
        × (find_by_id g ttl tenant_id user_id s' ≡ (ok d, s'))
  unfolding update_profile format find_by_id
  update_profile_stale user_id tenant_id name d p s s' cached mine h =
      elim (find_one_cases U (with_id tenant_id user_id) user_id (with_id tenant_id user_id)
        s.users) [
          | inl missing ↦ absurd (ground arith)
          | inr (u, found, row, passed) ↦
              let renamed : Entity User = record u { own = record (u.own) { name = name } } in
              elim (save_cases U (with_id tenant_id user_id) user_id renamed u s.users row) [
                | inl (x, failed) ↦ absurd (ground arith)
                | inr (e, t, done, id, own, rows, _) ↦
                    let kept : s'.cache ≡ s.cache = ground arith in
                    let hit : as_user (Redis.get g.cache (Redis.user_key user_id) s'.cache)
                        ≡ some d =
                      rw kept cached in
                    (
                      ground arith,
                      (e, ground arith, ground arith),
                      rw (hit, find_by_id) (ground (arith, mine)),
                    )
              ]
        ]
