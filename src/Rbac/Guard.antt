-- ===== src/Rbac/Guard.antt =====
-- What the guard lets through, and what the removal of a role does.
use multi_tenant_saas_gatewa.Common.{
  ℕ, String, ◌≡◌, ◌≢◌, refl, ◌⊎◌, inl, inr, true, false, not, ◌&&◌, Option, none, some, List, [],
  ◌∷◌, ◌==◌, arith, any, In, Option-cases, concat, map, filter, subst,
}
use multi_tenant_saas_gatewa.Common.Outcome.{ok}
use multi_tenant_saas_gatewa.Database.{Entity, IsLawful}
use multi_tenant_saas_gatewa.Database.Laws.{Result-cases, find_one_cases, save_cases}
use multi_tenant_saas_gatewa.Entities.{User, PermissionRequirement, Cached, role_names}
use multi_tenant_saas_gatewa.Auth.{AuthenticatedUser}
use multi_tenant_saas_gatewa.Redis
use multi_tenant_saas_gatewa.Redis.{IsLawfulCache, CacheState}
use multi_tenant_saas_gatewa.Redis.Keys.{prefix_clash}
use multi_tenant_saas_gatewa.Redis.Reads.{get-set, get-del}
use multi_tenant_saas_gatewa.Gateway.{Gateway, State}
use multi_tenant_saas_gatewa.Users.{with_id}
use multi_tenant_saas_gatewa.Rbac.{
  perms_key, roles_key, as_permissions, as_role_names, collect, has_role, roles_of, permissions_of,
  get_user_permissions, get_user_role_names, check_roles, check_permissions, can_activate,
  remove_role_from_user, delete_role,
}
use multi_tenant_saas_gatewa.Rbac.Grants.{Grants, has_permission-Grants}
use text.Mathlib.TextEquality.{eq_iff}

perms_key-ne-roles_key : (t u t' u' : String) → perms_key t u ≢ roles_key t' u'
unfolding perms_key roles_key concat
perms_key-ne-roles_key t u t' u' h =
    prefix_clash "rbac:perms:" "rbac:roles:" _ _ refl
      (ground (arith, eq_iff "rbac:perms:" "rbac:roles:")) h

collect_nothing : collect [] [] ≡ []
unfolding collect
collect_nothing = refl

-- Every element has the property.
abbrev pub Each : {A : Type 0} → (A → Type 0) → List A → Type 0
Each P [] = Unit {0}
Each P (x ∷ xs) = P x × Each P xs

Each-In : {A : Type 0} (P : A → Type 0) (xs : List A) → ((x : A) → In x xs → P x) → Each P xs
Each-In P [] h = tt
Each-In P (x ∷ xs) h = (h x (inl refl), Each-In P xs (λ y at. h y (inr at)))

any-filter :
    (x : String) (xs : List String) → any (λ i. i == x) (filter (λ i. not (i == x)) xs) ≡ false
any-filter x [] = refl
any-filter x (y ∷ ys) = ground (arith, any-filter x ys)

module _ (g : Gateway) (U : IsLawful g.users) (C : IsLawfulCache g.cache) where
  -- Nothing is cached of the roles and the permissions of a user.
  pub record Uncached (tenant_id user_id : String) (s : State g) : Type 0 where
    pub no_permissions :
        as_permissions (Redis.get g.cache (perms_key tenant_id user_id) s.cache) ≡ none
    pub no_roles : as_role_names (Redis.get g.cache (roles_key tenant_id user_id) s.cache) ≡ none

  no_role : (required : List String) → has_role [] required ≡ false
  unfolding has_role
  no_role [] = refl
  no_role (r ∷ required) = no_role required

  perms_entry_kept :
      (t u : String) (v : Cached) (ttl : Option ℕ) (c : CacheState g.cache)
      → Redis.get g.cache (perms_key t u) (Redis.set g.cache (roles_key t u) v ttl c)
        ≡ Redis.get g.cache (perms_key t u) c
  perms_entry_kept t u v ttl c =
      ground
        (arith, get-set C c (roles_key t u) (perms_key t u) v ttl, perms_key-ne-roles_key t u t u)

  -- What passes the test on roles.
  pub record PassedRoles (a : AuthenticatedUser) (required : List String) (s s' : State g)
      : Type 0 where
    pub holder : Entity User
    pub stored : U.row s.users a.user_id ≡ some holder
    pub same_tenant : holder.own.tenant_id ≡ a.tenant_id
    pub holds : has_role (map (λ r. r.own.name) (roles_of g s holder)) required ≡ true
    pub written : s' ≡ record s { cache = s'.cache }
    pub uncached :
        as_permissions (Redis.get g.cache (perms_key a.tenant_id a.user_id) s'.cache) ≡ none

  check_roles_sound :
      (a : AuthenticatedUser) (required : List String) (s s' : State g)
      → Uncached a.tenant_id a.user_id s
      → check_roles g a required s ≡ (ok tt, s')
      → PassedRoles a required s s'
  unfolding check_roles get_user_role_names
  check_roles_sound a required s s' out h =
      elim (find_one_cases U (with_id a.tenant_id a.user_id) a.user_id
        (with_id a.tenant_id a.user_id) s.users) [
          | inl missing ↦ absurd (ground (arith, out.no_roles, no_role required))
          | inr (u, found, row, passed) ↦ record {
            holder = u;
            stored = ground arith;
            same_tenant = ground arith;
            holds = ground (arith, out.no_roles);
            written = ground (arith, out.no_roles);
            uncached = ground (
              arith,
              out.no_roles,
              out.no_permissions,
              perms_entry_kept a.tenant_id a.user_id
                  (role_names (map (λ r. r.own.name) (roles_of g s u))) (some 300) s.cache,
            );
          }
        ]

  check_permissions_sound :
      (a : AuthenticatedUser) (required : List PermissionRequirement) (r : PermissionRequirement)
      (s s' : State g)
      → as_permissions (Redis.get g.cache (perms_key a.tenant_id a.user_id) s.cache) ≡ none
      → check_permissions g a required s ≡ (ok tt, s')
      → In r required
      → (u : Entity User) × (U.row s.users a.user_id ≡ some u)
        × (u.own.tenant_id ≡ a.tenant_id)
        × Grants (permissions_of g s u) r
  unfolding check_permissions get_user_permissions
  check_permissions_sound a required r s s' out h at =
      elim (find_one_cases U (with_id a.tenant_id a.user_id) a.user_id
        (with_id a.tenant_id a.user_id) s.users) [
          | inl missing ↦ absurd (
              (has_permission-Grants [] required r (ground (arith, out, collect_nothing))
                at).listed)
          | inr (u, found, row, passed) ↦ (
            u,
            ground arith,
            ground arith,
            has_permission-Grants (permissions_of g s u) required r (ground (arith, out)) at,
          )
        ]

  all_kept :
      (s s₁ : State g) (u : Entity User) (required : List PermissionRequirement)
      → s₁ ≡ record s { cache = s₁.cache }
      → Each (Grants (permissions_of g s₁ u)) required
      → Each (Grants (permissions_of g s u)) required
  unfolding permissions_of roles_of
  all_kept s s₁ u required same h =
      subst (λ t. Each (Grants (permissions_of g t u)) required) same h

  -- A route that names no role: with nothing cached of the caller's permissions, what the guard lets
  -- through has each required permission.
  pub can_activate_permitted :
      (required : List PermissionRequirement) (a : AuthenticatedUser) (r : PermissionRequirement)
      (s s' : State g)
      → as_permissions (Redis.get g.cache (perms_key a.tenant_id a.user_id) s.cache) ≡ none
      → can_activate g required [] (some a) s ≡ (ok true, s')
      → In r required
      → (u : Entity User) × (U.row s.users a.user_id ≡ some u)
        × (u.own.tenant_id ≡ a.tenant_id)
        × Grants (permissions_of g s u) r
  unfolding can_activate
  can_activate_permitted [] a r s s' out h at = absurd at
  can_activate_permitted (x ∷ required) a r s s' out h at =
      elim (Result-cases ((check_permissions g a (x ∷ required) s).0)) [
        | inl (e, refused) ↦ absurd (ground arith)
        | inr (_, passed) ↦
            check_permissions_sound a (x ∷ required) r s (check_permissions g a (x ∷ required) s).1
              out (ground arith) at
      ]

  -- The caller is stored under its tenant, has a role by one of the names, if there are any, and each
  -- required permission is that of an active permission of one of its roles.
  pub record Authorized (required : List PermissionRequirement) (names : List String)
      (a : AuthenticatedUser) (s : State g) : Type 0 where
    pub holder : Entity User
    pub stored : U.row s.users a.user_id ≡ some holder
    pub same_tenant : holder.own.tenant_id ≡ a.tenant_id
    pub has_a_role :
        (names ≡ []) ⊎ (has_role (map (λ r. r.own.name) (roles_of g s holder)) names ≡ true)
    pub permitted : Each (Grants (permissions_of g s holder)) required

  all_granted :
      (a : AuthenticatedUser) (x : PermissionRequirement) (required : List PermissionRequirement)
      (s s' : State g)
      → as_permissions (Redis.get g.cache (perms_key a.tenant_id a.user_id) s.cache) ≡ none
      → check_permissions g a (x ∷ required) s ≡ (ok tt, s')
      → (u : Entity User) × (U.row s.users a.user_id ≡ some u)
        × (u.own.tenant_id ≡ a.tenant_id)
        × Each (Grants (permissions_of g s u)) (x ∷ required)
  all_granted a x required s s' out h =
      let (u, row, mine, _) = check_permissions_sound a (x ∷ required) x s s' out h (inl refl) in
      (
        u,
        row,
        mine,
        Each-In (Grants (permissions_of g s u)) (x ∷ required) (λ r at.
            let (v, at_v, _, granted) = check_permissions_sound a (x ∷ required) r s s' out h at in
            let same : v ≡ u = ground (arith, row, at_v) in
            subst (λ w. Grants (permissions_of g s w) r) same granted),
      )

  -- The guard lets a request of a caller through, of whose permissions and roles nothing was cached:
  -- the route requires nothing, or the caller is stored under its tenant, has a role by one of the
  -- required names, if any are required, and each required permission is that of an active
  -- permission of one of its roles.
  pub can_activate_sound :
      (required : List PermissionRequirement) (names : List String) (a : AuthenticatedUser)
      (s s' : State g)
      → Uncached a.tenant_id a.user_id s
      → can_activate g required names (some a) s ≡ (ok true, s')
      → ((required ≡ []) × (names ≡ [])) ⊎ Authorized required names a s
  unfolding can_activate
  can_activate_sound [] [] a s s' out h = inl (refl, refl)
  can_activate_sound [] (n ∷ names) a s s' out h =
      elim (Result-cases ((check_roles g a (n ∷ names) s).0)) [
        | inl (e, refused) ↦ absurd (ground arith)
        | inr (_, passed) ↦
            let P =
              check_roles_sound a (n ∷ names) s (check_roles g a (n ∷ names) s).1 out
                (ground arith) in
            inr (record {
              holder = P.holder;
              stored = P.stored;
              same_tenant = P.same_tenant;
              has_a_role = inr P.holds;
              permitted = tt;
            })
      ]
  can_activate_sound (x ∷ required) [] a s s' out h =
      elim (Result-cases ((check_permissions g a (x ∷ required) s).0)) [
        | inl (e, refused) ↦ absurd (ground arith)
        | inr (_, passed) ↦
            let (u, row, mine, granted) =
              all_granted a x required s (check_permissions g a (x ∷ required) s).1
                out.no_permissions (ground arith) in
            inr (record {
              holder = u;
              stored = row;
              same_tenant = mine;
              has_a_role = inl refl;
              permitted = granted;
            })
      ]
  can_activate_sound (x ∷ required) (n ∷ names) a s s' out h =
      elim (Result-cases ((check_roles g a (n ∷ names) s).0)) [
        | inl (e, refused) ↦ absurd (ground arith)
        | inr (_, passed) ↦
            let s₁ : State g = (check_roles g a (n ∷ names) s).1 in
            elim (Result-cases ((check_permissions g a (x ∷ required) s₁).0)) [
              | inl (e, refused) ↦ absurd (ground arith)
              | inr (_, allowed) ↦
                  let P = check_roles_sound a (n ∷ names) s s₁ out (ground arith) in
                  let (u, row, mine, granted) =
                    all_granted a x required s₁ (check_permissions g a (x ∷ required) s₁).1
                      P.uncached (ground arith) in
                  let same : P.holder ≡ u = ground (arith, P.stored, row, P.written) in
                  inr (record {
                    holder = u;
                    stored = ground (arith, row, P.written);
                    same_tenant = mine;
                    has_a_role = inr (rw (← same) P.holds);
                    permitted = all_kept s s₁ u (x ∷ required) P.written granted;
                  })
            ]
      ]

  forgotten :
      (t u : String) (s s' : State g)
      → s'.cache ≡ Redis.del g.cache (roles_key t u) (Redis.del g.cache (perms_key t u) s.cache)
      → Uncached t u s'
  forgotten t u s s' eq =
      let c₁ = Redis.del g.cache (perms_key t u) s.cache in
      record {
        no_permissions = rw eq (
            ground (
              arith,
              get-del C c₁ (roles_key t u) (perms_key t u),
              get-del C s.cache (perms_key t u) (perms_key t u),
            ));
        no_roles = rw eq (ground (arith, get-del C c₁ (roles_key t u) (roles_key t u)));
      }

  -- After a role was taken from a user, its row does not have the role, and nothing is cached of the
  -- user: the next request is decided by the tables.
  pub remove_role_revokes :
      (user_id role_id tenant_id : String) (s s' : State g)
      → remove_role_from_user g user_id role_id tenant_id s ≡ (ok tt, s')
      → Uncached tenant_id user_id s'
        × ((u : Entity User) × (U.row s'.users user_id ≡ some u)
            × (any (λ i. i == role_id) u.own.roles ≡ false))
  unfolding remove_role_from_user
  remove_role_revokes user_id role_id tenant_id s s' h =
      elim (find_one_cases U (with_id tenant_id user_id) user_id (with_id tenant_id user_id)
        s.users) [
          | inl missing ↦ absurd (ground arith)
          | inr (u, found, row, passed) ↦
              let shorter : Entity User = record u {
                own = record (u.own) { roles = filter (λ i. not (i == role_id)) u.own.roles };
              } in
              elim (save_cases U (with_id tenant_id user_id) user_id shorter u s.users row) [
                | inl (x, failed) ↦ absurd (ground arith)
                | inr (e, t, done, id, own, rows, _) ↦ (
                  forgotten tenant_id user_id s s' (ground arith),
                  (e, ground arith, rw own (any-filter role_id u.own.roles)),
                )
              ]
        ]

  -- The removal of a role leaves the caches alone: a user whose permissions are cached keeps them,
  -- those that came from the removed role too, until the entry expires.
  pub delete_role_stale :
      (role_id tenant_id user_id : String) (ps : List PermissionRequirement) (s s' : State g)
      → as_permissions (Redis.get g.cache (perms_key tenant_id user_id) s.cache) ≡ some ps
      → delete_role g role_id tenant_id s ≡ (ok tt, s')
      → get_user_permissions g user_id tenant_id s' ≡ (ok ps, s')
  unfolding delete_role get_user_permissions
  delete_role_stale role_id tenant_id user_id ps s s' cached h =
      let kept : s'.cache ≡ s.cache =
        elim (Option-cases
          (g.roles.find_one (λ r. r.id == role_id && r.own.tenant_id == tenant_id) s.roles)) [
            | inl missing ↦ absurd (ground arith)
            | inr (role, found) ↦ ground arith
          ] in
      let hit : as_permissions (Redis.get g.cache (perms_key tenant_id user_id) s'.cache)
          ≡ some ps =
        rw kept cached in
      rw (hit, get_user_permissions) refl
