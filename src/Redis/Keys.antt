-- ===== src/Redis/Keys.antt =====
-- The key families of the cache do not meet, and a key determines the id in it.
use multi_tenant_saas_gatewa.Common.{String, ◌≡◌, ◌≢◌, refl, ◌∙◌, sym, [], ◌∷◌, concat, arith}
use multi_tenant_saas_gatewa.Redis.{tenant_key, tenant_list_key, user_key, user_list_key}
use Prim.Native.String
use Prim.Native.String.{count}
use text.Mathlib.TextEquality.{eq_iff}
use text.Mathlib.TextLemmas.{append-nil, append_assoc, append_cancel_left, append_inj}

-- Texts that begin with different texts of one length differ.
pub prefix_clash :
    (p q a b : String) → count p ≡ count q → p ≢ q → String.◌++◌ p a ≢ String.◌++◌ q b
prefix_clash p q a b len ne h = ne (append_inj h len).0

one_id : (p i j : String) → concat (p ∷ i ∷ []) ≡ concat (p ∷ j ∷ []) → i ≡ j
unfolding concat
one_id p i j h = sym (append-nil i) ∙ append_cancel_left p _ _ h ∙ append-nil j

pub user_key_injective : (i j : String) → user_key i ≡ user_key j → i ≡ j
unfolding user_key
user_key_injective i j h = one_id "user:" i j h

pub tenant_key_injective : (i j : String) → tenant_key i ≡ tenant_key j → i ≡ j
unfolding tenant_key
tenant_key_injective i j h = one_id "tenant:" i j h

pub user_key-ne-user_list_key : (i t : String) → user_key i ≢ user_list_key t
unfolding user_key user_list_key concat
user_key-ne-user_list_key i t h =
    prefix_clash "user:" "users" _ _ refl (ground (arith, eq_iff "user:" "users"))
      (h ∙ append_assoc "users" ":" _)

pub tenant_key-ne-tenant_list_key : (i : String) → tenant_key i ≢ tenant_list_key
unfolding tenant_key tenant_list_key concat
tenant_key-ne-tenant_list_key i h =
    prefix_clash "tenant:" "tenants" _ ":list" refl (ground (arith, eq_iff "tenant:" "tenants")) h

pub user_key-ne-tenant_key : (i t : String) → user_key i ≢ tenant_key t
unfolding user_key tenant_key concat
user_key-ne-tenant_key i t h =
    prefix_clash "user:" "tenan" _ _ refl (ground (arith, eq_iff "user:" "tenan"))
      (h ∙ append_assoc "tenan" "t:" _)

pub user_key-ne-tenant_list_key : (i : String) → user_key i ≢ tenant_list_key
unfolding user_key tenant_list_key concat
user_key-ne-tenant_list_key i h =
    prefix_clash "user:" "tenan" _ "ts:list" refl (ground (arith, eq_iff "user:" "tenan")) h

pub user_list_key-ne-tenant_key : (u t : String) → user_list_key u ≢ tenant_key t
unfolding user_list_key tenant_key concat
user_list_key-ne-tenant_key u t h =
    prefix_clash "users:" "tenant" _ _ refl (ground (arith, eq_iff "users:" "tenant"))
      (h ∙ append_assoc "tenant" ":" _)
