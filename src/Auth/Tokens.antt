-- ===== src/Auth/Tokens.antt =====
-- The lifetime that the answer to a login states.
use multi_tenant_saas_gatewa.Common.{
  ℕ, ◌+◌, ◌-◌, ◌*◌, String, ◌≡◌, refl, ap, Option, none, some, leb, if◌then◌else◌, ◌&&◌, get_or,
}
use multi_tenant_saas_gatewa.Auth.{leading_number, extract_hours}
use Prim.Native.String
use text.Mathlib.TextLemmas.{cons-append}
use Prim.Native.Char.{code}

leading_number-unit :
    (n : String) (acc : Option ℕ)
    → leading_number acc (String.◌++◌ n "d") ≡ leading_number acc (String.◌++◌ n "h")
unfolding leading_number
leading_number-unit String.[] acc = refl
leading_number-unit (String.◌∷◌ c s) acc =
    rw (cons-append c s "d", cons-append c s "h")
      (ap (λ rest. if leb b'0' (code c) && leb (code c) b'9' then rest else acc)
        (leading_number-unit s (some (get_or acc 0 * 10 + (code c - b'0')))))

-- The unit of a lifetime is not read: whatever the text before it, the hours for days and for hours
-- are the same.
pub extract_hours_unit :
    (n : String) → extract_hours (String.◌++◌ n "d") ≡ extract_hours (String.◌++◌ n "h")
unfolding extract_hours
extract_hours_unit n = rw (leading_number-unit n none) refl
