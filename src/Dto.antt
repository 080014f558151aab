-- ===== src/Dto.antt =====
-- The validation of bodies and queries: `ValidationPipe` as src/main.ts sets it up, with the rules of
-- class-validator that the DTOs name. What a rule of that library tests on a text is a parameter, and
-- so is the conversion to the declared type of a property (`enableImplicitConversion`). A body that is refused is answered with
-- the status 400.
pub mod Users
pub mod Tenants
pub mod Queries
pub mod Slugs
pub mod Webhooks
mod Tests
use multi_tenant_saas_gatewa.Common.{
  ℕ, String, ◌≡◌, refl, subst, arith, Bool, true, false, ◌&&◌, Option, none, some, List, [], ◌∷◌,
  ◌==◌, leb, any, all, if◌then◌else◌,
}
use multi_tenant_saas_gatewa.Common.Outcome
use multi_tenant_saas_gatewa.Common.Outcome.{Result, ok, throw, http, many}

pub data Item : Type 0 where
  text : String → Item
  number : ℕ → Item
  other_number : Item
  boolean : Bool → Item
  object : Item

-- A number that is negative or not whole is an `other_number`.
pub data Value : Type 0 where
  null : Value
  single : Item → Value
  list : List Item → Value

-- The declared types of properties.
pub data Kind : Type 0 where
  string_type number_type boolean_type array_type : Kind

-- The keys of an object and their values.
abbrev pub Fields : Type 0
Fields = List (String × Value)

pub record Validators : Type 0 where
  pub convert : Kind → Value → Value
  pub length : String → ℕ
  pub is_email : String → Bool
  pub is_url : String → Bool
  pub is_uuid : String → Bool
  pub is_uuid4 : String → Bool
  pub is_date_string : String → Bool
  pub problems : Fields → List String

-- Shut in proofs, which take a chain apart by `Holds-bind`.
infixl 5 ◌>>=◌ ◌>>◌
unfoldable pub ◌>>=◌ : {A B : Type 0} → Option A → (A → Option B) → Option B
none >>= f = none
some a >>= f = f a

abbrev pub ◌>>◌ : {B : Type 0} → Option (Unit {0}) → Option B → Option B
m >> k = m >>= λ _. k

abbrev pub guard : Bool → Option (Unit {0})
guard b = if b then some tt else none

some_injective : {A : Type 0} (a b : A) → some a ≡ some b → a ≡ b
some_injective a b e = cc

-- Whatever is given has the property.
pub record Holds {A : Type 0} (P : A → Type 0) (m : Option A) : Type 0 where
  pub apply : (a : A) → m ≡ some a → P a

pub Holds-bind :
    {A B : Type 0} {P : B → Type 0} (m : Option A) (f : A → Option B)
    → ((a : A) → m ≡ some a → Holds P (f a))
    → Holds P (m >>= f)
unfolding ◌>>=◌
Holds-bind none f h = record { apply = λ b e. absurd (ground (arith, e)) }
Holds-bind (some a) f h = h a refl

pub Holds-some : {A : Type 0} {P : A → Type 0} (a : A) → P a → Holds P (some a)
Holds-some {P} a p = record { apply = λ b e. subst P (some_injective a b e) p }

pub guard_passed : (b : Bool) (u : Unit {0}) → guard b ≡ some u → b ≡ true
guard_passed true u h = refl
guard_passed false u h = absurd (ground (arith, h))

abbrev pub lookup : String → Fields → Option Value
lookup name [] = none
lookup name ((key, v) ∷ rest) = if key == name then some v else lookup name rest

-- A value that is neither missing nor null.
abbrev pub not_null : Option Value → Option Value
not_null none = none
not_null (some null) = none
not_null (some (single x)) = some (single x)
not_null (some (list xs)) = some (list xs)

abbrev pub present : String → Fields → Option Value
present name fields = not_null (lookup name fields)

abbrev pub is_null : Option Value → Bool
is_null (some null) = true
is_null _ = false

-- `whitelist` with `forbidNonWhitelisted`: every key is a property of the class.
unfoldable pub whitelisted : List String → Fields → Bool
whitelisted names fields = all (λ f. any (λ n. n == f.0) names) fields

abbrev pub text_of : Value → Option String
text_of (single (text s)) = some s
text_of _ = none

abbrev pub number_of : Value → Option ℕ
number_of (single (number n)) = some n
number_of _ = none

abbrev pub boolean_of : Value → Option Bool
boolean_of (single (boolean b)) = some b
boolean_of _ = none

abbrev pub item_text : Item → Option String
item_text (text s) = some s
item_text _ = none

abbrev pub each : {A : Type 0} → (Item → Option A) → List Item → Option (List A)
each of [] = some []
each of (x ∷ xs) = of x >>= λ a. each of xs >>= λ rest. some (a ∷ rest)

-- `@IsArray()` with a rule for each element.
abbrev pub list_of : {A : Type 0} → (Item → Option A) → Value → Option (List A)
list_of of (list xs) = each of xs
list_of of _ = none

abbrev pub just : {A : Type 0} → Option A → Option (Option A)
just none = none
just (some a) = some (some a)

abbrev pub that : {A : Type 0} → (A → Bool) → Option A → Option A
that test none = none
that test (some a) = if test a then some a else none

module _ (V : Validators) (fields : Fields) where
  abbrev pub given : Kind → String → Option Value
  given kind name = lookup name fields >>= λ v. some (V.convert kind v)

  -- A property with rules.
  abbrev pub property : {A : Type 0} → Kind → (Value → Option A) → String → Option A
  property kind of name = given kind name >>= of

  -- A property with `@IsOptional()` too: a null passes all its rules, as a missing property does.
  abbrev pub optional : {A : Type 0} → Kind → (Value → Option A) → String → Option (Option A)
  optional kind of name = elim (present name fields) [
    | none ↦ some none
    | some v ↦ just (of (V.convert kind v))
  ]

  -- Rules on texts.
  abbrev pub string : String → (String → Bool) → Option String
  string name test = property string_type (λ v. that test (text_of v)) name

  abbrev pub optional_string : String → (String → Bool) → Option (Option String)
  optional_string name test = optional string_type (λ v. that test (text_of v)) name

  -- `@IsInt()` with `@Min` and `@Max`.
  abbrev pub optional_int : String → (ℕ → Bool) → Option (Option ℕ)
  optional_int name test = optional number_type (λ v. that test (number_of v)) name

-- `@IsString()` alone.
abbrev pub anything : String → Bool
anything s = true

abbrev pub between : ℕ → ℕ → ℕ → Bool
between lo hi n = leb lo n && leb n hi

-- `ValidationPipe.transform`: what is decoded, or a BadRequestException with the messages of the rules.
abbrev pub transform : {A : Type 0} → Validators → Fields → Option A → Result A
transform V fields none = throw (
    http 400 (Outcome.object none (some (many (V.problems fields))) (some "Bad Request"))
      "Bad Request Exception")
transform V fields (some a) = ok a
