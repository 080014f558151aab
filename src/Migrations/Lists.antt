-- ===== src/Migrations/Lists.antt =====
-- Lists of tables, types and indexes one after the other, and tests on them, for the statements of
-- src/database/migrations.
use multi_tenant_saas_gatewa.Common.{
  String, ◌≡◌, refl, ap, ◌∙◌, Bool, true, false, not, ◌&&◌, ◌||◌, Option, none, some, List, [], ◌∷◌,
  ◌++◌, any, all, filter, arith, if◌then◌else◌, Bool-cases, inl, inr,
}
use mathlib.Core.Bool.{cond}
use mathlib.Core.Option
use multi_tenant_saas_gatewa.Migrations.{Table, is_table, change, unless, on_some}

pub any-append :
    {A : Type 0} (p : A → Bool) (xs ys : List A) → any p ys ≡ false → any p (xs ++ ys) ≡ any p xs
any-append p [] ys absent = absent
any-append p (x ∷ xs) ys absent = ap (λ b. p x || b) (any-append p xs ys absent)

pub false-head :
    {A : Type 0} (p : A → Bool) (y : A) (ys : List A) → any p (y ∷ ys) ≡ false → p y ≡ false
false-head p y ys absent = ground (arith, absent)

pub filter-none :
    {A : Type 0} (p : A → Bool) (ys : List A) → any p ys ≡ false → filter (λ y. not (p y)) ys ≡ ys
filter-none p [] absent = refl
filter-none p (y ∷ ys) absent =
    let rest : filter (λ z. not (p z)) ys ≡ ys = filter-none p ys (ground (arith, absent)) in
    ap (λ b. cond (not b) (y ∷ filter (λ z. not (p z)) ys) (filter (λ z. not (p z)) ys))
      (false-head p y ys absent)
    ∙ ap (λ zs. y ∷ zs) rest

pub filter-append :
    {A : Type 0} (p : A → Bool) (xs ys : List A)
    → any p ys ≡ false
    → filter (λ y. not (p y)) (xs ++ ys) ≡ filter (λ y. not (p y)) xs ++ ys
filter-append p [] ys absent = filter-none p ys absent
filter-append p (x ∷ xs) ys absent = elim (Bool-cases (p x)) [
  | inl holds ↦ ground (arith, holds, filter-append p xs ys absent)
  | inr other ↦ ground (arith, other, filter-append p xs ys absent)
]

pub change-none :
    (n : String) (f : Table → Table) (ys : List Table)
    → any (is_table n) ys ≡ false
    → change n f ys ≡ ys
change-none n f [] absent = refl
change-none n f (y ∷ ys) absent =
    let rest : change n f ys ≡ ys = change-none n f ys (ground (arith, absent)) in
    ap (λ b. (if b then f y else y) ∷ change n f ys) (false-head (is_table n) y ys absent)
    ∙ ap (λ zs. y ∷ zs) rest

pub change-append :
    (n : String) (f : Table → Table) (xs ys : List Table)
    → any (is_table n) ys ≡ false
    → change n f (xs ++ ys) ≡ change n f xs ++ ys
change-append n f [] ys absent = change-none n f ys absent
change-append n f (x ∷ xs) ys absent =
    ap (λ zs. (if is_table n x then f x else x) ∷ zs) (change-append n f xs ys absent)

-- No element fits both where none fits one.
pub any-&& :
    {A : Type 0} (p q : A → Bool) (ys : List A)
    → any p ys ≡ false
    → any (λ y. p y && q y) ys ≡ false
any-&& p q [] absent = refl
any-&& p q (y ∷ ys) absent =
    let rest = any-&& p q ys (ground (arith, absent)) in ground (arith, rest, absent)

pub any-&&₂ :
    {A : Type 0} (p q : A → Bool) (ys : List A)
    → any q ys ≡ false
    → any (λ y. p y && q y) ys ≡ false
any-&&₂ p q [] absent = refl
any-&&₂ p q (y ∷ ys) absent =
    let rest = any-&&₂ p q ys (ground (arith, absent)) in ground (arith, rest, absent)

pub unless-map :
    {A : Type 0} (f : A → A) {b₁ b₂ : Bool} {a₁ a₂ : A}
    → b₁ ≡ b₂
    → a₁ ≡ f a₂
    → unless b₁ a₁ ≡ Option.map f (unless b₂ a₂)
unless-map f {b₁} {b₂} {a₁} {a₂} b a = elim (Bool-cases b₂) [
  | inl holds ↦ ground (arith, holds, b, a)
  | inr other ↦ ground (arith, other, b, a)
]

pub if-map :
    {A : Type 0} (f : A → A) {b₁ b₂ : Bool} (o₁ o₂ : Option A) (a : A)
    → b₁ ≡ b₂
    → o₁ ≡ Option.map f o₂
    → (if b₁ then o₁ else some (f a)) ≡ Option.map f (if b₂ then o₂ else some a)
if-map f {b₁} {b₂} o₁ o₂ a b o = elim (Bool-cases b₂) [
  | inl holds ↦ ground (arith, holds, b, o)
  | inr other ↦ ground (arith, other, b, o)
]

pub on_some-map :
    {A : Type 0} (f : A → A) (g₁ g₂ : A → Option A) (o : Option A)
    → ((a : A) → g₁ (f a) ≡ Option.map f (g₂ a))
    → on_some g₁ (Option.map f o) ≡ Option.map f (on_some g₂ o)
on_some-map f g₁ g₂ none same = refl
on_some-map f g₁ g₂ (some a) same = same a

pub not-false : (b : Bool) → not b ≡ true → b ≡ false
not-false b h = ground (arith, h)

pub left : (a b : Bool) → a && b ≡ true → a ≡ true
left a b h = ground (arith, h)

pub right : (a b : Bool) → a && b ≡ true → b ≡ true
right a b h = ground (arith, h)

pub all-cong :
    {A : Type 0} (ok p q : A → Bool) (xs : List A)
    → ((x : A) → ok x ≡ true → p x ≡ q x)
    → all ok xs ≡ true
    → all p xs ≡ all q xs
all-cong ok p q [] same h = refl
all-cong ok p q (x ∷ xs) same h =
    ap (λ b. b && all p xs) (same x (left _ _ h))
    ∙ ap (λ b. q x && b) (all-cong ok p q xs same (right _ _ h))

pub or-cong : {a₁ a₂ b₁ b₂ : Bool} → a₁ ≡ a₂ → b₁ ≡ b₂ → a₁ || b₁ ≡ a₂ || b₂
or-cong {a₁} {a₂} {b₁} {b₂} a b = ap (λ x. x || b₁) a ∙ ap (λ x. a₂ || x) b

&&-assoc : (a b c : Bool) → a && (b && c) ≡ (a && b) && c
&&-assoc true b c = refl
&&-assoc false b c = refl

pub all-append :
    {A : Type 0} (p : A → Bool) (xs ys : List A) → all p (xs ++ ys) ≡ all p xs && all p ys
all-append p [] ys = refl
all-append p (x ∷ xs) ys =
    ap (λ b. p x && b) (all-append p xs ys) ∙ &&-assoc (p x) (all p xs) (all p ys)

pub all-join :
    {A : Type 0} (p : A → Bool) (xs ys : List A)
    → all p xs ≡ true
    → all p ys ≡ true
    → all p (xs ++ ys) ≡ true
all-join p xs ys h₁ h₂ = ground (arith, all-append p xs ys, h₁, h₂)
