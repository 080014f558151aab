-- ===== src/Database/Memory/Rows.antt =====
-- Lists of rows with distinct ids, for the table in memory.
use multi_tenant_saas_gatewa.Common.{
  ◌+◌, String, ◌≡◌, refl, Bool, true, false, not, ◌&&◌, Option, none, some, List, [], ◌∷◌, ◌==◌,
  if◌then◌else◌, In, any, filter, length, arith,
}
use multi_tenant_saas_gatewa.Database.{Entity, Where, bit, put, drop_row}
use mathlib.Core.Option

module _ {F : Type 0} where
  unfoldable pub known : String → List (Entity F) → Bool
  known i = any (λ e. e.id == i)

  unfoldable pub distinct : List (Entity F) → Bool
  distinct [] = true
  distinct (e ∷ es) = not (known e.id es) && distinct es

  unfoldable pub get : String → List (Entity F) → Option (Entity F)
  get i [] = none
  get i (e ∷ es) = if e.id == i then some e else get i es

  unfoldable pub first : Where F → List (Entity F) → Option (Entity F)
  first p [] = none
  first p (e ∷ es) = if p e then some e else first p es

  unfoldable pub replace : Entity F → List (Entity F) → List (Entity F)
  replace e [] = []
  replace e (x ∷ xs) = if x.id == e.id then e ∷ xs else x ∷ replace e xs

  unfoldable pub without : Entity F → List (Entity F) → List (Entity F)
  without e [] = []
  without e (x ∷ xs) = if x.id == e.id then xs else x ∷ without e xs

  unfoldable pub change : Where F → (F → F) → List (Entity F) → List (Entity F)
  change p g [] = []
  change p g (x ∷ xs) = (if p x then record x { own = g x.own } else x) ∷ change p g xs

  pub get_of_known : (i : String) (es : List (Entity F)) → known i es ≡ false → get i es ≡ none
  unfolding known get
  get_of_known i [] h = refl
  get_of_known i (e ∷ es) h = ground (arith, get_of_known i es)

  pub get-id : (i : String) (es : List (Entity F)) (e : Entity F) → get i es ≡ some e → e.id ≡ i
  unfolding get
  get-id i [] e h = cc
  get-id i (x ∷ es) e h = ground (arith, get-id i es e)

  pub first_sound :
      (p : Where F) (es : List (Entity F)) (e : Entity F)
      → distinct es ≡ true
      → first p es ≡ some e
      → (get e.id es ≡ some e) × (p e ≡ true)
  unfolding distinct get first
  first_sound p [] e d h = cc
  first_sound p (x ∷ es) e d h = ground (arith, first_sound p es e, get_of_known x.id es)

  pub first_complete :
      (p : Where F) (es : List (Entity F)) (i : String) (e : Entity F)
      → first p es ≡ none
      → get i es ≡ some e
      → p e ≡ false
  unfolding get first
  first_complete p [] i e h g = cc
  first_complete p (x ∷ es) i e h g = ground (arith, first_complete p es i e)

  pub filter_sound :
      (p : Where F) (es : List (Entity F)) (e : Entity F)
      → distinct es ≡ true
      → In e (filter p es)
      → (get e.id es ≡ some e) × (p e ≡ true)
  unfolding distinct get
  filter_sound p [] e d h = absurd h
  filter_sound p (x ∷ es) e d h = ground (arith, filter_sound p es e, get_of_known x.id es)

  pub filter_complete :
      (p : Where F) (es : List (Entity F)) (i : String) (e : Entity F)
      → get i es ≡ some e
      → p e ≡ true
      → In e (filter p es)
  unfolding get
  filter_complete p [] i e g h = absurd (cc)
  filter_complete p (x ∷ es) i e g h = ground (arith, filter_complete p es i e)

  pub get-replace :
      (e : Entity F) (es : List (Entity F)) (i : String)
      → known e.id es ≡ true
      → get i (replace e es) ≡ put e (λ j. get j es) i
  unfolding known get replace
  get-replace e [] i k = cc
  get-replace e (x ∷ es) i k = ground (arith, get-replace e es i)

  pub known-replace :
      (e : Entity F) (es : List (Entity F)) (i : String) → known i (replace e es) ≡ known i es
  unfolding known replace
  known-replace e [] i = refl
  known-replace e (x ∷ es) i = ground (arith, known-replace e es i)

  pub distinct-replace :
      (e : Entity F) (es : List (Entity F)) → distinct (replace e es) ≡ distinct es
  unfolding distinct replace
  distinct-replace e [] = refl
  distinct-replace e (x ∷ es) = ground (arith, distinct-replace e es, known-replace e es x.id)

  pub count-replace :
      (p : Where F) (e old : Entity F) (es : List (Entity F))
      → get e.id es ≡ some old
      → length (filter p (replace e es)) + bit (p old) ≡ length (filter p es) + bit (p e)
  unfolding get replace
  count-replace p e old [] h = cc
  count-replace p e old (x ∷ es) h = ground (arith, count-replace p e old es)

  pub known_of_get :
      (i : String) (es : List (Entity F)) (e : Entity F) → get i es ≡ some e → known i es ≡ true
  unfolding known get
  known_of_get i [] e h = cc
  known_of_get i (x ∷ es) e h = ground (arith, known_of_get i es e)

  pub get-without :
      (e : Entity F) (es : List (Entity F)) (i : String)
      → distinct es ≡ true
      → get i (without e es) ≡ drop_row e (λ j. get j es) i
  unfolding distinct get without
  get-without e [] i d = ground arith
  get-without e (x ∷ es) i d = ground (arith, get-without e es i, get_of_known x.id es)

  pub known-without :
      (e : Entity F) (es : List (Entity F)) (i : String)
      → known i es ≡ false
      → known i (without e es) ≡ false
  unfolding known without
  known-without e [] i h = refl
  known-without e (x ∷ es) i h = ground (arith, known-without e es i)

  pub distinct-without :
      (e : Entity F) (es : List (Entity F)) → distinct es ≡ true → distinct (without e es) ≡ true
  unfolding distinct without
  distinct-without e [] d = refl
  distinct-without e (x ∷ es) d = ground (arith, distinct-without e es, known-without e es x.id)

  pub count-without :
      (p : Where F) (e old : Entity F) (es : List (Entity F))
      → get e.id es ≡ some old
      → length (filter p (without e es)) + bit (p old) ≡ length (filter p es)
  unfolding get without
  count-without p e old [] h = cc
  count-without p e old (x ∷ es) h = ground (arith, count-without p e old es)

  pub known-change :
      (p : Where F) (g : F → F) (es : List (Entity F)) (i : String)
      → known i (change p g es) ≡ known i es
  unfolding known change
  known-change p g [] i = refl
  known-change p g (x ∷ es) i = ground (arith, known-change p g es i)

  pub distinct-change :
      (p : Where F) (g : F → F) (es : List (Entity F)) → distinct (change p g es) ≡ distinct es
  unfolding distinct change
  distinct-change p g [] = refl
  distinct-change p g (x ∷ es) = ground (arith, distinct-change p g es, known-change p g es x.id)

  pub get-change :
      (p : Where F) (g : F → F) (es : List (Entity F)) (i : String)
      → Option.map (λ e. e.own) (get i (change p g es))
        ≡ Option.map (λ e. if p e then g e.own else e.own) (get i es)
  unfolding get change
  get-change p g [] i = refl
  get-change p g (x ∷ es) i = ground (arith, get-change p g es i)
