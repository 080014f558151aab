-- ===== src/Migrations/Revert.antt =====
-- src/database/migrations, forth and back: what `down` leaves of what `up` made.
use multi_tenant_saas_gatewa.Common.{
  ◌≡◌, refl, sym, ap, ◌∙◌, true, some, List, [], ◌++◌, all, string_dec,
}
use mathlib.Core.Option
use multi_tenant_saas_gatewa.Migrations.Lists.{left, right, all-append, all-join}
use multi_tenant_saas_gatewa.Migrations.{Catalogue, Statement, Migration, execute, run}
use multi_tenant_saas_gatewa.Migrations.Frame.{beside, separate, run-beside}
use multi_tenant_saas_gatewa.Migrations.Initial.{create_initial_schema}
use multi_tenant_saas_gatewa.Migrations.Later.{add_user_roles, add_webhooks}

abbrev pub both : Migration → List Statement
both m = m.up ++ m.down

-- Every statement of the migrations.
abbrev pub statements : List Statement
statements = both create_initial_schema ++ (both add_user_roles ++ both add_webhooks)

abbrev pub first_two : List Statement
first_two = create_initial_schema.up ++ add_user_roles.up

-- The second migration, after the first, and back.
abbrev pub second : List Statement
second = create_initial_schema.up ++ both add_user_roles

-- The third, after the first two, and back.
abbrev pub third : List Statement
third = first_two ++ both add_webhooks

-- All three and back.
abbrev pub whole : List Statement
whole = third ++ (add_user_roles.down ++ create_initial_schema.down)

abbrev blank : Catalogue
blank = record { types = []; tables = []; indexes = [] }

-- What runs alike on a blank database runs alike beside the other things.
run-alike :
    (base : Catalogue) (sts others : List Statement)
    → all (separate base) sts ≡ true
    → all (separate base) others ≡ true
    → run sts blank ≡ run others blank
    → run sts base ≡ run others base
run-alike base sts others h₁ h₂ same =
    run-beside base sts blank h₁
    ∙ ap (Option.map (beside base)) same
    ∙ sym (run-beside base others blank h₂)

module _ (base : Catalogue) where
  -- The migration mentions nothing of the database.
  record Separate (m : Migration) : Type 0 where
    up : all (separate base) m.up ≡ true
    down : all (separate base) m.down ≡ true

  both-Separate : (m : Migration) → all (separate base) (both m) ≡ true → Separate m
  both-Separate m h =
      let h₂ = sym (all-append (separate base) m.up m.down) ∙ h in
      record { up = left _ _ h₂; down = right _ _ h₂ }

first_back : run (both create_initial_schema) blank ≡ run [] blank
unfolding run execute string_dec
first_back = refl

second_back : run second blank ≡ run create_initial_schema.up blank
unfolding run execute string_dec
second_back = refl

third_back : run third blank ≡ run first_two blank
unfolding run execute string_dec
third_back = refl

whole_back : run whole blank ≡ run [] blank
unfolding run execute string_dec
whole_back = refl

run-[] : (base : Catalogue) → run [] base ≡ some base
unfolding run
run-[] base = refl

-- In a database that holds nothing with a name that the migrations mention, and nothing that refers to
-- such a name: each of the three migrations, run after those before it and then reverted, gives back the
-- database as it was before the migration, rows included; and all three, then reverted in reverse order,
-- leave the database with which they began, so no statement of them was refused.
pub revert-up :
    (base : Catalogue)
    → all (separate base) statements ≡ true
    → (run (both create_initial_schema) base ≡ some base)
      × ((run second base ≡ run create_initial_schema.up base)
          × ((run third base ≡ run first_two base) × (run whole base ≡ some base)))
revert-up base h =
    let ok = separate base in
    let h₁ =
      sym (all-append ok (both create_initial_schema) (both add_user_roles ++ both add_webhooks))
      ∙ h in
    let h₂ = sym (all-append ok (both add_user_roles) (both add_webhooks)) ∙ right _ _ h₁ in
    let initial = left _ _ h₁ in
    let i = both-Separate base create_initial_schema initial in
    let roles = left _ _ h₂ in
    let r = both-Separate base add_user_roles roles in
    let two = all-join ok create_initial_schema.up add_user_roles.up i.up r.up in
    let three = all-join ok first_two (both add_webhooks) two (right _ _ h₂) in
    let back = all-join ok add_user_roles.down create_initial_schema.down r.down i.down in
    let all_back =
      all-join ok third (add_user_roles.down ++ create_initial_schema.down) three back in
    (
      run-alike base _ [] initial refl first_back ∙ run-[] base,
      (
        run-alike base second _
            (all-join ok create_initial_schema.up (both add_user_roles) i.up roles) i.up
            second_back,
        (
          run-alike base third first_two three two third_back,
          run-alike base whole [] all_back refl whole_back ∙ run-[] base,
        ),
      ),
    )
