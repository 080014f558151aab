-- ===== src/Database/Memory.antt =====
-- A table in memory, which meets the laws of `Database`. A list in which an id occurs twice
-- stands for the empty table.
mod Rows
mod Writes
mod Pages
use multi_tenant_saas_gatewa.Common.{
  ℕ, zero, suc, ◌+◌, String, ◌≡◌, refl, ap, ◌∙◌, Bool, true, false, not, ◌&&◌, Option, none, some,
  List, [], ◌∷◌, ◌==◌, if◌then◌else◌, concat, In, any, filter, length, arith,
}
use multi_tenant_saas_gatewa.Common.Outcome.{Result, ok, throw, query_failed, entity_not_found}
use multi_tenant_saas_gatewa.Database.{
  Entity, Where, Repository, IsLawful, IsLawfulPage, IsSavedAs, bit, put, drop_row,
}
use mathlib.Core.Option
use Pages.{all-page, length-page, all-filter}
use Rows.{
  known, distinct, get, first, replace, without, change, get-id, first_sound, first_complete,
  filter_sound, filter_complete,
}
use Writes.{
  rows, distinct-rows, unary, fresh_row, insert_row, save_row, remove_row, page, insert_laws,
  save_laws, remove_laws, update_laws,
}

unfoldable pub memory : (F : Type 0) → Repository F
unfolding rows known distinct first replace without change page unary fresh_row insert_row save_row
    remove_row
memory F = record {
  Table = List (Entity F);
  find_one = λ p t. first p (rows t);
  find = λ p t. filter p (rows t);
  find_desc = λ p t. filter p (rows t);
  find_page = λ p skip take t. (page skip take (filter p (rows t)), length (filter p (rows t)));
  count = λ p t. length (filter p (rows t));
  insert = λ f t. insert_row f (rows t);
  save = λ e t. save_row e (rows t);
  update = λ p g t. ok (tt, change p g (rows t));
  remove = λ e t. remove_row e (rows t);
}

unfoldable pub memory-IsLawful : (F : Type 0) → IsLawful (memory F)
unfolding memory get
memory-IsLawful F = record {
  row = λ t i. get i (rows t);
  find_one_some = λ p t e h. first_sound p (rows t) e (distinct-rows t) h;
  find_one_none = λ p t i e h g. first_complete p (rows t) i e h g;
  find_sound = λ p t e h. filter_sound p (rows t) e (distinct-rows t) h;
  find_complete = λ p t i e g h. filter_complete p (rows t) i e g h;
  row_id = λ t i e h. get-id i (rows t) e h;
  insert_ok = insert_laws;
  save_ok = save_laws;
  remove_ok = remove_laws;
  update_ok = update_laws;
}

pub memory-IsLawfulPage : (F : Type 0) → IsLawfulPage (memory F)
unfolding memory
memory-IsLawfulPage F = record {
  passes = λ p skip take t. all-page p skip take (filter p (rows t)) (all-filter p (rows t));
  bounded = λ p skip take t h. length-page skip take (filter p (rows t));
  counts = λ p skip take t. refl;
}
