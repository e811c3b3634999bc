-- ===== src/Properties/Steps.antt =====
-- The steps of adding a property to an object without children, and of deleting it again:
-- src/db_properties.c.
use mathlib.Core.List.{append-nil}
use lambda_moo_plus_foo.Properties.Writes.{
  changed_here, change-changed, changed_elsewhere, count_here, each_child_none,
}
use lambda_moo_plus_foo.Properties.Arrays.{
  find_propdef-append, get_elem?_middle, inserted_lem, removed_lem,
}
use lambda_moo_plus_foo.Properties.Values.{with_propval}
use lambda_moo_plus_foo.Properties.Layout.{Laid, dbpriv_count_properties_lem, whole}
use lambda_moo_plus_foo.Prelude.{
  Bool-cases, length, length-append, take, drop, length-take, take-append_left, drop_all, pos, ℕ,
  zero, suc, ◌+◌, ◌<◌, ◌≡◌, refl, ap, ◌∙◌, ◌≢◌, inl, inr, true, false, none, some, List, [], ◌∷◌,
  ◌++◌, arith,
}
use lambda_moo_plus_foo.Value.{Objid, nothing}
use lambda_moo_plus_foo.Objects.{Propdef, Pval, Object, Db, dbpriv_find_object, changed}
use lambda_moo_plus_foo.Objects.Table.{dbpriv_count_properties}
use lambda_moo_plus_foo.Objects.Ancestors.{Ranked}
use lambda_moo_plus_foo.Text.{Text, str_hash}
use lambda_moo_plus_foo.Properties.{
  dbpriv_new_propdef, find_propdef, is_clear, skip_clear, stored_value,
}
use lambda_moo_plus_foo.Properties.Edit.{
  is_chown, room, delete_elem, shrunk, chowned, insert_prop, insert_prop_recursively, with_propdef,
  add_propdef, remove_prop, remove_prop_recursively, without_propdef, db_delete_propdef,
}

pub find_last :
    (pname : Text) (ps : List Propdef)
    → find_propdef pname (str_hash pname) 0 ps ≡ none
    → find_propdef pname (str_hash pname) 0 (ps ++ dbpriv_new_propdef pname ∷ []) ≡ some (length ps)
find_last pname ps free = find_propdef-append pname 0 ps free ∙ ap some (omega arith)

chowned-var : {F : Type 0} (owned_by : Objid) (pv : Pval F) → (chowned owned_by pv).var ≡ pv.var
chowned-var owned_by pv = elim (Bool-cases (is_chown pv.perms)) [
  | inl e ↦ rw e refl
  | inr e ↦ rw e refl
]

delete_elem-append :
    {A : Type 0} (xs : List A) (a : A) → delete_elem (xs ++ a ∷ []) (length xs) ≡ xs
delete_elem-append xs a =
    let one : length xs + 1 ≡ suc (length xs) = omega arith in
    let front = take-append_left xs (a ∷ []) (length xs) refl in
    let back : drop (length xs + 1) (xs ++ a ∷ []) ≡ [] =
      drop_all (xs ++ a ∷ []) (length xs + 1) (omega (arith, length-append {0} xs (a ∷ []))) in
    rw (front, back) (append-nil xs)

module _ {F : Type 0} (db : Db F) (rank : Object F → ℕ) (most fuel n : ℕ) (k : Ranked db rank most)
    (laid : Laid db) (o : Object F) (at : dbpriv_find_object db (pos n) ≡ some o) (pname : Text)
    (pv : Pval F) where
  -- The object, once the property is among its definitions, and with its value.
  abbrev pub defined : Object F
  defined = with_propdef (dbpriv_new_propdef pname) o

  abbrev pub values : List (Pval F)
  values =
      take (length o.propdefs) o.propval ++ chowned o.owner pv ∷ drop (length o.propdefs) o.propval

  abbrev pub with_value : Object F
  with_value = with_propval values defined

  -- The table at these two points.
  abbrev pub table_defined : Db F
  table_defined = changed n (with_propdef (dbpriv_new_propdef pname)) db

  abbrev pub table_added : Db F
  table_added = changed n (with_propval values) table_defined

  at_defined : dbpriv_find_object table_defined (pos n) ≡ some defined
  at_defined = changed_here _ db n o at

  pub at_added : dbpriv_find_object table_added (pos n) ≡ some with_value
  at_added = changed_here _ table_defined n defined at_defined

  pub elsewhere_added :
      (q : Objid) → q ≢ pos n → dbpriv_find_object table_added q ≡ dbpriv_find_object db q
  elsewhere_added q h =
      changed_elsewhere _ table_defined n defined q h ∙ changed_elsewhere _ db n o q h

  count_defined : dbpriv_count_properties most table_defined (pos n) ≡ some (length o.propval + 1)
  count_defined =
      count_here db table_defined rank most k n o at (changed_elsewhere _ db n o) defined 1 most
        (length o.propval) at_defined refl (length-append {0} o.propdefs _)
        (dbpriv_count_properties_lem db rank most k laid (pos n) o at)

  insert_prop-added :
      insert_prop most (pos n) (length o.propdefs) pv table_defined ≡ some table_added
  unfolding insert_prop
  insert_prop-added =
      rw
        (
          count_defined,
          at_defined,
          inserted_lem (length o.propval + 1) (length o.propdefs) (chowned o.owner pv) o.propval
              refl (whole db rank most k laid (pos n) o at),
        )
        (change-changed (with_propval values) table_defined n defined at_defined)

  module _ (bare : o.child ≡ nothing) where
    pub add_propdef-added : add_propdef most (suc fuel) (pos n) pname pv db ≡ some table_added
    unfolding insert_prop_recursively
    add_propdef-added =
        rw
          (
            at,
            change-changed (with_propdef (dbpriv_new_propdef pname)) db n o at,
            insert_prop-added,
            at_added,
          )
          (each_child_none most _ o.child table_added (omega (arith, k.below (pos n) o at)) bare)

  -- The object without the definition, and then without the value.
  abbrev pub undefined : Object F
  undefined = without_propdef (length o.propdefs) with_value

  abbrev pub table_undefined : Db F
  table_undefined = changed n (without_propdef (length o.propdefs)) table_added

  abbrev pub table_deleted : Db F
  table_deleted = changed n (with_propval o.propval) table_undefined

  -- The object at the end: the size of its array of definitions may differ.
  abbrev pub resized : Object F
  resized = record o {
    max_length = shrunk (length o.propdefs + 1) (room (length o.propdefs) o.max_length);
  }

  at_undefined : dbpriv_find_object table_undefined (pos n) ≡ some undefined
  at_undefined = changed_here _ table_added n with_value at_added

  pub at_deleted :
      dbpriv_find_object table_deleted (pos n) ≡ some (with_propval o.propval undefined)
  at_deleted = changed_here _ table_undefined n undefined at_undefined

  elsewhere_undefined :
      (q : Objid) → q ≢ pos n → dbpriv_find_object table_undefined q ≡ dbpriv_find_object db q
  elsewhere_undefined q h = changed_elsewhere _ table_added n with_value q h ∙ elsewhere_added q h

  pub deleted_resized : with_propval o.propval undefined ≡ resized
  deleted_resized =
      let same = delete_elem-append o.propdefs (dbpriv_new_propdef pname) in
      let long : length (o.propdefs ++ dbpriv_new_propdef pname ∷ []) ≡ length o.propdefs + 1 =
        length-append {0} o.propdefs _ in
      λ i. record o {
        propdefs = same i;
        max_length = shrunk (long i) (room (length o.propdefs) o.max_length);
      }

  pub elsewhere_deleted :
      (q : Objid) → q ≢ pos n → dbpriv_find_object table_deleted q ≡ dbpriv_find_object db q
  elsewhere_deleted q h =
      changed_elsewhere _ table_undefined n undefined q h ∙ elsewhere_undefined q h

  first_value :
      (rounds : ℕ)
      → 0 < rounds
      → is_clear pv.var ≡ false
      → skip_clear rounds table_added (length o.propdefs) with_value ≡ some pv.var
  unfolding skip_clear
  first_value zero h solid = absurd (omega arith)
  first_value (suc rounds) h solid =
      let fits = whole db rank most k laid (pos n) o at in
      let there =
        get_elem?_middle (length o.propdefs) (chowned o.owner pv)
          (take (length o.propdefs) o.propval) (drop (length o.propdefs) o.propval)
          (omega (arith, length-take {0} (length o.propdefs) o.propval)) in
      rw (there, chowned-var o.owner pv, solid) refl

  -- The value is read back.
  pub stored_added :
      is_clear pv.var ≡ false
      → stored_value most table_added (pos n) (length o.propdefs) ≡ some pv.var
  unfolding stored_value
  stored_added solid = rw at_added (first_value most (omega (arith, k.below (pos n) o at)) solid)

  count_undefined : dbpriv_count_properties most table_undefined (pos n) ≡ some (length o.propval)
  count_undefined =
      let same = delete_elem-append o.propdefs (dbpriv_new_propdef pname) in
      count_here db table_undefined rank most k n o at elsewhere_undefined undefined 0 most
        (length o.propval) at_undefined refl (ap length same ∙ omega arith)
        (dbpriv_count_properties_lem db rank most k laid (pos n) o at)
      ∙ ap some (omega arith)

  remove_prop-deleted :
      remove_prop most (pos n) (length o.propdefs) table_undefined ≡ some table_deleted
  unfolding remove_prop
  remove_prop-deleted =
      rw
        (
          at_undefined,
          count_undefined,
          removed_lem (length o.propdefs) (chowned o.owner pv) o.propval
              (whole db rank most k laid (pos n) o at),
        )
        (change-changed (with_propval o.propval) table_undefined n undefined at_undefined)

  pub db_delete_propdef-deleted :
      o.child ≡ nothing
      → find_propdef pname (str_hash pname) 0 o.propdefs ≡ none
      → db_delete_propdef most (suc fuel) (pos n) pname table_added ≡ some (true, table_deleted)
  unfolding db_delete_propdef remove_prop_recursively
  db_delete_propdef-deleted bare free =
      let found_last = find_last pname o.propdefs free in
      rw
        (
          at_added,
          found_last,
          change-changed (without_propdef (length o.propdefs)) table_added n with_value at_added,
          remove_prop-deleted,
          at_deleted,
          each_child_none most _ o.child table_deleted (omega (arith, k.below (pos n) o at)) bare,
        )
        refl
