-- ===== src/Tests/Objects.antt =====
-- The object table in the small world.
use lambda_moo_plus_foo.Prelude.{
  ◌==◌, pos, ◌>>=◌, ℕ, suc, ◌≤◌, ◌≡◌, refl, true, false, ◌&&◌, ◌||◌, none, some, [], ◌∷◌, arith,
}
use lambda_moo_plus_foo.Value.{nothing, obj}
use lambda_moo_plus_foo.ListOps.{ismember}
use lambda_moo_plus_foo.Objects.{
  Db, Link, same_link, put, valid, changed, load, ll_remove, ll_append, db_change_location, id,
  owner, contents, next,
}
use lambda_moo_plus_foo.Objects.Remove.{Removed, ll_remove-Removed}
use lambda_moo_plus_foo.Objects.Append.{Appended, ll_append-Appended}
use lambda_moo_plus_foo.Objects.Location.{Relocated, db_change_location-Relocated}
use lambda_moo_plus_foo.Objects.Flags.{Flag, same_flag, has_bit, user}
use lambda_moo_plus_foo.Objects.Users.{db_object_has_flag, is_user, db_set_object_flag}
use lambda_moo_plus_foo.Objects.Users.Laws.{AreObjects, db_set_object_flag_lem}
use lambda_moo_plus_foo.Objects.Table.{
  db_create_object, db_renumber_object, db_create_object_with_num,
}
use lambda_moo_plus_foo.Objects.Table.Growth.{db_create_object_lem, db_create_object_with_num-next}
use lambda_moo_plus_foo.Tests.World.{
  floats, thing, world, inside_of, world-Listed, world-Located, world-short, thing_valid,
  room_valid, box_next,
}

-- The thing moves into the box.
db_change_location-Relocated_example :
    (db' : Db ℕ) × (db_change_location 5 (pos 1) (pos 3) world ≡ some db')
    × Relocated world db' inside_of 1 (pos 3)
db_change_location-Relocated_example =
    db_change_location-Relocated 5 world inside_of 1 (pos 3) world-Located thing_valid world-short

ll_remove-Removed_example :
    Removed contents next refl refl world 0
      (1 ∷ [])
      1
      (ll_remove 5 (pos 0) contents (pos 1) next world)
ll_remove-Removed_example =
    ll_remove-Removed contents next refl refl 5 world 0 1 (1 ∷ []) (world-Listed 0 room_valid)
      (refl, tt) refl (omega arith)

-- The box goes behind the thing.
ll_append-Appended_example :
    Appended contents next refl refl world 0
      (1 ∷ [])
      3
      (ll_append 5 (pos 0) contents (pos 3) next world)
ll_append-Appended_example =
    ll_append-Appended contents next refl refl 5 world 0 3 (1 ∷ []) (world-Listed 0 room_valid)
      (refl, tt) refl box_next (omega arith)

db_set_object_flag_lem_example :
    (db' : Db ℕ) × (db_set_object_flag floats 1 (pos 1) user world ≡ some db')
    × (db_object_has_flag db' (pos 1) user ≡ some true)
    × ((n : ℕ) (g : Flag)
        → (n == 1 && same_flag user g) ≡ false
        → db_object_has_flag db' (pos n) g ≡ db_object_has_flag world (pos n) g)
    × AreObjects db'.all_users
    × (user ≡ user → (k : ℕ) × (ismember floats (obj (pos 1)) db'.all_users false ≡ some (suc k)))
db_set_object_flag_lem_example = db_set_object_flag_lem floats 1 1 user world thing_valid tt

db_create_object_lem_example :
    ((db_create_object (thing 9 nothing nothing nothing) world).0 ≡ pos world.num_objects)
    × (valid world (pos world.num_objects) ≡ false)
    × (valid (db_create_object (thing 9 nothing nothing nothing) world).1 (pos world.num_objects)
        ≡ true)
    × ((g : Link)
        → (same_link g id || same_link g owner) ≡ false
        → load g
            (pos world.num_objects)
            (db_create_object (thing 9 nothing nothing nothing) world).1
          ≡ some nothing)
    × ((n : ℕ)
        → (n == world.num_objects) ≡ false
        → (db_create_object (thing 9 nothing nothing nothing) world).1.objects n ≡ world.objects n)
    × ((db_create_object (thing 9 nothing nothing nothing) world).1.num_objects
        ≤ (db_create_object (thing 9 nothing nothing nothing) world).1.max_objects)
db_create_object_lem_example =
    db_create_object_lem (thing 9 nothing nothing nothing) world (omega arith)

db_create_object_with_num-next_example :
    db_create_object_with_num 5 (thing 9 nothing nothing nothing) (pos world.num_objects) world
    ≡ none
db_create_object_with_num-next_example =
    db_create_object_with_num-next 5 (thing 9 nothing nothing nothing) world

-- The box takes the free number 2.
box_renumbered : (db_renumber_object 5 3 world >>= λ r. some r.0) ≡ some (pos 2)
unfolding db_renumber_object valid is_user db_object_has_flag load changed put has_bit
box_renumbered = refl
