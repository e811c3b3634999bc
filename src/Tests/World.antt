-- ===== src/Tests/World.antt =====
-- A small world: a room, number 0, that holds a thing, number 1; slot 2 is free, slot 3 an empty box.
use lambda_moo_plus_foo.Prelude.{
  ltb, ◌==◌, length, pos, ℕ, zero, suc, ◌+◌, ◌-◌, ◌*◌, ◌/◌, ◌%◌, ◌^◌, ◌<◌, ◌≡◌, refl, true, false,
  Option, none, some, List, [], ◌∷◌, arith,
}
use lambda_moo_plus_foo.Text.{after}
use lambda_moo_plus_foo.Value.{Objid, nothing, FloatEq}
use lambda_moo_plus_foo.Numbers.{FloatOps}
use lambda_moo_plus_foo.Objects.{Object, Db, valid, load, location, contents, next}
use lambda_moo_plus_foo.Objects.Chain.{has, IsDistinct}
use lambda_moo_plus_foo.Objects.Unlink.{Listed}
use lambda_moo_plus_foo.Objects.Location.{Located}

-- Numbers in the place of floats.
abbrev pub floats : FloatEq ℕ
floats = record { feq = ◌==◌; zero_float = 0 }

abbrev pub ops : FloatOps ℕ
ops = record {
  feq = ◌==◌;
  flt = ltb;
  zero_float = 0;
  fadd = ◌+◌;
  fsub = ◌-◌;
  fmul = ◌*◌;
  fdiv = ◌/◌;
  fmod = ◌%◌;
  fpow = ◌^◌;
  fpow_errno = λ a b. false;
  of_int = λ n. n;
  is_real = λ x. true;
  fabs = λ x. x;
}

abbrev pub thing : ℕ → Objid → Objid → Objid → Object ℕ
thing n at first after = record {
  id = pos n;
  owner = pos 0;
  location = at;
  contents = first;
  next = after;
  parent = nothing;
  child = nothing;
  sibling = nothing;
  name = [];
  flags = 0;
  verbdefs = [];
  max_length = 0;
  propdefs = [];
  propval = [];
}

abbrev pub slots : ℕ → Option (Object ℕ)
slots zero = some (thing 0 nothing (pos 1) nothing)
slots (suc zero) = some (thing 1 (pos 0) nothing nothing)
slots (suc (suc zero)) = none
slots (suc (suc (suc zero))) = some (thing 3 nothing nothing nothing)
slots (suc (suc (suc (suc n)))) = none

abbrev pub world : Db ℕ
world = record { objects = slots; num_objects = 4; max_objects = 100; all_users = [] }

abbrev pub inside_of : ℕ → List ℕ
inside_of zero = 1 ∷ []
inside_of (suc n) = []

pub world-Listed : (w : ℕ) → valid world (pos w) ≡ true → Listed world contents w next (inside_of w)
unfolding valid load
world-Listed zero h = record { first = pos 1; head = refl; chain = (refl, (nothing, refl, refl)) }
world-Listed (suc zero) h = record { first = nothing; head = refl; chain = refl }
world-Listed (suc (suc zero)) h = cc
world-Listed (suc (suc (suc zero))) h = record { first = nothing; head = refl; chain = refl }
world-Listed (suc (suc (suc (suc n)))) h = absurd (ground arith)

pub world-Located : Located world inside_of
unfolding load
world-Located = record {
  listed = world-Listed;
  distinct = distinct;
  inside = inside;
  complete = complete;
}
  where
    distinct : (w : ℕ) → IsDistinct (inside_of w)
    distinct zero = (refl, tt)
    distinct (suc w) = tt

    inside :
        (w n : ℕ)
        → valid world (pos w) ≡ true
        → has n (inside_of w) ≡ true
        → load location (pos n) world ≡ some (pos w)
    inside zero n h i = let e : n ≡ 1 = ground arith in rw e refl
    inside (suc w) n h i = cc

    complete :
        (w n : ℕ)
        → valid world (pos w) ≡ true
        → load location (pos n) world ≡ some (pos w)
        → has n (inside_of w) ≡ true
    complete w zero h e = cc
    complete zero (suc zero) h e = refl
    complete (suc w) (suc zero) h e = cc
    complete w (suc (suc zero)) h e = cc
    complete w (suc (suc (suc zero))) h e = cc
    complete w (suc (suc (suc (suc n)))) h e = cc

pub world-short : (w : ℕ) → length (inside_of w) < 5
world-short zero = omega arith
world-short (suc w) = omega arith

pub thing_valid : valid world (pos 1) ≡ true
unfolding valid
thing_valid = refl

pub room_valid : valid world (pos 0) ≡ true
unfolding valid
room_valid = refl

pub box_next : load next (pos 3) world ≡ some nothing
unfolding load
box_next = refl
