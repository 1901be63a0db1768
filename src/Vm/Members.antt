-- ===== src/Vm/Members.antt =====
-- core/type.{h,cc} and user.h: the members of types and of objects. Names are numbers.
use clever.Prelude.{
  ℕ, Bool, true, false, not, ◌&&◌, Option, none, some, List, [], ◌∷◌, ◌==◌, if◌then◌else◌, ◌>>=◌,
}
use clever.Store.{Value, func, Cell, Store, read, alloc_cell}

-- The pointer of a member, and whether its flags say PRIVATE.
pub record MemberData : Type 0 where
  pub value : ℕ
  pub is_private : Bool

abbrev pub MemberMap : Type 0
MemberMap = List (ℕ × MemberData)

-- A type: its constructor and its user constructor are functions, the environment is that of a
-- `UserType`.
pub record TypeInfo : Type 0 where
  pub members : MemberMap
  pub ctor : Option ℕ
  pub user_ctor : Option ℕ
  pub is_user_defined : Bool
  pub environment : ℕ

-- What a `TypeObject` has, and the environment that a `UserObject` has.
pub record Object : Type 0 where
  pub members : MemberMap
  pub is_initialized : Bool
  pub environment : Option ℕ

-- The objects by the numbers of their type and of themselves. An object that is not among them has
-- not been used yet.
abbrev pub ObjectMap : Type 0
ObjectMap = List ((ℕ × ℕ) × Object)

abbrev pub new_object : Object
new_object = record { members = []; is_initialized = false; environment = none }

-- `m_members.find`
unfoldable pub get_member : ℕ → MemberMap → Option MemberData
get_member name [] = none
get_member name ((key, m) ∷ ms) = if key == name then some m else get_member name ms

abbrev pub is_function : Value → Bool
is_function (func f) = true
is_function v = false

-- `Type::getMethod` and `Type::getProperty`; `none` is also a null pointer.
unfoldable pub get_member_where : (Value → Bool) → ℕ → MemberMap → Store → Option MemberData
unfolding get_member read
get_member_where test name ms s = do
  m ← get_member name ms
  c ← read m.value s
  if test c.value then some m else none

unfoldable pub get_method : ℕ → MemberMap → Store → Option MemberData
unfolding get_member_where
get_method name ms s = get_member_where is_function name ms s

unfoldable pub get_property : ℕ → MemberMap → Store → Option MemberData
unfolding get_member_where
get_property name ms s = get_member_where (λ v. not (is_function v)) name ms s

-- The loop of `copyMembers`: constants are shared, other members cloned.
unfoldable pub clone_member : Cell → MemberData → Store → ℕ × Store
unfolding alloc_cell
clone_member c m s = if c.is_const then (m.value, s) else alloc_cell c s

unfoldable pub copy_members : MemberMap → Store → Option (MemberMap × Store)
unfolding read clone_member
copy_members [] s = some ([], s)
copy_members ((name, m) ∷ ms) s = do
  c ← read m.value s
  let (p, s₁) = clone_member c m s
  (copied, s₂) ← copy_members ms s₁
  some ((name, record m { value = p }) ∷ copied, s₂)

-- `TypeObject::initialize`
unfoldable pub initialize : MemberMap → Object → Store → Option (Object × Store)
unfolding copy_members
initialize ms o s = elim o.is_initialized [
  | true ↦ some (o, s)
  | false ↦ do
    (copied, s') ← copy_members ms s
    some (record o { members = copied; is_initialized = true }, s')
]

unfoldable pub find_object : ℕ × ℕ → ObjectMap → Object
find_object key [] = new_object
find_object (t, i) (((u, j), o) ∷ os) = if u == t && j == i then o else find_object (t, i) os

unfoldable pub save_object : ℕ × ℕ → Object → ObjectMap → ObjectMap
save_object key o [] = (key, o) ∷ []
save_object (t, i) o (((u, j), old) ∷ os) =
    if u == t && j == i then ((u, j), o) ∷ os else ((u, j), old) ∷ save_object (t, i) o os
