-- ===== src/Vm/Access.antt =====
-- type.h and vm.cc: the members that an object gets, and who may use them.
use clever.Prelude.{
  ℕ, ◌≤◌, ◌<◌, ◌≡◌, refl, sym, ap, ◌∙◌, true, false, some, [], ◌∷◌, length, get_elem?,
  if◌then◌else◌, arith, Bool-cases, inl, inr, get_elem?-append_length, get_elem?-lt, get_elem?-some,
  All,
}
use clever.Store.{obj, Cell, Store, read, alloc_cell}
use clever.Store.Activation.{Extends, Extends-refl, Extends-trans}
use clever.Vm.{Vm, ok}
use clever.Vm.Members.{
  MemberData, MemberMap, TypeInfo, Object, ObjectMap, copy_members, clone_member, initialize,
  find_object, save_object,
}
use clever.Vm.Natives.{Natives}
use clever.Vm.Operands.{clone_member-Extends}
use clever.Vm.Objects.{type_of, load_object, keep_object, open_object}

-- A member of an object against the member of the type: its name and flags, and a cell with the same
-- content, which is the type's own if it is constant and a new one if not.
pub record IsCopy (s s' : Store) (name : ℕ) (m : MemberData) (name' : ℕ) (m' : MemberData)
    : Type 0 where
  pub cell : Cell
  pub same_name : name' ≡ name
  pub same_flags : m'.is_private ≡ m.is_private
  pub content : read m.value s ≡ some cell
  pub same_content : read m'.value s' ≡ some cell
  pub shared : cell.is_const ≡ true → m'.value ≡ m.value
  pub own : cell.is_const ≡ false → length s.cells ≤ m'.value

abbrev pub AreCopies : Store → Store → MemberMap → MemberMap → Type 0
AreCopies s s' [] [] = Unit
AreCopies s s' ((name, m) ∷ ms) ((name', m') ∷ ms') =
    IsCopy s s' name m name' m' × AreCopies s s' ms ms'
AreCopies s s' _ _ = ⊥

read-alloc_cell : (c : Cell) (s : Store) → read (length s.cells) (alloc_cell c s).1 ≡ some c
unfolding alloc_cell read
read-alloc_cell c s = get_elem?-append_length s.cells c []

-- Copies that were made in a larger store.
IsCopy-later :
    (s t s' : Store) (name name' : ℕ) (m m' : MemberData) (c : Cell)
    → Extends s t
    → read m.value s ≡ some c
    → IsCopy t s' name m name' m'
    → IsCopy s s' name m name' m'
unfolding read
IsCopy-later s t s' name name' m m' c e h copy =
    let kept : get_elem? t.cells m.value ≡ some c =
      e.cells_kept m.value (get_elem?-lt s.cells m.value h) ∙ h in
    let same : copy.cell ≡ c = cc (copy.content, kept) in
    record {
      cell = copy.cell;
      same_name = copy.same_name;
      same_flags = copy.same_flags;
      content = h ∙ ap some (sym same);
      same_content = copy.same_content;
      shared = copy.shared;
      own = λ f. omega (arith, copy.own f, e.cells_le);
    }

-- The members have cells.
abbrev pub InStore : Store → MemberMap → Type 0
InStore s = All (λ e. e.1.value < length s.cells)

InStore-later : (s t : Store) (ms : MemberMap) → Extends s t → InStore s ms → InStore t ms
InStore-later s t [] e h = tt
InStore-later s t ((name, m) ∷ ms) e (h, hs) =
    (omega (arith, e.cells_le), InStore-later s t ms e hs)

AreCopies-later :
    (s t s' : Store) (ms ms' : MemberMap)
    → Extends s t
    → InStore s ms
    → AreCopies t s' ms ms'
    → AreCopies s s' ms ms'
unfolding read
AreCopies-later s t s' [] [] e h copies = tt
AreCopies-later s t s' [] (m' ∷ ms') e h copies = copies
AreCopies-later s t s' (m ∷ ms) [] e h copies = copies
AreCopies-later s t s' ((name, m) ∷ ms) ((name', m') ∷ ms') e (h, hs) (copy, copies) =
    let (c, found) = get_elem?-some s.cells m.value h in
    (IsCopy-later s t s' name name' m m' c e found copy, AreCopies-later s t s' ms ms' e hs copies)

-- What `copyMembers` does with the members of a type.
pub record Copied (ms : MemberMap) (s : Store) : Type 0 where
  pub copied : MemberMap
  pub after : Store
  pub runs : copy_members ms s ≡ some (copied, after)
  pub extends : Extends s after
  pub copies : AreCopies s after ms copied

module _ (c : Cell) (m : MemberData) (s : Store) where
  clone_member-constant : c.is_const ≡ true → clone_member c m s ≡ (m.value, s)
  unfolding clone_member
  clone_member-constant h = ap (λ b. if b then (m.value, s) else alloc_cell c s) h

  clone_member-variable : c.is_const ≡ false → clone_member c m s ≡ alloc_cell c s
  unfolding clone_member
  clone_member-variable h = ap (λ b. if b then (m.value, s) else alloc_cell c s) h

  clone_member-read :
      read m.value s ≡ some c → read (clone_member c m s).0 (clone_member c m s).1 ≡ some c
  unfolding alloc_cell
  clone_member-read found = elim (Bool-cases c.is_const) [
    | inl const ↦ rw (clone_member-constant const) found
    | inr own ↦ rw (clone_member-variable own) (read-alloc_cell c s)
  ]

  clone_member-shared : c.is_const ≡ true → (clone_member c m s).0 ≡ m.value
  clone_member-shared const = rw (clone_member-constant const)

  clone_member-own : c.is_const ≡ false → length s.cells ≤ (clone_member c m s).0
  unfolding alloc_cell
  clone_member-own own = rw (clone_member-variable own) (omega arith)

  clone_member-kept :
      (t : Store)
      → Extends (clone_member c m s).1 t
      → read m.value s ≡ some c
      → read (clone_member c m s).0 t ≡ some c
  unfolding read
  clone_member-kept t e found =
      let cloned = clone_member-read found in
      e.cells_kept (clone_member c m s).0
        (get_elem?-lt (clone_member c m s).1.cells (clone_member c m s).0 cloned)
      ∙ cloned

copy_members-cons :
    (name : ℕ) (m : MemberData) (ms : MemberMap) (s : Store) (c : Cell)
    → read m.value s ≡ some c
    → (copied : MemberMap) (after : Store)
    → copy_members ms (clone_member c m s).1 ≡ some (copied, after)
    → copy_members ((name, m) ∷ ms) s
      ≡ some ((name, record m { value = (clone_member c m s).0 }) ∷ copied, after)
unfolding copy_members
copy_members-cons name m ms s c found copied after runs = rw (found, copy_members, runs)

-- `copyMembers` of members that have cells succeeds; the copies are the type's members one by one, and
-- nothing that was there changes.
copy_members-Copied : (ms : MemberMap) (s : Store) → InStore s ms → Copied ms s
unfolding read
copy_members-Copied [] s h = record {
  copied = [];
  after = s;
  runs = unfold copy_members in refl;
  extends = Extends-refl s;
  copies = tt;
}
copy_members-Copied ((name, m) ∷ ms) s (h, hs) =
    let (c, found) = get_elem?-some s.cells m.value h in
    let e = clone_member-Extends c m s in
    let s₁ : Store = (clone_member c m s).1 in
    let rest = copy_members-Copied ms s₁ (InStore-later s s₁ ms e hs) in
    record {
      copied = (name, record m { value = (clone_member c m s).0 }) ∷ rest.copied;
      after = rest.after;
      runs = copy_members-cons name m ms s c found rest.copied rest.after rest.runs;
      extends = Extends-trans e rest.extends;
      copies = (
        record {
          cell = c;
          same_name = refl;
          same_flags = refl;
          content = found;
          same_content = clone_member-kept c m s rest.after rest.extends found;
          shared = clone_member-shared c m s;
          own = clone_member-own c m s;
        },
        AreCopies-later s s₁ rest.after ms rest.copied e hs rest.copies,
      );
    }

find_object-save_object :
    (t i : ℕ) (o : Object) (os : ObjectMap) → find_object (t, i) (save_object (t, i) o os) ≡ o
unfolding find_object save_object
find_object-save_object t i o [] = ground arith
find_object-save_object t i o (((u, j), old) ∷ os) =
    ground (arith, find_object-save_object t i o os)

save_object_twice :
    (t i : ℕ) (o : Object) (os : ObjectMap)
    → save_object (t, i) o (save_object (t, i) o os) ≡ save_object (t, i) o os
unfolding save_object
save_object_twice t i o [] = ground arith
save_object_twice t i o (((u, j), old) ∷ os) = ground (arith, save_object_twice t i o os)

-- The first use of an object: it gets copies of the members of its type, nothing else changes in the
-- store, and a later use finds the same members.
pub record IsOpened (n : Natives) (t i : ℕ) (info : TypeInfo) (vm : Vm) : Type 0 where
  pub object : Object
  pub after : Vm
  pub runs : open_object n (obj t i) vm ≡ ok (info, object, after)
  pub copies : AreCopies vm.store after.store info.members object.members
  pub extends : Extends vm.store after.store
  pub again : open_object n (obj t i) after ≡ ok (info, object, after)

module _ (n : Natives) (t i : ℕ) (info : TypeInfo) (vm : Vm) where
  open_object_new :
      (copied : MemberMap) (s : Store)
      → get_elem? vm.types t ≡ some info
      → (find_object (t, i) vm.objects).is_initialized ≡ false
      → copy_members info.members vm.store ≡ some (copied, s)
      → (let o : Object = record (find_object (t, i) vm.objects) {
        members = copied;
        is_initialized = true;
      } in
          open_object n (obj t i) vm
          ≡ ok (info, o, record vm { store = s; objects = save_object (t, i) o vm.objects }))
  unfolding open_object type_of load_object keep_object initialize
  open_object_new copied s known new runs = ground (arith, known, new, runs)

  open_object_old :
      get_elem? vm.types t ≡ some info
      → (find_object (t, i) vm.objects).is_initialized ≡ true
      → open_object n (obj t i) vm
        ≡ ok (
          info,
          find_object (t, i) vm.objects,
          record vm { objects = save_object (t, i) (find_object (t, i) vm.objects) vm.objects },
        )
  unfolding open_object type_of load_object keep_object initialize
  open_object_old known old = ground (arith, known, old)

open_object_found :
    (n : Natives) (t i : ℕ) (info : TypeInfo) (vm : Vm) (o : Object)
    → get_elem? vm.types t ≡ some info
    → o.is_initialized ≡ true
    → find_object (t, i) vm.objects ≡ o
    → save_object (t, i) o vm.objects ≡ vm.objects
    → open_object n (obj t i) vm ≡ ok (info, o, vm)
open_object_found n t i info vm o known old found same =
    open_object_old n t i info vm known (ap (λ x. x.is_initialized) found ∙ old)
    ∙ ap (λ x. ok (info, x, record vm { objects = save_object (t, i) x vm.objects })) found
    ∙ ap (λ x. ok (info, o, record vm { objects = x })) same

module _ (n : Natives) (t i : ℕ) (info : TypeInfo) (vm : Vm) where
  -- At its first use an object of a type whose members have cells gets, member by member, copies of the
  -- members of the type: the cell itself of a constant, a new cell with the same content for any other.
  -- Nothing that was in the store changes, and another use finds the same members.
  pub open_object-IsOpened :
      get_elem? vm.types t ≡ some info
      → InStore vm.store info.members
      → (find_object (t, i) vm.objects).is_initialized ≡ false
      → IsOpened n t i info vm
  open_object-IsOpened known in_store new =
      let c = copy_members-Copied info.members vm.store in_store in
      let o : Object = record (find_object (t, i) vm.objects) {
        members = c.copied;
        is_initialized = true;
      } in
      let after : Vm = record vm { store = c.after; objects = save_object (t, i) o vm.objects } in
      let found : find_object (t, i) after.objects ≡ o = find_object-save_object t i o vm.objects in
      record {
        object = o;
        after = after;
        runs = open_object_new n t i info vm c.copied c.after known new c.runs;
        copies = c.copies;
        extends = c.extends;
        again =
            open_object_found n t i info after o known refl found
              (save_object_twice t i o vm.objects);
      }
