-- ===== src/StringPtr.antt =====
-- Assignment08/src/string_ptr.h and string_ptr.cpp: pointers to strings that say in their lowest bit
-- whether they own the string.
pub mod Owns
pub mod Steps
pub mod Safety
pub mod Views
mod Tests
use vm_design.Common.{
  ℕ, ◌+◌, ◌*◌, ◌/◌, ◌%◌, ◌-◌, List, [], ◌∷◌, Bool, true, false, ◌||◌, ◌==◌, Option, none, some,
}
use vm_design.Common.{require, Result, ok, err, ◌>>=◌, if◌then◌else◌}
use vm_design.Error.{Error, undefined, thrown, bad_alloc}

-- The strings on the heap by their addresses, and `repr_` of each object by a number for it.
pub record State : Type 0 where
  pub heap : ℕ → Option (List ℕ)
  pub objects : ℕ → ℕ

abbrev pub update {ℓ} : {A : Type ℓ} → (ℕ → A) → ℕ → A → ℕ → A
update f i v j = if j == i then v else f j

-- `repr_ & UNIQUE` and `repr_ & PTR`
unfoldable pub unique : ℕ → Bool
unique repr = repr % 2 == 1

unfoldable pub data_of : ℕ → ℕ
data_of repr = repr - repr % 2

-- `reinterpret_cast<uintptr_t>(ptr) | unique`
unfoldable pub to_repr : ℕ → Bool → ℕ
to_repr ptr unique = ptr / 2 * 2 + (if ptr % 2 == 1 || unique then 1 else 0)

-- `std::free`, of the null pointer too; any other address must be that of a string.
unfoldable pub free : ℕ → State → Result Error State
free ptr s = if ptr == 0 then ok s else elim (s.heap ptr) [
  | some _ ↦ ok (record s { heap = update s.heap ptr none })
  | none ↦ err undefined
]

-- The destructor for an object that holds `repr`.
unfoldable pub destroy_repr : ℕ → State → Result Error State
destroy_repr repr s = if unique repr then free (data_of repr) s else ok s

unfoldable pub set_repr : ℕ → ℕ → State → State
set_repr i repr s = record s { objects = update s.objects i repr }

-- What `new` answers on a heap: an address, or none where it throws.
abbrev pub Allocator : Type 0
Allocator = (ℕ → Option (List ℕ)) → Option ℕ

-- The constructors.
unfoldable pub construct_null : ℕ → State → State
construct_null i s = set_repr i (to_repr 0 false) s

unfoldable pub construct : Allocator → ℕ → List ℕ → State → Result Error State
construct new_string i str s = do
  ptr ← require (new_string s.heap) (thrown bad_alloc)
  ok (set_repr i (to_repr ptr true) (record s { heap = update s.heap ptr (some str) }))

unfoldable pub copy_construct : ℕ → ℕ → State → State
copy_construct i j s = let repr = data_of (s.objects j) in set_repr j repr (set_repr i repr s)

unfoldable pub move_construct : ℕ → ℕ → State → State
move_construct i j s = set_repr i (s.objects j) (set_repr j (to_repr 0 false) s)

-- `std::swap(repr_, other.repr_)`
unfoldable pub swap : ℕ → ℕ → State → State
swap i j s = set_repr j (s.objects i) (set_repr i (s.objects j) s)

-- The assignments: a temporary object made from `rhs` is swapped with the object and destroyed.
unfoldable pub swap_in : ℕ → ℕ → State → Result Error State
swap_in i tmp s = destroy_repr (s.objects i) (set_repr i tmp s)

unfoldable pub copy_assign : ℕ → ℕ → State → Result Error State
copy_assign i j s =
    if j == i then ok s else (let tmp = data_of (s.objects j) in swap_in i tmp (set_repr j tmp s))

unfoldable pub move_assign : ℕ → ℕ → State → Result Error State
move_assign i j s =
    if j == i
    then ok s
    else (let tmp = s.objects j in swap_in i tmp (set_repr j (to_repr 0 false) s))

-- The destructor; what was the object holds nothing then.
unfoldable pub destroy : ℕ → State → Result Error State
destroy i s = destroy_repr (s.objects i) (set_repr i 0 s)

-- `operator std::string_view`; a null pointer is the empty string.
unfoldable pub view : State → ℕ → Option (List ℕ)
view s i = if data_of (s.objects i) == 0 then some [] else s.heap (data_of (s.objects i))

-- What a program can do with its objects.
pub data Op : Type 0 where
  default_op : ℕ → Op
  string_op : ℕ → List ℕ → Op
  copy_op : ℕ → ℕ → Op
  move_op : ℕ → ℕ → Op
  copy_assign_op : ℕ → ℕ → Op
  move_assign_op : ℕ → ℕ → Op
  swap_op : ℕ → ℕ → Op
  destroy_op : ℕ → Op

unfoldable pub run_op : Allocator → Op → State → Result Error State
run_op new_string (Op.default_op i) s = ok (construct_null i s)
run_op new_string (Op.string_op i str) s = construct new_string i str s
run_op new_string (Op.copy_op i j) s = ok (copy_construct i j s)
run_op new_string (Op.move_op i j) s = ok (move_construct i j s)
run_op new_string (Op.copy_assign_op i j) s = copy_assign i j s
run_op new_string (Op.move_assign_op i j) s = move_assign i j s
run_op new_string (Op.swap_op i j) s = ok (swap i j s)
run_op new_string (Op.destroy_op i) s = destroy i s

unfoldable pub run_ops : Allocator → List Op → State → Result Error State
run_ops new_string [] s = ok s
run_ops new_string (o ∷ os) s = run_op new_string o s >>= λ t. run_ops new_string os t

-- No string and no object that owns one.
abbrev pub initial : State
initial = record { heap = λ a. none; objects = λ i. 0 }
