-- ===== src/Interpreter/Runtime.antt =====
-- The Lama runtime as the interpreter calls it: Assignment04/src/runtime_interface.h. Its code is
-- that of another project, so its functions are parameters. A `World` is all that they work on: the
-- heap, the input and the output.
use vm_design.Common.{ℕ, List, Option, Result}
use vm_design.Error.{Error}

-- `get_type_header_ptr(get_obj_header_ptr(p))`
pub data Kind : Type 0 where
  array closure string sexp : Kind

-- What an allocation returns: the object, the live part of the stack, whose references it updates
-- where it moves objects, and the world.
pub record Allocated (World : Type 0) : Type 0 where
  pub object : ℕ
  pub roots : List ℕ
  pub world : World

-- The name of the C function stands behind each field. A word is a `void*` or an `auint`.
pub record Runtime (World : Type 0) : Type 0 where
  -- The type in an object's header; `none` where the pointer is no object.
  pub kind : World → ℕ → Option Kind
  -- A word of the memory outside the stack.
  pub load : World → ℕ → Option ℕ
  pub store : ℕ → ℕ → World → Option World
  -- Llength, boxed
  pub llength : World → ℕ → ℕ
  -- LtagHash
  pub ltag_hash : List ℕ → ℕ
  -- Belem, Bsta
  pub belem : World → ℕ → ℕ → ℕ
  pub bsta : ℕ → ℕ → ℕ → World → World
  -- Bstring, Lstring, Bclosure, Barray, Bsexp: the arguments, the live part of the stack, the world
  pub bstring : List ℕ → List ℕ → World → Allocated World
  pub lstring : ℕ → List ℕ → World → Allocated World
  pub bclosure : List ℕ → List ℕ → World → Allocated World
  pub barray : List ℕ → List ℕ → World → Allocated World
  pub bsexp : List ℕ → List ℕ → World → Allocated World
  -- Btag, Barray_patt, Bstring_patt and the tests of one value; they can stop with a failure
  pub btag : World → ℕ → ℕ → ℕ → Result Error ℕ
  pub barray_patt : World → ℕ → ℕ → Result Error ℕ
  pub bstring_patt : World → ℕ → ℕ → Result Error ℕ
  pub bclosure_tag_patt : World → ℕ → ℕ
  pub bboxed_patt : World → ℕ → ℕ
  pub bunboxed_patt : World → ℕ → ℕ
  pub barray_tag_patt : World → ℕ → ℕ
  pub bstring_tag_patt : World → ℕ → ℕ
  pub bsexp_tag_patt : World → ℕ → ℕ
  -- Lread, Lwrite
  pub lread : World → ℕ × World
  pub lwrite : ℕ → World → World
