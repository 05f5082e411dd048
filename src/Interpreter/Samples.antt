-- ===== src/Interpreter/Samples.antt =====
-- States and a runtime for the tests.
use vm_design.Common.{ℕ, List, [], ◌∷◌, ok, false, none, length}
use vm_design.Bytefile.{Bytefile}
use vm_design.Interpreter.Runtime.{Runtime}
use vm_design.Interpreter.Machine.{State, Frame}

-- Every allocation returns the object 8 and moves nothing.
abbrev pub idle : Runtime (Unit {0})
idle = record {
  kind = λ w p. none;
  load = λ w p. none;
  store = λ p v w. none;
  llength = λ w p. 1;
  ltag_hash = λ cs. 1;
  belem = λ w p i. 1;
  bsta = λ v i p w. w;
  bstring = λ cs roots w. record { object = 8; roots = roots; world = w };
  lstring = λ p roots w. record { object = 8; roots = roots; world = w };
  bclosure = λ xs roots w. record { object = 8; roots = roots; world = w };
  barray = λ xs roots w. record { object = 8; roots = roots; world = w };
  bsexp = λ xs roots w. record { object = 8; roots = roots; world = w };
  btag = λ w p t n. ok 1;
  barray_patt = λ w p n. ok 1;
  bstring_patt = λ w p q. ok 1;
  bclosure_tag_patt = λ w p. 1;
  bboxed_patt = λ w p. 1;
  bunboxed_patt = λ w p. 1;
  barray_tag_patt = λ w p. 1;
  bstring_tag_patt = λ w p. 1;
  bsexp_tag_patt = λ w p. 1;
  lread = λ w. (1, w);
  lwrite = λ v w. w;
}

abbrev pub only_code : List ℕ → Bytefile
only_code code = record {
  name = [];
  buffer = code;
  string_ptr = 0;
  code_ptr = 0;
  stringtab_size = 0;
  global_area_size = 1;
  public_symbols_number = 0;
  offsets = [];
  code_pos = 0;
  code_size = length code;
}

abbrev pub frame : ℕ → Frame
frame base = record {
  base = base;
  locals_size = 0;
  args_size = 2;
  is_frame_closure = false;
  return_address = 77;
}

-- `buf` is the stack, `size` words of it live, and `ip` stands behind the byte of an instruction.
abbrev pub state : List ℕ → ℕ → List ℕ → ℕ → State (Unit {0})
state code ip buf size = record {
  ip = ip;
  frames = frame 3 ∷ [];
  buf = buf;
  size = size;
  stack_base = 4096;
  is_tmp_closure = false;
  file = only_code code;
  world = tt;
}

abbrev pub words : List ℕ
words = 8 ∷ 11 ∷ 13 ∷ 15 ∷ 0 ∷ 0 ∷ 0 ∷ 0 ∷ 0 ∷ 0 ∷ []
