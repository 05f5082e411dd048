-- ===== src/Bytefile.antt =====
-- Assignment04/src/bytefile.h and bytefile.cpp: the loaded bytecode file. Its three tables stand one
-- after the other in one block of bytes, `base_->buffer`: the public symbols, two int32_t each, then
-- the strings, then the code. An access outside the block is `undefined`.
use vm_design.Common.{ℕ, zero, suc, ◌+◌, ◌*◌, ◌%◌, ◌^◌, List, [], ◌∷◌, ◌++◌}
use vm_design.Common.{get_elem?, drop, overwrite, length, leb, if◌then◌else◌, ◌==◌}
use vm_design.Common.{Result, ok, err, ◌>>=◌, require}
use vm_design.Common.Words.{to_bytes32, of_bytes32, add32}
use vm_design.Bytecode.{Bytecode, of_byte, to_byte, Varspec, varspec_of_byte, varspec_to_byte}
use vm_design.Error.{Error, undefined, thrown, out_of_range}

-- `class public_symbol`
pub record PublicSymbol : Type 0 where
  pub offset : ℕ
  pub name : ℕ
  pub address : ℕ

-- `class bytefile` with the C struct that `base_` points to. The pointers into the buffer are
-- offsets from its start; `public_ptr` is the start itself.
pub record Bytefile : Type 0 where
  pub name : List ℕ
  pub buffer : List ℕ
  pub string_ptr : ℕ
  pub code_ptr : ℕ
  pub stringtab_size : ℕ
  pub global_area_size : ℕ
  pub public_symbols_number : ℕ
  pub offsets : List ℕ
  pub code_pos : ℕ
  pub code_size : ℕ

-- The bytes that the constructor asks for behind the struct's own fields. `2 * public_symbols_size`
-- is a uint32_t product, the rest is size_t.
unfoldable pub buffer_size : ℕ → ℕ → ℕ → ℕ
buffer_size public_symbols_size string_tab_size code_size =
    2 * public_symbols_size % 2 ^ 32 * 4 + string_tab_size + code_size

-- What `operator new` returns: the block, and what its first fields hold, none of it initialised.
pub record Block : Type 0 where
  pub bytes : List ℕ
  pub stringtab_size : ℕ
  pub global_area_size : ℕ
  pub public_symbols_number : ℕ

-- The constructor, on the block that it was given. It sets the pointers and leaves the counters of
-- the block as they are.
unfoldable pub new_bytefile : List ℕ → ℕ → ℕ → Block → Bytefile
new_bytefile name string_tab_size public_symbols_size block = record {
  name = name;
  buffer = block.bytes;
  string_ptr = 2 * public_symbols_size % 2 ^ 32 * 4;
  code_ptr = 2 * public_symbols_size % 2 ^ 32 * 4 + string_tab_size;
  stringtab_size = block.stringtab_size;
  global_area_size = block.global_area_size;
  public_symbols_number = block.public_symbols_number;
  offsets = [];
  code_pos = 0;
  code_size = 0;
}

-- `*(int32_t*)&buffer[pos]`, as a bit pattern.
unfoldable pub load32 : List ℕ → ℕ → Result Error ℕ
load32 buffer pos = require (of_bytes32 (drop pos buffer)) undefined

-- A write of the bytes `bs` at `pos`.
unfoldable pub store : List ℕ → ℕ → List ℕ → Result Error (List ℕ)
store buffer pos bs =
    if leb (pos + length bs) (length buffer) then ok (overwrite buffer pos bs) else err undefined

unfoldable pub get_public_symbol : Bytefile → ℕ → Result Error PublicSymbol
unfolding load32
get_public_symbol f pos = do
  offset ← require (get_elem? f.offsets pos) (thrown out_of_range)
  name ← load32 f.buffer (4 * (2 * pos % 2 ^ 32))
  address ← load32 f.buffer (4 * ((2 * pos + 1) % 2 ^ 32))
  ok (record { offset = offset; name = name; address = address })

unfoldable pub add_public_symbol : Bytefile → PublicSymbol → Result Error Bytefile
unfolding store
add_public_symbol f symbol = do
  let n = f.public_symbols_number
  b ← store f.buffer (4 * (2 * n)) (to_bytes32 symbol.name)
  b' ← store b (4 * (2 * n + 1)) (to_bytes32 symbol.address)
  ok (record f {
    buffer = b';
    offsets = f.offsets ++ symbol.offset ∷ [];
    public_symbols_number = n + 1;
  })

-- The bytes up to the first zero byte.
c_string : List ℕ → Result Error (List ℕ)
c_string [] = err undefined
c_string (c ∷ cs) = let rest = c_string cs in if c == 0 then ok [] else (rest >>= λ s. ok (c ∷ s))

-- `std::string_view{&base_->string_ptr[pos]}`
unfoldable pub get_string : Bytefile → ℕ → Result Error (List ℕ)
unfolding c_string
get_string f pos = c_string (drop (f.string_ptr + pos) f.buffer)

unfoldable pub add_string : Bytefile → List ℕ → Result Error Bytefile
unfolding store
add_string f string = do
  b ← store f.buffer (f.string_ptr + f.stringtab_size) string
  ok (record f { buffer = b; stringtab_size = f.stringtab_size + length string })

unfoldable pub get_public_symbol_name : Bytefile → ℕ → Result Error (List ℕ)
unfolding load32 get_string
get_public_symbol_name f pos = do name ← load32 f.buffer (4 * (2 * pos % 2 ^ 32)); get_string f name

unfoldable pub set_code_pos : Bytefile → ℕ → Bytefile
set_code_pos f code_pos = record f { code_pos = code_pos % 2 ^ 32 }

unfoldable pub get_byte : Bytefile → ℕ → Result Error ℕ
get_byte f pos = require (get_elem? f.buffer (f.code_ptr + pos)) undefined

unfoldable pub get_code : Bytefile → ℕ → Result Error Bytecode
unfolding get_byte of_byte
get_code f pos = do b ← get_byte f pos; ok (of_byte b)

unfoldable pub get_varspec : Bytefile → ℕ → Result Error Varspec
unfolding get_byte varspec_of_byte
get_varspec f pos = do b ← get_byte f pos; ok (varspec_of_byte b)

unfoldable pub set_code : Bytefile → ℕ → Bytecode → Result Error Bytefile
unfolding store to_byte
set_code f pos code = do
  b ← store f.buffer (f.code_ptr + pos) (to_byte code ∷ [])
  ok (record f { buffer = b })

unfoldable pub add_code : Bytefile → List ℕ → Result Error Bytefile
unfolding store
add_code f code = do
  b ← store f.buffer (f.code_ptr + f.code_size) code
  ok (record f { buffer = b; code_size = add32 f.code_size (length code) })

unfoldable pub set_varspec : Bytefile → ℕ → Varspec → Result Error Bytefile
unfolding store varspec_to_byte
set_varspec f pos spec = do
  b ← store f.buffer (f.code_ptr + pos) (varspec_to_byte spec ∷ [])
  ok (record f { buffer = b })

-- A span of the code, read where it is used.
unfoldable pub get_bytes : Bytefile → ℕ → ℕ → Result Error (List Bytecode)
unfolding get_code
get_bytes f pos zero = ok []
get_bytes f pos (suc count) = do
  op ← get_code f pos
  rest ← get_bytes f (pos + 1) count
  ok (op ∷ rest)

unfoldable pub get_int32 : Bytefile → ℕ → Result Error ℕ
unfolding load32
get_int32 f pos = load32 f.buffer (f.code_ptr + pos)

unfoldable pub set_int32 : Bytefile → ℕ → ℕ → Result Error Bytefile
unfolding store
set_int32 f pos int32 = do
  b ← store f.buffer (f.code_ptr + pos) (to_bytes32 int32)
  ok (record f { buffer = b })
