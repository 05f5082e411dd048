-- ===== src/FileReader.antt =====
-- Assignment04/src/file_reader.cpp: reading a bytecode file into a `Bytefile`.
-- The stream is the list of the bytes that are not read yet. What the operating system and the
-- allocator answer is in the records `InputFile` and `Block`.

mod Tests
pub mod Image
pub mod Contents
use vm_design.Common.{ℕ, zero, suc, ◌+◌, ◌-◌, ◌*◌, ◌%◌, ◌^◌, List, Bool, not, ◌&&◌}
use vm_design.Common.{Option, take, drop, length, leb, if◌then◌else◌, ◌==◌}
use vm_design.Common.{Result, ok, err, ◌>>=◌, ◌>>◌, guard, require}
use vm_design.Common.Words.{of_bytes32, sext32, sub64, nonneg32}
use vm_design.Bytefile.{Bytefile, Block, buffer_size, new_bytefile, add_public_symbol}
use vm_design.Bytefile.{add_string, add_code, set_code_pos}
use vm_design.Error.{Error, thrown, undefined}
use vm_design.Error.{file_not_found, unexpected_end_of_file, invalid_symbol_table_size}
use vm_design.Error.{filesize_unknown, bad_alloc, length_error}

-- A path, and what the file system has under it. `sized` is whether `tellg` at the end succeeds.
pub record InputFile : Type 0 where
  pub path : List ℕ
  pub present : Bool
  pub bytes : List ℕ
  pub sized : Bool

-- `operator new` of the given number of bytes; `none` where it throws.
abbrev pub Allocator : Type 0
Allocator = ℕ → Option Block

-- `is.read(dst, n)` with the check of `gcount` that follows it everywhere.
unfoldable pub read : ℕ → List ℕ → Result Error (List ℕ × List ℕ)
read n rest =
    if leb n (length rest)
    then ok (take n rest, drop n rest)
    else err (thrown unexpected_end_of_file)

-- One integer of four bytes, as a bit pattern.
unfoldable pub read32 : List ℕ → Result Error (ℕ × List ℕ)
unfolding read
read32 rest = do (bs, rest') ← read 4 rest; w ← require (of_bytes32 bs) undefined; ok (w, rest')

-- The loop over the symbol table: `count` entries are left, `pos` bytes of the file are read.
unfoldable pub read_symbols : ℕ → ℕ → List ℕ → Bytefile → Result Error (Bytefile × List ℕ)
read_symbols zero pos rest file = ok (file, rest)
read_symbols (suc count) pos rest file = do
  (name, rest₁) ← read32 rest
  (address, rest₂) ← read32 rest₁
  file' ← add_public_symbol file (record { offset = pos; name = name; address = address })
  read_symbols count (pos + 8) rest₂ file'

-- What the file has left for the code, as an int64_t pattern.
unfoldable pub code_size_of : ℕ → ℕ → ℕ → ℕ
code_size_of file_size public_symbols_size string_tab_size =
    sub64 file_size
      ((12 + sext32 (2 * public_symbols_size % 2 ^ 32) * 4 + string_tab_size) % 2 ^ 64)

-- `std::vector<bytecode> code(code_size)` throws beyond the largest difference of two pointers.
abbrev pub max_vector_size : ℕ
max_vector_size = 2 ^ 63 - 1

-- From the end of the header on.
unfoldable pub read_body : Allocator → InputFile → ℕ → ℕ → ℕ → List ℕ → Result Error Bytefile
read_body alloc input string_tab_size global_area_size public_symbols_size rest = do
  let code_size = code_size_of (length input.bytes) public_symbols_size string_tab_size
  block ←
      require (alloc (buffer_size public_symbols_size string_tab_size (code_size % 2 ^ 32)))
        (thrown bad_alloc)
  let file = new_bytefile input.path string_tab_size public_symbols_size block
  (file₁, rest₁) ←
      read_symbols public_symbols_size 12 rest (record file { global_area_size = global_area_size })
  (string_tab, rest₂) ← read string_tab_size rest₁
  file₂ ← add_string file₁ string_tab
  let file₃ = set_code_pos file₂ (12 + 8 * public_symbols_size + string_tab_size)
  guard (leb code_size max_vector_size) (thrown length_error)
  (code, rest₃) ← read code_size rest₂
  add_code file₃ code

unfoldable pub read_file : Allocator → InputFile → Result Error Bytefile
read_file alloc input = do
  guard input.present (thrown file_not_found)
  (string_tab_size, rest₁) ← read32 input.bytes
  (global_area_size, rest₂) ← read32 rest₁
  (public_symbols_size, rest₃) ← read32 rest₂
  guard (nonneg32 public_symbols_size && not (public_symbols_size == 0))
      (thrown invalid_symbol_table_size)
  guard input.sized (thrown filesize_unknown)
  read_body alloc input string_tab_size global_area_size public_symbols_size rest₃
