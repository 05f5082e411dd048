-- ===== src/FileReader/Image.antt =====
-- The layout of a bytecode file as a specification, and what a reader should make of it.
use vm_design.Common.{ℕ, ◌+◌, ◌*◌, ◌^◌, ◌<◌, List, [], ◌∷◌, ◌++◌, length}
use vm_design.Common.Words.{to_bytes32}
use vm_design.Bytefile.{Bytefile}

-- A public symbol: where its name starts in the string table, and its address in the code.
pub record Symbol : Type 0 where
  pub name : ℕ
  pub address : ℕ

pub record Image : Type 0 where
  pub globals : ℕ
  pub symbols : List Symbol
  pub strings : List ℕ
  pub code : List ℕ

abbrev pub encode_symbol : Symbol → List ℕ
encode_symbol s = to_bytes32 s.name ++ to_bytes32 s.address

unfoldable pub encode_symbols : List Symbol → List ℕ
encode_symbols [] = []
encode_symbols (s ∷ ss) = encode_symbol s ++ encode_symbols ss

unfoldable pub body : Image → List ℕ
unfolding encode_symbols
body i = encode_symbols i.symbols ++ (i.strings ++ i.code)

-- The three words of the header, then the symbols, the strings and the code.
unfoldable pub encode : Image → List ℕ
unfolding body
encode i =
    to_bytes32 (length i.strings)
    ++ (to_bytes32 i.globals ++ (to_bytes32 (length i.symbols) ++ body i))

-- The places in the file of the entries of the symbol table.
abbrev pub offsets_from : ℕ → List Symbol → List ℕ
offsets_from pos [] = []
offsets_from pos (s ∷ ss) = pos ∷ offsets_from (pos + 8) ss

unfoldable pub loaded : List ℕ → Image → Bytefile
unfolding body
loaded path i = record {
  name = path;
  buffer = body i;
  string_ptr = 8 * length i.symbols;
  code_ptr = 8 * length i.symbols + length i.strings;
  stringtab_size = length i.strings;
  global_area_size = i.globals;
  public_symbols_number = length i.symbols;
  offsets = offsets_from 12 i.symbols;
  code_pos = 12 + 8 * length i.symbols + length i.strings;
  code_size = length i.code;
}

abbrev pub SymbolsFit : List Symbol → Type 0
SymbolsFit [] = Unit
SymbolsFit (s ∷ ss) = (s.name < 2 ^ 32) × (s.address < 2 ^ 32) × SymbolsFit ss

-- What the format can hold: 32-bit words, at least one symbol, less than 2 ^ 28 bytes.
pub record IsEncodable (i : Image) : Type 0 where
  pub globals_fit : i.globals < 2 ^ 32
  pub symbols_fit : SymbolsFit i.symbols
  pub some_symbol : 0 < length i.symbols
  pub small : 8 * length i.symbols + length i.strings + length i.code < 2 ^ 28
