-- ===== src/FileReader/Tests.antt =====
-- Reading a small file.
use vm_design.Common.{[], ◌∷◌, ◌≡◌, refl, arith, some, ok, true, replicate}
use vm_design.Bytefile.{Block}
use vm_design.FileReader.{Allocator, read_file}
use vm_design.FileReader.Image.{Image, IsEncodable, encode, encode_symbols, body, loaded}
use vm_design.FileReader.Contents.{read_file-encode}

-- One symbol, `main` at 0; BEGIN 2 0; CONST 5; END, and one byte behind it.
abbrev small_image : Image
small_image = record {
  globals = 1;
  symbols = record { name = 0; address = 0 } ∷ [];
  strings = b'm' ∷ b'a' ∷ b'i' ∷ b'n' ∷ 0 ∷ [];
  code = 0x52 ∷ 2 ∷ 0 ∷ 0 ∷ 0 ∷ 0 ∷ 0 ∷ 0 ∷ 0 ∷ 0x10 ∷ 5 ∷ 0 ∷ 0 ∷ 0 ∷ 0x16 ∷ 0xFF ∷ [];
}

small_image-IsEncodable : IsEncodable small_image
small_image-IsEncodable = record {
  globals_fit = omega arith;
  symbols_fit = (omega arith, omega arith, tt);
  some_symbol = omega arith;
  small = omega arith;
}

-- A block of zeros, and one that gives it whatever the size.
abbrev zeroed : Block
zeroed = record {
  bytes = replicate 29 0;
  stringtab_size = 0;
  global_area_size = 0;
  public_symbols_number = 0;
}

abbrev give_zeroed : Allocator
give_zeroed n = some zeroed

read_file-encode_example :
    read_file give_zeroed
      (record { path = []; present = true; bytes = encode small_image; sized = true })
    ≡ ok (loaded [] small_image)
unfolding body encode_symbols
read_file-encode_example =
    read_file-encode give_zeroed [] small_image zeroed small_image-IsEncodable refl refl refl refl
