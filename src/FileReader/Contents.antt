-- ===== src/FileReader/Contents.antt =====
-- What `read_file` makes of a well-formed file.
use Prim.Native.Nat.add
use vm_design.Common.{ℕ, zero, suc, ◌+◌, ◌*◌, ◌%◌, ◌^◌, ◌≤◌, ◌<◌, List, [], ◌∷◌, ◌++◌, true}
use vm_design.Common.{◌≡◌, refl, ap, some, take, drop, length, arith}
use vm_design.Common.{leb, length-append, overwrite-append, append-nil, append_assoc, length-drop}
use vm_design.Common.{ok}
use vm_design.Common.Words.{to_bytes32}
use vm_design.Bytefile.{Bytefile, Block, add_public_symbol, add_string, add_code, store}
use vm_design.Bytefile.{buffer_size, new_bytefile, set_code_pos}
use vm_design.FileReader.{code_size_of, max_vector_size}
use vm_design.FileReader.{InputFile, Allocator, read, read32, read_symbols, read_body, read_file}
use vm_design.FileReader.Image.{Symbol, Image, encode_symbol, encode_symbols, body, encode}
use vm_design.FileReader.Image.{offsets_from, loaded, SymbolsFit, IsEncodable}

take-append : (xs ys : List ℕ) → take (length xs) (xs ++ ys) ≡ xs
take-append [] ys = refl
take-append (x ∷ xs) ys = ap (λ t. x ∷ t) (take-append xs ys)

drop-append : (xs ys : List ℕ) → drop (length xs) (xs ++ ys) ≡ ys
drop-append [] ys = refl
drop-append (x ∷ xs) ys = drop-append xs ys

-- A read of as many bytes as a part has takes that part.
read-append : (xs ys : List ℕ) {n : ℕ} → n ≡ length xs → read n (xs ++ ys) ≡ ok (xs, ys)
unfolding read
read-append xs ys {n} e = rw (e, take-append, drop-append) (ground (arith, length-append xs ys))

read_all : (xs : List ℕ) → read (length xs) xs ≡ ok (xs, [])
read_all xs = rw append-nil at (read-append xs [] refl)

drop_all : (n : ℕ) (xs : List ℕ) → length xs ≤ n → drop n xs ≡ []
drop_all zero [] h = refl
drop_all zero (x ∷ xs) h = absurd (omega arith)
drop_all (suc n) [] h = refl
drop_all (suc n) (x ∷ xs) h = drop_all n xs (omega arith)

read32-append : (w : ℕ) (rest : List ℕ) → w < 2 ^ 32 → read32 (to_bytes32 w ++ rest) ≡ ok (w, rest)
unfolding read32
read32-append w rest h = rw (read-append (to_bytes32 w) rest {n = 4} refl) (ground arith)

length-encode_symbols : (ss : List Symbol) → length (encode_symbols ss) ≡ 8 * length ss
unfolding encode_symbols
length-encode_symbols [] = refl
length-encode_symbols (s ∷ ss) = omega (arith, length-encode_symbols ss)

-- A write right behind the finished part of the buffer.
store-append :
    (done rest bs : List ℕ) (i : ℕ)
    → i ≡ length done
    → length bs ≤ length rest
    → store (done ++ rest) i bs ≡ ok ((done ++ bs) ++ drop (length bs) rest)
unfolding store
store-append done rest bs i e h =
    rw (overwrite-append done rest bs e h, append_assoc) (ground (arith, length-append done rest))

drop-drop : (m n : ℕ) (xs : List ℕ) → drop n (drop m xs) ≡ drop (m + n) xs
drop-drop zero n xs = ap (λ k. drop k xs) (omega arith)
drop-drop (suc m) zero [] = rw add.suc
drop-drop (suc m) (suc n) [] = rw add.suc
drop-drop (suc m) n (x ∷ xs) = rw add.suc (drop-drop m n xs)

-- One entry goes behind the entries that stand in the buffer.
add_public_symbol-append :
    (f : Bytefile) (done rest : List ℕ) (pos : ℕ) (s : Symbol)
    → f.buffer ≡ done ++ rest
    → length done ≡ 8 * f.public_symbols_number
    → 8 ≤ length rest
    → add_public_symbol f (record { offset = pos; name = s.name; address = s.address })
      ≡ ok (record f {
        buffer = (done ++ encode_symbol s) ++ drop 8 rest;
        offsets = f.offsets ++ pos ∷ [];
        public_symbols_number = f.public_symbols_number + 1;
      })
unfolding add_public_symbol
add_public_symbol-append f done rest pos s e h k = rw (
  e,
  store-append done rest (to_bytes32 s.name) (4 * (2 * f.public_symbols_number)) (omega arith)
      (omega arith),
  store-append (done ++ to_bytes32 s.name) (drop 4 rest) (to_bytes32 s.address)
      (4 * (2 * f.public_symbols_number + 1))
      (omega (arith, length-append done (to_bytes32 s.name))) (omega (arith, length-drop 4 rest)),
  drop-drop 4 4 rest,
  append_assoc done (to_bytes32 s.name) (to_bytes32 s.address),
)

-- The loop over the symbol table leaves the buffer with the entries in front, byte for byte.
read_symbols-append :
    (ss : List Symbol) (pos : ℕ) (f : Bytefile) (done rest tail : List ℕ)
    → SymbolsFit ss
    → f.buffer ≡ done ++ rest
    → length done ≡ 8 * f.public_symbols_number
    → 8 * length ss ≤ length rest
    → read_symbols (length ss) pos (encode_symbols ss ++ tail) f
      ≡ ok (
        record f {
          buffer = (done ++ encode_symbols ss) ++ drop (8 * length ss) rest;
          offsets = f.offsets ++ offsets_from pos ss;
          public_symbols_number = f.public_symbols_number + length ss;
        },
        tail,
      )
unfolding read_symbols encode_symbols
read_symbols-append [] pos f done rest tail fit e h k =
    ground (arith, append-nil done, append-nil f.offsets)
read_symbols-append (s ∷ ss) pos f done rest tail (fn, fa, fs) e h k =
    rw
      (
        read32-append s.name (to_bytes32 s.address ++ (encode_symbols ss ++ tail)) fn,
        read32-append s.address (encode_symbols ss ++ tail) fa,
        add_public_symbol-append f done rest pos s e h (omega arith),
        read_symbols-append ss (pos + 8)
            (record f {
              buffer = (done ++ encode_symbol s) ++ drop 8 rest;
              offsets = f.offsets ++ pos ∷ [];
              public_symbols_number = f.public_symbols_number + 1;
            })
            (done ++ encode_symbol s) (drop 8 rest) tail fs refl
            (omega (arith, length-append done (encode_symbol s)))
            (omega (arith, length-drop 8 rest)),
        drop-drop 8 (8 * length ss) rest,
        append_assoc done (encode_symbol s) (encode_symbols ss),
        append_assoc f.offsets (pos ∷ []) (offsets_from (pos + 8) ss),
      )
      (let p : 8 + 8 * length ss ≡ 8 * suc (length ss) = omega arith in
        let q : f.public_symbols_number + 1 + length ss
            ≡ f.public_symbols_number + suc (length ss) =
          omega arith in
        rw (p, q))

length-body :
    (i : Image) → length (body i) ≡ 8 * length i.symbols + length i.strings + length i.code
unfolding body
length-body i = omega (
  arith,
  length-append (encode_symbols i.symbols) (i.strings ++ i.code),
  length-append i.strings i.code,
  length-encode_symbols i.symbols,
)

-- The size that is left for the code, computed without a wrap.
code_size_of-fits :
    (n s c : ℕ) → 8 * n + s + c < 2 ^ 28 → code_size_of (12 + (8 * n + s + c)) n s ≡ c
unfolding code_size_of
code_size_of-fits n s c h = ground arith

buffer_size-fits :
    (n s c : ℕ) → 8 * n + s + c < 2 ^ 28 → buffer_size n s (c % 2 ^ 32) ≡ 8 * n + s + c
unfolding buffer_size
buffer_size-fits n s c h = omega arith

length-encode : (i : Image) → length (encode i) ≡ 12 + length (body i)
unfolding encode
length-encode i = omega arith

module _ (alloc : Allocator) (path : List ℕ) (i : Image) (block : Block) where
  abbrev file_of : InputFile
  file_of = record { path = path; present = true; bytes = encode i; sized = true }

  read_body-body :
      IsEncodable i
      → alloc (length (body i)) ≡ some block
      → length block.bytes ≡ length (body i)
      → block.stringtab_size ≡ 0
      → block.public_symbols_number ≡ 0
      → read_body alloc file_of (length i.strings) i.globals (length i.symbols) (body i)
        ≡ ok (loaded path i)
  unfolding read_body loaded body new_bytefile set_code_pos add_string add_code
  read_body-body v e l z w =
      rw
        (
          length-encode i,
          length-body i,
          code_size_of-fits n s c v.small,
          buffer_size-fits n s c v.small,
          ← length-body i,
          e,
          p,
          z,
          w,
          read_symbols-append i.symbols 12 file [] block.bytes (i.strings ++ i.code) v.symbols_fit
              refl refl (omega (arith, l, length-body i)),
          read-append i.strings i.code refl,
          store-append (encode_symbols i.symbols) (drop (8 * n) block.bytes) i.strings (8 * n + 0)
              (omega (arith, length-encode_symbols i.symbols))
              (omega (arith, l, length-body i, length-drop (8 * n) block.bytes)),
          read_all i.code,
          in_range,
          store-append (encode_symbols i.symbols ++ i.strings) (drop s (drop (8 * n) block.bytes))
              i.code (8 * n + s + 0)
              (omega (
                arith,
                length-encode_symbols i.symbols,
                length-append (encode_symbols i.symbols) i.strings,
              ))
              (omega (
                arith,
                l,
                length-body i,
                length-drop (8 * n) block.bytes,
                length-drop s (drop (8 * n) block.bytes),
              )),
          drop_all c (drop s (drop (8 * n) block.bytes)) (
              omega (
                arith,
                l,
                length-body i,
                length-drop (8 * n) block.bytes,
                length-drop s (drop (8 * n) block.bytes),
              )),
          append-nil,
          append_assoc,
        )
        (ground (arith, v.small))
    where
      in_range : leb (length i.code) max_vector_size ≡ true
      in_range = ground (arith, v.small)

      n : ℕ
      n = length i.symbols

      s : ℕ
      s = length i.strings

      c : ℕ
      c = length i.code

      p : 2 * n % 2 ^ 32 * 4 ≡ 8 * n
      p = omega (arith, v)

      file : Bytefile
      file = record {
        name = path;
        buffer = block.bytes;
        string_ptr = 8 * n;
        code_ptr = 8 * n + s;
        stringtab_size = 0;
        global_area_size = i.globals;
        public_symbols_number = 0;
        offsets = [];
        code_pos = 0;
        code_size = 0;
      }

  -- Reading a well-formed file, of at least one symbol and less than 2 ^ 28 bytes of tables, into a
  -- block of the size that the tables need and whose counters happen to be zero, gives the file's
  -- tables byte for byte, its symbols with their places, and the sizes of the tables.
  pub read_file-encode :
      IsEncodable i
      → alloc (length (body i)) ≡ some block
      → length block.bytes ≡ length (body i)
      → block.stringtab_size ≡ 0
      → block.public_symbols_number ≡ 0
      → read_file alloc (record { path = path; present = true; bytes = encode i; sized = true })
        ≡ ok (loaded path i)
  unfolding read_file encode
  read_file-encode v e l z w =
      rw
        (
          read32-append (length i.strings)
              (to_bytes32 i.globals ++ (to_bytes32 (length i.symbols) ++ body i))
              (omega (arith, v)),
          read32-append i.globals (to_bytes32 (length i.symbols) ++ body i) v.globals_fit,
          read32-append (length i.symbols) (body i) (omega (arith, v)),
        )
        (ground (arith, read_body-body v e l z w))
