-- ===== src/Bytecode.antt =====
-- The instruction set: Assignment04/src/bytefile.h (enum class bytecode, enum class varspec).
-- A byte that names no instruction can stand in a `bytecode` too: the constructor `other`.
use vm_design.Common.{ℕ, ◌≡◌, List, [], ◌∷◌, refl, ◌==◌, if◌then◌else◌, arith}

-- `enum class bytecode`
pub data Bytecode : Type 0 where
  binop_high low_add low_sub low_mul low_div low_mod low_lt low_le low_gt low_ge low_eq : Bytecode
  low_ne low_and low_or const string sexp sti sta jmp end ret drop dup swap elem : Bytecode
  ld_global ld_local ld_argument ld_captured lda_global lda_local lda_argument : Bytecode
  lda_captured st_global st_local st_argument st_captured cjmpz cjmpnz begin cbegin : Bytecode
  closure callc call tag array fail line patt_str patt_string patt_array patt_sexp : Bytecode
  patt_ref patt_val patt_fun call_lread call_lwrite call_llength call_lstring call_barray : Bytecode
  stop : Bytecode
  other : ℕ → Bytecode

-- The byte of an instruction.
unfoldable pub to_byte : Bytecode → ℕ
to_byte binop_high = 0x00
to_byte low_add = 0x01
to_byte low_sub = 0x02
to_byte low_mul = 0x03
to_byte low_div = 0x04
to_byte low_mod = 0x05
to_byte low_lt = 0x06
to_byte low_le = 0x07
to_byte low_gt = 0x08
to_byte low_ge = 0x09
to_byte low_eq = 0x0a
to_byte low_ne = 0x0b
to_byte low_and = 0x0c
to_byte low_or = 0x0d
to_byte const = 0x10
to_byte string = 0x11
to_byte sexp = 0x12
to_byte sti = 0x13
to_byte sta = 0x14
to_byte jmp = 0x15
to_byte end = 0x16
to_byte ret = 0x17
to_byte drop = 0x18
to_byte dup = 0x19
to_byte swap = 0x1a
to_byte elem = 0x1b
to_byte ld_global = 0x20
to_byte ld_local = 0x21
to_byte ld_argument = 0x22
to_byte ld_captured = 0x23
to_byte lda_global = 0x30
to_byte lda_local = 0x31
to_byte lda_argument = 0x32
to_byte lda_captured = 0x33
to_byte st_global = 0x40
to_byte st_local = 0x41
to_byte st_argument = 0x42
to_byte st_captured = 0x43
to_byte cjmpz = 0x50
to_byte cjmpnz = 0x51
to_byte begin = 0x52
to_byte cbegin = 0x53
to_byte closure = 0x54
to_byte callc = 0x55
to_byte call = 0x56
to_byte tag = 0x57
to_byte array = 0x58
to_byte fail = 0x59
to_byte line = 0x5a
to_byte patt_str = 0x60
to_byte patt_string = 0x61
to_byte patt_array = 0x62
to_byte patt_sexp = 0x63
to_byte patt_ref = 0x64
to_byte patt_val = 0x65
to_byte patt_fun = 0x66
to_byte call_lread = 0x70
to_byte call_lwrite = 0x71
to_byte call_llength = 0x72
to_byte call_lstring = 0x73
to_byte call_barray = 0x74
to_byte stop = 0xf0
to_byte (other b) = b

abbrev instructions : List Bytecode
instructions =
    binop_high ∷ low_add ∷ low_sub ∷ low_mul ∷ low_div ∷ low_mod ∷ low_lt ∷ low_le ∷ low_gt ∷ low_ge
    ∷ low_eq ∷ low_ne ∷ low_and ∷ low_or ∷ const ∷ string ∷ sexp ∷ sti ∷ sta ∷ jmp ∷ end ∷ ret
    ∷ drop ∷ dup ∷ swap ∷ elem ∷ ld_global ∷ ld_local ∷ ld_argument ∷ ld_captured ∷ lda_global
    ∷ lda_local ∷ lda_argument ∷ lda_captured ∷ st_global ∷ st_local ∷ st_argument ∷ st_captured
    ∷ cjmpz ∷ cjmpnz ∷ begin ∷ cbegin ∷ closure ∷ callc ∷ call ∷ tag ∷ array ∷ fail ∷ line
    ∷ patt_str ∷ patt_string ∷ patt_array ∷ patt_sexp ∷ patt_ref ∷ patt_val ∷ patt_fun ∷ call_lread
    ∷ call_lwrite ∷ call_llength ∷ call_lstring ∷ call_barray ∷ stop ∷ []

find_byte : ℕ → List Bytecode → Bytecode
unfolding to_byte
find_byte b [] = other b
find_byte b (op ∷ ops) = if to_byte op == b then op else find_byte b ops

-- `static_cast<bytecode>(byte)`
unfoldable pub of_byte : ℕ → Bytecode
unfolding find_byte
of_byte b = find_byte b instructions

-- `enum class varspec`
pub data Varspec : Type 0 where
  global local argument captured : Varspec
  other_spec : ℕ → Varspec

-- `static_cast<varspec>(byte)`
unfoldable pub varspec_of_byte : ℕ → Varspec
varspec_of_byte b =
    if b == 0
    then global
    else (if b == 1
        then local
        else (if b == 2 then argument else (if b == 3 then captured else other_spec b)))

-- `static_cast<char>(spec)`
unfoldable pub varspec_to_byte : Varspec → ℕ
varspec_to_byte global = 0
varspec_to_byte local = 1
varspec_to_byte argument = 2
varspec_to_byte captured = 3
varspec_to_byte (other_spec b) = b

abbrev pub IsKnown : Bytecode → Type 0
IsKnown (other b) = ⊥
IsKnown _ = Unit

to_byte-find_byte : (b : ℕ) (ops : List Bytecode) → to_byte (find_byte b ops) ≡ b
unfolding find_byte
to_byte-find_byte b [] = refl
to_byte-find_byte b (op ∷ ops) = ground (arith, to_byte-find_byte b ops)

-- A byte keeps its value when it is read as an instruction or as the kind of a captured variable,
-- known or not.
pub to_byte-of_byte :
    (b : ℕ) → (to_byte (of_byte b) ≡ b) × (varspec_to_byte (varspec_of_byte b) ≡ b)
unfolding of_byte varspec_of_byte varspec_to_byte
to_byte-of_byte b = (to_byte-find_byte b instructions, ground arith)
