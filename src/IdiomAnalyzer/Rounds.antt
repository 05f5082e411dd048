-- ===== src/IdiomAnalyzer/Rounds.antt =====
-- What one round of `find_idioms` records.
use mathlib.Core.List.{Memᴰ}
use mathlib.Core.List.Memᴰ
use vm_design.Common.{ℕ, zero, suc, ◌+◌, ◌^◌, ◌<◌, ◌≤◌, ◌≡◌, inl, inr, refl, sym, ap, arith, List}
use vm_design.Common.{[], ◌∷◌, Bool, true, false, not, ok, some, ◌||◌}
use vm_design.Common.{
  >>=-eq-ok, require-eq-ok, guard-eq-ok, require, if-cases, ok-injective, get_elem?, length, drop,
  ltb, ltb→lt,
}
use vm_design.Common.{if◌then◌else◌}
use vm_design.Common.Words.{add32}
use vm_design.Bytecode.{Bytecode}
use vm_design.Bytefile.{Bytefile}
use vm_design.Error
use vm_design.Error.{Error, thrown, out_of_range}
use vm_design.IdiomAnalyzer.{Idiom, Processor, Disassembler, is_call, is_terminal, get_op, validate}
use vm_design.IdiomAnalyzer.{reachable_at}
use vm_design.IdiomAnalyzer.Find.{skip_to, record_idioms, is_pair}
use vm_design.IdiomAnalyzer.Find.{emplace_idiom, record_pair}

-- The search for the next mark ends at a mark that is not in front of its start.
pub skip_to-marked :
    (marks : List Bool) (addr : ℕ) {found : ℕ}
    → addr + length marks ≤ 2 ^ 32
    → skip_to marks addr ≡ ok found
    → (k : ℕ) × (found ≡ addr + k) × (get_elem? marks k ≡ some true)
unfolding skip_to
skip_to-marked [] addr l e = absurd (cc)
skip_to-marked (true ∷ marks) addr l e = (0, rw (← ok-injective e) (omega arith), refl)
skip_to-marked (false ∷ []) addr l e = absurd (cc)
skip_to-marked (false ∷ (m ∷ marks)) addr l e =
    let (k, f, g) = skip_to-marked (m ∷ marks) (add32 addr 1) (omega arith) e in
    (suc k, omega arith, g)

pub get_elem?-drop :
    {A : Type 0} (xs : List A) (n k : ℕ) {x : A}
    → get_elem? (drop n xs) k ≡ some x
    → get_elem? xs (n + k) ≡ some x
get_elem?-drop xs zero k e = rw start e
  where
    start : 0 + k ≡ k
    start = omega arith
get_elem?-drop [] (suc n) k e = absurd (cc)
get_elem?-drop (x ∷ xs) (suc n) k e = rw shift (get_elem?-drop xs n k e)
  where
    shift : suc n + k ≡ suc (n + k)
    shift = omega arith

is_pair-true :
    (op : Bytecode) (next : ℕ) (p : Processor)
    → is_pair op next p ≡ ok true
    → ((is_call op || is_terminal op) ≡ false)
      × (get_elem? p.reachable next ≡ some true)
      × (get_elem? p.jump_targets next ≡ some false)
unfolding is_pair reachable_at
is_pair-true op next p e = elim (if-cases (is_call op || is_terminal op) e) [
  | inl (_, h) ↦ absurd (cc)
  | inr (t, h) ↦
      let (reached, f, g) =
        >>=-eq-ok (require (get_elem? p.reachable next) (thrown out_of_range)) _ h in
      let r = require-eq-ok (get_elem? p.reachable next) (thrown out_of_range) f in
      elim (if-cases reached g) [
        | inr (_, k) ↦ absurd (cc)
        | inl (s, k) ↦
            let (target, l, m) =
              >>=-eq-ok (require (get_elem? p.jump_targets next) (thrown out_of_range)) _ k in
            let d = require-eq-ok (get_elem? p.jump_targets next) (thrown out_of_range) l in
            (t, rw (← s) r, rw (not-true target (ok-injective m)) d)
      ]
]
  where
    not-true : (b : Bool) → not b ≡ true → false ≡ b
    not-true true h = absurd (cc)
    not-true false h = refl

module _ (disassemble : Disassembler) (file : Bytefile) (marks targets : List Bool) where
  -- What makes an idiom: a reachable instruction, or such a one and the one behind it, to which control
  -- comes only from there.
  pub data IsIdiom : Idiom → Type 0 where
    single :
        {a : ℕ}
        → a < file.code_size
        → get_elem? marks a ≡ some true
        → IsIdiom (record { pos = a; size = 1 })
    double :
        {a n : ℕ} (op : Bytecode)
        → a < file.code_size
        → get_elem? marks a ≡ some true
        → get_op disassemble file a ≡ ok op
        → disassemble file a ≡ ok n
        → (is_call op || is_terminal op) ≡ false
        → get_elem? marks (add32 a n) ≡ some true
        → get_elem? targets (add32 a n) ≡ some false
        → IsIdiom (record { pos = a; size = 2 })

  -- A processor with these marks that has recorded idioms only.
  pub record Records (p : Processor) : Type 0 where
    pub marked : p.reachable ≡ marks
    pub targeted : p.jump_targets ≡ targets
    pub recorded : (i : Idiom) → Memᴰ i p.idioms → IsIdiom i

  emplace_idiom-Records :
      {p : Processor} (pos size : ℕ)
      → IsIdiom (record { pos = pos; size = size })
      → Records p
      → Records (emplace_idiom pos size p)
  unfolding emplace_idiom
  emplace_idiom-Records {p} pos size v r = record {
    marked = r.marked;
    targeted = r.targeted;
    recorded = λ i m. elim (Memᴰ.append_cases p.idioms m) [
      | inl old ↦ r.recorded i old
      | inr new ↦ rw (Memᴰ.eq_of_singleton new) v
    ];
  }

  pair-Records :
      (pair : Bool) {a n : ℕ} {op : Bytecode} {p q : Processor}
      → Records p
      → a < file.code_size
      → get_elem? marks a ≡ some true
      → get_op disassemble file a ≡ ok op
      → disassemble file a ≡ ok n
      → is_pair op (add32 a n) p ≡ ok pair
      → (if pair then record_pair disassemble file a (add32 a n) p else ok p) ≡ ok q
      → Records q
  unfolding record_pair
  pair-Records false r l m f g i e = rw (← ok-injective e) r
  pair-Records true {a} {n} {op = op} {p = p} r l m f g i e =
      let (s, h, e₁) = >>=-eq-ok (disassemble file (add32 a n)) _ e in
      let (_, _, e₂) =
        >>=-eq-ok
          (validate (ltb (add32 (add32 a n) s) file.code_size) Error.unexpected_end_of_code
            (add32 (add32 a n) s))
          _ e₁ in
      let (t, u, v) = is_pair-true op (add32 a n) p i in
      let d = IsIdiom.double op l m f g t (rw (← r.marked) u) (rw (← r.targeted) v) in
      rw (← ok-injective e₂) (emplace_idiom-Records a 2 d r)

  pub record_idioms-Records :
      {addr next : ℕ} {p q : Processor}
      → Records p
      → addr < file.code_size
      → get_elem? marks addr ≡ some true
      → record_idioms disassemble file addr p ≡ ok (next, q)
      → Records q
        × ((n : ℕ) × (disassemble file addr ≡ ok n)
            × (next ≡ add32 addr n)
            × (next < file.code_size))
  unfolding record_idioms
  record_idioms-Records {addr} {p = p} r l m e =
      let (op, f, e₁) = >>=-eq-ok (get_op disassemble file addr) _ e in
      let (n, g, e₂) = >>=-eq-ok (disassemble file addr) _ e₁ in
      let next = add32 addr n in
      let (_, h, e₃) =
        >>=-eq-ok (validate (ltb next file.code_size) Error.unexpected_end_of_code next) _ e₂ in
      let p₁ = emplace_idiom addr 1 p in
      let (pair, i, e₄) = >>=-eq-ok (is_pair op next p₁) _ e₃ in
      let (q₁, j, e₅) =
        >>=-eq-ok (if pair then record_pair disassemble file addr next p₁ else ok p₁) _ e₄ in
      let r₁ = emplace_idiom-Records addr 1 (IsIdiom.single l m) r in
      let b = ltb→lt next file.code_size (guard-eq-ok _ _ h) in
      let both = ok-injective e₅ in
      let s = ap (λ (x : ℕ × Processor). x.0) both in
      (
        rw (← ap (λ (x : ℕ × Processor). x.1) both) (pair-Records pair r₁ l m f g i j),
        (n, g, sym s, rw (← s) b),
      )
