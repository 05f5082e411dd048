-- ===== src/ParallelMemcpy/Delivers.antt =====
-- What the destination holds when the caller of parallel_memcpy comes back, over the steps of Caller.
use native.Mathlib.Nat.{add-zero}
use vm_design.Common.{sum, sum-elem}
use vm_design.Common.{
  arith, ℕ, zero, suc, ◌+◌, ◌^◌, ◌<◌, ◌≡◌, refl, ap, ◌∙◌, List, [], ◌∷◌, ok, some, get_elem?, set,
  length, length-set, length-replicate, replicate, ltb, if◌then◌else◌,
}
use vm_design.ParallelMemcpy.{Memory, Plan, plan, Part, tasks_below, parts}
use vm_design.ParallelMemcpy.Chunks.{plan-Cuts}
use vm_design.ParallelMemcpy.Copies.{covers, run_part-dst, parts-covers}
use vm_design.ParallelMemcpy.Caller.{
  Task, submitted, counted, over, Caller, copies, tests, waits, returned, Call, wake, Step, Run,
  begins, goes, wakes,
}
use vm_design.ParallelMemcpy.Returns.{Counts, Run-Counts, to_run}

-- How often the byte at `a` was copied: by a task, by the tasks from the `i`-th on, and by the caller.
abbrev task_covered : Plan → ℕ → ℕ → Task → ℕ
task_covered p a i submitted = 0
task_covered p a i counted = covers p a (Part.task i)
task_covered p a i over = covers p a (Part.task i)

abbrev covered : Plan → ℕ → ℕ → List Task → ℕ
covered p a i [] = 0
covered p a i (t ∷ ts) = task_covered p a i t + covered p a (suc i) ts

abbrev tail_covered : Plan → ℕ → Caller → ℕ
tail_covered p a copies = 0
tail_covered p a tests = covers p a Part.tail
tail_covered p a waits = covers p a Part.tail
tail_covered p a returned = covers p a Part.tail

module _ (p : Plan) (a : ℕ) where
  covered-set :
      (i j : ℕ) (ts : List Task) {t : Task} (t' : Task)
      → get_elem? ts j ≡ some t
      → covered p a i (set ts j t') + task_covered p a (i + j) t
        ≡ covered p a i ts + task_covered p a (i + j) t'
  covered-set i j [] t' e = absurd (ground (e, arith))
  covered-set i zero (u ∷ ts) {t} t' e =
      let q : u ≡ t = ground (e, arith) in
      let z : i + 0 ≡ i = omega arith in rw (z, q) (omega arith)
  covered-set i (suc j) (u ∷ ts) {t} t' e =
      let z : suc i + j ≡ i + suc j = omega arith in
      let h = rw z at (covered-set (suc i) j ts t' e) in omega arith

  covered_none : (i n : ℕ) → covered p a i (replicate n submitted) ≡ 0
  covered_none i zero = refl
  covered_none i (suc n) = let h = covered_none (suc i) n in omega arith

  covered_all :
      (i : ℕ) (ts : List Task)
      → sum to_run ts ≡ 0
      → covered p a i ts + sum (covers p a) (tasks_below i)
        ≡ sum (covers p a) (tasks_below (i + length ts))
  covered_all i [] e = let z : i + 0 ≡ i = omega arith in rw z (omega arith)
  covered_all i (submitted ∷ ts) e = absurd (omega arith)
  covered_all i (counted ∷ ts) e =
      let z : suc i + length ts ≡ i + suc (length ts) = omega arith in
      let h = rw z at (covered_all (suc i) ts (omega arith)) in omega arith
  covered_all i (over ∷ ts) e =
      let z : suc i + length ts ≡ i + suc (length ts) = omega arith in
      let h = rw z at (covered_all (suc i) ts (omega arith)) in omega arith

  tail_covered-wake : (c : Caller) → tail_covered p a (wake c) ≡ tail_covered p a c
  tail_covered-wake copies = refl
  tail_covered-wake tests = refl
  tail_covered-wake waits = refl
  tail_covered-wake returned = refl

  wake-returned : (c : Caller) → wake c ≡ returned → c ≡ returned
  wake-returned copies e = absurd (cc)
  wake-returned tests e = absurd (cc)
  wake-returned waits e = absurd (cc)
  wake-returned returned e = refl

twice :
    (x y : ℕ) (v w d d' : ℕ)
    → d ≡ (if ltb 0 x then v else w)
    → d' ≡ (if ltb 0 y then v else d)
    → d' ≡ (if ltb 0 (x + y) then v else w)
twice x y v w d d' e f = ground (e, f, arith)

module _ (src : Memory) (p : Plan) (dst : Memory) (a : ℕ) where
  -- The byte at `a` is the source's where it was copied; the caller is back only when the count is 0.
  record Holds (s : Call) : Type 0 where
    size : length s.tasks ≡ p.tasks_cnt
    byte :
        s.copying.dst a
        ≡ (if ltb 0 (covered p a 0 s.tasks + tail_covered p a s.caller) then src a else dst a)
    at_end : s.caller ≡ returned → s.copying.remaining_tasks_cnt ≡ 0

  Step-Holds : {s t : Call} → Step src p s t → Counts s → Holds s → Holds t
  Step-Holds {s} (Step.runs i e) c h =
      let q = c.count in
      let m = sum-elem to_run s.tasks i e in
      let k = covered-set p a 0 i s.tasks counted e in
      let z : 0 + i ≡ i = omega arith in
      let k₁ = rw z at k in
      let x = covered p a 0 s.tasks + tail_covered p a s.caller in
      let y = covers p a (Part.task i) in
      let u : covered p a 0 (set s.tasks i counted) + tail_covered p a s.caller ≡ x + y =
        omega arith in
      record {
        size = length-set s.tasks i counted ∙ h.size;
        byte = rw u (twice x y _ _ _ _ h.byte (run_part-dst src p (Part.task i) s.copying a));
        at_end = λ w. let r = h.at_end w in absurd (omega arith);
      }
  Step-Holds {s} (Step.notifies i e) c h =
      let k = covered-set p a 0 i s.tasks over e in
      let u : covered p a 0 (set s.tasks i over) ≡ covered p a 0 s.tasks = omega arith in
      record {
        size = length-set s.tasks i over ∙ h.size;
        byte = rw (u, tail_covered-wake p a s.caller) h.byte;
        at_end = λ w. h.at_end (wake-returned p a s.caller w);
      }
  Step-Holds {s} (Step.copies_tail e) c h =
      let y = covers p a Part.tail in
      let z : tail_covered p a s.caller ≡ 0 = ap (tail_covered p a) e in
      let b = h.byte in
      record {
        size = h.size;
        byte =
            twice (covered p a 0 s.tasks) y _ _ _ _ (rw (z, add-zero) at b)
              (run_part-dst src p Part.tail s.copying a);
        at_end = λ w. absurd (cc);
      }
  Step-Holds {s} (Step.sleeps e l) c h =
      let b = h.byte in
      let q : tail_covered p a s.caller ≡ covers p a Part.tail = ap (tail_covered p a) e in
      record { size = h.size; byte = rw q at b; at_end = λ w. absurd (cc) }
  Step-Holds {s} (Step.leaves e l) c h =
      let b = h.byte in
      let q : tail_covered p a s.caller ≡ covers p a Part.tail = ap (tail_covered p a) e in
      record { size = h.size; byte = rw q at b; at_end = λ w. l }

  Run-Holds :
      {n spurious : ℕ} {s : Call} → p.tasks_cnt < 2 ^ 64 → Run src p dst n spurious s → Holds s
  Run-Holds l begins = record {
    size = length-replicate p.tasks_cnt submitted;
    byte = rw (covered_none p a 0 p.tasks_cnt) refl;
    at_end = λ w. absurd (cc);
  }
  Run-Holds l (goes r x) = Step-Holds x (Run-Counts src p l r).0 (Run-Holds l r)
  Run-Holds l (wakes {s = s} r e) =
      let h = Run-Holds l r in
      let b = h.byte in
      let q : tail_covered p a s.caller ≡ covers p a Part.tail = ap (tail_covered p a) e in
      record { size = h.size; byte = rw q at b; at_end = λ w. absurd (cc) }

-- Below 2 ^ 32 threads, for a size below 2 ^ 64: whatever steps the tasks and the caller made, spurious
-- wake-ups included, once the caller is back the first `size` bytes of the destination are those of
-- the source and the others are as they were.
pub parallel_memcpy-delivers :
    (pagesize threads size n spurious : ℕ) (src dst : Memory) {p : Plan} {s : Call}
    → size < 2 ^ 64
    → threads < 2 ^ 32
    → plan pagesize threads size ≡ ok p
    → Run src p dst n spurious s
    → s.caller ≡ returned
    → (a : ℕ) → s.copying.dst a ≡ (if ltb a size then src a else dst a)
parallel_memcpy-delivers pagesize threads size n spurious src dst {p} {s} l m e r w a =
    let (_, _, k, _, cuts, f, _) = plan-Cuts pagesize threads size l m e in
    let c = (Run-Counts src p (omega arith) r).0 in
    let h = Run-Holds src p dst a (omega arith) r in
    let q = c.count in
    let z = h.at_end w in
    let y = covered_all p a 0 s.tasks (omega arith) in
    let o : 0 + length s.tasks ≡ p.tasks_cnt = let u = h.size in omega arith in
    let y₁ = rw o at y in
    let t : tail_covered p a s.caller ≡ covers p a Part.tail = ap (tail_covered p a) w in
    let all : covered p a 0 s.tasks + tail_covered p a s.caller ≡ sum (covers p a) (parts p) =
      omega arith in
    h.byte ∙ rw (all, parts-covers p a cuts) refl
