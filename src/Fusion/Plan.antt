-- ===== src/Fusion/Plan.antt =====
-- What the plan of a tape promises.
use async_gpu.Prelude.{
  ℕ, zero, suc, ◌+◌, ◌-◌, ◌≤◌, ◌<◌, ◌≡◌, refl, sym, ap, ◌∙◌, subst, inl, inr, true, Option-cases,
  ◌&&◌, List, [], ◌∷◌, ◌++◌, append_assoc, length, length-append, drop, All, none, some, arith,
  dec_lt,
}
use async_gpu.Fusion.{
  TapeEntry, Tape, RefCounts, compute_ref_counts, data_flows, single_consumer, FusionGroup,
  first_inputs, output_of, fusable_after, fusable, try_match, analyze_from, analyze,
}
use async_gpu.Fusion.Ops.{ops_of, Does, &&_parts}
use async_gpu.Fusion.Counts.{uses, uses-append, OnlyReader, tests-OnlyReader}
use async_gpu.Fusion.Match.{Found, try_match-Found}

-- Each entry is the only reader of the one before it.
abbrev pub LinkedAfter : Tape → TapeEntry → Tape → Type 0
LinkedAfter tape x [] = Unit
LinkedAfter tape x (y ∷ ys) = OnlyReader tape x y × LinkedAfter tape y ys

abbrev pub Linked : Tape → Tape → Type 0
Linked tape [] = Unit
Linked tape (x ∷ xs) = LinkedAfter tape x xs

-- The group stands for two to five neighbours on the tape, of which only the last has an output that
-- is read elsewhere.
pub record Fuses (tape : Tape) (g : FusionGroup) : Type 0 where
  pub pre : Tape
  pub part : Tape
  pub post : Tape
  pub split : tape ≡ pre ++ (part ++ post)
  pub starts : g.start ≡ length pre
  pub ends : g.end ≡ length pre + length part
  pub at_least : 2 ≤ length part
  pub at_most : length part ≤ 5
  pub does : Does g.fused_op (ops_of part)
  pub linked : Linked tape part
  pub inputs : g.inputs ≡ first_inputs part
  pub output : g.output ≡ output_of part

-- No match begins at a position from `i` up to `j`.
abbrev pub Unmatched : Tape → ℕ → ℕ → Type 0
Unmatched tape i j =
    (k : ℕ) → i ≤ k → k < j → try_match (compute_ref_counts tape) k (drop k tape) ≡ none

-- The groups from position `i` on: in order, apart, and with no match in the gaps.
abbrev pub Covers : Tape → ℕ → List FusionGroup → Type 0
Covers tape i [] = Unmatched tape i (length tape)
Covers tape i (g ∷ gs) =
    (i ≤ g.start) × Unmatched tape i g.start × (g.end ≤ length tape) × Covers tape g.end gs

tested-LinkedAfter :
    (tape before : Tape) (x : TapeEntry) (ys post : Tape)
    → tape ≡ before ++ (ys ++ post)
    → fusable_after (compute_ref_counts tape) x ys ≡ true
    → LinkedAfter tape x ys
unfolding fusable_after
tested-LinkedAfter tape before x [] post e h = tt
tested-LinkedAfter tape before x (y ∷ ys) post e h =
    let counts = compute_ref_counts tape in
    let (flows, more) =
      &&_parts (data_flows x y) (single_consumer x counts && fusable_after counts y ys) h in
    let (single, rest) = &&_parts (single_consumer x counts) (fusable_after counts y ys) more in
    let shares : uses x.output tape ≡ uses x.output before + uses x.output (y ∷ (ys ++ post)) =
      ap (uses x.output) e ∙ uses-append x.output before (y ∷ (ys ++ post)) in
    (
      tests-OnlyReader tape x y (omega (arith, shares)) flows single,
      tested-LinkedAfter tape (before ++ y ∷ []) y ys post
          (e ∙ sym (append_assoc before (y ∷ []) (ys ++ post))) rest,
    )

drop-append : (xs ys : Tape) → drop (length xs) (xs ++ ys) ≡ ys
drop-append [] ys = refl
drop-append (x ∷ xs) ys = drop-append xs ys

tested-Linked :
    (tape pre part post : Tape)
    → tape ≡ pre ++ (part ++ post)
    → fusable (compute_ref_counts tape) part ≡ true
    → Linked tape part
tested-Linked tape pre [] post e h = tt
tested-Linked tape pre (x ∷ part) post e h =
    tested-LinkedAfter tape (pre ++ x ∷ []) x part post
      (e ∙ sym (append_assoc pre (x ∷ []) (part ++ post))) h

module _ (counts : RefCounts) (fuel j : ℕ) (x : TapeEntry) (rest : Tape) where
  analyze_from-none :
      try_match counts j (x ∷ rest) ≡ none
      → analyze_from counts (suc fuel) j (x ∷ rest) ≡ analyze_from counts fuel (j + 1) rest
  unfolding analyze_from
  analyze_from-none e = rw (e, analyze_from)

  analyze_from-some :
      (g : FusionGroup)
      → try_match counts j (x ∷ rest) ≡ some g
      → analyze_from counts (suc fuel) j (x ∷ rest)
        ≡ g ∷ analyze_from counts fuel (j + (g.end - g.start)) (drop (g.end - g.start) (x ∷ rest))
  unfolding analyze_from
  analyze_from-some g e = rw (e, analyze_from)

module _ (tape : Tape) where
  Found-Fuses :
      (j : ℕ) (pre rest : Tape) (g : FusionGroup)
      → tape ≡ pre ++ rest
      → j ≡ length pre
      → Found (compute_ref_counts tape) j rest g
      → Fuses tape g
  Found-Fuses j pre rest g e at f =
      let whole = e ∙ ap (λ l. pre ++ l) f.split in
      record {
        pre = pre;
        part = f.part;
        post = f.post;
        split = whole;
        starts = f.starts ∙ at;
        ends = omega (arith, f.ends, at);
        at_least = f.at_least;
        at_most = f.at_most;
        does = f.does;
        linked = tested-Linked tape pre f.part f.post whole f.tested;
        inputs = f.inputs;
        output = f.output;
      }

  -- A position without a match lengthens the gap.
  Unmatched-suc :
      (i j : ℕ) (pre rest : Tape)
      → tape ≡ pre ++ rest
      → j ≡ length pre
      → Unmatched tape i j
      → try_match (compute_ref_counts tape) j rest ≡ none
      → Unmatched tape i (j + 1)
  Unmatched-suc i j pre rest e at gap h k lo hi = elim (dec_lt k j) [
    | yes lt ↦ gap k lo lt
    | no ge ↦
        let same : k ≡ j = omega arith in
        let here : drop j tape ≡ rest = ap (drop j) e ∙ rw at (drop-append pre rest) in
        rw (same, here) h
  ]

  -- What the loop gives from position `j` on.
  abbrev Planned : ℕ → List FusionGroup → Type 0
  Planned i gs = All (Fuses tape) gs × Covers tape i gs

  analyze_from-Planned :
      (fuel i j : ℕ) (pre rest : Tape)
      → tape ≡ pre ++ rest
      → j ≡ length pre
      → length rest ≤ fuel
      → i ≤ j
      → Unmatched tape i j
      → Planned i (analyze_from (compute_ref_counts tape) fuel j rest)
  unfolding analyze_from
  analyze_from-Planned zero i j pre [] e at enough le gap =
      (tt, λ k lo hi. gap k lo (omega (arith, at, ap length e, length-append pre [])))
  analyze_from-Planned zero i j pre (x ∷ rest) e at enough le gap = absurd (omega arith)
  analyze_from-Planned (suc fuel) i j pre [] e at enough le gap =
      (tt, λ k lo hi. gap k lo (omega (arith, at, ap length e, length-append pre [])))
  analyze_from-Planned (suc fuel) i j pre (x ∷ rest) e at enough le gap =
      let counts = compute_ref_counts tape in
      elim (Option-cases (try_match counts j (x ∷ rest))) [
        | inl missed ↦ subst (Planned i) (sym (analyze_from-none counts fuel j x rest missed)) (
            analyze_from-Planned fuel i (j + 1) (pre ++ x ∷ []) rest
              (e ∙ sym (append_assoc pre (x ∷ []) rest)) (omega (arith, length-append pre (x ∷ [])))
              (omega arith) (omega arith) (Unmatched-suc i j pre (x ∷ rest) e at gap missed))
        | inr (g, found) ↦
            let f = try_match-Found counts j (x ∷ rest) g found in
            let skip : g.end - g.start ≡ length f.part = omega (arith, f.starts, f.ends) in
            let left : drop (g.end - g.start) (x ∷ rest) ≡ f.post =
              rw skip (ap (drop (length f.part)) f.split ∙ drop-append f.part f.post) in
            let sizes : suc (length rest) ≡ length f.part + length f.post =
              ap length f.split ∙ length-append f.part f.post in
            let whole = e ∙ ap (λ l. pre ++ l) f.split in
            let next : j + (g.end - g.start) ≡ g.end = omega (arith, f.starts, f.ends) in
            let (all, covers) =
              analyze_from-Planned fuel g.end (j + (g.end - g.start)) (pre ++ f.part) f.post
                (whole ∙ sym (append_assoc pre f.part f.post))
                (omega (arith, skip, length-append pre f.part)) (omega (arith, sizes, f.at_least))
                (omega (arith, next)) (λ k lo hi. absurd (omega (arith, next))) in
            subst (Planned i) (sym (analyze_from-some counts fuel j x rest g found)) (
              rw left (
                (Found-Fuses j pre (x ∷ rest) g e at f, all),
                (
                  omega (arith, f.starts),
                  λ k lo hi. gap k lo (omega (arith, f.starts)),
                  omega (
                    arith,
                    f.ends,
                    ap length whole,
                    length-append pre (f.part ++ f.post),
                    length-append f.part f.post,
                  ),
                  covers,
                ),
              ))
      ]

  -- The plan of any tape: each group stands for two to five neighbours whose kinds are those of its
  -- fused operation, with the inputs of the first and the output of the last; each but the first
  -- reads the output of the one before it, and that output has no other use on the tape. The groups
  -- are in order, do not overlap and lie on the tape, and no match begins at a position between them,
  -- before the first or after the last.
  pub analyze-Planned : All (Fuses tape) (analyze tape) × Covers tape 0 (analyze tape)
  unfolding analyze
  analyze-Planned =
      analyze_from-Planned (length tape) 0 0 [] tape refl refl (omega arith) (omega arith)
        (λ k lo hi. absurd (omega arith))
