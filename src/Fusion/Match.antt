-- ===== src/Fusion/Match.antt =====
-- What a match at a position found: the entries it takes, and what its tests say of them.
use async_gpu.Prelude.{
  ℕ, zero, suc, ◌+◌, ◌≤◌, ◌≡◌, refl, sym, ap, ◌∙◌, subst, ◌⊎◌, ◌&&◌, ltb, leb, ltb→le, true, inl,
  inr, Bool-cases, List, [], ◌∷◌, ◌++◌, length, length-take, take, drop, All, Option, none, some,
  arith,
}
use async_gpu.Fusion.{
  TapeEntry, Tape, elementwise, classify, is_elementwise, FusionPattern, insert_pattern,
  sort_patterns, pattern_catalog, RefCounts, single_consumer, data_flows, FusionGroup, first_inputs,
  output_of, ops_match, fusable_after, fusable, match_pattern, or_else, match_patterns, grow_chain,
  match_chain, try_match,
}
use async_gpu.Fusion.Ops.{ops_of, Does, elementwise_lem, &&_parts, ops_match-eq}

take-append-drop : (n : ℕ) (xs : Tape) → take n xs ++ drop n xs ≡ xs
take-append-drop zero xs = refl
take-append-drop (suc n) [] = refl
take-append-drop (suc n) (x ∷ xs) = ap (λ l. x ∷ l) (take-append-drop n xs)

-- The group `g`, found at position `start` with `rest` from there on, takes the entries `part`.
pub record Found (counts : RefCounts) (start : ℕ) (rest : Tape) (g : FusionGroup) : Type 0 where
  pub part : Tape
  pub post : Tape
  pub split : rest ≡ part ++ post
  pub starts : g.start ≡ start
  pub ends : g.end ≡ start + length part
  pub at_least : 2 ≤ length part
  pub at_most : length part ≤ 5
  pub does : Does g.fused_op (ops_of part)
  pub tested : fusable counts part ≡ true
  pub inputs : g.inputs ≡ first_inputs part
  pub output : g.output ≡ output_of part

-- A pattern of two to five operations that its replacement stands for.
abbrev IsPattern : FusionPattern → Type 0
IsPattern p = Does p.replacement p.ops × (2 ≤ length p.ops) × (length p.ops ≤ 5)

catalog-IsPattern : All IsPattern pattern_catalog
unfolding pattern_catalog insert_pattern sort_patterns
catalog-IsPattern = (
  (refl, omega arith, omega arith),
  ((refl, omega arith, omega arith), ((refl, omega arith, omega arith), tt)),
)

none-ne-some : {A : Type 0} {g : FusionGroup} → ◌≡◌ {A = Option FusionGroup} none (some g) → A
none-ne-some h = cc

some_inj : {g g' : FusionGroup} → some g ≡ some g' → g ≡ g'
some_inj h = cc

or_else-eq-some :
    (o later : Option FusionGroup) {g : FusionGroup}
    → or_else o later ≡ some g
    → (o ≡ some g) ⊎ (later ≡ some g)
or_else-eq-some (some g) later h = inl h
or_else-eq-some none later h = inr h

module _ (counts : RefCounts) (start : ℕ) where
  -- The group of a pattern that fits the first entries.
  abbrev group_of : Tape → FusionPattern → FusionGroup
  group_of rest p = record {
    start = start;
    end = start + length p.ops;
    fused_op = p.replacement;
    inputs = first_inputs (take (length p.ops) rest);
    output = output_of (take (length p.ops) rest);
  }

  group_of-Found :
      (rest : Tape) (p : FusionPattern)
      → IsPattern p
      → length p.ops ≤ length rest
      → ops_match (take (length p.ops) rest) p.ops ≡ true
      → fusable counts (take (length p.ops) rest) ≡ true
      → Found counts start rest (group_of rest p)
  group_of-Found rest p ok enough same fuse =
      let len = length p.ops in
      let slice = take len rest in
      let size : length slice ≡ len = length-take len rest ∙ omega arith in
      record {
        part = slice;
        post = drop len rest;
        split = sym (take-append-drop len rest);
        starts = refl;
        ends = omega (arith, size);
        at_least = omega (arith, size, ok.1);
        at_most = omega (arith, size, ok.2);
        does = subst (Does p.replacement) (sym (ops_match-eq slice p.ops size same)) ok.0;
        tested = fuse;
        inputs = refl;
        output = refl;
      }

  match_pattern-Found :
      (rest : Tape) (p : FusionPattern) (g : FusionGroup)
      → IsPattern p
      → match_pattern counts start rest p ≡ some g
      → Found counts start rest g
  unfolding match_pattern
  match_pattern-Found rest p g ok h =
      let slice = take (length p.ops) rest in
      elim (Bool-cases (ltb (length rest) (length p.ops))) [
        | inl short ↦ none-ne-some (rw short at h)
        | inr enough ↦ elim (Bool-cases (ops_match slice p.ops)) [
          | inr other ↦ none-ne-some (rw (enough, other) at h)
          | inl same ↦ elim (Bool-cases (fusable counts slice)) [
            | inr apart ↦ none-ne-some (rw (enough, same, apart) at h)
            | inl fuse ↦
                subst (Found counts start rest) (some_inj (rw (enough, same, fuse) at h))
                  (group_of-Found rest p ok (ltb→le _ _ enough) same fuse)
          ]
        ]
      ]

  match_patterns-Found :
      (rest : Tape) (ps : List FusionPattern) (g : FusionGroup)
      → All IsPattern ps
      → match_patterns counts start rest ps ≡ some g
      → Found counts start rest g
  unfolding match_patterns
  match_patterns-Found rest [] g ok h = none-ne-some h
  match_patterns-Found rest (p ∷ ps) g ok h =
      elim (or_else-eq-some (match_pattern counts start rest p) _ h) [
        | inl e ↦ match_pattern-Found rest p g ok.0 e
        | inr e ↦ match_patterns-Found rest ps g ok.1 e
      ]

  -- The entries that a chain takes are the next ones.
  grow_chain-split :
      (room : ℕ) (x : TapeEntry) (rest : Tape)
      → (post : Tape) × (rest ≡ grow_chain counts room x rest ++ post)
        × (length (grow_chain counts room x rest) ≤ room)
        × All (λ op. classify op ≡ elementwise) (ops_of (grow_chain counts room x rest))
        × (fusable_after counts x (grow_chain counts room x rest) ≡ true)
  unfolding grow_chain fusable_after
  grow_chain-split zero x rest = (rest, refl, omega arith, tt, refl)
  grow_chain-split (suc room) x [] = ([], refl, omega arith, tt, refl)
  grow_chain-split (suc room) x (y ∷ rest) =
      let tests = data_flows x y && single_consumer x counts in
      elim (Bool-cases (is_elementwise y.op && tests)) [
        | inr stop ↦ rw stop (y ∷ rest, refl, omega arith, tt, refl)
        | inl go ↦
            let (post, split, short, plain, tested) = grow_chain-split room y rest in
            let (elem, both) = &&_parts (is_elementwise y.op) tests go in
            let (flows, single) = &&_parts (data_flows x y) (single_consumer x counts) both in
            rw go (
              post,
              ap (λ l. y ∷ l) split,
              omega (arith, short),
              (elementwise_lem y.op elem, plain),
              rw (flows, single) tested,
            )
      ]

  match_chain-Found :
      (rest : Tape) (g : FusionGroup)
      → match_chain counts start rest ≡ some g
      → Found counts start rest g
  unfolding match_chain
  match_chain-Found [] g h = none-ne-some h
  match_chain-Found (x ∷ rest) g h =
      let chain = grow_chain counts 4 x rest in
      let (post, split, short, plain, tested) = grow_chain-split 4 x rest in
      elim (Bool-cases (is_elementwise x.op && leb 2 (length (x ∷ chain)))) [
        | inr other ↦ none-ne-some (rw other at h)
        | inl good ↦
            let (elem, two) = &&_parts (is_elementwise x.op) (leb 2 (length (x ∷ chain))) good in
            subst (Found counts start (x ∷ rest)) (some_inj (rw good at h)) (record {
              part = x ∷ chain;
              post = post;
              split = ap (λ l. x ∷ l) split;
              starts = refl;
              ends = refl;
              at_least = ground (arith, two);
              at_most = omega (arith, short);
              does = (refl, (elementwise_lem x.op elem, plain));
              tested = tested;
              inputs = refl;
              output = refl;
            })
      ]

  pub try_match-Found :
      (rest : Tape) (g : FusionGroup)
      → try_match counts start rest ≡ some g
      → Found counts start rest g
  unfolding try_match
  try_match-Found rest g h =
      elim (or_else-eq-some (match_patterns counts start rest pattern_catalog) _ h) [
        | inl e ↦ match_patterns-Found rest pattern_catalog g catalog-IsPattern e
        | inr e ↦ match_chain-Found rest g e
      ]
