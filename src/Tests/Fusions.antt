-- ===== src/Tests/Fusions.antt =====
-- The tape of a linear layer with its activation.
use async_gpu.Prelude.{ℕ, ◌≡◌, refl, List, [], ◌∷◌, All}
use async_gpu.Fusion.{
  OpKind, matmul, bias_add, gelu, relu, TapeEntry, Tape, matmul_bias_gelu, FusionGroup, analyze,
  analyze_from, try_match, match_patterns, pattern_catalog, match_pattern, ops_match, fusable_after,
  data_flows, single_consumer, compute_ref_counts, count_entries, count_uses, match_chain,
  grow_chain,
}
use async_gpu.Fusion.Plan.{Fuses, Covers, analyze-Planned}

abbrev entry : OpKind → List ℕ → ℕ → TapeEntry
entry op inputs output = record { op = op; inputs = inputs; output = output; saved = [] }

abbrev layer : Tape
layer =
    entry matmul (1 ∷ 2 ∷ []) 3
    ∷ entry bias_add (3 ∷ 4 ∷ []) 5
    ∷ entry gelu (5 ∷ []) 6
    ∷ entry relu (6 ∷ []) 7
    ∷ []

analyze-Planned_example : All (Fuses layer) (analyze layer) × Covers layer 0 (analyze layer)
analyze-Planned_example = analyze-Planned layer

abbrev fused : FusionGroup
fused = record { start = 0; end = 3; fused_op = matmul_bias_gelu; inputs = 1 ∷ 2 ∷ []; output = 6 }

analyze-layer : analyze layer ≡ fused ∷ []
unfolding analyze analyze_from try_match match_patterns pattern_catalog match_pattern ops_match
    fusable_after data_flows single_consumer compute_ref_counts count_entries count_uses match_chain
    grow_chain
analyze-layer = refl
