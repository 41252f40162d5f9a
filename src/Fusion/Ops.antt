-- ===== src/Fusion/Ops.antt =====
-- Kinds of operations: the comparison of slices with patterns, and what a fused operation stands for.
use async_gpu.Prelude.{
  ◌≡◌, refl, sym, ap, ap₂, ◌∙◌, ==_iff, ◌&&◌, Bool, true, false, List, [], ◌∷◌, map, length, get_or,
  All, arith,
}
use async_gpu.Fusion.{
  OpKind, matmul, bias_add, layer_norm, gelu, silu, sigmoid, relu, elem_add, elem_mul, embedding,
  cross_entropy, mse_loss, conv2d, batch_norm, max_pool2d, upsample_nearest, attention, op_index,
  same_op, TapeEntry, Tape, elementwise, classify, is_elementwise, FusedOpKind, matmul_bias_gelu,
  elem_add_layer_norm, matmul_bias, elementwise_chain, ops_match,
}

abbrev pub ops_of : Tape → List OpKind
ops_of = map (λ (e : TapeEntry). e.op)

-- The operations that a fused operation stands for.
abbrev pub Does : FusedOpKind → List OpKind → Type 0
Does matmul_bias_gelu ops = ops ≡ matmul ∷ bias_add ∷ gelu ∷ []
Does elem_add_layer_norm ops = ops ≡ elem_add ∷ layer_norm ∷ []
Does matmul_bias ops = ops ≡ matmul ∷ bias_add ∷ []
Does (elementwise_chain chain) ops = (ops ≡ chain) × All (λ op. classify op ≡ elementwise) ops

abbrev all_ops : List OpKind
all_ops =
    matmul ∷ bias_add ∷ layer_norm ∷ gelu ∷ silu ∷ sigmoid ∷ relu ∷ elem_add ∷ elem_mul ∷ embedding
    ∷ cross_entropy ∷ mse_loss ∷ conv2d ∷ batch_norm ∷ max_pool2d ∷ upsample_nearest ∷ attention
    ∷ []

from_index : (op : OpKind) → get_or all_ops (op_index op) matmul ≡ op
from_index matmul = refl
from_index bias_add = refl
from_index layer_norm = refl
from_index gelu = refl
from_index silu = refl
from_index sigmoid = refl
from_index relu = refl
from_index elem_add = refl
from_index elem_mul = refl
from_index embedding = refl
from_index cross_entropy = refl
from_index mse_loss = refl
from_index conv2d = refl
from_index batch_norm = refl
from_index max_pool2d = refl
from_index upsample_nearest = refl
from_index attention = refl

same_op-eq : (a b : OpKind) → same_op a b ≡ true → a ≡ b
same_op-eq a b h =
    let indices = (==_iff (op_index a) (op_index b)).0 h in
    sym (from_index a) ∙ ap (λ n. get_or all_ops n matmul) indices ∙ from_index b

pub elementwise_lem : (op : OpKind) → is_elementwise op ≡ true → classify op ≡ elementwise
elementwise_lem op h = ground arith

pub &&_parts : (a b : Bool) → (a && b) ≡ true → (a ≡ true) × (b ≡ true)
&&_parts true b h = (refl, h)
&&_parts false b h = cc

pub ops_match-eq :
    (xs : Tape) (ops : List OpKind)
    → length xs ≡ length ops
    → ops_match xs ops ≡ true
    → ops_of xs ≡ ops
unfolding ops_match
ops_match-eq [] [] e h = refl
ops_match-eq [] (op ∷ ops) e h = absurd (omega arith)
ops_match-eq (x ∷ xs) [] e h = absurd (omega arith)
ops_match-eq (x ∷ xs) (op ∷ ops) e h =
    let (same, rest) = &&_parts (same_op x.op op) (ops_match xs ops) h in
    ap₂ ◌∷◌ (same_op-eq x.op op same) (ops_match-eq xs ops (omega arith) rest)
