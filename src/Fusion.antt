-- ===== src/Fusion.antt =====
-- crates/core/gpu-host/src/nn/fusion.rs, the analysis of a tape (crates/core/gpu-host/src/nn/autograd/
-- tape.rs) for operations that one kernel can do. A tape is a list of entries, of which the metadata
-- for the backward pass are left out, and a position is looked at with the entries from there on.
pub mod Counts
pub mod Ops
pub mod Match
pub mod Plan
use async_gpu.Prelude.{
  ℕ, zero, suc, ◌+◌, ◌-◌, ◌==◌, ltb, leb, if◌then◌else◌, Bool, true, false, ◌&&◌, ◌||◌, not, List,
  [], ◌∷◌, map, length, take, drop, Option, none, some, update,
}

pub data OpKind : Type 0 where
  matmul bias_add layer_norm gelu silu sigmoid relu elem_add elem_mul embedding : OpKind
  cross_entropy mse_loss conv2d batch_norm max_pool2d upsample_nearest attention : OpKind

-- The position of a variant, by which the derived `==` compares.
abbrev pub op_index : OpKind → ℕ
op_index matmul = 0
op_index bias_add = 1
op_index layer_norm = 2
op_index gelu = 3
op_index silu = 4
op_index sigmoid = 5
op_index relu = 6
op_index elem_add = 7
op_index elem_mul = 8
op_index embedding = 9
op_index cross_entropy = 10
op_index mse_loss = 11
op_index conv2d = 12
op_index batch_norm = 13
op_index max_pool2d = 14
op_index upsample_nearest = 15
op_index attention = 16

abbrev pub same_op : OpKind → OpKind → Bool
same_op a b = op_index a == op_index b

pub record TapeEntry : Type 0 where
  pub op : OpKind
  pub inputs : List ℕ
  pub output : ℕ
  pub saved : List ℕ

abbrev pub Tape : Type 0
Tape = List TapeEntry

pub data OpClass : Type 0 where
  elementwise compute_bound reduction structural : OpClass

abbrev pub classify : OpKind → OpClass
classify gelu = elementwise
classify silu = elementwise
classify sigmoid = elementwise
classify relu = elementwise
classify bias_add = elementwise
classify elem_add = elementwise
classify elem_mul = elementwise
classify matmul = compute_bound
classify conv2d = compute_bound
classify layer_norm = reduction
classify batch_norm = reduction
classify cross_entropy = reduction
classify mse_loss = reduction
classify attention = compute_bound
classify embedding = structural
classify max_pool2d = structural
classify upsample_nearest = structural

-- `classify(op) == OpClass::Elementwise`
abbrev pub is_elementwise : OpKind → Bool
is_elementwise op = elim (classify op) [ elementwise ↦ true | _ ↦ false ]

pub data FusedOpKind : Type 0 where
  matmul_bias_gelu elem_add_layer_norm matmul_bias : FusedOpKind
  elementwise_chain : List OpKind → FusedOpKind

pub record FusionPattern : Type 0 where
  pub ops : List OpKind
  pub replacement : FusedOpKind
  pub priority : ℕ

-- Whether `b` sorts before `a`: by higher priority, then by greater length.
abbrev pub sorts_before : FusionPattern → FusionPattern → Bool
sorts_before b a =
    ltb a.priority b.priority || (a.priority == b.priority && ltb (length a.ops) (length b.ops))

-- A stable sort: an element goes before the first that does not sort before it.
unfoldable pub insert_pattern : FusionPattern → List FusionPattern → List FusionPattern
insert_pattern p [] = p ∷ []
insert_pattern p (q ∷ ps) = if sorts_before q p then q ∷ insert_pattern p ps else p ∷ q ∷ ps

unfoldable pub sort_patterns : List FusionPattern → List FusionPattern
sort_patterns [] = []
sort_patterns (p ∷ ps) = insert_pattern p (sort_patterns ps)

unfoldable pub pattern_catalog : List FusionPattern
unfolding insert_pattern sort_patterns
pattern_catalog = sort_patterns (
    record { ops = matmul ∷ bias_add ∷ gelu ∷ []; replacement = matmul_bias_gelu; priority = 100 }
    ∷ record { ops = elem_add ∷ layer_norm ∷ []; replacement = elem_add_layer_norm; priority = 90 }
    ∷ record { ops = matmul ∷ bias_add ∷ []; replacement = matmul_bias; priority = 80 }
    ∷ [])

-- The map from a tensor to the number of its uses.
abbrev pub RefCounts : Type 0
RefCounts = ℕ → Option ℕ

-- `*counts.entry(id).or_insert(0) += 1`
abbrev pub count_use : RefCounts → ℕ → RefCounts
count_use counts id = update counts id (elim (counts id) [ none ↦ some 1 | some n ↦ some (n + 1) ])

unfoldable pub count_uses : RefCounts → List ℕ → RefCounts
count_uses counts [] = counts
count_uses counts (id ∷ ids) = count_uses (count_use counts id) ids

unfoldable pub count_entries : RefCounts → Tape → RefCounts
count_entries counts [] = counts
count_entries counts (entry ∷ tape) = count_entries (count_uses counts entry.inputs) tape

unfoldable pub compute_ref_counts : Tape → RefCounts
compute_ref_counts = count_entries (λ id. none)

unfoldable pub single_consumer : TapeEntry → RefCounts → Bool
single_consumer producer counts = elim (counts producer.output) [
  | none ↦ true
  | some count ↦ count == 1
]

unfoldable pub contains : ℕ → List ℕ → Bool
contains id [] = false
contains id (x ∷ xs) = (x == id) || contains id xs

unfoldable pub data_flows : TapeEntry → TapeEntry → Bool
unfolding contains
data_flows producer consumer = contains producer.output consumer.inputs

pub record FusionGroup : Type 0 where
  pub start : ℕ
  pub end : ℕ
  pub fused_op : FusedOpKind
  pub inputs : List ℕ
  pub output : ℕ

-- `slice[0].inputs` and `slice[len - 1].output`; no slice here is empty.
abbrev pub first_inputs : Tape → List ℕ
first_inputs [] = []
first_inputs (x ∷ xs) = x.inputs

abbrev pub last_output : TapeEntry → Tape → ℕ
last_output x [] = x.output
last_output x (y ∷ ys) = last_output y ys

abbrev pub output_of : Tape → ℕ
output_of [] = 0
output_of (x ∷ xs) = last_output x xs

-- The kinds of a slice against those of a pattern, as `zip` pairs them.
unfoldable pub ops_match : Tape → List OpKind → Bool
ops_match [] ops = true
ops_match (x ∷ xs) [] = true
ops_match (x ∷ xs) (op ∷ ops) = same_op x.op op && ops_match xs ops

-- The two tests for each pair of neighbours in a slice.
unfoldable pub fusable_after : RefCounts → TapeEntry → Tape → Bool
fusable_after counts x [] = true
fusable_after counts x (y ∷ ys) =
    data_flows x y && (single_consumer x counts && fusable_after counts y ys)

abbrev pub fusable : RefCounts → Tape → Bool
fusable counts [] = true
fusable counts (x ∷ xs) = fusable_after counts x xs

-- A round of the loop over the patterns; `rest` is `tape[start..]`.
unfoldable pub match_pattern : RefCounts → ℕ → Tape → FusionPattern → Option FusionGroup
match_pattern counts start rest p =
    let len : ℕ = length p.ops in
    let slice = take len rest in
    if ltb (length rest) len
    then none
    else if not (ops_match slice p.ops)
    then none
    else if fusable counts slice
    then some (record {
      start = start;
      end = start + len;
      fused_op = p.replacement;
      inputs = first_inputs slice;
      output = output_of slice;
    })
    else none

-- The first match that there is.
abbrev pub or_else : Option FusionGroup → Option FusionGroup → Option FusionGroup
or_else (some g) later = some g
or_else none later = later

unfoldable pub match_patterns : RefCounts → ℕ → Tape → List FusionPattern → Option FusionGroup
match_patterns counts start rest [] = none
match_patterns counts start rest (p ∷ ps) =
    let later = match_patterns counts start rest ps in
    or_else (match_pattern counts start rest p) later

-- The entries by which a chain that ends in `x` grows, of at most `room`.
unfoldable pub grow_chain : RefCounts → ℕ → TapeEntry → Tape → Tape
grow_chain counts zero x rest = []
grow_chain counts (suc room) x [] = []
grow_chain counts (suc room) x (y ∷ rest) =
    let more = y ∷ grow_chain counts room y rest in
    if is_elementwise y.op && (data_flows x y && single_consumer x counts) then more else []

unfoldable pub match_chain : RefCounts → ℕ → Tape → Option FusionGroup
match_chain counts start [] = none
match_chain counts start (x ∷ rest) =
    let chain = x ∷ grow_chain counts 4 x rest in
    if is_elementwise x.op && leb 2 (length chain)
    then some (record {
      start = start;
      end = start + length chain;
      fused_op = elementwise_chain (map (λ (e : TapeEntry). e.op) chain);
      inputs = x.inputs;
      output = output_of chain;
    })
    else none

unfoldable pub try_match : RefCounts → ℕ → Tape → Option FusionGroup
try_match counts start rest =
    or_else (match_patterns counts start rest pattern_catalog) (match_chain counts start rest)

-- The loop of `analyze` from position `i` on.
unfoldable pub analyze_from : RefCounts → ℕ → ℕ → Tape → List FusionGroup
analyze_from counts zero i rest = []
analyze_from counts (suc fuel) i [] = []
analyze_from counts (suc fuel) i (x ∷ rest) =
    let found = try_match counts i (x ∷ rest) in
    elim found [
      | some g ↦
          g ∷ analyze_from counts fuel (i + (g.end - g.start)) (drop (g.end - g.start) (x ∷ rest))
      | none ↦ analyze_from counts fuel (i + 1) rest
    ]

unfoldable pub analyze : Tape → List FusionGroup
analyze tape = analyze_from (compute_ref_counts tape) (length tape) 0 tape

unfoldable pub launches_saved : List FusionGroup → ℕ
launches_saved [] = 0
launches_saved (g ∷ gs) = (g.end - g.start - 1) + launches_saved gs
