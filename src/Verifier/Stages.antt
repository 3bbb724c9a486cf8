-- ===== src/Verifier/Stages.antt =====
-- `checkStageOrdering`: the calls of a `fn` block, by their place in the source, against the stages
-- that the block declares.
use topo_llvm.Prelude.{
  ℕ, suc, Bool, not, Option, none, some, List, [], ◌∷◌, ◌==◌, ltb, if◌then◌else◌, Bytes, codes,
  same, concat,
}
use topo_llvm.Prelude.Int.{ℤ, less, minus_one}
use topo_llvm.Prelude.Decimal.{decimal_int}
use topo_llvm.SymbolMapper.{NameMap, SymbolMapping}
use topo_llvm.Sema.{LogicBlock, SymbolTable}
use topo_llvm.Verifier.Ir.{
  Instruction, LlvmFunction, Finding, Severity, Counter, matched_function, llvm_to_topo,
  called_name,
}
use topo_llvm.Verifier.Blocks.{operation_names, over_blocks}

pub record StagedCall : Type 0 where
  pub line : ℕ
  pub col : ℕ
  pub emit_idx : ℕ
  pub stage : ℤ
  pub name : Bytes

abbrev pub later_or : Option ℤ → Option ℤ → Option ℤ
later_or (some later) earlier = some later
later_or none earlier = earlier

-- `calleeStage`: the stage of the last operation with the name.
unfoldable pub stage_of : List Bytes → List ℤ → Bytes → Option ℤ
stage_of [] stages name = none
stage_of (op ∷ ops) [] name = none
stage_of (op ∷ ops) (s ∷ stages) name =
    later_or (stage_of ops stages name) (if same op name then some s else none)

abbrev pub location_of : Option (ℕ × ℕ) → ℕ × ℕ
location_of none = (0, 0)
location_of (some l) = l

abbrev pub push_call : Option StagedCall → List StagedCall → List StagedCall
push_call none cs = cs
push_call (some c) cs = c ∷ cs

abbrev pub next_idx : Option StagedCall → ℕ → ℕ
next_idx none n = n
next_idx (some c) n = suc n

abbrev pub call_at : ℕ → Option (ℕ × ℕ) → Bytes → Option ℤ → Option StagedCall
call_at n place name none = none
call_at n place name (some s) = some (record {
  line = (location_of place).0;
  col = (location_of place).1;
  emit_idx = n;
  stage = s;
  name = name;
})

module _ (stage : Bytes → Option ℤ) (names : NameMap) where
  abbrev pub staged_name : ℕ → Option (ℕ × ℕ) → Option Bytes → Option StagedCall
  staged_name n place none = none
  staged_name n place (some name) = call_at n place name (stage name)

  -- The calls with a stage, in the order of their emission; `n` is the number of those before.
  unfoldable pub staged_calls : ℕ → List Instruction → List StagedCall
  unfolding called_name
  staged_calls n [] = []
  staged_calls n (i ∷ is) =
      let call = staged_name n i.debug_loc (called_name names i) in
      push_call call (staged_calls (next_idx call n) is)

-- The order of `stable_sort`.
unfoldable pub call_before : StagedCall → StagedCall → Bool
call_before a b =
    if not (a.line == b.line)
    then ltb a.line b.line
    else if not (a.col == b.col)
    then ltb a.col b.col
    else ltb a.emit_idx b.emit_idx

-- The new call is put in front of the calls that do not come before it.
unfoldable pub insert_call : StagedCall → List StagedCall → List StagedCall
unfolding call_before
insert_call a [] = a ∷ []
insert_call a (b ∷ bs) =
    let rest = insert_call a bs in if call_before b a then b ∷ rest else a ∷ b ∷ bs

unfoldable pub stable_sort : List StagedCall → List StagedCall
unfolding insert_call
stable_sort [] = []
stable_sort (a ∷ rest) = insert_call a (stable_sort rest)

abbrev pub larger : ℤ → ℤ → ℤ
larger a b = if less a b then b else a

module _ (block_name : Bytes) (block : LogicBlock) where
  abbrev pub out_of_order : StagedCall → ℤ → Finding
  out_of_order c max_stage = record {
    severity = Severity.error;
    location = block.location;
    message = concat (
        codes "fn block '"
        ∷ block_name
        ∷ codes "': IR calls '"
        ∷ c.name
        ∷ codes "' (stage "
        ∷ decimal_int c.stage
        ∷ codes ") after a stage "
        ∷ decimal_int max_stage
        ∷ codes " operation "
        ∷ (0xE2 ∷ 0x80 ∷ 0x94 ∷ [])
        ∷ codes " violates stage ordering"
        ∷ []);
    counter = some Counter.stage_order_violations;
  }

  -- The loop over the sorted calls, with `maxStageSeen`.
  unfoldable pub scan_stages : ℤ → List StagedCall → List Finding
  scan_stages max_stage [] = []
  scan_stages max_stage (c ∷ cs) =
      let rest = scan_stages (larger max_stage c.stage) cs in
      if less c.stage max_stage then out_of_order c max_stage ∷ rest else rest

module _ (functions : List LlvmFunction) (mapping : SymbolMapping) (block_name : Bytes)
    (block : LogicBlock) where
  unfoldable pub block_calls : LlvmFunction → List StagedCall
  unfolding stage_of operation_names staged_calls llvm_to_topo
  block_calls f =
      staged_calls (stage_of (operation_names block_name block) block.stages)
        (llvm_to_topo mapping.matched) 0 f.instructions

  unfoldable pub check_stage_order : LlvmFunction → List Finding
  unfolding block_calls stable_sort scan_stages
  check_stage_order f = scan_stages block_name block minus_one (stable_sort (block_calls f))

  unfoldable pub check_block_stages : List ℤ → List Finding
  unfolding matched_function check_stage_order
  check_block_stages [] = []
  check_block_stages (s ∷ ss) = elim (matched_function functions mapping.matched block_name) [
    | none ↦ []
    | some f ↦ check_stage_order f
  ]

unfoldable pub check_stage_ordering : SymbolTable → List LlvmFunction → SymbolMapping → List Finding
unfolding over_blocks check_block_stages
check_stage_ordering symbols functions mapping =
    over_blocks (λ name block. check_block_stages functions mapping name block block.stages)
      symbols.logic_blocks
