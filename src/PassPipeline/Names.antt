-- ===== src/PassPipeline/Names.antt =====
-- The passes, by the names that PassPipeline.cpp gives them, and the headers of their reports.
use mathlib.Core.Option.{some-injective}
use topo_llvm.Prelude.{
  ◌≡◌, refl, sym, ap, ◌∙◌, get_elem?, arith, ℕ, Bool, true, false, ◌==◌, Option, ◌>>=◌, some, none,
  List, [], ◌∷◌, Bytes, codes,
}
use topo_llvm.Sidecar.Reports.{PassReportHeader, PassReports}

pub data Pass : Type 0 where
  containment_interception return_specialization topo_inline prefetch data_layout : Pass
  indirection topo_parallel loop_parallelize adaptive_dispatch lifetime_arena topo_flatten : Pass
  pipeline_code_gen observability topo_reorder topo_layout : Pass

unfoldable pub name_of : Pass → Bytes
name_of Pass.containment_interception = codes "ContainmentInterceptionPass"
name_of Pass.return_specialization = codes "ReturnSpecializationPass"
name_of Pass.topo_inline = codes "TopoInlinePass"
name_of Pass.prefetch = codes "PrefetchPass"
name_of Pass.data_layout = codes "DataLayoutPass"
name_of Pass.indirection = codes "IndirectionPass"
name_of Pass.topo_parallel = codes "TopoParallelPass"
name_of Pass.loop_parallelize = codes "LoopParallelizePass"
name_of Pass.adaptive_dispatch = codes "AdaptiveDispatchPass"
name_of Pass.lifetime_arena = codes "LifetimeArenaPass"
name_of Pass.topo_flatten = codes "TopoFlattenPass"
name_of Pass.pipeline_code_gen = codes "PipelineCodeGenPass"
name_of Pass.observability = codes "ObservabilityPass"
name_of Pass.topo_reorder = codes "TopoReorderPass"
name_of Pass.topo_layout = codes "TopoLayoutPass"

abbrev pub index_of : Pass → ℕ
index_of Pass.containment_interception = 0
index_of Pass.return_specialization = 1
index_of Pass.topo_inline = 2
index_of Pass.prefetch = 3
index_of Pass.data_layout = 4
index_of Pass.indirection = 5
index_of Pass.topo_parallel = 6
index_of Pass.loop_parallelize = 7
index_of Pass.adaptive_dispatch = 8
index_of Pass.lifetime_arena = 9
index_of Pass.topo_flatten = 10
index_of Pass.pipeline_code_gen = 11
index_of Pass.observability = 12
index_of Pass.topo_reorder = 13
index_of Pass.topo_layout = 14

abbrev pub same_pass : Pass → Pass → Bool
same_pass p q = index_of p == index_of q

abbrev all_passes : List Pass
all_passes =
    Pass.containment_interception ∷ Pass.return_specialization ∷ Pass.topo_inline ∷ Pass.prefetch
    ∷ Pass.data_layout ∷ Pass.indirection ∷ Pass.topo_parallel ∷ Pass.loop_parallelize
    ∷ Pass.adaptive_dispatch ∷ Pass.lifetime_arena ∷ Pass.topo_flatten ∷ Pass.pipeline_code_gen
    ∷ Pass.observability ∷ Pass.topo_reorder ∷ Pass.topo_layout ∷ []

get_elem?-index_of : (p : Pass) → get_elem? all_passes (index_of p) ≡ some p
get_elem?-index_of Pass.containment_interception = refl
get_elem?-index_of p = refl

index_eq : (m n : ℕ) → (m == n) ≡ true → m ≡ n
index_eq m n h = ground arith

pub same_pass→eq : (p q : Pass) → same_pass p q ≡ true → p ≡ q
same_pass→eq p q h = some-injective p q (
    sym (get_elem?-index_of p)
    ∙ ap (get_elem? all_passes) (index_eq (index_of p) (index_of q) h)
    ∙ get_elem?-index_of q)

module _ {Double : Type 0} where
  -- Four passes have no report.
  unfoldable pub header_of : Pass → PassReports Double → Option PassReportHeader
  header_of Pass.containment_interception r = some r.containment_interception.header
  header_of Pass.return_specialization r = some r.return_specialization.header
  header_of Pass.topo_inline r = some r.topo_inline.header
  header_of Pass.prefetch r = some r.prefetch.header
  header_of Pass.data_layout r = some r.data_layout.header
  header_of Pass.indirection r = some r.indirection.header
  header_of Pass.topo_parallel r = some r.topo_parallel.header
  header_of Pass.loop_parallelize r = some r.loop_parallelize.header
  header_of Pass.adaptive_dispatch r = some r.adaptive_dispatch.header
  header_of Pass.lifetime_arena r = some r.lifetime_arena.header
  header_of Pass.topo_flatten r = some r.topo_flatten.header
  header_of _ r = none

  unfoldable pub edit_header :
      Pass → (PassReportHeader → PassReportHeader) → PassReports Double → PassReports Double
  edit_header Pass.containment_interception f r = record r {
    containment_interception = record r.containment_interception {
      header = f r.containment_interception.header;
    };
  }
  edit_header Pass.return_specialization f r = record r {
    return_specialization = record r.return_specialization {
      header = f r.return_specialization.header;
    };
  }
  edit_header Pass.topo_inline f r = record r {
    topo_inline = record r.topo_inline { header = f r.topo_inline.header };
  }
  edit_header Pass.prefetch f r = record r {
    prefetch = record r.prefetch { header = f r.prefetch.header };
  }
  edit_header Pass.data_layout f r = record r {
    data_layout = record r.data_layout { header = f r.data_layout.header };
  }
  edit_header Pass.indirection f r = record r {
    indirection = record r.indirection { header = f r.indirection.header };
  }
  edit_header Pass.topo_parallel f r = record r {
    topo_parallel = record r.topo_parallel { header = f r.topo_parallel.header };
  }
  edit_header Pass.loop_parallelize f r = record r {
    loop_parallelize = record r.loop_parallelize { header = f r.loop_parallelize.header };
  }
  edit_header Pass.adaptive_dispatch f r = record r {
    adaptive_dispatch = record r.adaptive_dispatch { header = f r.adaptive_dispatch.header };
  }
  edit_header Pass.lifetime_arena f r = record r {
    lifetime_arena = record r.lifetime_arena { header = f r.lifetime_arena.header };
  }
  edit_header Pass.topo_flatten f r = record r {
    topo_flatten = record r.topo_flatten { header = f r.topo_flatten.header };
  }
  edit_header _ f r = r

  pub header_of-edit_header_self :
      (p : Pass) (f : PassReportHeader → PassReportHeader) (r : PassReports Double)
      → header_of p (edit_header p f r) ≡ (header_of p r >>= λ h. some (f h))
  unfolding header_of edit_header
  header_of-edit_header_self Pass.containment_interception f r = refl
  header_of-edit_header_self p f r = refl

  -- Both are split on: at the pass of the header, and at the pass that is edited.
  pub header_of-edit_header_other :
      (p q : Pass) (f : PassReportHeader → PassReportHeader) (r : PassReports Double)
      → same_pass q p ≡ false
      → header_of q (edit_header p f r) ≡ header_of q r
  unfolding header_of edit_header
  header_of-edit_header_other Pass.containment_interception Pass.containment_interception f r e = cc
  header_of-edit_header_other Pass.containment_interception q f r e = refl
  header_of-edit_header_other Pass.return_specialization Pass.return_specialization f r e = cc
  header_of-edit_header_other Pass.return_specialization q f r e = refl
  header_of-edit_header_other Pass.topo_inline Pass.topo_inline f r e = cc
  header_of-edit_header_other Pass.topo_inline q f r e = refl
  header_of-edit_header_other Pass.prefetch Pass.prefetch f r e = cc
  header_of-edit_header_other Pass.prefetch q f r e = refl
  header_of-edit_header_other Pass.data_layout Pass.data_layout f r e = cc
  header_of-edit_header_other Pass.data_layout q f r e = refl
  header_of-edit_header_other Pass.indirection Pass.indirection f r e = cc
  header_of-edit_header_other Pass.indirection q f r e = refl
  header_of-edit_header_other Pass.topo_parallel Pass.topo_parallel f r e = cc
  header_of-edit_header_other Pass.topo_parallel q f r e = refl
  header_of-edit_header_other Pass.loop_parallelize Pass.loop_parallelize f r e = cc
  header_of-edit_header_other Pass.loop_parallelize q f r e = refl
  header_of-edit_header_other Pass.adaptive_dispatch Pass.adaptive_dispatch f r e = cc
  header_of-edit_header_other Pass.adaptive_dispatch q f r e = refl
  header_of-edit_header_other Pass.lifetime_arena Pass.lifetime_arena f r e = cc
  header_of-edit_header_other Pass.lifetime_arena q f r e = refl
  header_of-edit_header_other Pass.topo_flatten Pass.topo_flatten f r e = cc
  header_of-edit_header_other Pass.topo_flatten q f r e = refl
  header_of-edit_header_other p q f r e = refl
