-- ===== src/PassPipeline/Headers.antt =====
-- What is added to the reports leaves their headers as they are.
use topo_llvm.Prelude.{◌≡◌, refl, List, Bytes}
use topo_llvm.Prelude.Doubles.{Doubles}
use topo_llvm.Sidecar.Reports.{
  PassReports, DataLayoutCandidate, TopoParallelCandidate, LifetimeArenaCandidate,
  ReturnSpecializationEntry, TopoInlineEntry, AdaptiveDispatchEntry, PrefetchEntry,
  ContainmentInterceptionEntry, LoopParallelizeEntry,
}
use topo_llvm.PassPipeline.Names.{Pass, header_of}
use topo_llvm.PassPipeline.Config.{IndirectionStats}
use topo_llvm.PassPipeline.Plain.{
  add_containment, add_return_specialization, add_inline, add_prefetch, add_loop_parallelize,
  add_adaptive_dispatch, add_flatten,
}
use topo_llvm.PassPipeline.Judged.{set_stats, edit_parallel, edit_lifetime}
use topo_llvm.PassPipeline.DataLayout.{add_layout}

module _ (D : Doubles) where
  abbrev pub KeepsHeaders : (PassReports D.Double → PassReports D.Double) → Type 0
  KeepsHeaders f = (q : Pass) (r : PassReports D.Double) → header_of q (f r) ≡ header_of q r

  pub add_containment-KeepsHeaders :
      (es : List ContainmentInterceptionEntry) → KeepsHeaders (add_containment D es)
  unfolding header_of add_containment
  add_containment-KeepsHeaders es Pass.containment_interception r = refl
  add_containment-KeepsHeaders es q r = refl

  pub add_return_specialization-KeepsHeaders :
      (es : List ReturnSpecializationEntry) → KeepsHeaders (add_return_specialization D es)
  unfolding header_of add_return_specialization
  add_return_specialization-KeepsHeaders es Pass.containment_interception r = refl
  add_return_specialization-KeepsHeaders es q r = refl

  pub add_inline-KeepsHeaders : (es : List TopoInlineEntry) → KeepsHeaders (add_inline D es)
  unfolding header_of add_inline
  add_inline-KeepsHeaders es Pass.containment_interception r = refl
  add_inline-KeepsHeaders es q r = refl

  pub add_prefetch-KeepsHeaders : (es : List PrefetchEntry) → KeepsHeaders (add_prefetch D es)
  unfolding header_of add_prefetch
  add_prefetch-KeepsHeaders es Pass.containment_interception r = refl
  add_prefetch-KeepsHeaders es q r = refl

  pub add_loop_parallelize-KeepsHeaders :
      (es : List LoopParallelizeEntry) → KeepsHeaders (add_loop_parallelize D es)
  unfolding header_of add_loop_parallelize
  add_loop_parallelize-KeepsHeaders es Pass.containment_interception r = refl
  add_loop_parallelize-KeepsHeaders es q r = refl

  pub add_adaptive_dispatch-KeepsHeaders :
      (es : List AdaptiveDispatchEntry) → KeepsHeaders (add_adaptive_dispatch D es)
  unfolding header_of add_adaptive_dispatch
  add_adaptive_dispatch-KeepsHeaders es Pass.containment_interception r = refl
  add_adaptive_dispatch-KeepsHeaders es q r = refl

  pub add_flatten-KeepsHeaders : (es : List Bytes) → KeepsHeaders (add_flatten D es)
  unfolding header_of add_flatten
  add_flatten-KeepsHeaders es Pass.containment_interception r = refl
  add_flatten-KeepsHeaders es q r = refl

  pub set_stats-KeepsHeaders : (x : IndirectionStats) → KeepsHeaders (set_stats D x)
  unfolding header_of set_stats
  set_stats-KeepsHeaders x Pass.containment_interception r = refl
  set_stats-KeepsHeaders x q r = refl

  pub edit_parallel-KeepsHeaders :
      (f : List (TopoParallelCandidate D.Double) → List (TopoParallelCandidate D.Double))
      → KeepsHeaders (edit_parallel D f)
  unfolding header_of edit_parallel
  edit_parallel-KeepsHeaders f Pass.containment_interception r = refl
  edit_parallel-KeepsHeaders f q r = refl

  pub edit_lifetime-KeepsHeaders :
      (f : List (LifetimeArenaCandidate D.Double) → List (LifetimeArenaCandidate D.Double))
      → KeepsHeaders (edit_lifetime D f)
  unfolding header_of edit_lifetime
  edit_lifetime-KeepsHeaders f Pass.containment_interception r = refl
  edit_lifetime-KeepsHeaders f q r = refl

  pub add_layout-KeepsHeaders : (c : DataLayoutCandidate D.Double) → KeepsHeaders (add_layout D c)
  unfolding header_of add_layout
  add_layout-KeepsHeaders c Pass.containment_interception r = refl
  add_layout-KeepsHeaders c q r = refl
