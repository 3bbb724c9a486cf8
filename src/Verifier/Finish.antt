-- ===== src/Verifier/Finish.antt =====
-- The whole verification gives a result, for aliases without a cycle.
use topo_llvm.Prelude.{
  length, same, map, ℕ, suc, ◌<◌, ◌==◌, refl, Bool, ◌&&◌, Option, none, some, List, [], ◌∷◌, Bytes,
  All, if_cases,
}
use topo_llvm.SymbolMapper.{NameMap, SymbolMapping, build_demangled_map}
use topo_llvm.Sema.{
  TypeNode, type_node, TypeNodes, no_types, then_type, TemplateParam, Parameter, FunctionSymbol,
  Instantiate, AdaptEntry, SymbolTable,
}
use topo_llvm.Verifier.Types.{last_part, LlvmType, LogicalTypeKind, types_match, is_void}
use topo_llvm.Verifier.Names.{join_args, resolve_topo_type_name}
use topo_llvm.Verifier.Ir.{LlvmFunction, Argument, Finding, matched_function}
use topo_llvm.Verifier.Signatures.{
  adjusted_actual, wrong_count, check_return, check_params, check_types, check_signature,
  check_found, check_signatures_in, check_signatures, hidden_args, skip_args, first_is_struct_ret,
}
use topo_llvm.Verifier.Templates.{
  ir_function, template_arg_str, check_instantiation_of, check_instantiations,
  check_template_instantiations,
}
use topo_llvm.Verifier.Constraints.{
  check_params_of, find_adapt, check_required, check_argument, check_arguments,
  check_constraints_of, check_constraints, constraint_of, check_constraint_satisfaction,
  collect_constraint_members, template_params_of,
}
use topo_llvm.Verifier.Total.{
  Answers, Answers-then, weight, AllArgs, Acyclic, types_match-Answers, resolve-Answers,
  join_args-Answers,
}
use topo_llvm.Verifier.Collect.{collect_constraint_members-Answers}
use topo_llvm.Verifier.{verify_with, verify, verify_entries}
use topo_llvm.Verifier.Consts.{ConstEntry, check_const_consistency}

abbrev pub ArgsWeigh : (Bytes → ℕ) → ℕ → TypeNode → Type 0
ArgsWeigh rank fuel (type_node parts m v args) = AllArgs (λ n. weight rank n < fuel) args

abbrev pub SignatureWeighs : (Bytes → ℕ) → ℕ → FunctionSymbol → Type 0
SignatureWeighs rank fuel f =
    (weight rank f.return_type < fuel) × All (λ p. weight rank p.type < fuel) f.params

-- The types of the table weigh less than the fuel.
abbrev pub Weighs : (Bytes → ℕ) → ℕ → SymbolTable → Type 0
Weighs rank fuel symbols =
    All (λ f. SignatureWeighs rank fuel f.1) symbols.functions
    × All (λ i. ArgsWeigh rank fuel i.type) symbols.instantiates
    × All (λ a. weight rank a.target_type < fuel) symbols.adapts

module _ (rank : Bytes → ℕ) (symbols : SymbolTable) (acyclic : Acyclic rank symbols)
    (fuel : ℕ) where
  module _ (classify : Bytes → Option LogicalTypeKind) (to_string : TypeNode → Bytes) where
    check_return-Answers :
        (name : Bytes) (f : FunctionSymbol) (hentriessret : Bool) (t : LlvmType)
        → weight rank f.return_type < fuel
        → Answers (check_return symbols classify to_string fuel name f hentriessret t)
    unfolding check_return
    check_return-Answers name f hentriessret t h =
        if_cases Answers f.is_multi_return _ _ (λ e. (_, refl))
          (λ e.
            if_cases Answers (hentriessret && is_void t) _ _ (λ g. ([], refl))
              (λ g.
                Answers-then (types_match symbols classify fuel t f.return_type) _
                  (types_match-Answers rank symbols acyclic classify fuel t f.return_type h)
                  (λ agree. (_, refl))))

    check_params-Answers :
        (name : Bytes) (f : FunctionSymbol) (i : ℕ) (ps : List Parameter) (args : List Argument)
        → All (λ p. weight rank p.type < fuel) ps
        → Answers (check_params symbols classify to_string fuel name f i ps args)
    unfolding check_params
    check_params-Answers name f i [] args h = ([], refl)
    check_params-Answers name f i (p ∷ ps) [] h = ([], refl)
    check_params-Answers name f i (p ∷ ps) (a ∷ args) h =
        Answers-then (types_match symbols classify fuel a.type p.type) _
          (types_match-Answers rank symbols acyclic classify fuel a.type p.type h.0)
          (λ agree.
            Answers-then (check_params symbols classify to_string fuel name f (suc i) ps args) _
              (check_params-Answers name f (suc i) ps args h.1) (λ rest. (_, refl)))

    check_types-Answers :
        (name : Bytes) (f : FunctionSymbol) (func : LlvmFunction)
        → SignatureWeighs rank fuel f
        → Answers (check_types symbols classify to_string fuel name f func)
    unfolding check_types
    check_types-Answers name f func h =
        let hentriessret = first_is_struct_ret func.args in
        let args = skip_args (hidden_args symbols name func.args) func.args in
        Answers-then
          (check_return symbols classify to_string fuel name f hentriessret func.return_type) _
          (check_return-Answers name f hentriessret func.return_type h.0)
          (λ of_return.
            Answers-then (check_params symbols classify to_string fuel name f 0 f.params args) _
              (check_params-Answers name f 0 f.params args h.1) (λ of_params. (_, refl)))

    check_signature-Answers :
        (name : Bytes) (f : FunctionSymbol) (func : LlvmFunction)
        → SignatureWeighs rank fuel f
        → Answers (check_signature symbols classify to_string fuel name f func)
    unfolding check_signature
    check_signature-Answers name f func h =
        if_cases Answers (adjusted_actual symbols name func.args == length f.params)
          (check_types symbols classify to_string fuel name f func)
          (some (
            wrong_count symbols classify to_string fuel name f
              (adjusted_actual symbols name func.args)
            ∷ []))
          (λ e. check_types-Answers name f func h) (λ e. (_, refl))

    check_found-Answers :
        (name : Bytes) (f : FunctionSymbol) (o : Option LlvmFunction)
        → SignatureWeighs rank fuel f
        → Answers (check_found symbols classify to_string fuel name f o)
    check_found-Answers name f none h = ([], refl)
    check_found-Answers name f (some func) h = check_signature-Answers name f func h

    check_signatures-Answers :
        (functions : List LlvmFunction) (mapping : SymbolMapping)
        (fs : List (Bytes × FunctionSymbol))
        → All (λ f. SignatureWeighs rank fuel f.1) fs
        → Answers (check_signatures_in symbols classify to_string fuel functions mapping fs)
    unfolding check_signatures_in
    check_signatures-Answers functions mapping [] h = ([], refl)
    check_signatures-Answers functions mapping ((name, f) ∷ fs) h =
        Answers-then _ _
          (check_found-Answers name f (matched_function functions mapping.matched name) h.0)
          (λ here.
            Answers-then _ _ (check_signatures-Answers functions mapping fs h.1)
              (λ rest. (_, refl)))

  template_arg_str-Answers :
      (args : TypeNodes)
      → AllArgs (λ n. weight rank n < fuel) args
      → Answers (template_arg_str symbols fuel args)
  unfolding template_arg_str
  template_arg_str-Answers no_types h = ([], refl)
  template_arg_str-Answers (then_type t ts) h =
      Answers-then (join_args symbols fuel (then_type t ts)) _
        (join_args-Answers rank symbols acyclic fuel (then_type t ts) h) (λ names. (_, refl))

  module _ (demangled : NameMap) where
    check_instantiation-Answers :
        (inst : Instantiate) (type : TypeNode)
        → ArgsWeigh rank fuel type
        → Answers (check_instantiation_of symbols fuel demangled inst type)
    unfolding check_instantiation_of
    check_instantiation-Answers inst (type_node [] m v args) h = ([], refl)
    check_instantiation-Answers inst (type_node (p ∷ ps) m v args) h =
        Answers-then (template_arg_str symbols fuel args) _ (template_arg_str-Answers args h)
          (λ arg_str. (_, refl))

    check_instantiations-Answers :
        (is : List Instantiate)
        → All (λ i. ArgsWeigh rank fuel i.type) is
        → Answers (check_instantiations symbols fuel demangled is)
    unfolding check_instantiations
    check_instantiations-Answers [] h = ([], refl)
    check_instantiations-Answers (i ∷ is) h =
        Answers-then (check_instantiation_of symbols fuel demangled i i.type) _
          (check_instantiation-Answers i i.type h.0)
          (λ here.
            Answers-then (check_instantiations symbols fuel demangled is) _
              (check_instantiations-Answers is h.1) (λ rest. (_, refl)))

  module _ (to_string : TypeNode → Bytes) (demangled : NameMap) (mapping : SymbolMapping)
      (adapts_weigh : All (λ a. weight rank a.target_type < fuel) symbols.adapts) where
    find_adapt-Answers :
        (constraint actual : Bytes) (entries : List AdaptEntry)
        → All (λ a. weight rank a.target_type < fuel) entries
        → Answers (find_adapt to_string symbols fuel demangled mapping constraint actual entries)
    unfolding find_adapt
    find_adapt-Answers constraint actual [] h = (none, refl)
    find_adapt-Answers constraint actual (a ∷ entries) h =
        let rest = find_adapt-Answers constraint actual entries h.1 in
        if_cases Answers (same a.constraint_name constraint) _ _
          (λ e.
            Answers-then (resolve_topo_type_name symbols fuel a.target_type) _
              (resolve-Answers rank symbols acyclic fuel a.target_type h.0)
              (λ target. if_cases Answers (same target actual) _ _ (λ g. (_, refl)) (λ g. rest)))
          (λ e. rest)

    check_required-Answers :
        (inst : Instantiate) (arg : TypeNode) (constraint actual : Bytes) (ms : List Bytes)
        → Answers
            (check_required to_string symbols fuel demangled mapping inst arg constraint actual ms)
    unfolding check_required
    check_required-Answers inst arg constraint actual [] = ([], refl)
    check_required-Answers inst arg constraint actual (m ∷ ms) =
        Answers-then
          (find_adapt to_string symbols fuel demangled mapping constraint actual symbols.adapts) _
          (find_adapt-Answers constraint actual symbols.adapts adapts_weigh) (λ found. (_, refl))

    check_argument-Answers :
        (inst : Instantiate) (arg : TypeNode) (o : Option Bytes)
        → weight rank arg < fuel
        → Answers (check_argument to_string symbols fuel demangled mapping inst arg o)
    unfolding check_argument
    check_argument-Answers inst arg none h = ([], refl)
    check_argument-Answers inst arg (some constraint) h =
        Answers-then (resolve_topo_type_name symbols fuel arg) _
          (resolve-Answers rank symbols acyclic fuel arg h)
          (λ actual.
            Answers-then (collect_constraint_members symbols.constraints constraint) _
              (collect_constraint_members-Answers symbols.constraints constraint)
              (λ required. check_required-Answers inst arg constraint actual required))

    check_arguments-Answers :
        (inst : Instantiate) (ps : List TemplateParam) (args : TypeNodes)
        → AllArgs (λ n. weight rank n < fuel) args
        → Answers (check_arguments to_string symbols fuel demangled mapping inst ps args)
    unfolding check_arguments
    check_arguments-Answers inst [] args h = ([], refl)
    check_arguments-Answers inst (p ∷ ps) no_types h = ([], refl)
    check_arguments-Answers inst (p ∷ ps) (then_type arg args) h =
        Answers-then
          (check_argument to_string symbols fuel demangled mapping inst arg
            (constraint_of p p.constraint_type))
          _ (check_argument-Answers inst arg (constraint_of p p.constraint_type) h.0)
          (λ here.
            Answers-then (check_arguments to_string symbols fuel demangled mapping inst ps args) _
              (check_arguments-Answers inst ps args h.1) (λ rest. (_, refl)))

    check_params_of-Answers :
        (inst : Instantiate) (args : TypeNodes) (o : Option (List TemplateParam))
        → AllArgs (λ n. weight rank n < fuel) args
        → Answers (check_params_of to_string symbols fuel demangled mapping inst args o)
    check_params_of-Answers inst args none h = ([], refl)
    check_params_of-Answers inst args (some params) h = check_arguments-Answers inst params args h

    check_constraints_of-Answers :
        (inst : Instantiate) (type : TypeNode)
        → ArgsWeigh rank fuel type
        → Answers (check_constraints_of to_string symbols fuel demangled mapping inst type)
    unfolding check_constraints_of
    check_constraints_of-Answers inst (type_node [] m v args) h = ([], refl)
    check_constraints_of-Answers inst (type_node (p ∷ ps) m v args) h =
        check_params_of-Answers inst args (template_params_of symbols (last_part (p ∷ ps))) h

    check_constraints-Answers :
        (is : List Instantiate)
        → All (λ i. ArgsWeigh rank fuel i.type) is
        → Answers (check_constraints to_string symbols fuel demangled mapping is)
    unfolding check_constraints
    check_constraints-Answers [] h = ([], refl)
    check_constraints-Answers (i ∷ is) h =
        Answers-then (check_constraints_of to_string symbols fuel demangled mapping i i.type) _
          (check_constraints_of-Answers i i.type h.0)
          (λ here.
            Answers-then (check_constraints to_string symbols fuel demangled mapping is) _
              (check_constraints-Answers is h.1) (λ rest. (_, refl)))

module _ (demangle : Bytes → Bytes) (microsoft_demangle : Bytes → Option Bytes)
    (classify : Bytes → Option LogicalTypeKind) (to_string : TypeNode → Bytes) (fuel : ℕ)
    (rank : Bytes → ℕ) (symbols : SymbolTable) (functions : List LlvmFunction)
    (mapping : SymbolMapping) where
  verify_with-Answers :
      (consts : List Finding)
      → Acyclic rank symbols
      → Weighs rank fuel symbols
      → Answers (
          verify_with demangle microsoft_demangle classify to_string fuel symbols functions mapping
            consts)
  unfolding verify_with check_signatures check_template_instantiations check_constraint_satisfaction
  verify_with-Answers consts acyclic h =
      let demangled =
        build_demangled_map demangle microsoft_demangle (map ir_function functions) [] in
      Answers-then _ _
        (check_signatures-Answers rank symbols acyclic fuel classify to_string functions mapping
          symbols.functions h.0)
        (λ signatures.
          Answers-then _ _
            (check_instantiations-Answers rank symbols acyclic fuel demangled symbols.instantiates
              h.1)
            (λ templates.
              Answers-then _ _
                (check_constraints-Answers rank symbols acyclic fuel to_string demangled mapping h.2
                  symbols.instantiates h.1)
                (λ constraints. (_, refl))))

  -- Where aliases lead to types of less weight and the types of the declarations weigh less than the
  -- fuel, both versions of the verification give a result on every module and mapping.
  pub verify-Answers :
      Acyclic rank symbols
      → Weighs rank fuel symbols
      → Answers
          (verify demangle microsoft_demangle classify to_string fuel symbols functions mapping)
        × ((entries : List ConstEntry)
            → Answers (
                verify_entries demangle microsoft_demangle classify to_string fuel symbols functions
                  mapping entries))
  unfolding verify verify_entries
  verify-Answers acyclic h = (
    verify_with-Answers [] acyclic h,
    (λ entries.
        verify_with-Answers (check_const_consistency functions mapping entries symbols) acyclic h),
  )
