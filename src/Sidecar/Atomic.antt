-- ===== src/Sidecar/Atomic.antt =====
-- At every moment the file of a report is as it was before, or complete.
use topo_llvm.Prelude.{
  ◌≡◌, refl, sym, ap, ◌∙◌, subst, inl, inr, ◌⊎◌, ℕ, true, false, Bool-cases, Option, none, List, [],
  ◌∷◌, ◌++◌, Bytes, codes, same, same→eq, same_refl, not, All, All-append, All-map, Among, arith,
  if_cases,
}
use topo_llvm.Sidecar.Files.{
  File, FileSystem, set_file, Answer, take, last_length, temporary, text_file, partial_states,
  Trace, rename_step, atomic_write,
}
use topo_llvm.Sidecar.{report_path, write_all}

-- The path is no temporary file's.
abbrev pub IsLasting : Bytes → Type 0
IsLasting p = (d : Bytes) → same p (temporary d) ≡ false

last_byte : Bytes → ℕ
last_byte [] = 0
last_byte (c ∷ []) = c
last_byte (c ∷ d ∷ s) = last_byte (d ∷ s)

last_byte-append : (s : Bytes) (c : ℕ) (t : Bytes) → last_byte (s ++ c ∷ t) ≡ last_byte (c ∷ t)
unfolding last_byte
last_byte-append [] c t = refl
last_byte-append (x ∷ []) c t = refl
last_byte-append (x ∷ y ∷ s) c t = last_byte-append (y ∷ s) c t

report_path-IsLasting : (dir name : Bytes) → IsLasting (report_path dir name)
unfolding last_byte
report_path-IsLasting dir name d = elim (Bool-cases (same (report_path dir name) (temporary d))) [
  | inl e ↦
      let ends = ap last_byte (same→eq (report_path dir name) (temporary d) e) in
      let is_n = last_byte-append (dir ++ (codes "/" ++ name)) b'.' (codes "json") in
      let is_p = last_byte-append d b'.' (codes "tmp") in
      absurd (omega (arith, sym is_n ∙ (ends ∙ is_p)))
  | inr e ↦ e
]

module _ (answer : Bytes → Answer) (dir : Bytes) (reports : List (Bytes × Bytes)) where
  -- The whole text of one of the reports stands under the path.
  abbrev pub Complete : FileSystem → Bytes → Type 0
  Complete fs p =
      (r : Bytes × Bytes) × Among r reports
      × (p ≡ report_path dir r.0)
      × (fs p ≡ text_file (r.1 ++ 10 ∷ []) (answer r.0).syncs)

  -- Each lasting file is as it was, or complete.
  abbrev pub AtomicView : FileSystem → FileSystem → Type 0
  AtomicView before fs = (p : Bytes) → IsLasting p → (fs p ≡ before p) ⊎ Complete fs p

  moved : (fs gs : FileSystem) (p : Bytes) → gs p ≡ fs p → Complete fs p → Complete gs p
  moved fs gs p e (r, m, path, text) = (r, m, path, e ∙ text)

  AtomicView-trans : (a b c : FileSystem) → AtomicView a b → AtomicView b c → AtomicView a c
  AtomicView-trans a b c h g p l = elim (g p l) [
    | inl e ↦ elim (h p l) [ inl f ↦ inl (e ∙ f) | inr k ↦ inr (moved b c p e k) ]
    | inr k ↦ inr k
  ]

  still-Complete :
      (a b : FileSystem) (p : Bytes) → AtomicView a b → IsLasting p → Complete a p → Complete b p
  still-Complete a b p h l k = elim (h p l) [ inl e ↦ moved a b p e k | inr j ↦ j ]

  -- A change of a temporary file is not seen.
  set_temporary :
      (d : Bytes) (file : Option File) (fs : FileSystem)
      → AtomicView fs (set_file (temporary d) file fs)
  set_temporary d file fs p l = inl (rw (l d) refl)

  partial-AtomicView :
      (d text : Bytes) (ns : List ℕ) (fs : FileSystem)
      → All (AtomicView fs) (partial_states (temporary d) text ns fs)
  partial-AtomicView d text [] fs = tt
  partial-AtomicView d text (n ∷ ns) fs =
      (set_temporary d (text_file (take n text) false) fs, partial-AtomicView d text ns fs)

  -- What a trace shows of the lasting files, in each state and at its end, and with success.
  abbrev GoodWrite : FileSystem → Bytes → Trace → Type 0
  GoodWrite fs path t =
      All (AtomicView fs) t.states
      × AtomicView fs t.last
      × (t.succeeds ≡ true → Complete t.last path)

  module _ (r : Bytes × Bytes) (m : Among r reports) (fs : FileSystem) where
    abbrev dest : Bytes
    dest = report_path dir r.0

    abbrev text : Bytes
    text = r.1 ++ 10 ∷ []

    abbrev renamed : FileSystem
    renamed = set_file (temporary dest) none (set_file dest (text_file text (answer r.0).syncs) fs)

    renamed-Complete : Complete renamed dest
    renamed-Complete = (r, m, refl, rw (report_path-IsLasting dir r.0 dest, same_refl dest) refl)

    renamed-AtomicView : AtomicView fs renamed
    renamed-AtomicView p l = elim (Bool-cases (same p dest)) [
      | inl e ↦ inr (subst (Complete renamed) (sym (same→eq p dest e)) renamed-Complete)
      | inr e ↦ inl (rw (l dest, e) refl)
    ]

    synced-AtomicView :
        AtomicView fs (set_file (temporary dest) (text_file text (answer r.0).syncs) fs)
    synced-AtomicView = set_temporary dest (text_file text (answer r.0).syncs) fs

    rename-GoodWrite : GoodWrite fs dest (rename_step (answer r.0) dest text fs)
    rename-GoodWrite =
        if_cases (GoodWrite fs dest) (answer r.0).renames _ _
          (λ e. (
            (synced-AtomicView, (renamed-AtomicView, tt)),
            renamed-AtomicView,
            (λ h. renamed-Complete),
          ))
          (λ e. ((synced-AtomicView, tt), synced-AtomicView, (λ h. absurd cc)))

    write-GoodWrite : GoodWrite fs dest (atomic_write (answer r.0) dest r.1 fs)
    unfolding atomic_write
    write-GoodWrite =
        let same_view : AtomicView fs fs = λ p l. inl refl in
        let tmp_view = λ (s : Bytes). set_temporary dest (text_file s false) fs in
        let parts = partial-AtomicView dest text (answer r.0).parts fs in
        if_cases (GoodWrite fs dest) (not (answer r.0).opens) _ _
          (λ e. ((same_view, tt), same_view, (λ h. absurd cc)))
          (λ e.
            if_cases (GoodWrite fs dest) (not (answer r.0).writes) _ _
              (λ f. (
                (same_view, (tmp_view [], parts)),
                tmp_view (take (last_length (answer r.0).parts) text),
                (λ h. absurd cc),
              ))
              (λ f. (
                All-append (AtomicView fs)
                    (fs
                      ∷ set_file (temporary dest) (text_file [] false) fs
                      ∷ partial_states (temporary dest) text (answer r.0).parts fs)
                    _ (same_view, (tmp_view [], parts)) (tmp_view text, rename-GoodWrite.0),
                rename-GoodWrite.1,
                rename-GoodWrite.2,
              )))

  -- The file of each report is complete.
  abbrev pub AllComplete : FileSystem → List (Bytes × Bytes) → Type 0
  AllComplete fs rs = All (λ r. Complete fs (report_path dir r.0)) rs

  pub write_all-views :
      (rs : List (Bytes × Bytes)) (fs : FileSystem)
      → ((r : Bytes × Bytes) → Among r rs → Among r reports)
      → All (AtomicView fs) (write_all answer dir rs fs).states
        × AtomicView fs (write_all answer dir rs fs).last
        × ((write_all answer dir rs fs).succeeds ≡ true
            → AllComplete (write_all answer dir rs fs).last rs)
  unfolding write_all
  write_all-views [] fs h = (tt, (λ p l. inl refl), (λ e. tt))
  write_all-views ((name, printed) ∷ rs) fs h =
      let (states, last, done) =
        write-GoodWrite (name, printed) (h (name, printed) (inl refl)) fs in
      let t = atomic_write (answer name) (report_path dir name) printed fs in
      let (states', last', done') = write_all-views rs t.last (λ r m. h r (inr m)) in
      (
        All-append (AtomicView fs) t.states (write_all answer dir rs t.last).states states (
            All-map (AtomicView t.last) (AtomicView fs) (write_all answer dir rs t.last).states
              (λ s v. AtomicView-trans fs t.last s last v) states'),
        AtomicView-trans fs t.last (write_all answer dir rs t.last).last last last',
        (λ e. (
          still-Complete t.last (write_all answer dir rs t.last).last (report_path dir name) last'
              (report_path-IsLasting dir name) (done (ground (arith, e))),
          done' (ground (arith, e)),
        )),
      )
