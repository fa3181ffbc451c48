-- ===== src/Build/Uncalled.antt =====
-- What `setUncalled` of pkg/osvscanner/vulnerability_result.go marks.
use osv_scanner.Prelude.{
  Bool, List, Text, [], all, any, contains, false, if◌then◌else◌, length, lookup, ltb, none, not,
  some, true, ◌&&◌, ◌==◌, ◌||◌, ◌∷◌, ◌≡◌,
}
use osv_scanner.Models.{
  AnalysisInfo, ExploitabilitySignal, GroupInfo, is_called, is_group_unimportant,
  vulnerable_code_not_in_execute_path,
}

abbrev pub Analyses : Type 0
Analyses = List (Text × AnalysisInfo)

abbrev some_unimportant : Analyses → Bool
some_unimportant m = any (λ (e : Text × AnalysisInfo). e.1.unimportant) m

abbrev some_called : Analyses → Bool
some_called m = any (λ (e : Text × AnalysisInfo). e.1.called) m

-- Every entry says whether it is called by the same value.
abbrev all_called : Bool → Analyses → Bool
all_called called m =
    all (λ (e : Text × AnalysisInfo). if called then e.1.called else not e.1.called) m

-- A signal says that the code is not in an executed path.
abbrev pub says_unexecuted : List ExploitabilitySignal → Bool
says_unexecuted signals =
    any
      (λ (s : ExploitabilitySignal). elim (s.justification) [
        | vulnerable_code_not_in_execute_path ↦ true
        | _ ↦ false
      ])
      signals

abbrev was_unimportant : Text → Analyses → Bool
was_unimportant id m = elim (lookup id m) [ none ↦ false | some a ↦ a.unimportant ]

-- The group has identifiers and no analysis.
abbrev pub is_fresh : GroupInfo → Bool
is_fresh g = ltb 0 (length g.ids) && (length g.experimental_analysis == 0)

-- How a group becomes another: the analysis of each of its identifiers says whether it is called, and
-- keeps whether it is unimportant; other analyses stay; and so does whether the group is unimportant.
pub record Analysed (called : Bool) (g g' : GroupInfo) : Type 0 where
  pub ids : g'.ids ≡ g.ids
  pub analysis :
      (id : Text)
      → lookup id g'.experimental_analysis ≡ (
          if contains g.ids id
          then some
              (record { called = called; unimportant = was_unimportant id g.experimental_analysis })
          else lookup id g.experimental_analysis)
  pub unimportant : is_group_unimportant g' ≡ is_group_unimportant g
  pub fresh : (not (is_fresh g) || (if called then is_called g' else not (is_called g'))) ≡ true

-- The groups, one by one.
abbrev pub AllAnalysed : Bool → List GroupInfo → List GroupInfo → Type 0
AllAnalysed called [] [] = Unit
AllAnalysed called [] (g' ∷ gs') = ⊥
AllAnalysed called (g ∷ gs) [] = ⊥
AllAnalysed called (g ∷ gs) (g' ∷ gs') = Analysed called g g' × AllAnalysed called gs gs'
