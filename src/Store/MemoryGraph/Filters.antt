-- ===== src/Store/MemoryGraph/Filters.antt =====
-- The filters that the listings of internal/store/temporal_memory_graph.go share.
use nukara.Base.{
  ℕ, String, Bool, false, ◌==◌, ◌||◌, if◌then◌else◌, List, [], ◌∷◌, trim, codes_eq, is_empty,
}
use nukara.Store.Types.{CaseRules}

-- A set as the list of its elements; a text in lower case is the list of its codes.
unfoldable pub to_lower_set : CaseRules → List String → List (List ℕ)
to_lower_set rules [] = []
to_lower_set rules (value ∷ rest) =
    let set = to_lower_set rules rest in
    let small = rules.to_lower (trim value) in if is_empty small then set else small ∷ set

unfoldable pub in_set : List ℕ → List (List ℕ) → Bool
in_set x [] = false
in_set x (y ∷ ys) = codes_eq y x || in_set x ys

-- `len(set) > 0` and the value is not in the set, negated.
abbrev pub admits : CaseRules → List (List ℕ) → String → Bool
admits rules set value = is_empty set || in_set (rules.to_lower value) set

-- `want != ""` and the trimmed value differs, negated; `want` is trimmed already.
abbrev pub same_or_any : String → String → Bool
same_or_any want value = want == "" || trim value == want

abbrev pub status_or_any : CaseRules → String → String → Bool
status_or_any rules want value = want == "" || rules.same_fold (trim value) want
