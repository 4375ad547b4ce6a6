-- ===== src/Security/Engine.antt =====
-- renderer/utils/scanner/engine.ts.
pub mod Laws
mod Tests
use podscape.Common.{
  ℕ, String, Bool, true, false, Option, none, some, List, [], ◌∷◌, ◌++◌, filter, length,
}
use podscape.Security.Kube.{Resource}
use podscape.Security.Rules.{
  IssueLevel, error, warning, info, ScanIssue, ScannerRule, best_practice_rules,
}

pub record Summary : Type 0 where
  pub errors : ℕ
  pub warnings : ℕ
  pub infos : ℕ

pub record ScanResult : Type 0 where
  pub resource_uid : String
  pub issues : List ScanIssue
  pub summary : Summary

abbrev pub has_level : IssueLevel → ScanIssue → Bool
has_level error i = elim i.level [ error ↦ true | _ ↦ false ]
has_level warning i = elim i.level [ warning ↦ true | _ ↦ false ]
has_level info i = elim i.level [ info ↦ true | _ ↦ false ]

-- The loop over the rules; what a rule throws is logged and dropped.
pub run_rules : List ScannerRule → Resource → List ScanIssue
run_rules [] r = []
run_rules (rule ∷ rules) r = elim (rule.validate r) [
  | none ↦ run_rules rules r
  | some findings ↦ findings ++ run_rules rules r
]

pub summarize : List ScanIssue → Summary
summarize issues = record {
  errors = length (filter (has_level error) issues);
  warnings = length (filter (has_level warning) issues);
  infos = length (filter (has_level info) issues);
}

pub scan : List ScannerRule → Resource → ScanResult
scan rules r =
    let issues = run_rules rules r in
    record { resource_uid = r.uid; issues = issues; summary = summarize issues }

-- `new ScannerEngine()` and `addRule`.
pub new_engine : List ScannerRule
new_engine = best_practice_rules

pub add_rule : ScannerRule → List ScannerRule → List ScannerRule
add_rule rule rules = rules ++ rule ∷ []
