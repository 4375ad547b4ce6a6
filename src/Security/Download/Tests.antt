-- ===== src/Security/Download/Tests.antt =====
-- The download of results at concrete inputs.
use podscape.Common.{none, some, [], ◌∷◌, ◌+◌, map, codes, length, sum_of, ◌≡◌, refl}
use podscape.Common.Csv.{read_open_rows, double_quotes}
use podscape.Security.Rules.{error}
use podscape.Security.Unified.{UnifiedResource, config}
use podscape.Security.Download.{escape_csv, has_separator, rows, fields, csv_content, issue_columns}
use podscape.Security.Download.ReadBack.{titles, expected, read_open_rows-csv_content}

abbrev found : UnifiedResource
found = record {
  name = "web";
  namespace = some "default";
  kind = some "Deployment";
  issues =
      record {
        issue = record {
          rule_id = "latest-image-tag";
          level = error;
          message = "uses \"latest\", or no tag";
          path = "p";
          suggestion = "s";
        };
        source = config;
      }
      ∷ [];
  vulnerabilities =
      record {
        id = "CVE-1";
        severity = "HIGH";
        title = none;
        image = "nginx";
        pkg_name = "ssl";
        fixed_version = "2";
      }
      ∷ [];
}

quoted_message : escape_csv (codes "a,\"b\"") ≡ codes "\"a,\"\"b\"\"\""
unfolding escape_csv has_separator double_quotes
quoted_message = refl

-- The column "ID / Rule" has the source of an issue, not its rule.
source_for_rule :
    map fields (rows (record found { vulnerabilities = [] } ∷ []))
    ≡ (codes "web"
        ∷ codes "default"
        ∷ codes "Deployment"
        ∷ codes "Config"
        ∷ codes "Critical"
        ∷ codes "config"
        ∷ codes "uses \"latest\", or no tag"
        ∷ codes "s"
        ∷ [])
      ∷ []
unfolding rows issue_columns
source_for_rule = refl

read_open_rows-csv_content_example :
    (read_open_rows (csv_content (found ∷ [])) ≡ titles ∷ expected (found ∷ []))
    × (length (expected (found ∷ []))
        ≡ sum_of (λ (r : UnifiedResource). length r.issues + length r.vulnerabilities) (found ∷ []))
unfolding expected
read_open_rows-csv_content_example = read_open_rows-csv_content (found ∷ []) (
  (refl, (refl, (refl, (refl, (refl, (refl, (refl, (refl, tt)))))))),
  ((refl, (refl, (refl, (refl, (refl, (refl, (refl, (refl, tt)))))))), tt),
)
