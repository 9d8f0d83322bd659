-- ===== src/Checker/Report/Lines.antt =====
-- The output of a check as a stream of lines, each with a document of its own.
use ksnap.Base.{
  ℕ, ◌≡◌, refl, ap, ◌∙◌, List, [], ◌∷◌, ◌++◌, ok, arith, All, map, ◌==◌, if◌then◌else◌,
}
use ksnap.Base.Text.{Bytes}
use ksnap.Checker.{CheckReport}
use ksnap.Checker.Json.Value.{render}
use ksnap.Checker.Json.OneLine.{OneLine, rendered-OneLine, render-behind}
use ksnap.Checker.Json.Parse.{read_json}
use ksnap.Checker.Json.RoundTrip.{read_json-render}
use ksnap.Checker.Report.{print_report, print_reports}
use ksnap.Checker.Report.Document.{Plain, report_json, print_report-render}

abbrev onto_first : ℕ → List Bytes → List Bytes
onto_first c [] = (c ∷ []) ∷ []
onto_first c (line ∷ lines) = (c ∷ line) ∷ lines

-- The lines of a text, without their newlines.
unfoldable pub lines : Bytes → List Bytes
lines [] = []
lines (c ∷ s) = let rest = lines s in if c == 10 then [] ∷ rest else onto_first c rest

lines-line : (s rest : Bytes) → OneLine s → lines (s ++ 10 ∷ rest) ≡ s ∷ lines rest
unfolding lines
lines-line [] rest h = refl
lines-line (c ∷ s) rest h = ground (arith, lines-line s rest h.1)

module _ (strerror : ℕ → Bytes) where
  lines-print_report :
      (r : CheckReport) (rest : Bytes)
      → Plain r.state
      → lines (print_report strerror r ++ rest) ≡ render (report_json strerror r) [] ∷ lines rest
  lines-print_report r rest h =
      ap lines
        (print_report-render strerror r rest h ∙ render-behind (report_json strerror r) (10 ∷ rest))
      ∙ lines-line (render (report_json strerror r) []) rest
          (rendered-OneLine (report_json strerror r))

  -- The printed reports, split into lines, are one document for each report, in their order.
  pub lines-print_reports :
      (rs : List CheckReport)
      → All (λ r. Plain r.state) rs
      → map read_json (lines (print_reports strerror rs))
        ≡ map (λ r. ok (report_json strerror r, [])) rs
  unfolding print_reports
  lines-print_reports [] h = unfold lines in refl
  lines-print_reports (r ∷ rs) h = rw (lines-print_report r (print_reports strerror rs) h.0) (
      ap (λ first. first ∷ map read_json (lines (print_reports strerror rs)))
        (read_json-render (report_json strerror r) [] tt)
      ∙ ap (λ more. ok (report_json strerror r, []) ∷ more) (lines-print_reports rs h.1))
