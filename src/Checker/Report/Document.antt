-- ===== src/Checker/Report/Document.antt =====
-- The document that a printed report is: a JSON object, and what a reader of JSON makes of it.
use Prim.Native.String.{String}
use mathlib.Core.List.{append_assoc}
use ksnap.Base.{
  ℕ, ◌≤◌, ◌≡◌, ◌≢◌, refl, ap, ◌∙◌, Bool, true, false, List, [], ◌∷◌, ◌++◌, ok, arith, length, ◌==◌,
}
use ksnap.Base.Int.{ℤ, pos}
use ksnap.Base.Text.{Bytes, codes}
use ksnap.Base.Decimal.{print_integer}
use ksnap.Checker.{CheckReport, Reason, multi_threaded}
use ksnap.Checker.Json.{print_json_string, json_chars, json_char}
use ksnap.Checker.Json.Value.{
  Json, Items, Members, flag, number, text, array, object, no_items, item, no_members, member,
  render, render_items,
}
use ksnap.Checker.Json.Parse.{read_json}
use ksnap.Checker.Json.RoundTrip.{read_json-render}
use ksnap.Checker.Report.{code_of, detail_of, print_reasons, print_report}

-- A character that stands for itself in a JSON string.
abbrev pub Plain : ℕ → Type 0
Plain c = (c ≢ b'"') × (c ≢ b'\\') × (32 ≤ c)

module _ (strerror : ℕ → Bytes) where
  reason_json : ℤ → Reason → Json
  reason_json pid reason = object (
      member (codes "code") (text (code_of reason))
        (member (codes "detail") (text (detail_of strerror pid reason)) no_members))

  reasons_json : ℤ → List Reason → Items
  reasons_json pid [] = no_items
  reasons_json pid (reason ∷ reasons) = item (reason_json pid reason) (reasons_json pid reasons)

  abbrev count : String → ℕ → Members → Members
  count key n ms = member (codes key) (number (pos n)) ms

  counts_json : CheckReport → Members
  counts_json r = count "open_fds" r.open_fds (
      count "volatile_fds" r.volatile_fds (
        count "dumpable_fds" r.dumpable_fds (
          count "children" r.children (
            count "dumpable_vmas" r.dumpable_vmas (
              count "kernel_maps" r.kernel_maps (
                count "shared_vmas" r.shared_vmas (
                  count "device_vmas" r.device_vmas (
                    count "snapshot_bytes" r.snapshot_bytes (
                      member (codes "ptrace_probed") (flag r.ptrace_probed)
                        (member (codes "ptrace_ok") (flag r.ptrace_ok) no_members))))))))))

  -- The members in the order in which they are printed.
  facts_json : CheckReport → Members
  facts_json r = member (codes "comm") (text r.comm) (
      member (codes "state") (text (r.state ∷ [])) (
        member (codes "threads") (number r.threads) (
          member (codes "tracer_pid") (number r.tracer_pid) (
            count "uid" r.uid (
              count "rss_kb" r.rss_kb
                (count "argc" r.argc (member (codes "exe") (text r.exe_path) (counts_json r))))))))

  pub report_json : CheckReport → Json
  report_json r = object (
      member (codes "pid") (number r.pid) (
        member (codes "dumpable") (flag (length r.reasons == 0)) (
          member (codes "reasons") (array (reasons_json r.pid r.reasons))
            (member (codes "facts") (object (facts_json r)) no_members))))

  -- No code needs an escape.
  json_chars-code_of : (reason : Reason) → json_chars (code_of reason) ≡ code_of reason
  unfolding json_chars json_char code_of
  json_chars-code_of reason = elim reason as (λ k. json_chars (code_of k) ≡ code_of k) [
    | multi_threaded n ↦ refl
    | _ ↦ refl
  ]

  print_reasons-render :
      (pid : ℤ) (first : Bool) (reasons : List Reason) (rest : Bytes)
      → print_reasons strerror pid first reasons ++ b']' ∷ rest
        ≡ render_items first (reasons_json pid reasons) rest
  unfolding print_reasons render reasons_json reason_json print_json_string
  print_reasons-render pid first [] rest = refl
  print_reasons-render pid true (reason ∷ reasons) rest =
      simp (append_assoc, json_chars-code_of reason, print_reasons-render pid false reasons rest)
  print_reasons-render pid false (reason ∷ reasons) rest =
      simp (append_assoc, json_chars-code_of reason, print_reasons-render pid false reasons rest)

  json_char-Plain : (c : ℕ) → Plain c → json_char c ≡ c ∷ []
  unfolding json_char
  json_char-Plain c h = ground (arith, h)

  pub print_report-render :
      (r : CheckReport) (rest : Bytes)
      → Plain r.state
      → print_report strerror r ++ rest ≡ render (report_json r) (10 ∷ rest)
  unfolding print_report render report_json print_json_string facts_json counts_json print_integer
  print_report-render r rest h =
      simp (append_assoc, json_char-Plain r.state h) (simp (print_reasons-render))

  -- A report whose state is a character that needs no escape is printed as one JSON object with its
  -- facts and its reasons, and a newline behind it: a reader of JSON gives just these.
  pub read_json-print_report :
      (r : CheckReport) (rest : Bytes)
      → Plain r.state
      → read_json (print_report strerror r ++ rest) ≡ ok (report_json r, 10 ∷ rest)
  read_json-print_report r rest h =
      ap read_json (print_report-render r rest h)
      ∙ read_json-render (report_json r) (10 ∷ rest) refl
