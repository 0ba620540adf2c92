-- ===== src/Control/Report/Latest.antt =====
-- internal/control/observability.go: the report that is kept.
use mathlib.Core.Path.{subst}
use multi_derp.Base.{
  >>=-eq-ok, Bool, Bool-cases, List, Option, Option-cases, String, [], ap, arith, bool_eq, eq_iff,
  fail_if, false, find, find-any, find-update, inl, inr, length, list_eq, ltb, nat_eq, not, ok,
  option_eq, refl, some, string_eq, true, ℕ, ◌*◌, ◌+◌, ◌==◌, ◌||◌, ◌≡◌, ◌≤◌, ◌⊎◌,
}
use multi_derp.Clock.{Instant, before, is_zero, second}
use multi_derp.Control.Report.{
  NodeReport, ReportCodec, good_traffic, is_stale, next_row, put_report, report_body, reported_by,
  save_node_report,
}
use multi_derp.Control.Schema.{
  Database, ObservationRow, grant_state_eq, invalid, node_state_eq, role_eq, unix,
}
use multi_derp.Control.Sessions.{NodeSession}

module _ (codec : ReportCodec) where
  -- A row that holds a report of an instance.
  pub record Reads (row : Option ObservationRow) (instance : String) (report : NodeReport)
      : Type 0 where
    pub by : reported_by row ≡ instance
    pub read : codec.decode_report (report_body row) ≡ some report

  put_report-find :
      (node instance body : String) (now : ℕ) (rows : List ObservationRow) (o : ObservationRow)
      → find (λ r. r.node_id == node) rows ≡ some o
      → find (λ r. r.node_id == node) (put_report node instance body now rows)
        ≡ some (next_row instance body now o)
  unfolding put_report
  put_report-find node instance body now rows o h =
      rw (find-any (λ r. r.node_id == node) rows o h)
        (find-update (λ r. r.node_id == node) (next_row instance body now) rows o (λ r. refl) h)

  fresh_or_late :
      (instance : String) (report old : NodeReport) (row : Option ObservationRow) (late : Bool)
      → Reads row instance old
      → is_stale codec instance report row ≡ ok late
      → (late ≡ true) ⊎ ((old.revision ≤ report.revision) × (old.observed_at ≤ report.observed_at))
  unfolding is_stale
  fresh_or_late instance report old row late stored h =
      ground (arith, h, stored.by, stored.read, eq_iff (reported_by row) instance)

  -- What is kept of a node's reports never goes back: after a report was accepted, the stored one of
  -- the same instance has no lower revision and is not older, if reports are read back from the text
  -- that is written of them.
  pub save_node_report-latest :
      (session : NodeSession) (report old : NodeReport) (desired : ℕ) (now : Instant)
      (db db' : Database)
      → codec.decode_report (codec.encode_report report) ≡ some report
      → Reads
          (find (λ o. o.node_id == session.node_id) db.node_observations)
          session.instance_id
          old
      → (session.instance_id == "") ≡ false
      → save_node_report codec session report desired now db ≡ ok db'
      → (kept : NodeReport) × Reads
          (find (λ o. o.node_id == session.node_id) db'.node_observations)
          session.instance_id
          kept
        × (old.revision ≤ kept.revision)
        × (old.observed_at ≤ kept.observed_at)
  unfolding save_node_report is_stale
  save_node_report-latest session report old desired now db db' back stored named h =
      let row = find (λ o. o.node_id == session.node_id) db.node_observations in
      let (x, e₀, h₀) =
        >>=-eq-ok
          (fail_if
            (ltb desired report.revision
              || is_zero report.observed_at
              || before (now + 5 * second) report.observed_at
              || ltb 4096 (length report.traffic))
            invalid)
          _ h in
      let (y, e₁, h₁) =
        >>=-eq-ok (fail_if (not (good_traffic db session.node_id [] report.traffic)) invalid) _
          h₀ in
      let (late, e₂, h₂) = >>=-eq-ok (is_stale codec session.instance_id report row) _ h₁ in
      elim (Option-cases row) [
        | inl none_o ↦
            absurd (
              ground
                (arith, ap reported_by none_o, stored.by, named, eq_iff session.instance_id ""))
        | inr (o, some_o) ↦
            let fresh = fresh_or_late session.instance_id report old row late stored e₂ in
            elim (Bool-cases late) [
              | inl yes_late ↦
                  let same : db ≡ db' = ground (arith, h₂, yes_late) in
                  (
                    old,
                    subst
                        (λ (d : Database).
                          Reads (find (λ o. o.node_id == session.node_id) d.node_observations)
                            session.instance_id old)
                        same stored,
                    omega arith,
                    omega arith,
                  )
              | inr no_late ↦
                  let table : db'.node_observations
                      ≡ put_report session.node_id session.instance_id (codec.encode_report report)
                          (unix now) db.node_observations =
                    ground (arith, h₂, no_late) in
                  let kept =
                    put_report-find session.node_id session.instance_id (codec.encode_report report)
                      (unix now) db.node_observations o some_o in
                  (
                    report,
                    rw (table, kept) (record { by = refl; read = back }),
                    ground (arith, fresh, no_late),
                    ground (arith, fresh, no_late),
                  )
            ]
      ]
