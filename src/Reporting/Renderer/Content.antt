-- ===== src/Reporting/Renderer/Content.antt =====
-- What the report of a failure says (src/reporting/default_report_renderer.cpp).
use cliot.Prelude.{
  ℕ, String, ◌≡◌, ◌≤◌, sym, subst, false, List, [], ◌∷◌, In, here, there, ltb, arith, str_eq,
  eq_iff, Within, Within-self, Within-nil, Within-append_left, Within-append_right, Within-trans,
  Bool-cases, inl, inr,
}
use cliot.Json.{JsonLib}
use cliot.Reporting.Events.{Issue, FailureEvent}
use cliot.Reporting.Renderer.{
  FmtLib, FmtLaws, issue_text, issue_texts, detail_text, failure_message, render_failure,
}

module _ (F : FmtLib) (laws : FmtLaws F) (J : JsonLib) where
  open F use {Style, format, join}

  Within-format : {t s : String} (style : Style) → Within t s → Within t (format style s)
  Within-format {t} {s} style h =
      subst (Within t) (sym (laws.format_lem style s))
        (Within-append_right (laws.opening style) (Within-append_left (laws.closing style) h))

  Within-join :
      (t sep text : String) (texts : List String)
      → Within t text
      → In text texts
      → Within t (join texts sep)
  Within-join t sep text [] h m = elim m [ ]
  Within-join t sep text (first ∷ []) h here = rw (laws.join-one first sep) h
  Within-join t sep text (first ∷ []) h (there m) = elim m [ ]
  Within-join t sep text (first ∷ next ∷ rest) h here =
      rw (laws.join-cons first next rest sep) (Within-append_left _ h)
  Within-join t sep text (first ∷ next ∷ rest) h (there m) =
      rw (laws.join-cons first next rest sep) (
        Within-append_right first
          (Within-append_right sep (Within-join t sep text (next ∷ rest) h m)))

  In-issue_texts :
      (verbose : ℕ) (issue : Issue) (issues : List Issue)
      → In issue issues
      → In (issue_text F J verbose issue) (issue_texts F J verbose issues)
  unfolding issue_texts
  In-issue_texts verbose issue [] m = elim m [ ]
  In-issue_texts verbose issue (x ∷ issues) here = here
  In-issue_texts verbose issue (x ∷ issues) (there m) =
      there (In-issue_texts verbose issue issues m)

  visible : (verbose : ℕ) → 1 ≤ verbose → ltb verbose 1 ≡ false
  visible verbose h = ground arith

  ruleset renderings = (Within-self, Within-append_left, Within-append_right, Within-format)

  detail_text-detail : (issue : Issue) → Within issue.detail (detail_text F J issue)
  unfolding detail_text
  detail_text-detail issue = elim (Bool-cases (str_eq issue.detail "")) [
    | inl e ↦ rw (e, (eq_iff issue.detail "").0 e) (Within-nil "")
    | inr e ↦ rw e (search renderings)
  ]

  issue_text-Within :
      (verbose : ℕ) (issue : Issue)
      → 1 ≤ verbose
      → let text = issue_text F J verbose issue in
        Within issue.path text × Within issue.message text × Within issue.detail text
  unfolding issue_text
  issue_text-Within verbose issue h =
      let d = detail_text-detail issue in
      rw (visible verbose h)
        (search renderings depth 14, search renderings depth 14, search renderings depth 14)

  failure_message-Within :
      (verbose : ℕ) (ev : FailureEvent)
      → let text = failure_message F J verbose ev in
        Within ev.path text
        × Within ev.response text
        × Within (join (issue_texts F J verbose ev.issues) "\n") text
  unfolding failure_message
  failure_message-Within verbose ev =
      (search renderings depth 14, search renderings depth 14, search renderings depth 14)

  -- At verbosity 1 or more, the report of a failed flow has one text that holds the flow's name, the
  -- path, the live response, and of each issue its path, its message and its detail.
  pub render_failure-Within :
      (verbose : ℕ) (ev : FailureEvent) (issue : Issue)
      → 1 ≤ verbose
      → In issue ev.issues
      → (text : String) × In text (render_failure F J verbose ev)
        × Within ev.flow_name text
        × Within ev.path text
        × Within ev.response text
        × Within issue.path text
        × Within issue.message text
        × Within issue.detail text
  unfolding render_failure
  render_failure-Within verbose ev issue h m =
      let (p, q, r) = issue_text-Within verbose issue h in
      let (path, response, all) = failure_message-Within verbose ev in
      let found = In-issue_texts verbose issue ev.issues m in
      let inside : (t : String)
          → Within t (issue_text F J verbose issue)
          → Within t (failure_message F J verbose ev) =
        λ t w. Within-trans (Within-join t "\n" _ _ w found) all in
      let a = inside _ p in
      let b = inside _ q in
      let c = inside _ r in
      rw (visible verbose h) (
        _,
        there (there here),
        search renderings depth 14,
        search renderings depth 14,
        search renderings depth 14,
        search renderings depth 14,
        search renderings depth 14,
        search renderings depth 14,
      )
