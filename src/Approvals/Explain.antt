-- ===== src/Approvals/Explain.antt =====
-- web3/internal/service/approval.go: a response that is not a success says why.
use grpc_go_project.Prelude.{
  ℕ, zero, suc, ◌≡◌, refl, ap, ◌∙◌, if-cases, ◌⊎◌, inl, inr, Bool, true, false, not, ◌&&◌, ◌||◌, [],
  ◌∷◌, ◌++◌, length, ◌<◌, leb, ◌==◌, arith, Bool-cases, if◌then◌else◌,
}
use grpc_go_project.Prelude.Text.{Text}
use grpc_go_project.Prelude.Result.{Result, ok, err}
use grpc_go_project.Approvals.{
  UpstreamError, upstream_budget_exhausted, approval_enumeration_failed, PartialError,
  partial_error,
}
use grpc_go_project.Approvals.Enumerate.{
  ScanLimits, PageReply, no_budget, list_failed, listed, Enumeration, take_page, stop_with,
  enumerate_pages, empty_enumeration, finish, enumerate,
}
use grpc_go_project.Prelude.Sort.{any, any-sort_by, sort_by}
use grpc_go_project.Approvals.Verify.{
  TronApproval, verify_each, all_verified, shown_before, verify_allowances,
}
use grpc_go_project.Approvals.Check.{
  check_success, CheckResponse, Upstream, facts_of, candidates_of, is_ok, risk_errors,
  decimals_errors, allowance_errors, failed_response, verified_response, check_enabled,
}
use grpc_go_project.Approvals.Reasons.{
  enumeration_code, decimals_code, any_right, any_left, budget_said, failure_said, limit_said,
  decimals_said, any_unverified, unverified_explained, Reason,
}

-- Complete, or at the limits, or with an error that says so.
abbrev Explained : Enumeration → Type 0
Explained e =
    (e.complete ≡ true)
    ⊎ (e.truncated ≡ true)
    ⊎ (any (λ x. enumeration_code x.code) e.errors ≡ true)

complete_or_truncated : (e : Enumeration) → Explained (record e { complete = not e.truncated })
complete_or_truncated e = elim (Bool-cases e.truncated) [
  | inl t ↦ inr (inl t)
  | inr f ↦ inl (ap not f)
]

round-Explained :
    (l : ScanLimits) (owner : Text) (left : ℕ) (e : Enumeration) (rest : Enumeration → Enumeration)
    → ((e' : Enumeration) → (left ≡ 0 → e'.truncated ≡ true) → Explained (rest e'))
    → (reply : PageReply)
    → Explained (elim reply as (λ _. Enumeration) [
      | no_budget x ↦ stop_with (partial_error x upstream_budget_exhausted []) e
      | list_failed x ↦ stop_with (partial_error x approval_enumeration_failed []) e
      | listed page ↦
          let taken = take_page l owner page e in
          let marked = record taken { truncated = if left == 0 then true else taken.truncated } in
          if length page.entries == 0 || leb page.total taken.start
          then record taken { complete = not taken.truncated }
          else rest marked
    ])
round-Explained l owner left e rest next (no_budget x) = inr (
    inr (
      any_right (λ y. enumeration_code y.code) e.errors
        (partial_error x upstream_budget_exhausted [] ∷ []) (budget_said x)))
round-Explained l owner left e rest next (list_failed x) = inr (
    inr (
      any_right (λ y. enumeration_code y.code) e.errors
        (partial_error x approval_enumeration_failed [] ∷ []) (failure_said x)))
round-Explained l owner left e rest next (listed page) =
    let taken = take_page l owner page e in
    if-cases Explained (length page.entries == 0 || leb page.total taken.start)
      (record taken { complete = not taken.truncated })
      (rest (record taken { truncated = if left == 0 then true else taken.truncated }))
      (λ _. complete_or_truncated taken)
      (λ _.
        next (record taken { truncated = if left == 0 then true else taken.truncated })
          (last taken.truncated))
  where
    last : (t : Bool) → left ≡ 0 → (if left == 0 then true else t) ≡ true
    last t z = ground arith

enumerate_pages-Explained :
    (l : ScanLimits) (owner : Text) (replies : ℕ → PageReply) (left : ℕ) (e : Enumeration)
    → (left ≡ 0 → e.truncated ≡ true)
    → Explained (enumerate_pages l owner replies left e)
unfolding enumerate_pages
enumerate_pages-Explained l owner replies zero e h = inr (inl (h refl))
enumerate_pages-Explained l owner replies (suc left) e h =
    round-Explained l owner left e (enumerate_pages l owner replies left)
      (enumerate_pages-Explained l owner replies left) (replies e.start)

enumerate_explained :
    (l : ScanLimits) (owner : Text) (replies : ℕ → PageReply)
    → 0 < l.max_pages
    → (enumerate l owner replies).complete ≡ false
    → any (λ x. enumeration_code x.code) (enumerate l owner replies).errors ≡ true
unfolding enumerate
enumerate_explained l owner replies pos =
    finished (enumerate_pages l owner replies l.max_pages empty_enumeration) (
      enumerate_pages-Explained l owner replies l.max_pages empty_enumeration
        (λ z. absurd (omega arith)))
  where
    finished :
        (e : Enumeration)
        → Explained e
        → (finish e).complete ≡ false
        → any (λ x. enumeration_code x.code) (finish e).errors ≡ true
    finished e h =
        if-cases
          (λ (x : Enumeration).
            x.complete ≡ false → any (λ y. enumeration_code y.code) x.errors ≡ true)
          e.truncated _ e (λ _ _. any_right (λ y. enumeration_code y.code) e.errors _ limit_said)
          λ f c. elim h [ inl d ↦ absurd (cc) | inr (inl t) ↦ absurd (cc) | inr (inr x) ↦ x ]

decimals_of :
    (r : Result UpstreamError ℕ)
    → is_ok r ≡ false
    → (e : UpstreamError) × (r ≡ err e)
      × (any (λ x. decimals_code e x.code) (decimals_errors r) ≡ true)
decimals_of (ok n) h = absurd (cc)
decimals_of (err e) h = (e, refl, decimals_said e)

-- The reason of a response of a complete enumeration, given what it shows and its errors.
whole_explained :
    (u : Upstream) (e : Enumeration)
    → e.complete ≡ true
    → ((verified_response u e).status ≡ check_success) ⊎ Reason u (verified_response u e)
unfolding verified_response verify_allowances
whole_explained u e complete =
    let xs = verify_each (facts_of u e) u.allowance (candidates_of e) in
    let shown = sort_by shown_before xs in
    let risk = risk_errors u.risky_spenders in
    let decimals = decimals_errors u.usdt_decimals in
    elim (Bool-cases (all_verified xs)) [
      | inr some_left ↦
          let unread_one =
            any-sort_by (λ (a : TronApproval). not a.allowance_verified) shown_before xs
            ∙ any_unverified xs some_left in
          inr (
            inr (
              inr (
                unverified_explained (e.errors ++ (risk ++ (decimals ++ allowance_errors shown)))
                  shown
                  (λ p h. any_right p e.errors (risk ++ (decimals ++ allowance_errors shown)) (
                    any_right p risk (decimals ++ allowance_errors shown)
                      (any_right p decimals (allowance_errors shown) h)))
                  unread_one)))
      | inl verified ↦ elim (Bool-cases (is_ok u.usdt_decimals)) [
        | inl known ↦ inl (ground arith)
        | inr failed ↦
            let (x, is, said) = decimals_of u.usdt_decimals failed in
            let p = λ (y : PartialError). decimals_code x y.code in
            inr (
              inr (
                inl (
                  x,
                  is,
                  any_right p e.errors (risk ++ (decimals ++ allowance_errors shown)) (
                      any_right p risk (decimals ++ allowance_errors shown)
                        (any_left p decimals (allowance_errors shown) said)),
                )))
      ]
    ]

incomplete_explained :
    (u : Upstream) (e : Enumeration)
    → e.complete ≡ false
    → any (λ x. enumeration_code x.code) e.errors ≡ true
    → Reason u (verified_response u e)
unfolding verified_response
incomplete_explained u e h said = inl (h, any_left (λ x. enumeration_code x.code) e.errors _ said)

-- When the limit on pages is positive, a check that is not a success gives one of three reasons in its
-- response: pages are missing, and an error has a code of the enumeration; the decimals could not be
-- read, and an error has the code for that; or an approval that is shown is not verified, and an error
-- has the code for that and its spender.
pub check_explained :
    (l : ScanLimits) (owner : Text) (u : Upstream)
    → 0 < l.max_pages
    → ((check_enabled l owner u).status ≡ check_success) ⊎ Reason u (check_enabled l owner u)
unfolding check_enabled
check_explained l owner u pos =
    let e = enumerate l owner u.pages in
    if-cases (λ (r : CheckResponse). (r.status ≡ check_success) ⊎ Reason u r)
      (length (candidates_of e) == 0 && not e.complete) (failed_response e) (verified_response u e)
      (λ none_found.
        let h : e.complete ≡ false = ground arith in
        inr (inl (h, enumerate_explained l owner u.pages pos h)))
      (λ _. elim (Bool-cases e.complete) [
        | inl c ↦ whole_explained u e c
        | inr i ↦ inr (incomplete_explained u e i (enumerate_explained l owner u.pages pos i))
      ])
