-- ===== src/Approvals/Covers.antt =====
-- web3/internal/service/approval.go: what a response that reports success says of the provider's list.
use grpc_go_project.Prelude.{
  ℕ, zero, suc, ◌≡◌, refl, sym, ap, ◌∙◌, if-cases, Bool, true, false, not, ◌&&◌, ◌||◌, List, [],
  ◌∷◌, length, ◌<◌, ltb, leb, ◌==◌, map, All, arith, Bool-cases, inl, inr, if◌then◌else◌,
}
use grpc_go_project.Prelude.Text.{Text, text_eq, trim_space}
use grpc_go_project.Approvals.{
  ApprovalRecord, partial_error, upstream_budget_exhausted, approval_enumeration_failed,
}
use grpc_go_project.Approvals.Enumerate.{
  ScanLimits, PageReply, no_budget, list_failed, listed, Enumeration, has_spender, counts_for,
  take_approval, take_approvals, take_page, stop_with, enumerate_pages, empty_enumeration,
  enumerate,
}
use grpc_go_project.Approvals.Complete.{Serves}
use grpc_go_project.Approvals.Whole.{enumerate_misses_none}
use grpc_go_project.Prelude.Sort.{All-sort_by, any, any-sort_by, text_ltb, sort_by}
use grpc_go_project.Units.{decimal}
use grpc_go_project.Approvals.Verify.{
  AllowanceReply, no_call, call_failed, allowed, TronApproval, SpenderFacts, unverified, verify_one,
  verify_each, all_verified, shown_before, verify_allowances,
}
use grpc_go_project.Approvals.Check.{
  check_success, check_partial, CheckResponse, Upstream, candidates_of, facts_of, is_ok,
  failed_response, verified_response, check_enabled,
}

-- Every entry stands under the spender of its approval.
abbrev Keyed : List (Text × ApprovalRecord) → Type 0
Keyed = All (λ entry. entry.0 ≡ trim_space entry.1.to_address)

take_approval-Keyed :
    (l : ScanLimits) (owner : Text) (e : Enumeration) (a : ApprovalRecord)
    → Keyed e.by_spender
    → Keyed (take_approval l owner e a).by_spender
unfolding take_approval
take_approval-Keyed l owner e a h =
    let P = λ (x : Enumeration). Keyed x.by_spender in
    if-cases P (not (counts_for l owner a)) _ _ (λ _. h)
      λ _.
        if-cases P (has_spender (trim_space a.to_address) e.by_spender) _ _ (λ _. h)
          λ _. if-cases P (leb l.max_spenders (length e.by_spender)) _ _ (λ _. h) (λ _. (refl, h))

take_approvals-Keyed :
    (l : ScanLimits) (owner : Text) (e : Enumeration) (xs : List ApprovalRecord)
    → Keyed e.by_spender
    → Keyed (take_approvals l owner e xs).by_spender
unfolding take_approvals
take_approvals-Keyed l owner e [] h = h
take_approvals-Keyed l owner e (a ∷ xs) h =
    take_approvals-Keyed l owner (take_approval l owner e a) xs (take_approval-Keyed l owner e a h)

round-Keyed :
    (l : ScanLimits) (owner : Text) (left : ℕ) (e : Enumeration) (rest : Enumeration → Enumeration)
    → Keyed e.by_spender
    → ((e' : Enumeration) → Keyed e'.by_spender → Keyed (rest e').by_spender)
    → (reply : PageReply)
    → Keyed
        (elim reply as (λ _. Enumeration) [
          | no_budget x ↦ stop_with (partial_error x upstream_budget_exhausted []) e
          | list_failed x ↦ stop_with (partial_error x approval_enumeration_failed []) e
          | listed page ↦
              let taken = take_page l owner page e in
              let marked = record taken {
                truncated = if left == 0 then true else taken.truncated;
              } in
              if length page.entries == 0 || leb page.total taken.start
              then record taken { complete = not taken.truncated }
              else rest marked
        ]).by_spender
unfolding take_page
round-Keyed l owner left e rest h next (no_budget x) = h
round-Keyed l owner left e rest h next (list_failed x) = h
round-Keyed l owner left e rest h next (listed page) =
    if-cases (λ (x : Enumeration). Keyed x.by_spender)
      (length page.entries == 0 || leb page.total (take_page l owner page e).start) _ _
      (λ _. take_approvals-Keyed l owner _ page.entries h)
      (λ _. next _ (take_approvals-Keyed l owner _ page.entries h))

enumerate_pages-Keyed :
    (l : ScanLimits) (owner : Text) (replies : ℕ → PageReply) (left : ℕ) (e : Enumeration)
    → Keyed e.by_spender
    → Keyed (enumerate_pages l owner replies left e).by_spender
unfolding enumerate_pages
enumerate_pages-Keyed l owner replies zero e h = h
enumerate_pages-Keyed l owner replies (suc left) e h =
    round-Keyed l owner left e (enumerate_pages l owner replies left) h
      (enumerate_pages-Keyed l owner replies left) (replies e.start)

enumerate-Keyed :
    (l : ScanLimits) (owner : Text) (replies : ℕ → PageReply)
    → Keyed (enumerate l owner replies).by_spender
unfolding enumerate
enumerate-Keyed l owner replies =
    let e = enumerate_pages l owner replies l.max_pages empty_enumeration in
    let h = enumerate_pages-Keyed l owner replies l.max_pages empty_enumeration tt in
    if-cases (λ (x : Enumeration). Keyed x.by_spender) e.truncated _ e (λ _. h) (λ _. h)

-- The candidate of a spender.
abbrev names_spender : Text → ApprovalRecord → Bool
names_spender spender a = text_eq (trim_space a.to_address) spender

any-has_spender :
    (spender : Text) (entries : List (Text × ApprovalRecord))
    → Keyed entries
    → has_spender spender entries ≡ true
    → any (names_spender spender) (map (λ entry. entry.1) entries) ≡ true
unfolding any has_spender
any-has_spender spender [] k h = h
any-has_spender spender ((s, a) ∷ rest) k h = elim (Bool-cases (text_eq s spender)) [
  | inl here ↦
      let e = ap (λ x. text_eq x spender) (sym k.0) ∙ here in
      ap (λ b. b || any (names_spender spender) (map (λ entry. entry.1) rest)) e
  | inr there ↦ let ih = any-has_spender spender rest k.1 in ground arith
]

-- The approval for a spender, with its allowance read.
abbrev pub reports : Text → TronApproval → Bool
reports spender a = text_eq (trim_space a.spender) spender && a.allowance_verified

verify_one-spender :
    (f : SpenderFacts) (c : ApprovalRecord) (r : AllowanceReply)
    → (verify_one f c r).spender ≡ c.to_address
unfolding verify_one unverified
verify_one-spender f c no_call = refl
verify_one-spender f c call_failed = refl
verify_one-spender f c (allowed n) = refl

any-verify_each :
    (f : SpenderFacts) (replies : ApprovalRecord → AllowanceReply) (spender : Text)
    (cs : List ApprovalRecord)
    → all_verified (verify_each f replies cs) ≡ true
    → any (names_spender spender) cs ≡ true
    → any (reports spender) (verify_each f replies cs) ≡ true
unfolding any verify_each all_verified
any-verify_each f replies spender [] v h = h
any-verify_each f replies spender (c ∷ cs) v h =
    let same = ap (λ s. text_eq (trim_space s) spender) (verify_one-spender f c (replies c)) in
    let ih = any-verify_each f replies spender cs in ground arith

success_of :
    (c v d : Bool)
    → (if c && (v && d) then check_success else check_partial) ≡ check_success
    → (c ≡ true) × (v ≡ true)
success_of true true true h = (refl, refl)
success_of true true false h = absurd (cc)
success_of true false d h = absurd (cc)
success_of false v d h = absurd (cc)

-- The approvals of a list that count are reported.
abbrev pub AllReported : ScanLimits → Text → List ApprovalRecord → CheckResponse → Type 0
AllReported l owner all r =
    All
      (λ a.
        counts_for l owner a ≡ true → any (reports (trim_space a.to_address)) r.approvals ≡ true)
      all

reported_of :
    (l : ScanLimits) (owner : Text) (f : SpenderFacts) (replies : ApprovalRecord → AllowanceReply)
    (e : Enumeration) (spender : Text)
    → Keyed e.by_spender
    → all_verified (verify_each f replies (candidates_of e)) ≡ true
    → has_spender spender e.by_spender ≡ true
    → any (reports spender) (sort_by shown_before (verify_each f replies (candidates_of e))) ≡ true
reported_of l owner f replies e spender k v h =
    let entries = map (λ (entry : Text × ApprovalRecord). entry.1) e.by_spender in
    let named =
      any-sort_by (names_spender spender)
        (λ (a b : ApprovalRecord). text_ltb a.to_address b.to_address) entries
      ∙ any-has_spender spender e.by_spender k h in
    any-sort_by (reports spender) shown_before (verify_each f replies (candidates_of e))
    ∙ any-verify_each f replies spender (candidates_of e) v named

All-reported :
    (l : ScanLimits) (owner : Text) (e : Enumeration) (r : CheckResponse)
    (all : List ApprovalRecord)
    → All
        (λ a.
          counts_for l owner a ≡ true → has_spender (trim_space a.to_address) e.by_spender ≡ true)
        all
    → ((spender : Text)
        → has_spender spender e.by_spender ≡ true
        → any (reports spender) r.approvals ≡ true)
    → AllReported l owner all r
All-reported l owner e r [] h k = tt
All-reported l owner e r (a ∷ all) h k =
    (λ c. k (trim_space a.to_address) (h.0 c), All-reported l owner e r all h.1 k)

-- What an approval that is said to be verified rests on: an allowance that the chain answered for its
-- spender, which is the one that it shows.
abbrev pub ReadFrom : (ApprovalRecord → AllowanceReply) → TronApproval → Type 0
ReadFrom replies p =
    p.allowance_verified ≡ true
    → (c : ApprovalRecord) × (n : ℕ) × (replies c ≡ allowed n)
      × (p.spender ≡ c.to_address)
      × (p.raw_allowance ≡ decimal n)
      × (p.active ≡ ltb 0 n)

verify_one-ReadFrom :
    (f : SpenderFacts) (replies : ApprovalRecord → AllowanceReply) (c : ApprovalRecord)
    (r : AllowanceReply)
    → replies c ≡ r
    → ReadFrom replies (verify_one f c r)
unfolding verify_one unverified
verify_one-ReadFrom f replies c no_call e v = absurd (cc)
verify_one-ReadFrom f replies c call_failed e v = absurd (cc)
verify_one-ReadFrom f replies c (allowed n) e v = (c, n, e, refl, refl, refl)

verify_each-ReadFrom :
    (f : SpenderFacts) (replies : ApprovalRecord → AllowanceReply) (cs : List ApprovalRecord)
    → All (ReadFrom replies) (verify_each f replies cs)
unfolding verify_each
verify_each-ReadFrom f replies [] = tt
verify_each-ReadFrom f replies (c ∷ cs) =
    (verify_one-ReadFrom f replies c (replies c) refl, verify_each-ReadFrom f replies cs)

-- When the provider answers each request that does not fail with the next part of one list, and with
-- the list's length, and the check reports success, then every approval of the list that counts has
-- its spender in the response, as verified; and each approval that the response shows as verified has
-- the amount, and the state, of an allowance that the chain answered for its spender.
pub check_success_covers :
    (l : ScanLimits) (owner : Text) (all : List ApprovalRecord) (u : Upstream)
    → 0 < l.page_size
    → Serves all l.page_size u.pages
    → (check_enabled l owner u).status ≡ check_success
    → AllReported l owner all (check_enabled l owner u)
      × All (ReadFrom u.allowance) (check_enabled l owner u).approvals
unfolding check_enabled verified_response verify_allowances
check_success_covers l owner all u pos serves =
    let e = enumerate l owner u.pages in
    if-cases
      (λ (r : CheckResponse).
        r.status ≡ check_success
        → AllReported l owner all r × All (ReadFrom u.allowance) r.approvals)
      (length (candidates_of e) == 0 && not e.complete) (failed_response e) (verified_response u e)
      (λ _ s. absurd (cc))
      λ _ s.
        let (complete, verified) = success_of e.complete _ (is_ok u.usdt_decimals) s in
        let found = enumerate_misses_none l owner all u.pages pos serves complete in
        (
          All-reported l owner e (verified_response u e) all found (λ spender h.
              reported_of l owner _ u.allowance e spender (enumerate-Keyed l owner u.pages) verified
                h),
          All-sort_by (ReadFrom u.allowance) shown_before
              (verify_each (facts_of u e) u.allowance (candidates_of e))
              (verify_each-ReadFrom (facts_of u e) u.allowance (candidates_of e)),
        )
