-- ===== src/Approvals/Whole.antt =====
-- web3/internal/service/approval.go: a whole enumeration over a provider that serves a list.
use grpc_go_project.Prelude.{
  ℕ, zero, suc, ◌≡◌, refl, sym, ap, ◌∙◌, if-cases, inl, inr, Bool, true, false, not, ◌||◌, List, [],
  ◌++◌, length, take, drop, ◌≤◌, ◌<◌, leb, ◌==◌, All, arith, Bool-cases, if◌then◌else◌,
}
use grpc_go_project.Prelude.Text.{Text}
use grpc_go_project.Approvals.{
  ApprovalRecord, partial_error, upstream_budget_exhausted, approval_enumeration_failed,
}
use grpc_go_project.Approvals.Enumerate.{
  ScanLimits, PageReply, no_budget, list_failed, listed, Enumeration, take_page, stop_with,
  enumerate_pages, empty_enumeration, finish, enumerate,
}
use grpc_go_project.Approvals.Complete.{
  Serves, Found, Seen, Reading, drop-append, take_none, no_rest, Reading-take_page, AllFound, done,
}

marked-Reading :
    (l : ScanLimits) (owner : Text) (all xs rest : List ApprovalRecord) (e : Enumeration) (b : Bool)
    → Reading l owner all xs rest e
    → Reading l owner all xs rest (record e { truncated = if b then true else e.truncated })
marked-Reading l owner all xs rest e b r = record {
  splits = r.splits;
  reached = r.reached;
  open_still = r.open_still;
  seen = mark b r.seen;
}
  where
    mark :
        (c : Bool)
        → Seen l owner e xs
        → Seen l owner (record e { truncated = if c then true else e.truncated }) xs
    mark true h = inl refl
    mark false h = h

-- A loop that ends early is not complete.
open_end :
    (l : ScanLimits) (owner : Text) (all xs rest : List ApprovalRecord) (e : Enumeration)
    → Reading l owner all xs rest e
    → AllFound l owner all e
open_end l owner all xs rest e r c = absurd (let f = r.open_still in cc)

pages_left :
    (xs ys : List ApprovalRecord) (rest' : List ApprovalRecord) (all : List ApprovalRecord)
    (total start size : ℕ) (rest : List ApprovalRecord)
    → 0 < size
    → ys ≡ take size rest
    → rest' ≡ drop size rest
    → all ≡ (xs ++ ys) ++ rest'
    → total ≡ length all
    → start ≡ length (xs ++ ys)
    → (length ys == 0 || leb total start) ≡ true
    → rest' ≡ []
pages_left xs ys rest' all total start size rest pos served dropped splits t at h =
    elim (Bool-cases (length ys == 0)) [
      | inl empty ↦
          let none_left = take_none size rest pos (ap length (sym served) ∙ (ground arith)) in
          dropped ∙ ap (drop size) none_left ∙ drop_nil size
      | inr more ↦
          no_rest (xs ++ ys) rest'
            (let le : total ≤ start = ground arith in let n = ap length splits in omega arith)
    ]
  where
    drop_nil : (n : ℕ) → drop {A = ApprovalRecord} n [] ≡ []
    drop_nil zero = refl
    drop_nil (suc n) = refl

-- A round of the loop, given what holds of the rounds behind it.
round-AllFound :
    (l : ScanLimits) (owner : Text) (all : List ApprovalRecord) (replies : ℕ → PageReply) (left : ℕ)
    (xs rest : List ApprovalRecord) (e : Enumeration)
    → 0 < l.page_size
    → Serves all l.page_size replies
    → Reading l owner all xs rest e
    → ((ys rest' : List ApprovalRecord) (e' : Enumeration)
        → Reading l owner all ys rest' e'
        → AllFound l owner all (enumerate_pages l owner replies left e'))
    → (reply : PageReply) → replies e.start ≡ reply
    → AllFound l owner all (elim reply as (λ _. Enumeration) [
      | no_budget x ↦ stop_with (partial_error x upstream_budget_exhausted []) e
      | list_failed x ↦ stop_with (partial_error x approval_enumeration_failed []) e
      | listed page ↦
          let taken = take_page l owner page e in
          let marked = record taken { truncated = if left == 0 then true else taken.truncated } in
          if length page.entries == 0 || leb page.total taken.start
          then record taken { complete = not taken.truncated }
          else enumerate_pages l owner replies left marked
    ])
round-AllFound l owner all replies left xs rest e pos serves r next (no_budget x) h =
    λ c. absurd (let f = r.open_still in cc)
round-AllFound l owner all replies left xs rest e pos serves r next (list_failed x) h =
    λ c. absurd (let f = r.open_still in cc)
round-AllFound l owner all replies left xs rest e pos serves r next (listed page) h =
    let taken = take_page l owner page e in
    let served = serves e.start page h in
    let entries =
      served.1
      ∙ ap (take l.page_size)
          (ap (λ n. drop n all) r.reached ∙ ap (drop (length xs)) r.splits ∙ drop-append xs rest) in
    let r' = Reading-take_page l owner all xs rest page e entries r in
    if-cases (AllFound l owner all) (length page.entries == 0 || leb page.total taken.start)
      (record taken { complete = not taken.truncated })
      (enumerate_pages l owner replies left
        (record taken { truncated = if left == 0 then true else taken.truncated }))
      (λ last. done l owner all (xs ++ page.entries) (drop l.page_size rest) taken r' (
        pages_left xs page.entries (drop l.page_size rest) all page.total taken.start l.page_size
          rest pos entries refl r'.splits served.0 r'.reached last))
      (λ _. next (xs ++ page.entries) (drop l.page_size rest) _ (
        marked-Reading l owner all (xs ++ page.entries) (drop l.page_size rest) taken (left == 0)
          r'))

enumerate_pages-AllFound :
    (l : ScanLimits) (owner : Text) (all : List ApprovalRecord) (replies : ℕ → PageReply)
    → 0 < l.page_size
    → Serves all l.page_size replies
    → (left : ℕ) (xs rest : List ApprovalRecord) (e : Enumeration) → Reading l owner all xs rest e
    → AllFound l owner all (enumerate_pages l owner replies left e)
unfolding enumerate_pages
enumerate_pages-AllFound l owner all replies pos serves zero xs rest e r =
    open_end l owner all xs rest e r
enumerate_pages-AllFound l owner all replies pos serves (suc left) xs rest e r =
    round-AllFound l owner all replies left xs rest e pos serves r
      (enumerate_pages-AllFound l owner all replies pos serves left) (replies e.start) refl

finish-AllFound :
    (l : ScanLimits) (owner : Text) (all : List ApprovalRecord) (e : Enumeration)
    → AllFound l owner all e
    → (finish e).complete ≡ true
    → All (Found l owner (finish e)) all
finish-AllFound l owner all e h =
    if-cases (λ (x : Enumeration). x.complete ≡ true → All (Found l owner x) all) e.truncated _ e
      (λ _ c. absurd (cc)) (λ _ c. (h c).1)

-- When the provider answers each request that does not fail with the next part of one list, of at
-- most a page, and with the list's length, then an enumeration that says that it is complete has
-- found the spender of every approval of the list that counts: of the token, by the owner, and for a
-- spender that is not blank and not the token contract.
pub enumerate_misses_none :
    (l : ScanLimits) (owner : Text) (all : List ApprovalRecord) (replies : ℕ → PageReply)
    → 0 < l.page_size
    → Serves all l.page_size replies
    → (enumerate l owner replies).complete ≡ true
    → All (Found l owner (enumerate l owner replies)) all
unfolding enumerate
enumerate_misses_none l owner all replies pos serves =
    finish-AllFound l owner all (enumerate_pages l owner replies l.max_pages empty_enumeration) (
      enumerate_pages-AllFound l owner all replies pos serves l.max_pages [] all empty_enumeration
        (record { splits = refl; reached = refl; open_still = refl; seen = inr tt }))
