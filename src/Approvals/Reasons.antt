-- ===== src/Approvals/Reasons.antt =====
-- web3/internal/service/approval.go: what the errors of a response say.
use grpc_go_project.Prelude.{
  ◌≡◌, refl, sym, ap, ◌∙◌, if-cases, ◌⊎◌, inl, inr, Bool, true, false, not, ◌&&◌, List, [], ◌∷◌,
  ◌++◌, arith, Bool-cases,
}
use grpc_go_project.Prelude.Text.{text_eq, text_eq_refl}
use grpc_go_project.Prelude.Result.{err}
use grpc_go_project.Approvals.{
  UpstreamError, canceled, deadline_exceeded, other_error, PartialCode, upstream_timeout,
  upstream_budget_exhausted, approval_enumeration_failed, scan_limit_reached,
  token_decimals_unavailable, allowance_unavailable, PartialError, partial_error,
}
use grpc_go_project.Prelude.Sort.{any}
use grpc_go_project.Approvals.Verify.{TronApproval, all_verified}
use grpc_go_project.Approvals.Check.{CheckResponse, Upstream, allowance_errors}

-- The codes that an enumeration which is not complete gives.
abbrev pub enumeration_code : PartialCode → Bool
enumeration_code upstream_timeout = true
enumeration_code upstream_budget_exhausted = true
enumeration_code approval_enumeration_failed = true
enumeration_code scan_limit_reached = true
enumeration_code _ = false

-- The code for decimals that could not be read, by the error that was met.
abbrev pub decimals_code : UpstreamError → PartialCode → Bool
decimals_code deadline_exceeded upstream_timeout = true
decimals_code deadline_exceeded _ = false
decimals_code _ token_decimals_unavailable = true
decimals_code _ _ = false

abbrev pub allowance_code : PartialCode → Bool
allowance_code allowance_unavailable = true
allowance_code _ = false

pub any_right :
    {A : Type 0} (p : A → Bool) (xs ys : List A) → any p ys ≡ true → any p (xs ++ ys) ≡ true
unfolding any
any_right p [] ys h = h
any_right p (x ∷ xs) ys h = let ih = any_right p xs ys h in ground arith

pub any_left :
    {A : Type 0} (p : A → Bool) (xs ys : List A) → any p xs ≡ true → any p (xs ++ ys) ≡ true
unfolding any
any_left p [] ys h = absurd (cc)
any_left p (x ∷ xs) ys h = let ih = any_left p xs ys in ground arith

pub budget_said :
    (x : UpstreamError)
    → any (λ y. enumeration_code y.code) (partial_error x upstream_budget_exhausted [] ∷ []) ≡ true
unfolding partial_error any
budget_said canceled = refl
budget_said deadline_exceeded = refl
budget_said other_error = refl

pub failure_said :
    (x : UpstreamError)
    → any (λ y. enumeration_code y.code) (partial_error x approval_enumeration_failed [] ∷ [])
      ≡ true
unfolding partial_error any
failure_said canceled = refl
failure_said deadline_exceeded = refl
failure_said other_error = refl

pub limit_said :
    any
      (λ (y : PartialError). enumeration_code y.code)
      (record { code = scan_limit_reached; retryable = false; spender = [] } ∷ [])
    ≡ true
unfolding any
limit_said = refl

pub decimals_said :
    (e : UpstreamError)
    → any (λ x. decimals_code e x.code) (partial_error e token_decimals_unavailable [] ∷ []) ≡ true
unfolding partial_error any
decimals_said canceled = refl
decimals_said deadline_exceeded = refl
decimals_said other_error = refl

pub any_unverified :
    (xs : List TronApproval)
    → all_verified xs ≡ false
    → any (λ a. not a.allowance_verified) xs ≡ true
unfolding all_verified any
any_unverified [] h = absurd (cc)
any_unverified (a ∷ xs) h = let ih = any_unverified xs in ground arith

-- An approval that is not verified, with an error for its spender.
abbrev pub unread : List PartialError → TronApproval → Bool
unread errors p =
    not p.allowance_verified
    && any (λ x. allowance_code x.code && text_eq x.spender p.spender) errors

named_error :
    (a : TronApproval) (xs : List TronApproval)
    → a.allowance_verified ≡ false
    → any (λ x. allowance_code x.code && text_eq x.spender a.spender) (allowance_errors (a ∷ xs))
      ≡ true
unfolding any allowance_errors
named_error a xs unread_one =
    if-cases (λ z. any (λ x. allowance_code x.code && text_eq x.spender a.spender) z ≡ true)
      a.allowance_verified (allowance_errors xs) _ (λ fine. absurd (cc))
      (λ _. let same = text_eq_refl a.spender in ground arith)

skipped :
    (a : TronApproval) (xs : List TronApproval)
    → a.allowance_verified ≡ true
    → allowance_errors xs ≡ allowance_errors (a ∷ xs)
unfolding allowance_errors
skipped a xs e =
    if-cases (λ z. allowance_errors xs ≡ z) a.allowance_verified (allowance_errors xs) _ (λ _. refl)
      (λ f. absurd (cc))

pub unverified_explained :
    (errors : List PartialError) (xs : List TronApproval)
    → ((p : PartialError → Bool) → any p (allowance_errors xs) ≡ true → any p errors ≡ true)
    → any (λ a. not a.allowance_verified) xs ≡ true
    → any (unread errors) xs ≡ true
unfolding any
unverified_explained errors [] sub h = absurd (cc)
unverified_explained errors (a ∷ xs) sub h = elim (Bool-cases a.allowance_verified) [
  | inl fine ↦
      let ih =
        unverified_explained errors xs (λ p k. sub p (ap (any p) (sym (skipped a xs fine)) ∙ k))
          (let g = h in ground arith) in
      ground arith
  | inr unread_one ↦
      let said =
        sub (λ x. allowance_code x.code && text_eq x.spender a.spender)
          (named_error a xs unread_one) in
      ground arith
]

-- The reasons that a response gives for not being a success: pages are missing, and an error says so;
-- the decimals could not be read, and an error says so; or an approval that it shows is not verified,
-- and an error says so of its spender.
abbrev pub Reason : Upstream → CheckResponse → Type 0
Reason u r =
    ((r.enumeration_complete ≡ false)
      × (any (λ x. enumeration_code x.code) r.partial_errors ≡ true))
    ⊎ ((e : UpstreamError) × (u.usdt_decimals ≡ err e)
        × (any (λ x. decimals_code e x.code) r.partial_errors ≡ true))
    ⊎ (any (unread r.partial_errors) r.approvals ≡ true)
