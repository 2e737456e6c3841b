-- ===== src/Approvals/Complete.antt =====
-- web3/internal/service/approval.go: what the enumeration finds of the provider's list of approvals.
use grpc_go_project.Prelude.{
  ℕ, zero, suc, ◌+◌, ◌≡◌, refl, sym, ap, subst, ◌∙◌, if-cases, ◌⊎◌, inl, inr, true, false, not,
  List, [], ◌∷◌, ◌++◌, length, length-append, take, drop, take-append-drop, ◌≤◌, ◌<◌, leb, All,
  arith, Bool-cases,
}
use mathlib.Core.List.{append_assoc, append-nil}
use grpc_go_project.Prelude.Text.{Text, text_eq, text_eq_refl, trim_space}
use grpc_go_project.Approvals.{ApprovalRecord, ApprovalPage}
use grpc_go_project.Approvals.Enumerate.{
  ScanLimits, PageReply, listed, Enumeration, has_spender, counts_for, take_approval,
  take_approvals, take_page,
}

-- The provider answers with consecutive parts of a list, of which it gives the length.
abbrev pub Serves : List ApprovalRecord → ℕ → (ℕ → PageReply) → Type 0
Serves all size replies =
    (start : ℕ) (page : ApprovalPage)
    → replies start ≡ listed page
    → (page.total ≡ length all) × (page.entries ≡ take size (drop start all))

-- An approval that counts has its spender among the candidates.
abbrev pub Found : ScanLimits → Text → Enumeration → ApprovalRecord → Type 0
Found l owner e a =
    counts_for l owner a ≡ true → has_spender (trim_space a.to_address) e.by_spender ≡ true

-- Everything read so far was found, or the limit on spenders was met.
abbrev pub Seen : ScanLimits → Text → Enumeration → List ApprovalRecord → Type 0
Seen l owner e xs = (e.truncated ≡ true) ⊎ All (Found l owner e) xs

Found-take_approval :
    (l : ScanLimits) (owner : Text) (e : Enumeration) (b a : ApprovalRecord)
    → Found l owner e a
    → Found l owner (take_approval l owner e b) a
unfolding take_approval has_spender
Found-take_approval l owner e b a h c =
    let P = λ (x : Enumeration). has_spender (trim_space a.to_address) x.by_spender ≡ true in
    let old = h c in
    if-cases P (not (counts_for l owner b)) _ _ (λ _. old)
      λ _.
        if-cases P (has_spender (trim_space b.to_address) e.by_spender) _ _ (λ _. old)
          λ _.
            if-cases P (leb l.max_spenders (length e.by_spender)) _ _ (λ _. old)
              λ _.
                if-cases (λ x. x ≡ true)
                  (text_eq (trim_space b.to_address) (trim_space a.to_address)) true _ (λ _. refl)
                  (λ _. old)

All-Found :
    (l : ScanLimits) (owner : Text) (e : Enumeration) (b : ApprovalRecord)
    (xs : List ApprovalRecord)
    → All (Found l owner e) xs
    → All (Found l owner (take_approval l owner e b)) xs
All-Found l owner e b [] h = tt
All-Found l owner e b (x ∷ xs) h =
    (Found-take_approval l owner e b x h.0, All-Found l owner e b xs h.1)

truncated_stays :
    (l : ScanLimits) (owner : Text) (e : Enumeration) (b : ApprovalRecord)
    → e.truncated ≡ true
    → (take_approval l owner e b).truncated ≡ true
unfolding take_approval
truncated_stays l owner e b h =
    let P = λ (x : Enumeration). x.truncated ≡ true in
    if-cases P (not (counts_for l owner b)) _ _ (λ _. h)
      λ _.
        if-cases P (has_spender (trim_space b.to_address) e.by_spender) _ _ (λ _. h)
          λ _. if-cases P (leb l.max_spenders (length e.by_spender)) _ _ (λ _. refl) (λ _. h)

-- The approval that was just read is found, or there is no room for it.
take_approval_finds :
    (l : ScanLimits) (owner : Text) (e : Enumeration) (a : ApprovalRecord)
    → ((take_approval l owner e a).truncated ≡ true) ⊎ Found l owner (take_approval l owner e a) a
unfolding take_approval has_spender
take_approval_finds l owner e a =
    let spender = trim_space a.to_address in
    let P = λ (x : Enumeration). (x.truncated ≡ true) ⊎ Found l owner x a in
    if-cases P (not (counts_for l owner a)) _ _ (λ no. inr (λ c. absurd (cc)))
      λ _.
        if-cases P (has_spender spender e.by_spender) _ _ (λ old. inr (λ _. old))
          λ _.
            if-cases P (leb l.max_spenders (length e.by_spender)) _ _ (λ _. inl refl)
              λ _. inr λ _.
                if-cases (λ x. x ≡ true) (text_eq spender spender) true _ (λ _. refl)
                  (λ no. absurd (let y = text_eq_refl spender in cc))

All-append : {A : Type 0} (P : A → Type 0) (xs ys : List A) → All P xs → All P ys → All P (xs ++ ys)
All-append P [] ys h k = k
All-append P (x ∷ xs) ys h k = (h.0, All-append P xs ys h.1 k)

Seen-take_approvals :
    (l : ScanLimits) (owner : Text) (e : Enumeration) (xs ys : List ApprovalRecord)
    → Seen l owner e xs
    → Seen l owner (take_approvals l owner e ys) (xs ++ ys)
unfolding take_approvals
Seen-take_approvals l owner e xs [] h = subst (Seen l owner e) (sym (append-nil xs)) h
Seen-take_approvals l owner e xs (y ∷ ys) h =
    subst (Seen l owner (take_approvals l owner (take_approval l owner e y) ys))
      (append_assoc xs (y ∷ []) ys)
      (Seen-take_approvals l owner (take_approval l owner e y) (xs ++ y ∷ []) ys
        (one h (take_approval_finds l owner e y)))
  where
    one :
        Seen l owner e xs
        → ((take_approval l owner e y).truncated ≡ true)
          ⊎ Found l owner (take_approval l owner e y) y
        → Seen l owner (take_approval l owner e y) (xs ++ y ∷ [])
    one (inl t) k = inl (truncated_stays l owner e y t)
    one (inr f) (inl t) = inl t
    one (inr f) (inr g) = inr (
        All-append (Found l owner (take_approval l owner e y)) xs (y ∷ [])
          (All-Found l owner e y xs f) (g, tt))

-- What the approvals of a page leave alone.
abbrev SameLoop : Enumeration → Enumeration → Type 0
SameLoop e e' = (e'.start ≡ e.start) × (e'.complete ≡ e.complete)

take_approval-SameLoop :
    (l : ScanLimits) (owner : Text) (e : Enumeration) (b : ApprovalRecord)
    → SameLoop e (take_approval l owner e b)
unfolding take_approval
take_approval-SameLoop l owner e b =
    if-cases (SameLoop e) (not (counts_for l owner b)) _ _ (λ _. (refl, refl))
      λ _.
        if-cases (SameLoop e) (has_spender (trim_space b.to_address) e.by_spender) _ _
          (λ _. (refl, refl))
          λ _.
            if-cases (SameLoop e) (leb l.max_spenders (length e.by_spender)) _ _ (λ _. (refl, refl))
              (λ _. (refl, refl))

take_approvals-SameLoop :
    (l : ScanLimits) (owner : Text) (e : Enumeration) (ys : List ApprovalRecord)
    → SameLoop e (take_approvals l owner e ys)
unfolding take_approvals
take_approvals-SameLoop l owner e [] = (refl, refl)
take_approvals-SameLoop l owner e (y ∷ ys) =
    let one = take_approval-SameLoop l owner e y in
    let rest = take_approvals-SameLoop l owner (take_approval l owner e y) ys in
    (rest.0 ∙ one.0, rest.1 ∙ one.1)

-- The loop stands behind `xs`, with `rest` to come.
pub record Reading (l : ScanLimits) (owner : Text) (all xs rest : List ApprovalRecord)
    (e : Enumeration) : Type 0 where
  pub splits : all ≡ xs ++ rest
  pub reached : e.start ≡ length xs
  pub open_still : e.complete ≡ false
  pub seen : Seen l owner e xs

pub drop-append : (xs rest : List ApprovalRecord) → drop (length xs) (xs ++ rest) ≡ rest
drop-append [] rest = refl
drop-append (x ∷ xs) rest = drop-append xs rest

pub take_none :
    (size : ℕ) (rest : List ApprovalRecord) → 0 < size → length (take size rest) ≡ 0 → rest ≡ []
take_none zero rest h e = absurd (omega arith)
take_none (suc size) [] h e = refl
take_none (suc size) (x ∷ rest) h e = absurd (omega arith)

pub no_rest : (xs rest : List ApprovalRecord) → length (xs ++ rest) ≤ length xs → rest ≡ []
no_rest xs [] h = refl
no_rest xs (x ∷ rest) h = absurd (omega (arith, length-append xs (x ∷ rest)))

pub Reading-take_page :
    (l : ScanLimits) (owner : Text) (all xs rest : List ApprovalRecord) (page : ApprovalPage)
    (e : Enumeration)
    → page.entries ≡ take l.page_size rest
    → Reading l owner all xs rest e
    → Reading l owner all (xs ++ page.entries) (drop l.page_size rest) (take_page l owner page e)
unfolding take_page
Reading-take_page l owner all xs rest page e served r =
    let same = λ (e' : Enumeration). take_approvals-SameLoop l owner e' page.entries in
    record {
      splits =
          r.splits
          ∙ ap (λ z. xs ++ z) (sym (take-append-drop l.page_size rest))
          ∙ sym (append_assoc xs (take l.page_size rest) (drop l.page_size rest))
          ∙ ap (λ z. (xs ++ z) ++ drop l.page_size rest) (sym served);
      reached =
          ap (λ n. n + length page.entries) ((same _).0 ∙ r.reached)
          ∙ sym (length-append xs page.entries);
      open_still = (same _).1 ∙ r.open_still;
      seen = Seen-take_approvals l owner _ xs page.entries r.seen;
    }

-- A complete loop has found everything.
abbrev pub AllFound : ScanLimits → Text → List ApprovalRecord → Enumeration → Type 0
AllFound l owner all e = e.complete ≡ true → (e.truncated ≡ false) × All (Found l owner e) all

pub done :
    (l : ScanLimits) (owner : Text) (all xs rest : List ApprovalRecord) (e : Enumeration)
    → Reading l owner all xs rest e
    → rest ≡ []
    → AllFound l owner all (record e { complete = not e.truncated })
done l owner all xs rest e r none_left c = all_of r.seen
  where
    whole : all ≡ xs
    whole = r.splits ∙ ap (λ z. xs ++ z) none_left ∙ append-nil xs

    open_end : e.truncated ≡ false
    open_end = elim (Bool-cases e.truncated) [ inl t ↦ absurd (cc) | inr f ↦ f ]

    all_of : Seen l owner e xs → (e.truncated ≡ false) × All (Found l owner e) all
    all_of (inl t) = absurd (let f = open_end in cc)
    all_of (inr f) = (open_end, subst (All (Found l owner e)) (sym whole) f)
