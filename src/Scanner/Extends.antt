-- ===== src/Scanner/Extends.antt =====
-- What every step of a block's scan leaves alone: the cursor, the wallets, and each stored row that it
-- does not write anew.
use grpc_go_project.Prelude.{
  ℕ, ◌≡◌, refl, ◌∙◌, Bool, true, false, ◌&&◌, Option, none, some, ◌⊎◌, List, [], ◌∷◌, ◌==◌, arith,
  Bool-cases, inl, inr, if◌then◌else◌,
}
use grpc_go_project.Prelude.Int.{ℤ, eqb_ℤ}
use grpc_go_project.Prelude.Result.{Result, ok, err}
use grpc_go_project.Scanner.World.{
  WalletTransaction, ChainEventReceipt, ScanError, World, Scan, pure, raise, lift, bind_at, ◌>>=◌,
  ◌>>◌, for_each,
}
use grpc_go_project.Scanner.Store.{
  statement, get_cursor, with_default_index, upsert_row, upsert, find_by_chain_address,
  list_active_by_chain, create_event_if_absent, mark_event_processed, mark_event_failed,
  has_receipt,
}

-- The row that is stored for this wallet, chain, transaction and event index.
unfoldable pub row_at : List WalletTransaction → ℕ → ℕ → ℕ → ℤ → Option WalletTransaction
row_at [] wallet chain hash index = none
row_at (u ∷ us) wallet chain hash index =
    if u.wallet_id == wallet
      && u.chain_id == chain
      && u.transaction_hash == hash
      && eqb_ℤ u.event_index index
    then some u
    else row_at us wallet chain hash index

-- A row with the property `W` is stored under the key.
abbrev pub RowWith : (WalletTransaction → Type 0) → List WalletTransaction → ℕ → ℕ → ℕ → ℤ → Type 0
RowWith W rows wallet chain hash index =
    (r : WalletTransaction) × (row_at rows wallet chain hash index ≡ some r)
    × (r.transaction_hash ≡ hash)
    × (r.event_index ≡ index)
    × W r

-- The cursor and the wallets stay, and under each key the row that is stored, if there is one, stays as
-- it is or is written anew, by a row with the property `W`.
pub record Extends (W : WalletTransaction → Type 0) (w w' : World) : Type 0 where
  pub same_cursor : w'.cursor ≡ w.cursor
  pub same_wallets : w'.wallets ≡ w.wallets
  pub keeps :
      (wallet chain hash : ℕ) (index : ℤ)
      → (row_at w'.stored wallet chain hash index ≡ row_at w.stored wallet chain hash index)
        ⊎ RowWith W w'.stored wallet chain hash index

pub Extends-refl : {W : WalletTransaction → Type 0} (w : World) → Extends W w w
Extends-refl w = record {
  same_cursor = refl;
  same_wallets = refl;
  keeps = λ wallet chain hash index. inl refl;
}

-- A row with the property stays one through the steps that follow.
pub RowWith-Extends :
    {W : WalletTransaction → Type 0} {v w : World}
    → Extends W v w
    → (wallet chain hash : ℕ) (index : ℤ) → RowWith W v.stored wallet chain hash index
    → RowWith W w.stored wallet chain hash index
RowWith-Extends b wallet chain hash index (r, here, key, at_index, h) =
    elim (b.keeps wallet chain hash index) [
      | inl same ↦ (r, same ∙ here, key, at_index, h)
      | inr anew ↦ anew
    ]

pub Extends-trans :
    {W : WalletTransaction → Type 0} {u v w : World} → Extends W u v → Extends W v w → Extends W u w
Extends-trans a b = record {
  same_cursor = b.same_cursor ∙ a.same_cursor;
  same_wallets = b.same_wallets ∙ a.same_wallets;
  keeps = λ wallet chain hash index. elim (b.keeps wallet chain hash index) [
    | inr anew ↦ inr anew
    | inl same ↦ elim (a.keeps wallet chain hash index) [
      | inl before ↦ inl (same ∙ before)
      | inr (r, here, key, at_index, h) ↦ inr (r, same ∙ here, key, at_index, h)
    ]
  ];
}

-- A step that extends every world.
pub record Extending (W : WalletTransaction → Type 0) {A : Type 0} (m : Scan A) : Type 0 where
  pub at : (w : World) → Extends W w (m w).1

pub row_at-upsert_row :
    (t : WalletTransaction) (rows : List WalletTransaction)
    → row_at (upsert_row t rows) t.wallet_id t.chain_id t.transaction_hash t.event_index ≡ some t
unfolding row_at upsert_row
row_at-upsert_row t [] = ground arith
row_at-upsert_row t (u ∷ us) = ground (arith, row_at-upsert_row t us)

-- Under each key, a write keeps the row, or its own row stands there.
pub upsert_row_keeps :
    (t : WalletTransaction) (wallet chain hash : ℕ) (index : ℤ) (rows : List WalletTransaction)
    → (row_at (upsert_row t rows) wallet chain hash index ≡ row_at rows wallet chain hash index)
      ⊎ ((row_at (upsert_row t rows) wallet chain hash index ≡ some t)
          × (t.transaction_hash ≡ hash)
          × (t.event_index ≡ index))
unfolding row_at upsert_row
upsert_row_keeps t wallet chain hash index [] = ground arith
upsert_row_keeps t wallet chain hash index (u ∷ us) =
    let ih = upsert_row_keeps t wallet chain hash index us in ground arith

pub Extending-pure : {W : WalletTransaction → Type 0} {A : Type 0} (a : A) → Extending W (pure a)
Extending-pure a = record { at = λ w. Extends-refl w }

pub Extending-raise :
    {W : WalletTransaction → Type 0} {A : Type 0} (e : ScanError) → Extending W (raise {A = A} e)
Extending-raise e = record { at = λ w. Extends-refl w }

pub Extending-lift :
    {W : WalletTransaction → Type 0} {A : Type 0} (r : Result ScanError A) → Extending W (lift r)
Extending-lift r = record { at = λ w. Extends-refl w }

bind_at-Extends :
    {W : WalletTransaction → Type 0} {A B : Type 0} (w : World) (r : Result ScanError A) (v : World)
    (f : A → Scan B)
    → Extends W w v
    → ((a : A) → Extending W (f a))
    → Extends W w (bind_at (r, v) f).1
bind_at-Extends w (ok a) v f e h = Extends-trans e ((h a).at v)
bind_at-Extends w (err x) v f e h = e

pub Extending-bind :
    {W : WalletTransaction → Type 0} {A B : Type 0} (m : Scan A) (f : A → Scan B)
    → Extending W m
    → ((a : A) → Extending W (f a))
    → Extending W (m >>= f)
Extending-bind m f hm hf = record { at = λ w. bind_at-Extends w (m w).0 (m w).1 f (hm.at w) hf }

-- What holds of the value that a step returns, if it returns one.
abbrev pub Returns : {A : Type 0} → (A → Type 0) → Result ScanError A → Type 0
Returns P (ok a) = P a
Returns P (err e) = Unit

pub Returns-self : {A : Type 0} (r : Result ScanError A) → Returns (λ a. r ≡ ok a) r
Returns-self (ok a) = refl
Returns-self (err e) = tt

bind_on-Extends :
    {W : WalletTransaction → Type 0} {A B : Type 0} (P : A → Type 0) (w : World)
    (r : Result ScanError A) (v : World) (f : A → Scan B)
    → Extends W w v
    → Returns P r
    → ((a : A) → P a → Extending W (f a))
    → Extends W w (bind_at (r, v) f).1
bind_on-Extends P w (ok a) v f e p h = Extends-trans e ((h a p).at v)
bind_on-Extends P w (err x) v f e p h = e

pub Extending-bind_on :
    {W : WalletTransaction → Type 0} {A B : Type 0} (P : A → Type 0) (m : Scan A) (f : A → Scan B)
    → Extending W m
    → ((w : World) → Returns P (m w).0)
    → ((a : A) → P a → Extending W (f a))
    → Extending W (m >>= f)
Extending-bind_on P m f hm hp hf = record {
  at = λ w. bind_on-Extends P w (m w).0 (m w).1 f (hm.at w) (hp w) hf;
}

pub Extending-then :
    {W : WalletTransaction → Type 0} {B : Type 0} (m : Scan (Unit {0})) (k : Scan B)
    → Extending W m
    → Extending W k
    → Extending W (m >> k)
Extending-then m k hm hk = record {
  at = λ w. bind_at-Extends w (m w).0 (m w).1 (λ _. k) (hm.at w) (λ _. hk);
}

pub Extending-for_each :
    {W : WalletTransaction → Type 0} {A : Type 0} (step : A → Scan (Unit {0})) (xs : List A)
    → ((x : A) → Extending W (step x))
    → Extending W (for_each step xs)
unfolding for_each
Extending-for_each step [] h = Extending-pure tt
Extending-for_each step (x ∷ xs) h =
    Extending-then (step x) (for_each step xs) (h x) (Extending-for_each step xs h)

-- An element of a list.
abbrev pub IsIn : {A : Type 0} → A → List A → Type 0
IsIn a [] = ⊥
IsIn a (x ∷ xs) = (a ≡ x) ⊎ IsIn a xs

pub for_each_in-Extending :
    {W : WalletTransaction → Type 0} {A : Type 0} (step : A → Scan (Unit {0})) (xs : List A)
    → ((x : A) → IsIn x xs → Extending W (step x))
    → Extending W (for_each step xs)
unfolding for_each
for_each_in-Extending step [] h = Extending-pure tt
for_each_in-Extending step (x ∷ xs) h =
    Extending-then (step x) (for_each step xs) (h x (inl refl))
      (for_each_in-Extending step xs (λ y i. h y (inr i)))

fault-Extends :
    {W : WalletTransaction → Type 0} (faults : List Bool) (w : World)
    → Extends W w (record w { faults = faults })
fault-Extends faults w = record {
  same_cursor = refl;
  same_wallets = refl;
  keeps = λ wallet chain hash index. inl refl;
}

statement_at :
    {W : WalletTransaction → Type 0} {A : Type 0} (run : World → Result ScanError A × World)
    (faults : List Bool) (w : World)
    → ((v : World) → Extends W v (run v).1)
    → Extends W w (statement run (record w { faults = faults })).1
statement_at run [] w h = Extends-trans (fault-Extends [] w) (h (record w { faults = [] }))
statement_at run (true ∷ rest) w h = fault-Extends rest w
statement_at run (false ∷ rest) w h =
    Extends-trans (fault-Extends rest w) (h (record w { faults = rest }))

Extending-statement :
    {W : WalletTransaction → Type 0} {A : Type 0} (run : World → Result ScanError A × World)
    → ((v : World) → Extends W v (run v).1)
    → Extending W (statement run)
Extending-statement run h = record { at = λ w. statement_at run w.faults w h }

pub get_cursor-Extending : {W : WalletTransaction → Type 0} → Extending W get_cursor
unfolding get_cursor
get_cursor-Extending = Extending-statement _ (λ w. Extends-refl w)

pub find_by_chain_address-Extending :
    {W : WalletTransaction → Type 0} (c a : ℕ) → Extending W (find_by_chain_address c a)
unfolding find_by_chain_address
find_by_chain_address-Extending c a = Extending-statement _ (λ w. Extends-refl w)

pub list_active_by_chain-Extending :
    {W : WalletTransaction → Type 0} (c : ℕ) → Extending W (list_active_by_chain c)
unfolding list_active_by_chain
list_active_by_chain-Extending c = Extending-statement _ (λ w. Extends-refl w)

pub upsert-Extending :
    {W : WalletTransaction → Type 0} (t : WalletTransaction)
    → W (with_default_index t)
    → Extending W (upsert t)
unfolding upsert
upsert-Extending t h = Extending-statement _ λ w. record {
  same_cursor = refl;
  same_wallets = refl;
  keeps = λ wallet chain hash index.
      elim (upsert_row_keeps (with_default_index t) wallet chain hash index w.stored) [
        | inl same ↦ inl same
        | inr (here, key, at_index) ↦ inr (with_default_index t, here, key, at_index, h)
      ];
}

events_only :
    {W : WalletTransaction → Type 0} (w : World) (events : List ChainEventReceipt)
    → Extends W w (record w { events = events })
events_only w events = record {
  same_cursor = refl;
  same_wallets = refl;
  keeps = λ wallet chain hash index. inl refl;
}

pub create_event_if_absent-Extending :
    {W : WalletTransaction → Type 0} (e : ChainEventReceipt)
    → Extending W (create_event_if_absent e)
unfolding create_event_if_absent
create_event_if_absent-Extending e = Extending-statement _ λ w.
    elim (Bool-cases (has_receipt e w.events)) [
      | inl old ↦ rw old (Extends-refl w)
      | inr new ↦ rw new (events_only w _)
    ]

pub mark_event_processed-Extending :
    {W : WalletTransaction → Type 0} (e : ChainEventReceipt) → Extending W (mark_event_processed e)
unfolding mark_event_processed
mark_event_processed-Extending e = Extending-statement _ λ w.
    elim (Bool-cases (has_receipt e w.events)) [
      | inl old ↦ rw old (events_only w _)
      | inr new ↦ rw new (Extends-refl w)
    ]

pub mark_event_failed-Extending :
    {W : WalletTransaction → Type 0} (e : ChainEventReceipt) → Extending W (mark_event_failed e)
unfolding mark_event_failed
mark_event_failed-Extending e = Extending-statement _ λ w.
    elim (Bool-cases (has_receipt e w.events)) [
      | inl old ↦ rw old (events_only w _)
      | inr new ↦ rw new (Extends-refl w)
    ]
