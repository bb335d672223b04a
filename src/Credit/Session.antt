-- ===== src/Credit/Session.antt =====
-- The ledger accounts for the stored balances, request after request (app/services/credit.py).
use plynth.Credit.Scaled.{
  HasScaled, Scaled, grant-Scaled, sum-IsScaled, consume-Scaled, sum-stored, reset-Scaled,
  plan-Scaled,
}
use plynth.Credit.Stored.{stored, settle, IsScaled, IsRounding, stored_wallet, stored_entry}
use plynth.Credit.Ledger.{
  IsReconciled, IsIssued, ledger_sum, grant-IsReconciled, consume-IsReconciled,
  reset_period-IsReconciled, grant_plan_credits-IsReconciled,
}
use plynth.Models.Plan.{Plan}
use plynth.Models.Credit.{CreditLedger, CreditWallet, CreditEntryType}
use plynth.World.{World}
use plynth.Exec.{Result, ok, err}
use plynth.Credit.{grant, consume, reset_period, grant_plan_credits}
use plynth.Prelude.{
  ℕ, ℤ, List, [], ◌∷◌, ◌≡◌, ◌∙◌, ◌≢◌, All, Distinct, refl, sym, ap, String, Option, map, All-map,
}

All-image {ℓ κ μ} :
    {A : Type ℓ} {B : Type κ} (P : B → Type μ) (f : A → B) (xs : List A)
    → All (λ x. P (f x)) xs
    → All P (map f xs)
All-image P f [] h = tt
All-image P f (x ∷ xs) h = (h.0, All-image P f xs h.1)

Distinct-image {ℓ} :
    {A : Type ℓ} (key : A → ℕ) (f : A → A) (xs : List A)
    → ((x : A) → key (f x) ≡ key x)
    → Distinct key xs
    → Distinct key (map f xs)
Distinct-image key f [] same d = tt
Distinct-image key f (x ∷ xs) same d = (
  All-image (λ y. key y ≢ key (f x)) f xs
      (All-map (λ y. key y ≢ key x) (λ y. key (f y) ≢ key (f x)) xs
        (λ y ne eq. ne (sym (same y) ∙ (eq ∙ same x))) d.0),
  Distinct-image key f xs same d.1,
)

-- The calls of the service that write credits.
pub data Call : Type 0 where
  grant_call : ℕ → ℕ → String → ℤ → Option String → Option String → CreditEntryType → Call
  consume_call : ℕ → ℕ → String → ℤ → Option String → Option String → Call
  reset_call : ℕ → ℕ → String → Option ℕ → Call
  plan_call : ℕ → ℕ → Plan → String → Call

module _ (numeric : ℤ → ℤ) where
  -- The amount of the call has at most four digits after the point.
  abbrev pub IsScaledCall : Call → Type 0
  IsScaledCall (grant_call t p k a reason ref ty) = IsScaled numeric a
  IsScaledCall (consume_call t p k a reason ref) = IsScaled numeric a
  IsScaledCall (reset_call t p k actor) = Unit
  IsScaledCall (plan_call t p plan ref) = All (λ f. HasScaled numeric f.credit_amount) plan.features

  -- The database after a request, which is one call in a session of its own.
  unfoldable pub perform : Call → World → World
  perform (grant_call t p k a reason ref ty) w = settle numeric w (grant t p k a reason ref ty w)
  perform (consume_call t p k a reason ref) w = settle numeric w (consume t p k a reason ref w)
  perform (reset_call t p k actor) w = settle numeric w (reset_period t p k actor w)
  perform (plan_call t p plan ref) w = settle numeric w (grant_plan_credits t p plan ref w)

  unfoldable pub perform_all : List Call → World → World
  perform_all [] w = w
  perform_all (c ∷ cs) w = perform_all cs (perform c w)

  module _ (rounding : IsRounding numeric) where
    stored-IsReconciled :
        (w : World)
        → IsReconciled w
        → Scaled numeric w
        → IsReconciled (stored numeric w) × Scaled numeric (stored numeric w)
    unfolding stored
    stored-IsReconciled w h s = (
      record {
        unique = h.unique;
        balances =
            All-image (λ x. x.balance ≡ ledger_sum x.id (map (stored_entry numeric) w.ledger))
              (stored_wallet numeric) w.wallets
              (All-map (λ x. x.balance ≡ ledger_sum x.id w.ledger) _ w.wallets
                (λ (x : CreditWallet) e.
                  ap numeric e
                  ∙ (sum-IsScaled numeric rounding x.id w.ledger s.0
                      ∙ sym (sum-stored numeric rounding x.id w.ledger s.0)))
                h.balances);
        issued = All-image (λ x. IsIssued w x.id) (stored_wallet numeric) w.wallets h.issued;
        distinct =
            Distinct-image (λ x. x.id) (stored_wallet numeric) w.wallets (λ x. refl) h.distinct;
        entries_issued =
            All-image (λ e. IsIssued w e.wallet_id) (stored_entry numeric) w.ledger
              h.entries_issued;
      },
      (
        All-image (λ e. IsScaled numeric e.amount) (stored_entry numeric) w.ledger
            (All-map (λ (e : CreditLedger). IsScaled numeric e.amount) _ w.ledger
              (λ e k. ap numeric k) s.0),
        s.1,
      ),
    )

    Good : World → Type 0
    Good w = IsReconciled w × Scaled numeric w

    settle-Good :
        {A : Type 0} (w : World) (out : Result A × World)
        → Good w
        → IsReconciled out.1
        → Scaled numeric out.1
        → Good (settle numeric w out)
    unfolding settle Good
    settle-Good w (ok a, w') g h s = stored-IsReconciled w' h s
    settle-Good w (err e, w') g h s = g

    perform-Good : (c : Call) (w : World) → IsScaledCall c → Good w → Good (perform c w)
    unfolding perform Good
    perform-Good (grant_call t p k a reason ref ty) w fine (h, s) =
        settle-Good w (grant t p k a reason ref ty w) (h, s)
          (grant-IsReconciled t p k a reason ref ty w h)
          (grant-Scaled numeric rounding t p k a reason ref ty fine w s)
    perform-Good (consume_call t p k a reason ref) w fine (h, s) =
        settle-Good w (consume t p k a reason ref w) (h, s)
          (consume-IsReconciled t p k a reason ref w h)
          (consume-Scaled numeric rounding t p k a reason ref fine w s)
    perform-Good (reset_call t p k actor) w fine (h, s) =
        settle-Good w (reset_period t p k actor w) (h, s)
          (reset_period-IsReconciled t p k actor w h)
          (reset-Scaled numeric rounding t p k actor w h s)
    perform-Good (plan_call t p plan ref) w fine (h, s) =
        settle-Good w (grant_plan_credits t p plan ref w) (h, s)
          (grant_plan_credits-IsReconciled t p plan ref w h)
          (plan-Scaled numeric rounding t p plan ref fine w s)

    -- After any sequence of requests that grant, debit, reset or grant a plan's credits, with
    -- amounts of at most four digits after the point, each stored or rolled back before the next,
    -- the stored balance of every wallet is the sum of the stored amounts of its ledger entries.
    -- It is assumed that it was so before, with entries and features of plans of four digits, that
    -- `uuid4` returns no identifier twice, and that the database keeps sums and differences of
    -- amounts of four digits.
    pub perform_all-IsReconciled :
        (cs : List Call) (w : World)
        → All IsScaledCall cs
        → IsReconciled w
        → Scaled numeric w
        → IsReconciled (perform_all cs w)
    unfolding perform_all Good
    perform_all-IsReconciled [] w fine h s = h
    perform_all-IsReconciled (c ∷ cs) w fine h s =
        let (h', s') = perform-Good c w fine.0 (h, s) in
        perform_all-IsReconciled cs (perform c w) fine.1 h' s'
