-- ===== src/Credit/Periods.antt =====
-- The credits of a plan are granted once for each reference (app/services/credit.py,
use plynth.Credit.Frame.{grant_features-OnlyCredits}
use text.Mathlib.TextLemmas.{append-ne-nil_of_right_ne-nil, cons≢nil, cons-append}
-- `grant_plan_credits`).
use plynth.Credit.Ledger.{
  IsReconciled, get_or_create-found, get_or_create-IsReconciled, grant_amount-IsReconciled,
}
use plynth.Exec.{ok, resume}
use plynth.Credit.Replay.{IsPosted, grant_replay, grant-IsPosted}
use plynth.Models.Credit.{CreditWallet, CreditEntryType}
use plynth.Models.Plan.{PlanFeature, Plan}
use plynth.World.{World}
use plynth.Credit.{
  grant_features, grant_amount, credit_due, ok, post, is_replay, was_referenced, is_wallet,
  get_or_create_wallet, grant, grant_plan_credits, plan_features_of,
}
use plynth.Prelude.{
  ℕ, String, is_text, ◌<>◌, ℤ, ◌≡◌, List, true, All, some, ◌∷◌, Option-cases, inl, inr, [], refl,
  Option, find?, if◌then◌else◌, ◌==◌, Distinct-find, find?-save_any, Bool-cases, none, arith, subst,
  eq_iff, sym, str_eq, ◌∙◌, ◌+ℤ◌, All-map, ◌≢◌, ap,
}

-- Each feature with credits is posted under the period's reference.
abbrev pub IsGranted : ℕ → String → World → PlanFeature → Type 0
IsGranted t ref w f =
    (a : ℤ)
    → credit_due f ≡ some a
    → (x : CreditWallet) × IsPosted t f.feature_key (ref <> ":" <> f.feature_key) x w

is_text_of_ne : (s : String) → s ≢ "" → is_text s ≡ true
is_text_of_ne s ne = elim (Bool-cases (str_eq s "")) [
  | inl empty ↦ absurd (ne ((eq_iff s "").0 empty))
  | inr full ↦ rw full
]

reference_text : (ref k : String) → is_text (ref <> ":" <> k) ≡ true
reference_text ref k =
    is_text_of_ne (ref <> ":" <> k)
      (append-ne-nil_of_right_ne-nil ref (λ e. cons≢nil (sym (cons-append _ String.[] k) ∙ e)))

grant_features_again :
    (t p : ℕ) (plan : Plan) (ref : String) (fs : List PlanFeature) (w : World)
    → All (IsGranted t ref w) fs
    → grant_features t p plan ref fs w ≡ (ok tt, w)
unfolding grant_features grant_amount
grant_features_again t p plan ref [] w h = refl
grant_features_again t p plan ref (f ∷ fs) w h = elim (Option-cases (credit_due f)) [
  | inl nothing ↦ rw nothing (grant_features_again t p plan ref fs w h.1)
  | inr (a, due) ↦
      let (x, posted) = h.0 a due in
      rw due (
        rw (grant_replay t p f.feature_key a _ _ CreditEntryType.grant x w posted)
          (grant_features_again t p plan ref fs w h.1))
]

written_id : (x y : CreditWallet) → (if x.id == y.id then y else x).id ≡ x.id
written_id x y = elim (Bool-cases (x.id == y.id)) [ inl eq ↦ rw eq (ground arith) | inr ne ↦ rw ne ]

post-is_replay :
    (t p i : ℕ) (r : String) (ty : CreditEntryType) (a : ℤ) (reason ref : Option String)
    (y : CreditWallet) (w : World)
    → is_replay i (some r) w ≡ true
    → is_replay i (some r) (post t p y ty a reason ref w).1 ≡ true
unfolding post is_replay was_referenced
post-is_replay t p i r ty a reason ref y w h = ground arith

-- A posting for any feature keeps what is posted.
post-keeps-IsPosted :
    (t p : ℕ) (k k₂ : String) (r : String) (ty : CreditEntryType) (a : ℤ)
    (reason ref : Option String) (x y y' : CreditWallet) (w : World)
    → IsReconciled w
    → find? (is_wallet t k₂) w.wallets ≡ some y
    → y'.id ≡ y.id
    → is_wallet t k y' ≡ is_wallet t k y
    → IsPosted t k r x w
    → (z : CreditWallet) × IsPosted t k r z (post t p y' ty a reason ref w).1
unfolding post
post-keeps-IsPosted t p k k₂ r ty a reason ref x y y' w h found same_id same_key (e, posted) = (
  if x.id == y'.id then y' else x,
  (
    find?-save_any (λ v. v.id) (is_wallet t k) y y' w.wallets x
        (Distinct-find (λ v. v.id) (is_wallet t k₂) w.wallets y h.distinct found) same_id same_key
        e,
    subst (λ i. is_replay i (some r) (post t p y' ty a reason ref w).1 ≡ true)
        (sym (written_id x y')) (post-is_replay t p x.id r ty a reason ref y' w posted),
  ),
)

create-keeps-IsPosted :
    (t p : ℕ) (k k₂ r : String) (x : CreditWallet) (w : World)
    → IsPosted t k r x w
    → IsPosted t k r x (get_or_create_wallet t p k₂ w).1
unfolding get_or_create_wallet is_replay was_referenced
create-keeps-IsPosted t p k k₂ r x w (e, posted) =
    elim (Option-cases (find? (is_wallet t k₂) w.wallets)) [
      | inl new ↦
          rw (new, get_or_create_wallet)
            (elim (Bool-cases (str_eq k₂ k)) [
              | inl same ↦ absurd (some_ne_none (sym new ∙ rw ((eq_iff k₂ k).0 same) e))
              | inr other ↦ (ground arith, posted)
            ])
      | inr (y, found) ↦ rw (found, get_or_create_wallet) (e, posted)
    ]
  where
    some_ne_none : ◌≡◌ {A = Option CreditWallet} none (some x) → ⊥
    some_ne_none h = cc

grant-keeps-IsPosted :
    (t p : ℕ) (k k₂ r : String) (ty : CreditEntryType) (a : ℤ) (reason ref : Option String)
    (x : CreditWallet) (w : World)
    → IsReconciled w
    → IsPosted t k r x w
    → (z : CreditWallet) × IsPosted t k r z (grant t p k₂ a reason ref ty w).1
unfolding grant
grant-keeps-IsPosted t p k k₂ r ty a reason ref x w h posted =
    let (y, res, e) = get_or_create-found t p k₂ w in
    let w' = (get_or_create_wallet t p k₂ w).1 in
    let posted' = create-keeps-IsPosted t p k k₂ r x w posted in
    rw (res, resume)
      (elim (Bool-cases (is_replay y.id ref w')) [
        | inl again ↦ rw again (x, posted')
        | inr fresh ↦ rw fresh (
            post-keeps-IsPosted t p k k₂ r ty a reason ref x y
              (record y { balance = y.balance +ℤ a }) w' (get_or_create-IsReconciled t p k₂ w h) e
              refl refl posted')
      ])

grant_amount-keeps-IsGranted :
    (t p : ℕ) (plan : Plan) (ref k : String) (o : Option ℤ) (f : PlanFeature) (w : World)
    → IsReconciled w
    → IsGranted t ref w f
    → IsGranted t ref (grant_amount t p plan ref k o w).1 f
unfolding grant_amount
grant_amount-keeps-IsGranted t p plan ref k none f w h g = g
grant_amount-keeps-IsGranted t p plan ref k (some a) f w h g = λ b due.
    let (x, posted) = g b due in
    let (y, res, _) =
      grant-IsPosted t p k a (some ("plan:" <> plan.code)) (ref <> ":" <> k) CreditEntryType.grant w
        (reference_text ref k) in
    rw (res, resume)
      (grant-keeps-IsPosted t p f.feature_key k _ CreditEntryType.grant a _ _ x w h posted)

-- The step for a feature grants it and returns.
grant_amount-grants :
    (t p : ℕ) (plan : Plan) (ref : String) (f : PlanFeature) (w : World)
    → ((grant_amount t p plan ref f.feature_key (credit_due f) w).0 ≡ ok tt)
      × IsGranted t ref (grant_amount t p plan ref f.feature_key (credit_due f) w).1 f
unfolding grant_amount
grant_amount-grants t p plan ref f w = elim (Option-cases (credit_due f)) [
  | inl nothing ↦ rw nothing (refl, λ a due. ground arith)
  | inr (a, due) ↦
      let (y, res, posted) =
        grant-IsPosted t p f.feature_key a (some ("plan:" <> plan.code))
          (ref <> ":" <> f.feature_key) CreditEntryType.grant w
          (reference_text ref f.feature_key) in
      rw due (rw (res, resume) (refl, λ _ _. (y, posted)))
]

-- The loop grants every feature, and keeps what was granted before.
grant_features-grants :
    (t p : ℕ) (plan : Plan) (ref : String) (before fs : List PlanFeature) (w : World)
    → IsReconciled w
    → All (IsGranted t ref w) before
    → ((grant_features t p plan ref fs w).0 ≡ ok tt)
      × All (IsGranted t ref (grant_features t p plan ref fs w).1) before
      × All (IsGranted t ref (grant_features t p plan ref fs w).1) fs
unfolding grant_features
grant_features-grants t p plan ref before [] w h g = (refl, g, tt)
grant_features-grants t p plan ref before (f ∷ fs) w h g =
    let (res, granted) = grant_amount-grants t p plan ref f w in
    let w' = (grant_amount t p plan ref f.feature_key (credit_due f) w).1 in
    let h' = grant_amount-IsReconciled t p plan ref f.feature_key (credit_due f) w h in
    let g' =
      All-map (IsGranted t ref w) (IsGranted t ref w') before
        (λ b. grant_amount-keeps-IsGranted t p plan ref f.feature_key (credit_due f) b w h) g in
    let (done, kept, rest) =
      grant_features-grants t p plan ref (f ∷ before) fs w' h' (granted, g') in
    subst
      (λ s. (s.0 ≡ ok tt) × All (IsGranted t ref s.1) before × All (IsGranted t ref s.1) (f ∷ fs))
      (sym step) (done, kept.1, (kept.0, rest))
  where
    step :
        grant_features t p plan ref (f ∷ fs) w
        ≡ grant_features t p plan ref fs
            (grant_amount t p plan ref f.feature_key (credit_due f) w).1
    step = rw ((grant_amount-grants t p plan ref f w).0, resume)

-- The plan's features are the same after the grants.
features_same :
    (t p : ℕ) (plan : Plan) (ref : String) (fs : List PlanFeature) (w : World)
    → plan_features_of plan (grant_features t p plan ref fs w).1 ≡ plan_features_of plan w
unfolding plan_features_of
features_same t p plan ref fs w =
    ap (plan_features_of plan) (grant_features-OnlyCredits w t p plan ref fs w refl)

-- From a reconciled state, a plan's credits granted a second time under the same reference are not
-- granted again: the first call returns, and the second returns and changes nothing.
pub grant_plan_credits_twice :
    (t p : ℕ) (plan : Plan) (ref : String) (w : World)
    → IsReconciled w
    → ((grant_plan_credits t p plan ref w).0 ≡ ok tt)
      × (grant_plan_credits t p plan ref (grant_plan_credits t p plan ref w).1
          ≡ (ok tt, (grant_plan_credits t p plan ref w).1))
unfolding grant_plan_credits
grant_plan_credits_twice t p plan ref w h =
    let fs = plan_features_of plan w in
    let w' = (grant_features t p plan ref fs w).1 in
    let (done, _, granted) = grant_features-grants t p plan ref [] fs w h tt in
    (done, rw (features_same t p plan ref fs w) (grant_features_again t p plan ref fs w' granted))
