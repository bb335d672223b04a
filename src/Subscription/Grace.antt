-- ===== src/Subscription/Grace.antt =====
-- The sweep that ends grace periods (app/services/subscription.py, `suspend_if_grace_expired`).
use plynth.World.{World}
use plynth.Subscription.{suspend_all, has_lapsed, suspend_if_grace_expired}
use plynth.Models.Subscription.{Subscription, SubscriptionStatus}
use plynth.Exec.{ok, resume}
use plynth.Prelude.{
  [], ◌∷◌, true, false, inl, inr, refl, List, ℕ, save, arith, All, ◌≡◌, select, any, Bool-cases,
  All-map, ◌==◌, All-save, some, subst, ◌≢◌, true_ne_false, find?, Distinct, sym, by_id,
  if◌then◌else◌, ==_true, find?-holds, Bool, ap, find_by_id-save_self, ◌∙◌, find_by_id-save_ne,
  Distinct-find, find?-All, All-select, length, All-select_kept, none, Option, leb,
}

abbrev pub suspended_sub : Subscription → Subscription
suspended_sub s = record s { status = SubscriptionStatus.suspended }

-- What the sweep writes, on the table alone.
abbrev swept : List Subscription → List Subscription → List Subscription
swept [] subs = subs
swept (c ∷ cs) subs = swept cs (save (λ s. s.id) (suspended_sub c) subs)

suspend_all_lem :
    (cs : List Subscription) (w : World)
    → ((suspend_all cs w).0 ≡ ok tt)
      × ((suspend_all cs w).1.subscriptions ≡ swept cs w.subscriptions)
unfolding suspend_all
suspend_all_lem [] w = (refl, refl)
suspend_all_lem (c ∷ cs) w = suspend_all_lem cs _

module _ (time : ℕ) where
  -- A lapsed subscription is among those still to come.
  abbrev IsCovered : List Subscription → Subscription → Type 0
  IsCovered cs s = has_lapsed time s ≡ true → any (λ c. c.id == s.id) cs ≡ true

  IsCovered-cons :
      (c : Subscription) (cs : List Subscription) (s : Subscription)
      → IsCovered cs s
      → IsCovered (c ∷ cs) s
  IsCovered-cons c cs s h lapsed = ground (arith, h lapsed)

  select-here :
      (s : Subscription) (ss : List Subscription)
      → has_lapsed time s ≡ true
      → select (has_lapsed time) (s ∷ ss) ≡ s ∷ select (has_lapsed time) ss
  select-here s ss e = rw e refl

  select-other :
      (s : Subscription) (ss : List Subscription)
      → has_lapsed time s ≡ false
      → select (has_lapsed time) (s ∷ ss) ≡ select (has_lapsed time) ss
  select-other s ss e = rw e refl

  any_self : (s : Subscription) (cs : List Subscription) → any (λ c. c.id == s.id) (s ∷ cs) ≡ true
  any_self s cs = ground arith

  select-IsCovered :
      (subs : List Subscription) → All (IsCovered (select (has_lapsed time) subs)) subs
  select-IsCovered [] = tt
  select-IsCovered (s ∷ ss) =
      let cs = select (has_lapsed time) ss in
      elim (Bool-cases (has_lapsed time s)) [
        | inl lapsed ↦
            subst (λ v. All (IsCovered v) (s ∷ ss)) (sym (select-here s ss lapsed))
              (
                λ _. any_self s cs,
                All-map (IsCovered cs) (IsCovered (s ∷ cs)) ss (IsCovered-cons s cs)
                    (select-IsCovered ss),
              )
        | inr live ↦
            subst (λ v. All (IsCovered v) (s ∷ ss)) (sym (select-other s ss live))
              (λ lapsed. cc, select-IsCovered ss)
      ]

  suspended-IsCovered : (c : Subscription) (cs : List Subscription) → IsCovered cs (suspended_sub c)
  unfolding has_lapsed
  suspended-IsCovered c cs lapsed = cc

  IsCovered-tail :
      (c : Subscription) (cs : List Subscription) (s : Subscription)
      → IsCovered (c ∷ cs) s
      → s.id ≢ c.id
      → IsCovered cs s
  IsCovered-tail c cs s covered ne lapsed = ground (arith, covered lapsed)

  IsCovered-nil : (s : Subscription) → IsCovered [] s → has_lapsed time s ≡ false
  IsCovered-nil s covered = elim (Bool-cases (has_lapsed time s)) [
    | inl lapsed ↦ absurd (true_ne_false (sym (covered lapsed)))
    | inr live ↦ live
  ]

  swept-none_lapsed :
      (cs subs : List Subscription)
      → All (IsCovered cs) subs
      → All (λ s. has_lapsed time s ≡ false) (swept cs subs)
  swept-none_lapsed [] subs h =
      All-map (IsCovered []) (λ s. has_lapsed time s ≡ false) subs IsCovered-nil h
  swept-none_lapsed (c ∷ cs) subs h =
      swept-none_lapsed cs (save (λ s. s.id) (suspended_sub c) subs) (
        All-save (IsCovered (c ∷ cs)) (IsCovered cs) (λ s. s.id) (suspended_sub c) subs
          (IsCovered-tail c cs) (suspended-IsCovered c cs) h)

-- The row with identifier `i` after the sweep of `cs`, of which none but `s` has this identifier.
swept-find :
    (i : ℕ) (s a : Subscription) (cs subs : List Subscription)
    → All (λ c. c.id ≡ i → c ≡ s) cs
    → find? (by_id (λ r. r.id) i) subs ≡ some a
    → find? (by_id (λ r. r.id) i) (swept cs subs)
      ≡ some (if any (λ c. c.id == i) cs then suspended_sub s else a)
swept-find i s a [] subs h e = e
swept-find i s a (c ∷ cs) subs h e = elim (Bool-cases (c.id == i)) [
  | inl same ↦ rw same (
      swept-find i s (suspended_sub c) cs (save (λ r. r.id) (suspended_sub c) subs) h.1
        (find_by_id-save_self (λ r. r.id) (suspended_sub c) a i subs e (is_i same ∙ sym found_id))
      ∙ settled (h.0 (is_i same)) (any (λ r. r.id == i) cs))
  | inr other ↦ rw other (
      swept-find i s a cs (save (λ r. r.id) (suspended_sub c) subs) h.1
        (find_by_id-save_ne (λ r. r.id) (suspended_sub c) i subs (ne other) ∙ e))
]
  where
    is_i : (c.id == i) ≡ true → c.id ≡ i
    is_i same = ==_true c.id i same

    found_id : a.id ≡ i
    found_id = ==_true a.id i (find?-holds (by_id (λ r. r.id) i) subs a e)

    ne : (c.id == i) ≡ false → c.id ≢ i
    ne other = ground arith

    settled :
        c ≡ s
        → (b : Bool)
        → some (if b then suspended_sub s else suspended_sub c) ≡ some (suspended_sub s)
    settled same true = refl
    settled same false = ap (λ r. some (suspended_sub r)) same

-- A subscription is a candidate exactly when it has lapsed.
no_candidate :
    (time i : ℕ) (s : Subscription) (cs : List Subscription)
    → has_lapsed time s ≡ false
    → All (λ c. has_lapsed time c ≡ true) cs
    → All (λ c. c.id ≡ i → c ≡ s) cs
    → any (λ c. c.id == i) cs ≡ false
no_candidate time i s [] live h one = refl
no_candidate time i s (c ∷ cs) live h one = elim (Bool-cases (c.id == i)) [
  | inl same ↦
      absurd (true_ne_false (sym h.0 ∙ (ap (has_lapsed time) (one.0 (==_true c.id i same)) ∙ live)))
  | inr other ↦ rw other (no_candidate time i s cs live h.1 one.1)
]

only_one :
    (i : ℕ) (s : Subscription) (subs : List Subscription)
    → Distinct (λ r. r.id) subs
    → find? (by_id (λ r. r.id) i) subs ≡ some s
    → All (λ c. c.id ≡ i → c ≡ s) subs
only_one i s subs d e =
    let s_id = ==_true s.id i (find?-holds (by_id (λ r. r.id) i) subs s e) in
    All-map (λ c. c.id ≡ s.id → c ≡ s) (λ c. c.id ≡ i → c ≡ s) subs
      (λ c h same. h (same ∙ sym s_id)) (Distinct-find (λ r. r.id) (by_id (λ r. r.id) i) subs s d e)

candidate :
    (time i : ℕ) (s : Subscription) (subs : List Subscription)
    → Distinct (λ r. r.id) subs
    → find? (by_id (λ r. r.id) i) subs ≡ some s
    → any (λ c. c.id == i) (select (has_lapsed time) subs) ≡ has_lapsed time s
candidate time i s subs d e = elim (Bool-cases (has_lapsed time s)) [
  | inl lapsed ↦ rw lapsed (
      subst (λ v. any (λ c. c.id == v) (select (has_lapsed time) subs) ≡ true)
        (==_true s.id i (find?-holds (by_id (λ r. r.id) i) subs s e))
        (find?-All (by_id (λ r. r.id) i) (IsCovered time (select (has_lapsed time) subs)) subs s
          (select-IsCovered time subs) e lapsed))
  | inr live ↦ rw live (
      no_candidate time i s (select (has_lapsed time) subs) live (All-select (has_lapsed time) subs)
        (All-select_kept (λ c. c.id ≡ i → c ≡ s) (has_lapsed time) subs (only_one i s subs d e)))
]

swept_table :
    (w : World)
    → ((suspend_if_grace_expired w).0 ≡ ok (length (select (has_lapsed w.env.now) w.subscriptions)))
      × ((suspend_if_grace_expired w).1.subscriptions
          ≡ swept (select (has_lapsed w.env.now) w.subscriptions) w.subscriptions)
unfolding suspend_if_grace_expired
swept_table w =
    let (done, written) = suspend_all_lem (select (has_lapsed w.env.now) w.subscriptions) w in
    rw (done, resume) (refl, written)

none_lapsed :
    (w : World)
    → ((suspend_if_grace_expired w).0 ≡ ok (length (select (has_lapsed w.env.now) w.subscriptions)))
      × All (λ s. has_lapsed w.env.now s ≡ false) (suspend_if_grace_expired w).1.subscriptions
none_lapsed w = (
  (swept_table w).0,
  subst (All (λ s. has_lapsed w.env.now s ≡ false)) (sym (swept_table w).1) (
      swept-none_lapsed w.env.now (select (has_lapsed w.env.now) w.subscriptions) w.subscriptions
        (select-IsCovered w.env.now w.subscriptions)),
)

-- What the sweep makes of a subscription, by its status and the end of its grace period.
abbrev pub swept_from : ℕ → SubscriptionStatus → Option ℕ → Subscription → Subscription
swept_from time SubscriptionStatus.grace (some end) s =
    if leb end time then record s { status = SubscriptionStatus.suspended } else s
swept_from time SubscriptionStatus.grace none s = s
swept_from time _ end s = s

lapses :
    (time : ℕ) (st : SubscriptionStatus) (end : Option ℕ) (s : Subscription)
    → s.status ≡ st
    → s.grace_ends_at ≡ end
    → (if has_lapsed time s then suspended_sub s else s) ≡ swept_from time st end s
unfolding has_lapsed
lapses time SubscriptionStatus.trial end s e e' = rw e refl
lapses time SubscriptionStatus.active end s e e' = rw e refl
lapses time SubscriptionStatus.past_due end s e e' = rw e refl
lapses time SubscriptionStatus.grace none s e e' = rw (e, e') refl
lapses time SubscriptionStatus.grace (some end) s e e' = rw (e, e') refl
lapses time SubscriptionStatus.suspended end s e e' = rw e refl
lapses time SubscriptionStatus.cancelled end s e e' = rw e refl
lapses time SubscriptionStatus.expired end s e e' = rw e refl

-- In a grace period whose end is now or earlier
abbrev pub over_from : ℕ → SubscriptionStatus → Option ℕ → Bool
over_from time SubscriptionStatus.grace (some end) = leb end time
over_from time SubscriptionStatus.grace none = false
over_from time _ end = false

has_lapsed-over_from :
    (time : ℕ) (st : SubscriptionStatus) (end : Option ℕ) (s : Subscription)
    → s.status ≡ st
    → s.grace_ends_at ≡ end
    → has_lapsed time s ≡ over_from time st end
unfolding has_lapsed
has_lapsed-over_from time SubscriptionStatus.trial end s e e' = rw e refl
has_lapsed-over_from time SubscriptionStatus.active end s e e' = rw e refl
has_lapsed-over_from time SubscriptionStatus.past_due end s e e' = rw e refl
has_lapsed-over_from time SubscriptionStatus.grace none s e e' = rw (e, e') refl
has_lapsed-over_from time SubscriptionStatus.grace (some end) s e e' = rw (e, e') refl
has_lapsed-over_from time SubscriptionStatus.suspended end s e e' = rw e refl
has_lapsed-over_from time SubscriptionStatus.cancelled end s e e' = rw e refl
has_lapsed-over_from time SubscriptionStatus.expired end s e e' = rw e refl

abbrev pub is_over : ℕ → Subscription → Bool
is_over time s = over_from time s.status s.grace_ends_at

-- The sweep returns how many subscriptions were in a grace period whose end was now or earlier, and
-- after it there is none such.
pub suspend_if_grace_expired-none_lapsed :
    (w : World)
    → ((suspend_if_grace_expired w).0 ≡ ok (length (select (is_over w.env.now) w.subscriptions)))
      × All (λ s. is_over w.env.now s ≡ false) (suspend_if_grace_expired w).1.subscriptions
suspend_if_grace_expired-none_lapsed w =
    subst
      (λ p.
        ((suspend_if_grace_expired w).0 ≡ ok (length (select p w.subscriptions)))
        × All (λ s. p s ≡ false) (suspend_if_grace_expired w).1.subscriptions)
      (λ i s. has_lapsed-over_from w.env.now s.status s.grace_ends_at s refl refl i) (none_lapsed w)

-- Where identifiers are distinct, the sweep suspends a subscription in a grace period whose end is
-- now or earlier, with nothing else of it changed, and leaves any other as it was: one of another
-- status, one whose grace period ends later, and one that has no end.
pub suspend_if_grace_expired-find :
    (w : World) (s : Subscription) (i : ℕ)
    → Distinct (λ r. r.id) w.subscriptions
    → find? (by_id (λ r. r.id) i) w.subscriptions ≡ some s
    → find? (by_id (λ r. r.id) i) (suspend_if_grace_expired w).1.subscriptions
      ≡ some (swept_from w.env.now s.status s.grace_ends_at s)
suspend_if_grace_expired-find w s i d e =
    let cs = select (has_lapsed w.env.now) w.subscriptions in
    rw (swept_table w).1 (
      swept-find i s s cs w.subscriptions
        (All-select_kept (λ c. c.id ≡ i → c ≡ s) (has_lapsed w.env.now) w.subscriptions
          (only_one i s w.subscriptions d e))
        e
      ∙ ap (λ b. some (if b then suspended_sub s else s))
          (candidate w.env.now i s w.subscriptions d e)
      ∙ ap some (lapses w.env.now s.status s.grace_ends_at s refl refl))
