-- ===== src/Tests/Wallets.antt =====
-- Runs of the credit wallets.
use plynth.Credit.Scaled.{Scaled}
use plynth.Credit.Periods.{grant_plan_credits_twice}
use plynth.Credit.Debit.{consume_error, consume-balance}
use plynth.Credit.Replay.{consume_twice}
use plynth.Samples.{funded, ai_wallet, pro_plan}
use plynth.Models.Credit.{CreditWallet}
use plynth.Credit.{
  consume, is_replay, grant_plan_credits, lock_wallet, was_referenced, debit_wallet, post,
  is_wallet,
}
use plynth.Credit.Ledger.{IsReconciled}
use plynth.Credit.Stored.{IsRounding, settle, stored}
use plynth.Credit.Session.{perform, perform_all, Call, perform_all-IsReconciled, IsScaledCall}
use Prim.Native.Nat.{◌/◌, ◌%◌}
use plynth.Exec.{ok, err, insufficient_credits}
use plynth.Prelude.{
  ℕ, suc, ◌+◌, ◌*◌, ℤ, pos_part, neg_part, negsuc, ◌⊎◌, inl, inr, List, All, ap, map, +ℤ_parts,
  -ℤ_parts, eq_of_parts, [], ◌∷◌, some, none, false, refl, ◌≡◌, pos, arith, ◌-ℤ◌, ◌≤ℤ◌, find?, ◌+ℤ◌,
  ltb_ℤ, leb_ℤ,
}

ai_sum : pos 10000 ≡ pos 10000 +ℤ pos 0
unfolding ◌+ℤ◌
ai_sum = refl

funded-IsReconciled : IsReconciled funded
funded-IsReconciled = record {
  unique = λ i j h. ground arith;
  balances = (ai_sum, tt);
  issued = ((0, omega arith, refl), tt);
  distinct = (tt, tt);
  entries_issued = ((0, omega arith, refl), tt);
}

-- Rounding half away from zero to hundreds, where the amounts are in millionths
abbrev hundreds : ℕ → ℕ
hundreds n = (n + 50) / 100 * 100

unfoldable rounded : ℤ → ℤ
rounded (pos n) = pos (hundreds n)
rounded (negsuc n) = pos 0 -ℤ pos (hundreds (suc n))

rounded_parts : (z : ℤ) → rounded z ≡ z → (pos_part z % 100 ≡ 0) × (neg_part z % 100 ≡ 0)
unfolding rounded
rounded_parts (pos n) h = omega (arith, ap pos_part h)
rounded_parts (negsuc n) h =
    let h' : pos 0 -ℤ pos (hundreds (suc n)) ≡ negsuc n = h in
    omega (arith, ap neg_part h', ap pos_part h', -ℤ_parts (pos 0) (pos (hundreds (suc n))))

parts_rounded : (z : ℤ) → pos_part z % 100 ≡ 0 → neg_part z % 100 ≡ 0 → rounded z ≡ z
unfolding rounded
parts_rounded (pos n) h k = ap pos (omega arith)
parts_rounded (negsuc n) h k =
    eq_of_parts (pos 0 -ℤ pos (hundreds (suc n))) (negsuc n)
      (omega (arith, -ℤ_parts (pos 0) (pos (hundreds (suc n)))))

disjoint_parts : (z : ℤ) → (pos_part z ≡ 0) ⊎ (neg_part z ≡ 0)
disjoint_parts (pos n) = inr refl
disjoint_parts (negsuc n) = inl refl

rounded-add : (a b : ℤ) → rounded a ≡ a → rounded b ≡ b → rounded (a +ℤ b) ≡ a +ℤ b
rounded-add a b h k =
    let (a1, a2) = rounded_parts a h in
    let (b1, b2) = rounded_parts b k in
    elim (disjoint_parts (a +ℤ b)) [
      | inl e ↦ parts_rounded (a +ℤ b) (omega (arith, e)) (omega (arith, e, +ℤ_parts a b))
      | inr e ↦ parts_rounded (a +ℤ b) (omega (arith, e, +ℤ_parts a b)) (omega (arith, e))
    ]

rounded-sub : (a b : ℤ) → rounded a ≡ a → rounded b ≡ b → rounded (a -ℤ b) ≡ a -ℤ b
rounded-sub a b h k =
    let (a1, a2) = rounded_parts a h in
    let (b1, b2) = rounded_parts b k in
    elim (disjoint_parts (a -ℤ b)) [
      | inl e ↦ parts_rounded (a -ℤ b) (omega (arith, e)) (omega (arith, e, -ℤ_parts a b))
      | inr e ↦ parts_rounded (a -ℤ b) (omega (arith, e, -ℤ_parts a b)) (omega (arith, e))
    ]

rounded-IsRounding : IsRounding rounded
unfolding rounded
rounded-IsRounding = record {
  zero_scaled = refl;
  add_scaled = rounded-add;
  sub_scaled = rounded-sub;
}

abbrev debit_requests : List Call
debit_requests = Call.consume_call 1 9 "ai" (pos 400) none (some "r") ∷ []

four_digits : All (IsScaledCall rounded) debit_requests
unfolding rounded
four_digits = (refl, tt)

funded-Scaled : Scaled rounded funded
unfolding rounded
funded-Scaled = ((refl, tt), tt)

perform_all-IsReconciled_example : IsReconciled (perform_all rounded debit_requests funded)
perform_all-IsReconciled_example =
    perform_all-IsReconciled rounded rounded-IsRounding debit_requests funded four_digits
      funded-IsReconciled funded-Scaled

-- Half a digit of the column: the balance is kept, the entry takes a whole digit.
half_digit :
    (map
        (λ x. x.balance)
        (perform rounded (Call.consume_call 1 9 "ai" (pos 50) none none) funded).wallets
      ≡ pos 10000 ∷ [])
    × (map
          (λ e. e.amount)
          (perform rounded (Call.consume_call 1 9 "ai" (pos 50) none none) funded).ledger
        ≡ negsuc 99 ∷ pos 10000 ∷ [])
unfolding perform settle stored rounded consume lock_wallet debit_wallet is_replay was_referenced
    post ltb_ℤ leb_ℤ ◌-ℤ◌
half_digit = (refl, refl)

abbrev debited : CreditWallet
debited = record ai_wallet { balance = pos 9960 }

debit_run : (consume 1 9 "ai" (pos 40) none (some "r") funded).0 ≡ ok debited
unfolding consume lock_wallet debit_wallet is_replay was_referenced post ltb_ℤ leb_ℤ ◌-ℤ◌
debit_run = refl

amount_positive : leb_ℤ (pos 40) (pos 0) ≡ false
unfolding leb_ℤ
amount_positive = refl

consume_twice_example :
    consume 1 9 "ai" (pos 40) none (some "r") (consume 1 9 "ai" (pos 40) none (some "r") funded).1
    ≡ consume 1 9 "ai" (pos 40) none (some "r") funded
consume_twice_example =
    consume_twice 1 9 "ai" (pos 40) (pos 40) none none "r" debited funded refl amount_positive
      debit_run

not_replayed : is_replay 1 (some "r") funded ≡ false
unfolding is_replay was_referenced
not_replayed = refl

abbrev debited_400 : CreditWallet
debited_400 = record ai_wallet { balance = pos 9600 }

debit_400 : (consume 1 9 "ai" (pos 400) none (some "r") funded).0 ≡ ok debited_400
unfolding consume lock_wallet debit_wallet is_replay was_referenced post ltb_ℤ leb_ℤ ◌-ℤ◌
debit_400 = refl

consume-balance_example :
    (debited_400.balance ≡ ai_wallet.balance -ℤ pos 400)
    × (pos 0 ≤ℤ debited_400.balance)
    × (find?
          (is_wallet 1 "ai")
          (settle rounded funded (consume 1 9 "ai" (pos 400) none (some "r") funded)).wallets
        ≡ some debited_400)
consume-balance_example =
    consume-balance rounded 1 9 "ai" (pos 400) none (some "r") ai_wallet debited_400 funded
      rounded-IsRounding four_digits.0 funded-Scaled.0.0 refl not_replayed debit_400

debit_fails : (consume 1 9 "ai" (pos 10001) none none funded).0 ≡ err insufficient_credits
unfolding consume lock_wallet debit_wallet is_replay was_referenced post ltb_ℤ leb_ℤ ◌-ℤ◌
debit_fails = refl

consume_error_example : (consume 1 9 "ai" (pos 10001) none none funded).1 ≡ funded
consume_error_example =
    consume_error 1 9 "ai" (pos 10001) none none insufficient_credits funded debit_fails

grant_plan_credits_twice_example :
    ((grant_plan_credits 1 9 pro_plan "trial:1" funded).0 ≡ ok tt)
    × (grant_plan_credits 1 9 pro_plan "trial:1"
          (grant_plan_credits 1 9 pro_plan "trial:1" funded).1
        ≡ (ok tt, (grant_plan_credits 1 9 pro_plan "trial:1" funded).1))
grant_plan_credits_twice_example =
    grant_plan_credits_twice 1 9 pro_plan "trial:1" funded funded-IsReconciled
