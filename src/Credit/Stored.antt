-- ===== src/Credit/Stored.antt =====
-- What the columns of app/models/credit.py keep of a session's amounts, and how a request ends
-- (app/core/database.py, `session_scope`).
use plynth.World.{World}
use plynth.Models.Credit.{CreditWallet, CreditLedger}
use plynth.Exec.{Result, ok, err}
use plynth.Prelude.{ℤ, pos, map, ◌≡◌, ◌+ℤ◌, ◌-ℤ◌}

-- What a column `Numeric(18, 4)` keeps of an amount: a parameter, since the database rounds. An
-- amount is an integer in a unit that is as fine as the amounts of the requests.
module _ (numeric : ℤ → ℤ) where
  abbrev pub stored_wallet : CreditWallet → CreditWallet
  stored_wallet x = record x { balance = numeric x.balance }

  abbrev pub stored_entry : CreditLedger → CreditLedger
  stored_entry e = record e { amount = numeric e.amount; balance_after = numeric e.balance_after }

  -- The tables as the next session reads them
  unfoldable pub stored : World → World
  stored w = record w { wallets = map stored_wallet w.wallets; ledger = map stored_entry w.ledger }

  -- A session commits if the request returns, and rolls back if it raises.
  unfoldable pub settle : {A : Type 0} → World → Result A × World → World
  settle w (ok a, w') = stored w'
  settle w (err e, w') = w

  -- The amount is kept as it is: it has at most four digits after the point.
  abbrev pub IsScaled : ℤ → Type 0
  IsScaled a = numeric a ≡ a

  -- What is assumed of the rounding: sums and differences of amounts of four digits are kept.
  pub record IsRounding : Type 0 where
    pub zero_scaled : IsScaled (pos 0)
    pub add_scaled : (a b : ℤ) → IsScaled a → IsScaled b → IsScaled (a +ℤ b)
    pub sub_scaled : (a b : ℤ) → IsScaled a → IsScaled b → IsScaled (a -ℤ b)
