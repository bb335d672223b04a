-- ===== src/Plan.antt =====
-- app/services/plan.py: the plan catalogue of a product.
use plynth.Audit.{record_entry, event}
use plynth.Exec.{Action, or_raise, ◌>>=◌, ◌>>◌, gets, not_found, raise_if, conflict, new_id, modify}
use plynth.Models.Plan.{Plan, PlanFeature, BillingInterval}
use plynth.World.{World}
use plynth.Prelude.{
  [], ◌∷◌, some, none, true, ℕ, String, Option, Bool, ◌==◌, select, List, ℤ, ◌&&◌, find?, str_eq,
  not, map, ◌||◌, is_some, ◌++◌,
}

abbrev pub is_plan : ℕ → String → Plan → Bool
is_plan product_id code p = (p.product_id == product_id) && str_eq p.code code

-- `selectinload(Plan.features)`
unfoldable pub load_features : World → Plan → Plan
load_features w p = record p { features = select (λ f. f.plan_id == p.id) w.plan_features }

abbrev loaded : World → Option Plan → Option Plan
loaded w none = none
loaded w (some p) = some (load_features w p)

unfoldable pub get_by_code : ℕ → String → Action Plan
unfolding loaded
get_by_code product_id code w =
    or_raise (loaded w (find? (is_plan product_id code) w.plans)) not_found w

abbrev pub is_listed : ℕ → Bool → Plan → Bool
is_listed product_id only_public p =
    (p.product_id == product_id) && (p.is_active && (not only_public || p.is_public))

unfoldable pub list_plans : ℕ → Bool → Action (List Plan)
list_plans product_id only_public =
    gets (λ w. map (load_features w) (select (is_listed product_id only_public) w.plans))

-- The fields of `PlanCreate`, and of the features in it.
pub record FeatureCreate : Type 0 where
  pub feature_key : String
  pub limit_value : Option ℤ
  pub credit_amount : Option ℤ
  pub is_hard_limit : Bool

pub record PlanCreate : Type 0 where
  pub code : String
  pub name : String
  pub description : Option String
  pub price_cents : ℕ
  pub currency : String
  pub interval : BillingInterval
  pub trial_days : ℕ
  pub is_public : Bool
  pub provider_refs : List (String × String)
  pub features : List FeatureCreate

abbrev pub new_feature : ℕ → ℕ → FeatureCreate → PlanFeature
new_feature plan_id product_id f = record {
  plan_id = plan_id;
  product_id = product_id;
  feature_key = f.feature_key;
  limit_value = f.limit_value;
  credit_amount = f.credit_amount;
  is_hard_limit = f.is_hard_limit;
}

abbrev pub new_plan : ℕ → ℕ → PlanCreate → Plan
new_plan id product_id d = record {
  id = id;
  product_id = product_id;
  code = d.code;
  name = d.name;
  description = d.description;
  price_cents = d.price_cents;
  currency = d.currency;
  interval = d.interval;
  trial_days = d.trial_days;
  is_public = d.is_public;
  is_active = true;
  provider_refs = d.provider_refs;
  features = [];
}

unfoldable pub create_plan : PlanCreate → ℕ → Option ℕ → Action Plan
create_plan d product_id actor_user_id = do
  existing ← gets (λ w. find? (is_plan product_id d.code) w.plans)
  raise_if (is_some existing) conflict
  id ← new_id
  let plan = new_plan id product_id d
  modify (λ w. record w {
    plans = plan ∷ w.plans;
    plan_features = map (new_feature id product_id) d.features ++ w.plan_features;
  })
  record_entry (event "plan.create" actor_user_id "plan" id none product_id)
  gets (λ w. load_features w plan)
