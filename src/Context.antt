-- ===== src/Context.antt =====
-- app/core/tenant.py: the product and tenant of the request.
use plynth.Exec.{Action, modify}
use plynth.Prelude.{true, Option, ℕ}

unfoldable pub set_current_product : Option ℕ → Action (Unit {0})
set_current_product product_id =
    modify (λ w. record w { ctx = record (w.ctx) { current_product = product_id } })

unfoldable pub set_current_tenant : Option ℕ → Action (Unit {0})
set_current_tenant tenant_id =
    modify (λ w. record w { ctx = record (w.ctx) { current_tenant = tenant_id } })

unfoldable pub set_acting_from_tenant : Option ℕ → Action (Unit {0})
set_acting_from_tenant tenant_id =
    modify (λ w. record w { ctx = record (w.ctx) { acting_from_tenant = tenant_id } })

-- `with bypass_product(): ...`: the flag is put back on a return and on an exception.
unfoldable pub bypass_product : {A : Type 0} → Action A → Action A
bypass_product m w =
    let (r, w') = m (record w { ctx = record (w.ctx) { bypass_product_var = true } }) in
    (r, record w' { ctx = record (w'.ctx) { bypass_product_var = w.ctx.bypass_product_var } })

-- `with bypass_tenant(): ...`
unfoldable pub bypass_tenant : {A : Type 0} → Action A → Action A
bypass_tenant m w =
    let (r, w') = m (record w { ctx = record (w.ctx) { bypass_tenant_var = true } }) in
    (r, record w' { ctx = record (w'.ctx) { bypass_tenant_var = w.ctx.bypass_tenant_var } })
