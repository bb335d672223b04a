-- ===== src/Repository/Isolation.antt =====
-- What a repository shows and stores is of the request's product and tenant
-- (app/repositories/base.py).
use plynth.World.{World}
use plynth.Repository.{
  Model, scope_filter, stmt, get, get_or_404, list, fill, add, fill_product, fill_tenant, IsModel,
}
use plynth.Exec.{ok, err, runtime_error, resume, ok-injective, Result-cases}
use plynth.Prelude.{
  some, none, true, false, inl, inr, refl, Option, ℕ, ◌≡◌, Bool, List, holds, All, ap, ◌⊎◌, ==_true,
  ◌&&◌, subst, All-map, select, and_left, and_right, All-select, [], ◌∷◌, zero, suc, drop, length,
  ◌∙◌, Option-cases, ◌≤◌, find?-All, All-take, ◌==◌, length-take_le, find?-holds, Bool-cases,
  if◌then◌else◌, not,
}

module _ {A : Type 0} (m : Model A) where
  -- A row of the request's product and tenant, both of which are set.
  abbrev pub InContext : World → A → Type 0
  InContext w a =
      (p : ℕ) × (t : ℕ) × (w.ctx.current_product ≡ some p)
      × (w.ctx.current_tenant ≡ some t)
      × (m.product_id a ≡ some p)
      × (m.tenant_id a ≡ some t)

  -- The model has both columns, and the request is in no bypass block.
  abbrev pub IsGuarded : World → Type 0
  IsGuarded w =
      (m.has_product ≡ true)
      × (m.has_tenant ≡ true)
      × (w.ctx.bypass_product_var ≡ false)
      × (w.ctx.bypass_tenant_var ≡ false)

  holds_eq : (o : Option ℕ) (i : ℕ) → holds o i ≡ true → o ≡ some i
  holds_eq none i h = cc
  holds_eq (some a) i h = ap some (==_true a i h)

  filter_cases :
      (has bypass : Bool) (current : Option ℕ)
      → has ≡ true
      → bypass ≡ false
      → (scope_filter has bypass current ≡ err runtime_error)
        ⊎ ((i : ℕ) × (current ≡ some i) × (scope_filter has bypass current ≡ ok (some i)))
  unfolding scope_filter
  filter_cases has bypass none h b = inl (rw (h, b) refl)
  filter_cases has bypass (some i) h b = inr (i, refl, rw (h, b) refl)

  stmt-InContext :
      (w : World) (xs : List A)
      → IsGuarded w
      → (stmt m w).0 ≡ ok xs
      → All (InContext w) xs × ((stmt m w).1 ≡ w)
  unfolding stmt
  stmt-InContext w xs (hp, ht, bp, bt) =
      elim (filter_cases m.has_product w.ctx.bypass_product_var w.ctx.current_product hp bp) [
        | inl raised ↦ rw (raised, resume) (λ done. cc)
        | inr (p, is_p, by_p) ↦
            rw (by_p, resume)
              (elim (filter_cases m.has_tenant w.ctx.bypass_tenant_var w.ctx.current_tenant ht bt) [
                | inl raised ↦ rw (raised, resume) (λ done. cc)
                | inr (t, is_t, by_t) ↦
                    rw (by_t, resume)
                      (λ done.
                        let test : A → Bool =
                          λ a. holds (m.product_id a) p && holds (m.tenant_id a) t in
                        (
                          subst (All (InContext w)) (ok-injective done) (
                              All-map (λ a. test a ≡ true) (InContext w) (select test (m.rows w))
                                (λ a h. (
                                  p,
                                  t,
                                  is_p,
                                  is_t,
                                  holds_eq (m.product_id a) p (and_left _ _ h),
                                  holds_eq (m.tenant_id a) t (and_right _ _ h),
                                ))
                                (All-select test (m.rows w))),
                          refl,
                        ))
              ])
      ]

  get-InContext :
      (id_ : ℕ) (o : Option A) (w : World)
      → IsGuarded w
      → (get m id_ w).0 ≡ ok o
      → ((a : A) → o ≡ some a → InContext w a × (m.id a ≡ id_)) × ((get m id_ w).1 ≡ w)
  unfolding get
  get-InContext id_ o w guard = elim (Result-cases (stmt m w).0) [
    | inr (e, raised) ↦ rw (raised, resume) (λ done. cc)
    | inl (rows, found) ↦
        rw (found, resume)
          (λ done.
            let (scoped, same) = stmt-InContext w rows guard found in
            (
              λ a e.
                  let hit = ok-injective done ∙ e in
                  (
                    find?-All (λ a. m.id a == id_) (InContext w) rows a scoped hit,
                    ==_true (m.id a) id_ (find?-holds (λ a. m.id a == id_) rows a hit),
                  ),
              same,
            ))
  ]

  -- Outside of the bypass blocks, a row that `get_or_404` returns has the identifier asked for and is
  -- of the request's product and tenant, both of which are set; and the read changes nothing.
  pub get_or_404-InContext :
      (id_ : ℕ) (a : A) (w : World)
      → IsGuarded w
      → (get_or_404 m id_ w).0 ≡ ok a
      → InContext w a × (m.id a ≡ id_) × ((get_or_404 m id_ w).1 ≡ w)
  unfolding get_or_404
  get_or_404-InContext id_ a w guard = elim (Result-cases (get m id_ w).0) [
    | inr (e, raised) ↦ rw (raised, resume) (λ done. cc)
    | inl (o, found) ↦
        rw (found, resume)
          (elim (Option-cases o) [
            | inl missing ↦ rw missing (λ done. cc)
            | inr (b, e) ↦ rw e (λ done.
                let (hit, same) = get-InContext id_ o w guard found in
                let (scoped, named) = hit a (e ∙ ap some (ok-injective done)) in
                (scoped, named, same))
          ])
  ]

  All-drop : (P : A → Type 0) (n : ℕ) (xs : List A) → All P xs → All P (drop n xs)
  All-drop P zero xs h = h
  All-drop P (suc n) [] h = tt
  All-drop P (suc n) (x ∷ xs) h = All-drop P n xs h.1

  -- Outside of the bypass blocks, a page of rows is of the request's product and tenant, and no longer
  -- than the limit.
  pub list-InContext :
      (limit offset : ℕ) (xs : List A) (w : World)
      → IsGuarded w
      → (list m limit offset w).0 ≡ ok xs
      → All (InContext w) xs × (length xs ≤ limit) × ((list m limit offset w).1 ≡ w)
  unfolding list
  list-InContext limit offset xs w guard = elim (Result-cases (stmt m w).0) [
    | inr (e, raised) ↦ rw (raised, resume) (λ done. cc)
    | inl (rows, found) ↦
        rw (found, resume)
          (λ done.
            let (scoped, same) = stmt-InContext w rows guard found in
            (
              subst (All (InContext w)) (ok-injective done) (
                  All-take (InContext w) limit (drop offset rows)
                    (All-drop (InContext w) offset rows scoped)),
              subst (λ v. length v ≤ limit) (ok-injective done)
                  (length-take_le limit (drop offset rows)),
              same,
            ))
  ]

  -- What `fill` does to a column: an error, or the column has the current value.
  fill_cases :
      (current column : Option ℕ) (set : ℕ → A → A) (obj : A)
      → (fill m current column set obj ≡ err runtime_error)
        ⊎ ((i : ℕ) × (b : A) × (current ≡ some i)
            × (fill m current column set obj ≡ ok b)
            × (((column ≡ some i) × (b ≡ obj)) ⊎ (b ≡ set i obj)))
  unfolding fill
  fill_cases none column set obj = inl refl
  fill_cases (some i) none set obj = inr (i, set i obj, refl, refl, inr refl)
  fill_cases (some i) (some j) set obj = elim (Bool-cases (j == i)) [
    | inl same ↦ rw same (inr (i, obj, refl, refl, inl (ap some (==_true j i same), refl)))
    | inr other ↦ rw other (inl refl)
  ]

  guarded :
      {B : Type 0} (h b : Bool) (x y : B) → h ≡ true → b ≡ false → (if h && not b then x else y) ≡ x
  guarded h b x y e e' = rw (e, e') refl

  fill_product-guarded :
      (obj : A) (w : World)
      → IsGuarded w
      → fill_product m obj w
        ≡ (fill m w.ctx.current_product (m.product_id obj) m.set_product_id obj, w)
  unfolding fill_product
  fill_product-guarded obj w (hp, ht, bp, bt) =
      guarded m.has_product w.ctx.bypass_product_var _ _ hp bp

  fill_tenant-guarded :
      (obj : A) (w : World)
      → IsGuarded w
      → fill_tenant m obj w ≡ (fill m w.ctx.current_tenant (m.tenant_id obj) m.set_tenant_id obj, w)
  unfolding fill_tenant
  fill_tenant-guarded obj w (hp, ht, bp, bt) = guarded true w.ctx.bypass_tenant_var _ _ refl bt

  -- Outside of the bypass blocks, a row that `add` adds is of the request's product and tenant, both
  -- of which are set, whatever the object had in these columns.
  pub add-InContext :
      (obj a : A) (w : World)
      → IsModel m
      → IsGuarded w
      → (add m obj w).0 ≡ ok a
      → InContext w a × (m.rows (add m obj w).1 ≡ a ∷ m.rows w)
  unfolding add
  add-InContext obj a w law guard =
      rw (fill_product-guarded obj w guard)
        (elim (fill_cases w.ctx.current_product (m.product_id obj) m.set_product_id obj) [
          | inl raised ↦ rw (raised, resume) (λ done. cc)
          | inr (p, b, is_p, filled, how) ↦
              rw (filled, resume)
                (rw (fill_tenant-guarded b w guard)
                  (elim (fill_cases w.ctx.current_tenant (m.tenant_id b) m.set_tenant_id b) [
                    | inl raised ↦ rw (raised, resume) (λ done. cc)
                    | inr (t, c, is_t, filled', how') ↦
                        rw (filled', resume)
                          (λ done. (
                            subst (InContext w) (ok-injective done) (
                              p,
                              t,
                              is_p,
                              is_t,
                              product_kept how' (product_set how),
                              tenant_set how',
                            ),
                            law.rows-set (c ∷ m.rows w) w
                                ∙ ap (λ x. x ∷ m.rows w) (ok-injective done),
                          ))
                  ]))
        ])
    where
      product_set :
          {p : ℕ} {b : A}
          → ((m.product_id obj ≡ some p) × (b ≡ obj)) ⊎ (b ≡ m.set_product_id p obj)
          → m.product_id b ≡ some p
      product_set (inl (had, same)) = ap m.product_id same ∙ had
      product_set {p} (inr set) = ap m.product_id set ∙ law.product-set p obj

      tenant_set :
          {t : ℕ} {b c : A}
          → ((m.tenant_id b ≡ some t) × (c ≡ b)) ⊎ (c ≡ m.set_tenant_id t b)
          → m.tenant_id c ≡ some t
      tenant_set (inl (had, same)) = ap m.tenant_id same ∙ had
      tenant_set {t} {b} (inr set) = ap m.tenant_id set ∙ law.tenant-set t b

      product_kept :
          {p t : ℕ} {b c : A}
          → ((m.tenant_id b ≡ some t) × (c ≡ b)) ⊎ (c ≡ m.set_tenant_id t b)
          → m.product_id b ≡ some p
          → m.product_id c ≡ some p
      product_kept (inl (had, same)) h = ap m.product_id same ∙ h
      product_kept {t = t} {b} (inr set) h = ap m.product_id set ∙ (law.product-set_tenant t b ∙ h)
