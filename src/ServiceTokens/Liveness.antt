-- ===== src/ServiceTokens/Liveness.antt =====
-- app/services/service_token.py: a token works from its issue until it is revoked or expires.
use plynth.Access.{is_past}
use plynth.World.{World, next_id}
use plynth.ServiceTokens.{
  authenticate, revoke, starts_with, token_prefix, is_digest, has_scope, used_from, is_token_of,
  issue, validate_scopes, allowed_scopes,
}
use plynth.Models.ServiceToken.{ProductServiceToken}
use plynth.Security.{Crypto}
use text.Mathlib.TextPositions.{starts_with-append}
use plynth.Prelude.{
  [], Bool, false, leb, str_eq, ◌∷◌, some, none, true, inl, inr, refl, String, Option, ℕ,
  if◌then◌else◌, List, is_some, ◌≡◌, ◌||◌, find?, Bool-cases, ◌+◌, ◌∙◌, ◌<>◌, find?-save,
  find?-holds, any, not, subst, ap, sym, eq_refl, arith,
}
use plynth.Exec.{
  ok, err, Result, unauthorized, forbidden, raise_if-ok, validation_failed, ok-injective,
}

-- A use of a token: when, for what, and from where.
pub record Use : Type 0 where
  pub time : ℕ
  pub scope : String
  pub ip : Option String

abbrev pub at_time : ℕ → World → World
at_time time w = record w { env = record (w.env) { now = time } }

-- An end that is now or earlier
abbrev pub has_ended : ℕ → Option ℕ → Bool
has_ended time none = false
has_ended time (some end) = leb end time

is_past-has_ended : (time : ℕ) (end : Option ℕ) → is_past time end ≡ has_ended time end
is_past-has_ended time none = refl
is_past-has_ended time (some end) = refl

module _ (crypto : Crypto) where
  -- What `authenticate` answers about the row that has the token's hash
  abbrev answer : ProductServiceToken → String → Option String → ℕ → Result ProductServiceToken
  answer row scope ip time =
      if is_some row.revoked_at || is_past time row.expires_at
      then err unauthorized
      else (if has_scope scope row.scopes
          then ok (record row { last_used_at = some time; last_used_ip = used_from ip row })
          else err forbidden)

  authenticate-answer :
      (raw scope : String) (ip : Option String) (w : World) (row : ProductServiceToken)
      → starts_with raw token_prefix ≡ true
      → find? (is_digest crypto (crypto.sha256 raw)) w.service_tokens ≡ some row
      → (authenticate crypto raw scope ip w).0 ≡ answer row scope ip w.env.now
  unfolding authenticate
  authenticate-answer raw scope ip w row formed found =
      rw (formed, authenticate)
        (rw found (elim (Bool-cases (is_some row.revoked_at)) [
          | inl revoked ↦ rw revoked refl
          | inr kept ↦ rw kept (elim (Bool-cases (is_past w.env.now row.expires_at)) [
            | inl late ↦ rw late refl
            | inr live ↦ rw live (elim (Bool-cases (has_scope scope row.scopes)) [
              | inl scoped ↦ rw scoped refl
              | inr narrow ↦ rw narrow refl
            ])
          ])
        ]))

  revoke-refused :
      (p : ℕ) (actor : Option ℕ) (raw scope : String) (ip : Option String) (w : World)
      (row : ProductServiceToken)
      → starts_with raw token_prefix ≡ true
      → find? (is_digest crypto (crypto.sha256 raw)) w.service_tokens ≡ some row
      → find? (is_token_of p row.id) w.service_tokens ≡ some row
      → (authenticate crypto raw scope ip (revoke p row.id actor w).1).0 ≡ err unauthorized
  unfolding revoke
  revoke-refused p actor raw scope ip w row formed found named =
      rw (named, revoke)
        (elim (Bool-cases (is_some row.revoked_at)) [
          | inl already ↦
              rw already (authenticate-answer raw scope ip w row formed found ∙ rw already refl)
          | inr live ↦ rw live (
              authenticate-answer raw scope ip _ (record row { revoked_at = some w.env.now }) formed
                (find?-save (is_digest crypto (crypto.sha256 raw)) (λ t. t.id) w.service_tokens row
                  _ found refl
                  (find?-holds (is_digest crypto (crypto.sha256 raw)) w.service_tokens row found)))
        ])

  -- The row and the state that `issue` makes
  abbrev minted : ℕ → String → List String → Option ℕ → World → ProductServiceToken
  minted p name scopes expires_at w = record {
    id = w.env.uuid (w.drawn + 1);
    product_id = p;
    name = name;
    token_hash = crypto.sha256 (token_prefix <> crypto.token_hex (next_id w));
    scopes = scopes;
    expires_at = expires_at;
    revoked_at = none;
    last_used_at = none;
    last_used_ip = none;
  }

  -- The same row, but for the notes of its last use
  abbrev pub SameRights : ProductServiceToken → ProductServiceToken → Type 0
  SameRights row r = r ≡ record row { last_used_at = r.last_used_at; last_used_ip = r.last_used_ip }

  -- The row is found by the token's hash and by its identifier, with all its rights.
  abbrev Kept : ℕ → ProductServiceToken → String → World → Type 0
  Kept p row raw w =
      (r : ProductServiceToken) × SameRights row r
      × (find? (is_digest crypto (crypto.sha256 raw)) w.service_tokens ≡ some r)
      × (find? (is_token_of p row.id) w.service_tokens ≡ some r)

  -- A use of the token, whether it is let in or not, leaves the row its rights.
  authenticate-Kept :
      (p : ℕ) (row : ProductServiceToken) (raw scope : String) (ip : Option String) (w : World)
      → starts_with raw token_prefix ≡ true
      → Kept p row raw w
      → Kept p row raw (authenticate crypto raw scope ip w).1
  unfolding authenticate
  authenticate-Kept p row raw scope ip w formed (r, same, found, named) =
      rw (formed, authenticate)
        (rw found (elim (Bool-cases (is_some r.revoked_at)) [
          | inl revoked ↦ rw revoked (r, same, found, named)
          | inr kept ↦ rw kept (elim (Bool-cases (is_past w.env.now r.expires_at)) [
            | inl late ↦ rw late (r, same, found, named)
            | inr live ↦ rw live (elim (Bool-cases (has_scope scope r.scopes)) [
              | inr narrow ↦ rw narrow (r, same, found, named)
              | inl scoped ↦ rw scoped (
                noted,
                ap
                    (λ (z : ProductServiceToken). record z {
                      last_used_at = some w.env.now;
                      last_used_ip = used_from ip r;
                    })
                    same,
                find?-save (is_digest crypto (crypto.sha256 raw)) (λ t. t.id) w.service_tokens r
                    noted found refl
                    (find?-holds (is_digest crypto (crypto.sha256 raw)) w.service_tokens r found),
                find?-save (is_token_of p row.id) (λ t. t.id) w.service_tokens r noted named refl
                    (find?-holds (is_token_of p row.id) w.service_tokens r named),
              )
            ])
          ])
        ]))
    where
      noted : ProductServiceToken
      noted = record r { last_used_at = some w.env.now; last_used_ip = used_from ip r }

  unfoldable pub use_all : String → List Use → World → World
  use_all raw [] w = w
  use_all raw (u ∷ us) w =
      use_all raw us (authenticate crypto raw u.scope u.ip (at_time u.time w)).1

  use_all-Kept :
      (p : ℕ) (row : ProductServiceToken) (raw : String) (us : List Use) (w : World)
      → starts_with raw token_prefix ≡ true
      → Kept p row raw w
      → Kept p row raw (use_all raw us w)
  unfolding use_all
  use_all-Kept p row raw [] w formed h = h
  use_all-Kept p row raw (u ∷ us) w formed h =
      use_all-Kept p row raw us (authenticate crypto raw u.scope u.ip (at_time u.time w)).1 formed
        (authenticate-Kept p row raw u.scope u.ip (at_time u.time w) formed h)

  -- What a token that has not been revoked answers: Unauthorized from its end on; before, Forbidden
  -- for a scope that it was not issued with, and for one of its scopes its row `r`, with the time
  -- and the address of this use. Revoked, it answers Unauthorized.
  pub Works : ℕ → List String → Option ℕ → ProductServiceToken × String → World → Type 0
  Works p scopes expires_at (row, raw) w =
      (r : ProductServiceToken) × SameRights row r
      × ((scope : String) (ip : Option String)
          → (authenticate crypto raw scope ip w).0 ≡ (
              if has_ended w.env.now expires_at
              then err unauthorized
              else (if any (λ s. str_eq s scope) scopes
                  then ok
                      (record r { last_used_at = some w.env.now; last_used_ip = used_from ip r })
                  else err forbidden)))
      × ((scope : String) (ip : Option String) (actor : Option ℕ)
          → (authenticate crypto raw scope ip (revoke p row.id actor w).1).0 ≡ err unauthorized)

  live_answer :
      (row r : ProductServiceToken) (scope : String) (ip : Option String) (time : ℕ)
      → row.revoked_at ≡ none
      → SameRights row r
      → answer r scope ip time ≡ (
          if has_ended time row.expires_at
          then err unauthorized
          else (if any (λ s. str_eq s scope) row.scopes
              then ok (record r { last_used_at = some time; last_used_ip = used_from ip r })
              else err forbidden))
  live_answer row r scope ip time live same = λ i.
      if is_some (kept i) || past i
      then err unauthorized
      else (if has_scope scope ((same i).scopes)
          then ok (record r { last_used_at = some time; last_used_ip = used_from ip r })
          else err forbidden)
    where
      kept : r.revoked_at ≡ none
      kept = ap (λ z. z.revoked_at) same ∙ live

      past : is_past time r.expires_at ≡ has_ended time row.expires_at
      past =
          ap (λ (z : ProductServiceToken). is_past time z.expires_at) same
          ∙ is_past-has_ended time row.expires_at

  Kept-Works :
      (p : ℕ) (row : ProductServiceToken) (raw : String) (w : World)
      → starts_with raw token_prefix ≡ true
      → row.revoked_at ≡ none
      → Kept p row raw w
      → Works p row.scopes row.expires_at (row, raw) w
  unfolding Works
  Kept-Works p row raw w formed live (r, same, found, named) = (
    r,
    same,
    λ scope ip.
        authenticate-answer raw scope ip w r formed found
        ∙ live_answer row r scope ip w.env.now live same,
    λ scope ip actor.
        subst (λ i. (authenticate crypto raw scope ip (revoke p i actor w).1).0 ≡ err unauthorized)
          (ap (λ z. z.id) same)
          (revoke-refused p actor raw scope ip w r formed found (
            subst (λ i. find? (is_token_of p i) w.service_tokens ≡ some r)
              (sym (ap (λ (z : ProductServiceToken). z.id) same)) named)),
  )

  minted-Works :
      (p : ℕ) (name : String) (scopes : List String) (expires_at : Option ℕ) (us : List Use)
      (time : ℕ) (w : World) (out : ProductServiceToken × String) (v : World)
      (rest : List ProductServiceToken)
      → v.service_tokens ≡ minted p name scopes expires_at w ∷ rest
      → ok (minted p name scopes expires_at w, token_prefix <> crypto.token_hex (next_id w))
        ≡ ok out
      → Works p scopes expires_at out (at_time time (use_all out.1 us v))
  minted-Works p name scopes expires_at us time w out v rest table done =
      let row = minted p name scopes expires_at w in
      let raw = token_prefix <> crypto.token_hex (next_id w) in
      let formed = starts_with-append token_prefix (crypto.token_hex (next_id w)) in
      let found : find? (is_digest crypto (crypto.sha256 raw)) v.service_tokens ≡ some row =
        rw table (rw (eq_refl (crypto.sha256 raw)) refl) in
      let named : find? (is_token_of p row.id) v.service_tokens ≡ some row =
        rw table (ground arith) in
      subst (λ o. Works p scopes expires_at o (at_time time (use_all o.1 us v))) (ok-injective done)
        (Kept-Works p row raw (at_time time (use_all raw us v)) formed refl
          (use_all-Kept p row raw us v formed (row, refl, found, named)))

  -- A token that `issue` returns works from then on: after any uses of it, at any times, with any
  -- scopes and from any addresses, at any time it answers as `Works` says, Unauthorized from its end
  -- on, before that with its row for each of its scopes and Forbidden for every other scope, and
  -- Unauthorized, for any scope, once it is revoked in its product.
  pub issue-authenticate :
      (p : ℕ) (name : String) (scopes : List String) (expires_at : Option ℕ) (actor : Option ℕ)
      (us : List Use) (time : ℕ) (w : World) (out : ProductServiceToken × String)
      → (issue crypto p name scopes expires_at actor w).0 ≡ ok out
      → Works p scopes expires_at out
          (at_time time (use_all out.1 us (issue crypto p name scopes expires_at actor w).1))
  unfolding issue validate_scopes
  issue-authenticate p name scopes expires_at actor us time w out done =
      let (valid, d1, e1) =
        raise_if-ok (any (λ s. not (has_scope s allowed_scopes)) scopes) validation_failed _ w
          done in
      subst (λ v. Works p scopes expires_at out (at_time time (use_all out.1 us v)))
        (ap (λ x. x.1) (sym e1))
        (minted-Works p name scopes expires_at us time w out _ w.service_tokens refl d1)
