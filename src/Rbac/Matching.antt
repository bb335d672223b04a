-- ===== src/Rbac/Matching.antt =====
-- Which permissions a granted code gives (app/services/rbac.py, `_matches`).
use plynth.Exec.{ok}
use text.Mathlib.TextLemmas.{nil-append, cons-append}
use plynth.Rbac.{split_colon, char_code, matches}
use plynth.Prelude.{
  some, true, String, Bool, ◌≡◌, not, ◌<>◌, ◌==◌, ◌&&◌, inl, inr, refl, Bool-cases, and_right,
  true_ne_false, str_eq, sym, ◌||◌, and_left, ◌∙◌, ap,
}

abbrev pub no_colon : String → Bool
no_colon String.[] = true
no_colon (String.◌∷◌ c s) = not (char_code c == b':') && no_colon s

colon-append : (b : String) → (":" <> b) ≡ String.◌∷◌ ":" b
colon-append b = cons-append ":" "" b ∙ ap (String.◌∷◌ ":") (nil-append b)

split-join : (a b : String) → no_colon a ≡ true → split_colon (a <> (":" <> b)) ≡ some (a, b)
unfolding split_colon
split-join String.[] b h = rw (nil-append (":" <> b)) (rw (colon-append b) refl)
split-join (String.◌∷◌ c s) b h =
    let ih = split-join s b (and_right _ _ h) in
    rw cons-append (elim (Bool-cases (char_code c == b':')) [
      | inl colon ↦ absurd (true_ne_false (sym (and_left _ _ h) ∙ ap not colon))
      | inr other ↦ rw other (rw ih refl)
    ])

-- A granted code matches a required one exactly if each of its two parts, resource and action, is
-- `*` or the same; the first colon parts them, so an action may have colons.
pub matches-join :
    (g_res g_act r_res r_act : String)
    → no_colon g_res ≡ true
    → no_colon r_res ≡ true
    → matches (g_res <> (":" <> g_act)) (r_res <> (":" <> r_act))
      ≡ ok ((str_eq g_res "*" || str_eq g_res r_res) && (str_eq g_act "*" || str_eq g_act r_act))
unfolding matches
matches-join g_res g_act r_res r_act hg hr =
    rw (split-join g_res g_act hg) (rw (split-join r_res r_act hr) refl)
