-- ===== src/Tests/Components.antt =====
-- Runs of the access to components.
use plynth.Component.Agreement.{user_has_component_access-agrees}
use plynth.Component.Overrides.{set_user_override-access}
use plynth.Component.Access.{user_effective_components, user_has_component_access}
use plynth.Samples.{enabling, entitled, user, given}
use plynth.Models.Component.{ProductComponent}
use plynth.Component.{set_user_override, get_component, write_user_override, is_component}
use plynth.Exec.{ok}
use plynth.Prelude.{some, true, false, refl, String, any, find?, Bool, str_eq, ◌&&◌, ◌≡◌}

override_run : (set_user_override 9 3 1 "ai" enabling entitled).0 ≡ ok given
unfolding set_user_override get_component write_user_override
override_run = refl

set_user_override-access_example :
    (component : ProductComponent) × (find? (is_component 9 "ai") entitled.components
      ≡ some component)
    × (user_has_component_access user "ai" (set_user_override 9 3 1 "ai" enabling entitled).1
        ≡ (component.is_active && true))
set_user_override-access_example =
    set_user_override-access user 1 "ai" enabling given entitled override_run

abbrev unordered : String → String → Bool
unordered a b = false

user_has_component_access-agrees_example :
    any
      (λ e. str_eq e.component.code "ai" && e.is_enabled)
      (user_effective_components unordered user entitled)
    ≡ user_has_component_access user "ai" entitled
user_has_component_access-agrees_example =
    user_has_component_access-agrees unordered user "ai" entitled (λ h. refl, tt)
      (λ i. (λ h. refl, tt), λ i. tt)
