-- ===== src/Tests/Models.antt =====
-- validations.js: an object with the properties 0, of which 1 is a copy.
use flame_js.Prelude.{ℕ, refl, true, some, List, [], ◌∷◌, arith, if◌then◌else◌, ◌==◌, ==_iff, ltb}
use flame_js.Validations.{
  is_true, falsy, validator, function, Rule, Object, rule_for, run_checks, validate, passes,
  check_validity, holds, has_rule, set_property,
}
use flame_js.Validations.Current.{verdict, Decided, Independent, IsCurrent, set_property-IsCurrent}

-- Property 0 is positive, and property 1 is the same number; a change of 0 validates 1 again.
abbrev rules : List (ℕ × Rule ℕ)
rules =
    (
      0,
      record {
        checks = function (λ v. if ltb 0 v then is_true else falsy) ∷ [];
        coupled_properties = 1 ∷ [];
      },
    )
    ∷ (
      1,
      record {
        checks = validator (λ values k. if values 0 == values 1 then is_true else falsy) ∷ [];
        coupled_properties = [];
      },
    )
    ∷ []

abbrev object : Object ℕ
object = record {
  values = λ j. 3;
  validations = rules;
  validity = λ j. if ltb j 2 then is_true else falsy;
  object_is_valid = some true;
}

decided : Decided rules
unfolding Decided verdict rule_for run_checks validate passes
decided values k = ground (arith, ==_iff 0 k, ==_iff 1 k)

independent : Independent 0 rules
unfolding Independent verdict rule_for run_checks validate passes
independent j v values ne a = ground (arith, ==_iff 0 j, ==_iff 1 j)

current : IsCurrent object
unfolding verdict rule_for run_checks validate passes has_rule check_validity holds
current = record { properties = λ j h. ground (arith, ==_iff 0 j, ==_iff 1 j); object = refl }

set_property-IsCurrent_example : IsCurrent (set_property 0 5 object)
set_property-IsCurrent_example = set_property-IsCurrent 0 5 object decided independent current
