-- ===== src/Validations.antt =====
-- validations.js: objects that keep whether their properties are valid.
pub mod Current
use flame_js.Prelude.{
  ℕ, zero, suc, ◌+◌, Bool, true, false, not, ◌&&◌, Option, none, some, List, [], ◌∷◌, if◌then◌else◌,
  ◌==◌,
}

-- What a validator gives back, as far as it matters: `true`, another truthy value, a falsy one, undefined.
pub data Verdict : Type 0 where
  is_true truthy falsy undefined : Verdict

-- A `Validator`, which is given the object and the key, a function of the value, or nothing.
pub data Check (V : Type 0) : Type 0 where
  validator : ((ℕ → V) → ℕ → Verdict) → Check V
  function : (V → Verdict) → Check V
  missing : Check V

pub record Rule (V : Type 0) : Type 0 where
  pub checks : List (Check V)
  pub coupled_properties : List ℕ

-- Properties are numbered. `validity` is `_propertyValidity`, and `object_is_valid` is `_objectIsValid`.
pub record Object (V : Type 0) : Type 0 where
  pub values : ℕ → V
  pub validations : List (ℕ × Rule V)
  pub validity : ℕ → Verdict
  pub object_is_valid : Option Bool

unfoldable pub passes : Verdict → Bool
passes is_true = true
passes truthy = true
passes falsy = false
passes undefined = false

-- The setter of an `isValid` property, where undefined changes nothing.
unfoldable pub put_validity : ℕ → Verdict → (ℕ → Verdict) → ℕ → Verdict
put_validity k undefined m j = m j
put_validity k is_true m j = if k == j then is_true else m j
put_validity k truthy m j = if k == j then truthy else m j
put_validity k falsy m j = if k == j then falsy else m j

unfoldable pub holds : Verdict → Bool
holds is_true = true
holds _ = false

module _ {V : Type 0} where
  -- `validations[key]`; where there is none, the one check is undefined.
  unfoldable pub rule_for : ℕ → List (ℕ × Rule V) → Rule V
  rule_for k [] = record { checks = missing ∷ []; coupled_properties = [] }
  rule_for k ((j, r) ∷ rest) = let later = rule_for k rest in if j == k then r else later

  -- `_validate`
  unfoldable pub validate : Check V → (ℕ → V) → ℕ → V → Verdict
  validate (validator f) values k v = f values k
  validate (function f) values k v = f v
  validate missing values k v = falsy

  -- The loop over the checks, which ends at the first one that fails; `so_far` is `isValid` before it.
  unfoldable pub run_checks : List (Check V) → Verdict → (ℕ → V) → ℕ → V → Verdict
  unfolding validate passes
  run_checks [] so_far values k v = so_far
  run_checks (c ∷ cs) so_far values k v =
      let verdict = validate c values k v in
      let rest = run_checks cs verdict values k v in if passes verdict then rest else verdict

  -- `_checkValidity()`
  unfoldable pub check_validity : List (ℕ × Rule V) → (ℕ → Verdict) → Bool
  unfolding holds
  check_validity [] m = true
  check_validity ((k, r) ∷ rest) m = let others = check_validity rest m in holds (m k) && others

  -- `validateProperty` with the value of the property, up to the coupled properties.
  unfoldable pub validate_alone : ℕ → Object V → Object V
  unfolding rule_for run_checks put_validity
  validate_alone k o = record o {
    validity =
        put_validity k
          (run_checks (rule_for k o.validations).checks undefined o.values k (o.values k))
          o.validity;
  }

  -- `target.set('isValid', target._checkValidity())`
  unfoldable pub note_validity : Object V → Object V
  unfolding check_validity
  note_validity o = record o { object_is_valid = some (check_validity o.validations o.validity) }

  unfoldable pub validate_coupled : ℕ → List ℕ → Object V → Object V
  unfolding validate_alone note_validity
  validate_coupled k [] o = o
  validate_coupled k (c ∷ cs) o =
      validate_coupled k cs (if c == k then o else note_validity (validate_alone c o))

  -- `validateProperty`
  unfoldable pub validate_property : ℕ → Object V → Object V
  unfolding validate_coupled
  validate_property k o =
      note_validity
        (validate_coupled k (rule_for k o.validations).coupled_properties (validate_alone k o))

  unfoldable pub has_rule : ℕ → List (ℕ × Rule V) → Bool
  has_rule k [] = false
  has_rule k ((j, r) ∷ rest) = let later = has_rule k rest in if j == k then true else later

  -- The application sets a property; the observer is there where the property has a validation.
  unfoldable pub set_property : ℕ → V → Object V → Object V
  unfolding validate_property has_rule
  set_property k v o =
      let changed = record o { values = λ j. if k == j then v else o.values j } in
      if has_rule k o.validations then validate_property k changed else changed

  validate_keys : List (ℕ × Rule V) → Object V → Object V
  unfolding validate_property
  validate_keys [] o = o
  validate_keys ((k, r) ∷ rest) o = validate_keys rest (validate_property k o)

  -- `_createIsValidProperties`: the properties are undefined, and then each is validated.
  unfoldable pub create_is_valid_properties : Object V → Object V
  unfolding validate_keys
  create_is_valid_properties o =
      validate_keys o.validations (record o { validity = λ _. undefined })
