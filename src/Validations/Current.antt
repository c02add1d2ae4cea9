-- ===== src/Validations/Current.antt =====
-- validations.js: that the validity of an object is that of its current values.
use mathlib.Core.Path.{ap₂, subst}
use flame_js.Prelude.{
  ℕ, ◌≡◌, ◌≢◌, refl, sym, ap, ◌∙◌, Bool, true, false, not, ◌&&◌, ◌||◌, some, List, [], ◌∷◌, arith,
  if◌then◌else◌, ◌==◌, ==_iff, Bool-cases, inl, inr,
}
use flame_js.Validations.{
  Verdict, is_true, truthy, falsy, undefined, Rule, Object, rule_for, run_checks, put_validity,
  check_validity, validate_alone, note_validity, validate_coupled, validate_property, has_rule,
  set_property,
}

abbrev pub among : ℕ → List ℕ → Bool
among j [] = false
among j (c ∷ cs) = let rest = among j cs in if c == j then true else rest

put_validity-decided :
    (k j : ℕ) (v : Verdict) (m : ℕ → Verdict)
    → v ≢ undefined
    → put_validity k v m j ≡ (if k == j then v else m j)
unfolding put_validity
put_validity-decided k j is_true m ne = refl
put_validity-decided k j truthy m ne = refl
put_validity-decided k j falsy m ne = refl
put_validity-decided k j undefined m ne = absurd (ne refl)

module _ {V : Type 0} where
  -- What the checks of a property say of some values.
  unfoldable pub verdict : List (ℕ × Rule V) → (ℕ → V) → ℕ → Verdict
  verdict rules values k = run_checks (rule_for k rules).checks undefined values k (values k)

  -- The properties in `which` have been validated.
  record Validated (o after : Object V) (which : ℕ → Bool) : Type 0 where
    same_values : after.values ≡ o.values
    same_rules : after.validations ≡ o.validations
    now :
        (j : ℕ)
        → after.validity j ≡ (if which j then verdict o.validations o.values j else o.validity j)

  -- No check leaves the validity of a property open.
  unfoldable pub Decided : List (ℕ × Rule V) → Type 0
  Decided rules = (values : ℕ → V) (k : ℕ) → verdict rules values k ≢ undefined

  validate_alone-Validated :
      (k : ℕ) (o : Object V)
      → Decided o.validations
      → Validated o (validate_alone k o) (λ j. k == j)
  unfolding validate_alone verdict Decided
  validate_alone-Validated k o d = record {
    same_values = refl;
    same_rules = refl;
    now = λ j. ground (arith, put_validity-decided k j _ o.validity (d o.values k), ==_iff k j);
  }

  Validated-trans :
      (o p q : Object V) (one two : ℕ → Bool)
      → Validated o p one
      → Validated p q two
      → Validated o q (λ j. two j || one j)
  Validated-trans o p q one two a b = record {
    same_values = b.same_values ∙ a.same_values;
    same_rules = b.same_rules ∙ a.same_rules;
    now = λ j. ground (
      arith,
      b.now j,
      a.now j,
      ap₂ (λ rules values. verdict rules values j) a.same_rules a.same_values,
    );
  }

  Validated-which :
      (o p : Object V) (one two : ℕ → Bool)
      → ((j : ℕ) → one j ≡ two j)
      → Validated o p one
      → Validated o p two
  Validated-which o p one two e a = record {
    same_values = a.same_values;
    same_rules = a.same_rules;
    now = λ j. ground (arith, a.now j, e j);
  }

  Validated-note :
      (o p : Object V) (which : ℕ → Bool)
      → Validated o p which
      → Validated o (note_validity p) which
  unfolding note_validity
  Validated-note o p which a = record {
    same_values = a.same_values;
    same_rules = a.same_rules;
    now = a.now;
  }

  Validated-none : (o : Object V) → Validated o o (λ j. false)
  Validated-none o = record { same_values = refl; same_rules = refl; now = λ j. refl }

  one_coupled :
      (k c : ℕ) (o : Object V)
      → Decided o.validations
      → Validated o
          (if c == k then o else note_validity (validate_alone c o))
          (λ j. if c == k then false else c == j)
  one_coupled k c o d = elim (Bool-cases (c == k)) [
    | inl e ↦ rw e (Validated-none o)
    | inr e ↦
        rw e (Validated-note o (validate_alone c o) (λ j. c == j) (validate_alone-Validated c o d))
  ]

  coupled-Validated :
      (k : ℕ) (cs : List ℕ) (o : Object V)
      → Decided o.validations
      → Validated o (validate_coupled k cs o) (λ j. among j cs && not (j == k))
  unfolding validate_coupled
  coupled-Validated k [] o d = Validated-none o
  coupled-Validated k (c ∷ cs) o d =
      let one = one_coupled k c o d in
      let next = if c == k then o else note_validity (validate_alone c o) in
      Validated-which o _ _ _ (λ j. ground (arith, ==_iff c k, ==_iff c j, ==_iff j k))
        (Validated-trans o next _ _ _ one
          (coupled-Validated k cs next (subst Decided (sym one.same_rules) d)))

  property-Validated :
      (k : ℕ) (o : Object V)
      → Decided o.validations
      → Validated o
          (validate_property k o)
          (λ j. k == j || among j (rule_for k o.validations).coupled_properties)
  unfolding validate_property
  property-Validated k o d =
      let one = validate_alone-Validated k o d in
      let cs = (rule_for k o.validations).coupled_properties in
      Validated-which o _ _ _ (λ j. ground (arith, ==_iff k j, ==_iff j k))
        (Validated-note o (validate_coupled k cs (validate_alone k o)) _ (
          Validated-trans o (validate_alone k o) _ _ _ one
            (coupled-Validated k cs (validate_alone k o) (subst Decided (sym one.same_rules) d))))

  -- The validity of the properties that have a rule is what their checks say of the current values, and
  -- `isValid` that all are valid.
  pub record IsCurrent (o : Object V) : Type 0 where
    pub properties :
        (j : ℕ) → has_rule j o.validations ≡ true → o.validity j ≡ verdict o.validations o.values j
    pub object : o.object_is_valid ≡ some (check_validity o.validations o.validity)

  -- The checks of other properties depend on this one only where they are coupled to it.
  unfoldable pub Independent : ℕ → List (ℕ × Rule V) → Type 0
  Independent k rules =
      (j : ℕ) (v : V) (values : ℕ → V)
      → k ≢ j
      → among j (rule_for k rules).coupled_properties ≡ false
      → verdict rules (λ i. if k == i then v else values i) j ≡ verdict rules values j

  uncoupled :
      (k j : ℕ) (rules : List (ℕ × Rule V))
      → has_rule k rules ≡ false
      → among j (rule_for k rules).coupled_properties ≡ false
  unfolding has_rule rule_for
  uncoupled k j [] h = refl
  uncoupled k j ((i, r) ∷ rules) h = ground (arith, uncoupled k j rules)

  abbrev changed : ℕ → V → Object V → Object V
  changed k v o = record o { values = λ j. if k == j then v else o.values j }

  -- The validity of a property with a rule, after the ones in question have been validated.
  validity_now :
      (k : ℕ) (v : V) (o after : Object V)
      → Independent k o.validations
      → IsCurrent o
      → Validated
          (changed k v o)
          after
          (λ j. k == j || among j (rule_for k o.validations).coupled_properties)
      → (j : ℕ) → has_rule j o.validations ≡ true
      → after.validity j ≡ verdict o.validations (changed k v o).values j
  unfolding Independent
  validity_now k v o after i ok a j h =
      elim (Bool-cases (k == j || among j (rule_for k o.validations).coupled_properties)) [
        | inl e ↦ ground (arith, a.now j)
        | inr e ↦
            ground (arith, a.now j)
            ∙ ok.properties j h
            ∙ sym (i j v o.values (λ q. absurd (ground (arith, ==_iff k j))) (ground arith))
      ]

  with_rule :
      (k : ℕ) (v : V) (o : Object V)
      → Decided o.validations
      → Independent k o.validations
      → IsCurrent o
      → IsCurrent (validate_property k (changed k v o))
  unfolding validate_property note_validity
  with_rule k v o d i ok =
      let a = property-Validated k (changed k v o) d in
      record {
        properties = λ j h.
            validity_now k v o (validate_property k (changed k v o)) i ok a j
              (ap (has_rule j) (sym a.same_rules) ∙ h)
            ∙ sym (ap₂ (λ rules values. verdict rules values j) a.same_rules a.same_values);
        object = refl;
      }

  without_rule :
      (k : ℕ) (v : V) (o : Object V)
      → Independent k o.validations
      → IsCurrent o
      → has_rule k o.validations ≡ false
      → IsCurrent (changed k v o)
  unfolding Independent
  without_rule k v o i ok no_rule = record {
    properties = λ j h.
        ok.properties j h
        ∙ sym (
            i j v o.values (λ q. absurd (ground (arith, ap (λ x. has_rule x o.validations) q)))
              (uncoupled k j o.validations no_rule));
    object = ok.object;
  }

  -- Where the validity of all properties is that of the current values, no check leaves it open, and the
  -- checks of properties that are not coupled to the one set do not depend on it: after a property is
  -- set, the validity of all is that of the values there are then.
  pub set_property-IsCurrent :
      (k : ℕ) (v : V) (o : Object V)
      → Decided o.validations
      → Independent k o.validations
      → IsCurrent o
      → IsCurrent (set_property k v o)
  unfolding set_property Independent
  set_property-IsCurrent k v o d i ok = elim (Bool-cases (has_rule k o.validations)) [
    | inl e ↦ rw e (with_rule k v o d i ok)
    | inr e ↦ rw e (without_rule k v o i ok e)
  ]

module _ {V : Type 0} where
  alone-undefined :
      (k j : ℕ) (o : Object V)
      → verdict o.validations o.values k ≡ undefined
      → (validate_alone k o).validity j ≡ o.validity j
  unfolding validate_alone verdict put_validity
  alone-undefined k j o u = ap (λ x. put_validity k x o.validity j) u

  property-uncoupled :
      (k j : ℕ) (o : Object V)
      → (rule_for k o.validations).coupled_properties ≡ []
      → (validate_property k o).validity j ≡ (validate_alone k o).validity j
  unfolding validate_property validate_coupled note_validity
  property-uncoupled k j o c = ap (λ cs. (validate_coupled k cs (validate_alone k o)).validity j) c

  -- A property whose checks leave its validity open keeps the validity that it had, whatever its new
  -- value is, where no property is coupled to it.
  pub set_property-undefined :
      (k j : ℕ) (v : V) (o : Object V)
      → has_rule k o.validations ≡ true
      → (rule_for k o.validations).coupled_properties ≡ []
      → verdict o.validations (λ i. if k == i then v else o.values i) k ≡ undefined
      → (set_property k v o).validity j ≡ o.validity j
  unfolding set_property
  set_property-undefined k j v o r c u =
      rw r (property-uncoupled k j (changed k v o) c ∙ alone-undefined k j (changed k v o) u)
