-- ===== src/Chat/Lookup/Durations.antt =====
-- What mts_parse_duration of plugins/chat/mts_state.c accepts.
use mutineer.Prelude.{
  ℕ, ◌*◌, ◌/◌, ◌≤◌, ◌≡◌, ◌⊎◌, sym, refl, subst, inl, inr, Bool, true, false, Option, none, some,
  List, [], ◌∷◌, ltb, ◌==◌, if◌then◌else◌, arith,
}
use mutineer.Chat.Lookup.{lower, unit, unit_of, within_year, duration_of, parse_duration}

abbrev IsUnit : ℕ → Type 0
IsUnit mult = (mult ≡ 1) ⊎ (mult ≡ 60) ⊎ (mult ≡ 3600) ⊎ (mult ≡ 86400) ⊎ (mult ≡ 604800)

which :
    (a b c d : Bool) (mult : ℕ)
    → (if a
        then some 60
        else if b
        then some 3600
        else if c
        then some 86400
        else if d
        then some 604800
        else none)
      ≡ some mult
    → IsUnit mult
which true b c d mult h = inr (inl (cc h))
which false true c d mult h = inr (inr (inl (cc h)))
which false false true d mult h = inr (inr (inr (inl (cc h))))
which false false false true mult h = inr (inr (inr (inr (cc h))))
which false false false false mult h = absurd (cc h)

unit_of-IsUnit : (rest : List ℕ) (mult : ℕ) → unit_of rest ≡ some mult → IsUnit mult
unfolding unit
unit_of-IsUnit [] mult h = inl (cc h)
unit_of-IsUnit (c ∷ []) mult h =
    which (lower c == b'm') (lower c == b'h') (lower c == b'd') (lower c == b'w') mult h
unit_of-IsUnit (c ∷ d ∷ cs) mult h = absurd (cc h)

abbrev InYear : ℕ → ℕ → Type 0
InYear v mult = ltb (31536000 / mult) v ≡ false → 1 ≤ v → (1 ≤ v * mult) × (v * mult ≤ 31536000)

in_year : (v mult : ℕ) → IsUnit mult → InYear v mult
in_year v mult (inl e) =
    subst (InYear v) (sym e) (λ h p. (ground (arith, h, p), ground (arith, h, p)))
in_year v mult (inr (inl e)) =
    subst (InYear v) (sym e) (λ h p. (ground (arith, h, p), ground (arith, h, p)))
in_year v mult (inr (inr (inl e))) =
    subst (InYear v) (sym e) (λ h p. (ground (arith, h, p), ground (arith, h, p)))
in_year v mult (inr (inr (inr (inl e)))) =
    subst (InYear v) (sym e) (λ h p. (ground (arith, h, p), ground (arith, h, p)))
in_year v mult (inr (inr (inr (inr e)))) =
    subst (InYear v) (sym e) (λ h p. (ground (arith, h, p), ground (arith, h, p)))

-- An accepted duration of d seconds, by its number and its unit.
pub record IsDuration (number : Option ℕ) (rest : List ℕ) (d : ℕ) : Type 0 where
  pub v : ℕ
  pub mult : ℕ
  pub is_number : number ≡ some v
  pub is_unit : unit_of rest ≡ some mult
  pub is_product : d ≡ v * mult
  pub at_least : 1 ≤ d
  pub at_most : d ≤ 31536000

duration_of-IsDuration :
    (number : Option ℕ) (rest : List ℕ) (d : ℕ)
    → duration_of (number, rest) ≡ some d
    → IsDuration number rest d
duration_of-IsDuration none rest d h = absurd (cc h)
duration_of-IsDuration (some v) rest d h = go (ltb v 1) refl (unit_of rest) refl h
  where
    fits :
        (mult : ℕ) (late : Bool)
        → ltb (31536000 / mult) v ≡ late
        → unit_of rest ≡ some mult
        → 1 ≤ v
        → (if late then none else some (v * mult)) ≡ some d
        → IsDuration (some v) rest d
    fits mult true l u p g = absurd (cc g)
    fits mult false l u p g =
        let same : v * mult ≡ d = cc g in
        let limits = in_year v mult (unit_of-IsUnit rest mult u) l p in
        record {
          v = v;
          mult = mult;
          is_number = refl;
          is_unit = u;
          is_product = sym same;
          at_least = subst (λ x. 1 ≤ x) same (limits.0);
          at_most = subst (λ x. x ≤ 31536000) same (limits.1);
        }

    go :
        (low : Bool)
        → ltb v 1 ≡ low
        → (o : Option ℕ) → unit_of rest ≡ o
        → (if low then none else within_year v o) ≡ some d
        → IsDuration (some v) rest d
    go true c o u g = absurd (cc g)
    go false t none u g = absurd (cc g)
    go false t (some mult) u g = fits mult (ltb (31536000 / mult) v) refl u (ground (arith, t)) g

-- A duration that is accepted is strtoll's number, at least 1, times the seconds of the one unit that
-- may follow it, and it is at most a year of 31536000 seconds, so the product does not overflow.
pub parse_duration-IsDuration :
    (strtoll : List ℕ → Option ℕ × List ℕ) (text : List ℕ) (d : ℕ)
    → parse_duration strtoll text ≡ some d
    → IsDuration (strtoll text).0 (strtoll text).1 d
unfolding parse_duration
parse_duration-IsDuration strtoll [] d h = absurd (cc h)
parse_duration-IsDuration strtoll (c ∷ cs) d h =
    duration_of-IsDuration ((strtoll (c ∷ cs)).0) ((strtoll (c ∷ cs)).1) d h
