-- ===== src/Process/Filling.antt =====
-- What the file name or drop directory does to a command line of src/process.c.
use mutineer.Prelude.{
  ℕ, zero, suc, ◌≡◌, ap, sym, ◌∙◌, ◌⊎◌, if_split, Bool-cases, ◌==◌, ◌&&◌, refl, inl, inr, Bool,
  true, false, ◌||◌, Option, none, some, List, [], ◌∷◌, ◌++◌, map, if◌then◌else◌, Option-cases,
  subst, arith,
}
use mutineer.Process.{
  Refusal, at_end, Reading, too_long, ended, has_value, one_further, filled, find_marker,
  replace_marker, read_token, skip_spaces, text_behind, Args, after_token, args_from, Argv,
  not_empty, with_file, plain, finish, checked, command_contains_shell_meta, argv_parse_template,
  argv_parse_door_template,
}

abbrev pub any_marker : ℕ → List (List ℕ) → Bool
any_marker k [] = false
any_marker k (a ∷ args) = has_value (find_marker k a) || any_marker k args

-- The value in place of the first marker of each argument.
abbrev pub fill : ℕ → List ℕ → List (List ℕ) → List (List ℕ)
fill k value args = map (λ a. replace_marker a k value) args

abbrev fill_args : ℕ → List ℕ → Args → Args
fill_args k value (inl e) = inl e
fill_args k value (inr got) = inr (any_marker k got.1, fill k value got.1)

abbrev fill_result : ℕ → List ℕ → Option Args → Option Args
fill_result k value none = none
fill_result k value (some got) = some (fill_args k value got)

after_token-fill :
    (k : ℕ) (value : List ℕ) (reading : Reading) (rest : Option Args)
    → after_token k (some value) reading (fill_result k value rest)
      ≡ fill_result k value (after_token k none reading rest)
after_token-fill k value too_long rest = refl
after_token-fill k value (ended (some q) token text) rest = refl
after_token-fill k value (ended none token text) none = refl
after_token-fill k value (ended none token text) (some (inl e)) = refl
after_token-fill k value (ended none token text) (some (inr got)) = refl

-- Whether the loop ends at once.
loop_fill :
    (over : Bool) (k : ℕ) (value : List ℕ) (reading : Reading) (with_value without : Option Args)
    → with_value ≡ fill_result k value without
    → (if over then some (inr (false, [])) else after_token k (some value) reading with_value)
      ≡ fill_result k value
          (if over then some (inr (false, [])) else after_token k none reading without)
loop_fill true k value reading with_value without h = refl
loop_fill false k value reading with_value without h =
    rw h (after_token-fill k value reading without)

args_from-fill :
    (fuel k : ℕ) (value text : List ℕ)
    → args_from fuel k (some value) text ≡ fill_result k value (args_from fuel k none text)
unfolding args_from
args_from-fill zero k value text = refl
args_from-fill (suc fuel) k value text =
    let start = skip_spaces text in
    let reading = read_token false none 0 start in
    loop_fill (at_end start) k value reading (args_from fuel k (some value) (text_behind reading))
      (args_from fuel k none (text_behind reading))
      (args_from-fill fuel k value (text_behind reading))

no_marker-fill :
    (k : ℕ) (value : List ℕ) (args : List (List ℕ))
    → any_marker k args ≡ false
    → fill k value args ≡ args
unfolding replace_marker
no_marker-fill k value [] h = refl
no_marker-fill k value (a ∷ args) h = elim (Option-cases (find_marker k a)) [
  | inl t ↦ rw t (
      ap (λ l. a ∷ l)
        (no_marker-fill k value args (subst (λ o. (has_value o || any_marker k args) ≡ false) t h)))
  | inr t ↦
      let clash : true ≡ false = subst (λ o. (has_value o || any_marker k args) ≡ false) (t.1) h in
      ground (arith, clash)
]

-- The result of the template with a file, from the one without.
abbrev pub with_value : List ℕ → List (List ℕ) → List (List ℕ)
with_value value args = if any_marker b'f' args then fill b'f' value args else args ++ value ∷ []

pick :
    (any : Bool) (value a b : List ℕ) (args more : List (List ℕ))
    → (any ≡ false → b ∷ more ≡ a ∷ args)
    → not_empty (if any then b ∷ more else (b ∷ more) ++ value ∷ [])
      ≡ inr (if any then b ∷ more else (a ∷ args) ++ value ∷ [])
pick true value a b args more h = refl
pick false value a b args more h = ap (λ l. inr (l ++ value ∷ [])) (h refl)

with_file-fill :
    (value : List ℕ) (got : Args) (args : List (List ℕ))
    → with_file none got ≡ inr args
    → with_file (some value) (fill_args b'f' value got) ≡ inr (with_value value args)
with_file-fill value (inl e) args h = absurd (cc h)
with_file-fill value (inr (b, [])) args h = absurd (cc h)
with_file-fill value (inr (b, a ∷ more)) args h =
    let same : a ∷ more ≡ args = cc h in
    subst
      (λ l.
        with_file (some value) (fill_args b'f' value (inr (b, a ∷ more)))
        ≡ inr (with_value value l))
      same
      (pick (any_marker b'f' (a ∷ more)) value a (replace_marker a b'f' value) more
        (fill b'f' value more) (no_marker-fill b'f' value (a ∷ more)))

plain-fill :
    (value : List ℕ) (got : Args) (args : List (List ℕ))
    → plain got ≡ inr args
    → plain (fill_args b'D' value got) ≡ inr (fill b'D' value args)
plain-fill value (inl e) args h = absurd (cc h)
plain-fill value (inr (b, [])) args h = absurd (cc h)
plain-fill value (inr (b, a ∷ more)) args h =
    let same : a ∷ more ≡ args = cc h in
    subst (λ l. plain (fill_args b'D' value (inr (b, a ∷ more))) ≡ inr (fill b'D' value l)) same
      refl

finish-fill :
    (k : ℕ) (value : List ℕ) (f g : Args → Argv) (o : Option Args) (args result : List (List ℕ))
    → ((got : Args) → f got ≡ inr args → g (fill_args k value got) ≡ inr result)
    → finish f o ≡ some (inr args)
    → finish g (fill_result k value o) ≡ some (inr result)
finish-fill k value f g none args result step h = absurd (cc h)
finish-fill k value f g (some got) args result step h =
    let same : f got ≡ inr args = cc h in ap some (step got same)

checked-fill :
    (command : List ℕ) (o o' : Option Argv) (args result : List (List ℕ))
    → (o ≡ some (inr args) → o' ≡ some (inr result))
    → checked command o ≡ some (inr args)
    → checked command o' ≡ some (inr result)
checked-fill [] o o' args result step h = absurd (cc h)
checked-fill (c ∷ cs) o o' args result step h = go (command_contains_shell_meta false (c ∷ cs)) h
  where
    go :
        (m : Option Refusal)
        → elim m [ none ↦ o | some e ↦ some (inl e) ] ≡ some (inr args)
        → elim m [ none ↦ o' | some e ↦ some (inl e) ] ≡ some (inr result)
    go none h = step h
    go (some e) h = absurd (cc h)

-- Whether a text begins with %k, and whether it has one.
abbrev begins : ℕ → List ℕ → Bool
begins k (x ∷ (y ∷ rest)) = x == b'%' && y == k
begins k _ = false

abbrev pub is_marked : ℕ → List ℕ → Bool
is_marked k [] = false
is_marked k (c ∷ cs) = begins k (c ∷ cs) || is_marked k cs

abbrev pub one_marked : ℕ → List (List ℕ) → Bool
one_marked k [] = false
one_marked k (a ∷ args) = is_marked k a || one_marked k args

-- The second text is the first with the value in place of its first %k, if it has one.
pub data IsFilled (k : ℕ) (value : List ℕ) : List ℕ → List ℕ → Type 0 where
  here : (rest : List ℕ) → IsFilled k value (b'%' ∷ k ∷ rest) (value ++ rest)
  later :
      (c : ℕ) (cs ds : List ℕ)
      → begins k (c ∷ cs) ≡ false
      → IsFilled k value cs ds
      → IsFilled k value (c ∷ cs) (c ∷ ds)
  end : IsFilled k value [] []

-- The same of each argument.
pub data AreFilled (k : ℕ) (value : List ℕ) : List (List ℕ) → List (List ℕ) → Type 0 where
  none_left : AreFilled k value [] []
  one_more :
      (a b : List ℕ) (args bs : List (List ℕ))
      → IsFilled k value a b
      → AreFilled k value args bs
      → AreFilled k value (a ∷ args) (b ∷ bs)

-- One byte further in front.
filled_further :
    (c : ℕ) (token value : List ℕ) (o : Option (List ℕ × List ℕ))
    → filled (c ∷ token) value (one_further c o) ≡ c ∷ filled token value o
filled_further c token value none = refl
filled_further c token value (some found) = refl

replace_marker-IsFilled :
    (k : ℕ) (value token : List ℕ)
    → (0 == k) ≡ false
    → IsFilled k value token (replace_marker token k value)
unfolding replace_marker find_marker
replace_marker-IsFilled k value [] h = end
replace_marker-IsFilled k value (c ∷ []) h =
    if_split (λ o. IsFilled k value (c ∷ []) (filled (c ∷ []) value o)) (c == b'%' && 0 == k) _ _
      (λ t. absurd (ground (arith, t, h))) (λ t. later c [] [] refl end)
replace_marker-IsFilled k value (c ∷ d ∷ cs) h =
    if_split (λ o. IsFilled k value (c ∷ d ∷ cs) (filled (c ∷ d ∷ cs) value o))
      (c == b'%' && d == k) _ _
      (λ t.
        let first : c ≡ b'%' = ground (arith, t) in
        let second : d ≡ k = ground (arith, t) in rw (first, second) (here cs))
      (λ t.
        rw (filled_further c (d ∷ cs) value (find_marker k (d ∷ cs)))
          (later c (d ∷ cs) _ t (replace_marker-IsFilled k value (d ∷ cs) h)))

fill-AreFilled :
    (k : ℕ) (value : List ℕ) (args : List (List ℕ))
    → (0 == k) ≡ false
    → AreFilled k value args (fill k value args)
fill-AreFilled k value [] h = none_left
fill-AreFilled k value (a ∷ args) h =
    one_more a _ args _ (replace_marker-IsFilled k value a h) (fill-AreFilled k value args h)

has_value-one_further :
    (c : ℕ) (o : Option (List ℕ × List ℕ)) → has_value (one_further c o) ≡ has_value o
has_value-one_further c none = refl
has_value-one_further c (some found) = refl

find_marker-is_marked :
    (k : ℕ) (token : List ℕ)
    → (0 == k) ≡ false
    → has_value (find_marker k token) ≡ is_marked k token
unfolding find_marker
find_marker-is_marked k [] h = refl
find_marker-is_marked k (c ∷ []) h =
    if_split (λ (o : Option (List ℕ × List ℕ)). has_value o ≡ false) (c == b'%' && 0 == k) _ _
      (λ t. absurd (ground (arith, t, h))) (λ t. refl)
find_marker-is_marked k (c ∷ d ∷ cs) h = elim (Bool-cases (c == b'%' && d == k)) [
  | inl t ↦ rw t refl
  | inr t ↦
      rw t (has_value-one_further c (find_marker k (d ∷ cs)) ∙ find_marker-is_marked k (d ∷ cs) h)
]

any_marker-one_marked :
    (k : ℕ) (args : List (List ℕ)) → (0 == k) ≡ false → any_marker k args ≡ one_marked k args
any_marker-one_marked k [] h = refl
any_marker-one_marked k (a ∷ args) h =
    rw (find_marker-is_marked k a h, any_marker-one_marked k args h) refl

-- The arguments of a command line with a file, from those without.
abbrev pub IsWithFile : List ℕ → List (List ℕ) → List (List ℕ) → Type 0
IsWithFile value args filled =
    (one_marked b'f' args ≡ true) × AreFilled b'f' value args filled
    ⊎ (one_marked b'f' args ≡ false) × (filled ≡ args ++ value ∷ [])

with_value-IsWithFile :
    (value : List ℕ) (args : List (List ℕ)) → IsWithFile value args (with_value value args)
with_value-IsWithFile value args =
    let same = any_marker-one_marked b'f' args refl in
    if_split (IsWithFile value args) (any_marker b'f' args) _ _
      (λ t. inl (sym same ∙ t, fill-AreFilled b'f' value args refl)) (λ t. inr (sym same ∙ t, refl))

-- If a command line is accepted without a file, then with a file, whatever the bytes of its name, it is
-- accepted, and the arguments are the same but for this: if one of them has a %f, the name stands in each in
-- place of its first %f, if it has one; if none has, the name stands behind them as one more argument.
pub argv_parse_template-fill :
    (fuel : ℕ) (command value : List ℕ) (args : List (List ℕ))
    → argv_parse_template fuel command none ≡ some (inr args)
    → (result : List (List ℕ)) × (argv_parse_template fuel command (some value) ≡ some (inr result))
      × IsWithFile value args result
unfolding argv_parse_template
argv_parse_template-fill fuel command value args files = (
  with_value value args,
  checked-fill command _ _ args (with_value value args)
      (λ h. rw (args_from-fill fuel b'f' value command) (
        finish-fill b'f' value (with_file none) (with_file (some value))
          (args_from fuel b'f' none command) args (with_value value args)
          (λ got e. with_file-fill value got args e) h))
      files,
  with_value-IsWithFile value args,
)

-- If a door's command line is accepted without a drop directory, then with one, whatever its bytes, it is
-- accepted, and the arguments are the same with the directory in each in place of its first %D, if it has
-- one.
pub argv_parse_door_template-fill :
    (fuel : ℕ) (command value : List ℕ) (args : List (List ℕ))
    → argv_parse_door_template fuel command none ≡ some (inr args)
    → (result : List (List ℕ)) × (argv_parse_door_template fuel command (some value)
        ≡ some (inr result))
      × AreFilled b'D' value args result
unfolding argv_parse_door_template
argv_parse_door_template-fill fuel command value args doors = (
  fill b'D' value args,
  checked-fill command _ _ args (fill b'D' value args)
      (λ h. rw (args_from-fill fuel b'D' value command) (
        finish-fill b'D' value plain plain (args_from fuel b'D' none command) args
          (fill b'D' value args) (λ got e. plain-fill value got args e) h))
      doors,
  fill-AreFilled b'D' value args refl,
)
