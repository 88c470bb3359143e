-- ===== src/Address/Chars.antt =====
-- What a valid name is made of, and the splitting of an address at its '@' signs.
use mutineer.Prelude.{
  ℕ, ◌≤◌, ◌<◌, ◌≡◌, refl, inl, inr, Bool, true, false, none, some, List, [], ◌∷◌, ◌++◌, length,
  Bool-cases, ◌==◌, arith,
}
use mutineer.Address.{
  is_valid_name_char, is_valid_user_char, is_valid_slug_char, all_chars, validate_with,
  validate_name, to_lower, canonicalize_addr, split_at, at_sign, has_at,
}

-- Every byte is one that is allowed in some part: none is '@', and none is an upper case letter.
unfoldable pub IsPlain : List ℕ → Type 0
IsPlain [] = Unit {0}
IsPlain (c ∷ cs) = (is_valid_user_char c ≡ true) × IsPlain cs

plain-lower : (c : ℕ) → is_valid_user_char c ≡ true → to_lower c ≡ c
unfolding is_valid_user_char is_valid_name_char to_lower
plain-lower c h = ground arith

plain-at : (c : ℕ) → is_valid_user_char c ≡ true → (c == at_sign) ≡ false
unfolding is_valid_user_char is_valid_name_char
plain-at c h = ground arith

pub canonicalize-plain : (cs : List ℕ) → IsPlain cs → canonicalize_addr cs ≡ cs
unfolding canonicalize_addr IsPlain
canonicalize-plain [] p = refl
canonicalize-plain (c ∷ cs) (p, ps) = rw (plain-lower c p, canonicalize-plain cs ps) refl

pub canonicalize-append :
    (cs ds : List ℕ)
    → IsPlain cs
    → canonicalize_addr (cs ++ at_sign ∷ ds) ≡ cs ++ at_sign ∷ canonicalize_addr ds
unfolding canonicalize_addr IsPlain to_lower
canonicalize-append [] ds p = refl
canonicalize-append (c ∷ cs) ds (p, ps) = rw (plain-lower c p, canonicalize-append cs ds ps) refl

pub split-plain : (cs ds : List ℕ) → IsPlain cs → split_at (cs ++ at_sign ∷ ds) ≡ some (cs, ds)
unfolding split_at IsPlain
split-plain [] ds p = refl
split-plain (c ∷ cs) ds (p, ps) = rw (plain-at c p, split-plain cs ds ps) refl

pub split-plain_none : (cs : List ℕ) → IsPlain cs → split_at cs ≡ none
unfolding split_at IsPlain
split-plain_none [] p = refl
split-plain_none (c ∷ cs) (p, ps) = rw (plain-at c p, split-plain_none cs ps) refl

pub has_at-plain : (cs : List ℕ) → IsPlain cs → has_at cs ≡ false
has_at-plain cs p = rw (has_at, split-plain_none cs p) refl

all-IsPlain :
    (ok : ℕ → Bool) (cs : List ℕ)
    → ((c : ℕ) → ok c ≡ true → is_valid_user_char c ≡ true)
    → all_chars ok cs ≡ true
    → IsPlain cs
unfolding IsPlain
all-IsPlain ok [] k h = tt
all-IsPlain ok (c ∷ cs) k h = elim (Bool-cases (ok c)) [
  | inl t ↦ (k c t, all-IsPlain ok cs k (rw t at h))
  | inr t ↦ ground arith
]

-- What validation gives.
pub record IsPart (part : List ℕ) (max : ℕ) : Type 0 where
  pub is_plain : IsPlain part
  pub not_empty : 0 < length part
  pub not_long : length part ≤ max

valid-IsPart :
    (ok : ℕ → Bool) (cs : List ℕ) (max : ℕ)
    → ((c : ℕ) → ok c ≡ true → is_valid_user_char c ≡ true)
    → validate_with ok cs max ≡ true
    → IsPart cs max
unfolding validate_with
valid-IsPart ok cs max k h = record {
  is_plain = all-IsPlain ok cs k (ground arith);
  not_empty = ground arith;
  not_long = ground arith;
}

wider : (c : ℕ) → is_valid_name_char c ≡ true → is_valid_user_char c ≡ true
unfolding is_valid_user_char
wider c t = ground arith

same : (c : ℕ) → is_valid_slug_char c ≡ true → is_valid_user_char c ≡ true
unfolding is_valid_user_char is_valid_slug_char
same c t = t

pub name-IsPart : (cs : List ℕ) (max : ℕ) → validate_name cs max ≡ true → IsPart cs max
unfolding validate_name
name-IsPart cs max h = valid-IsPart is_valid_name_char cs max wider h

pub user-IsPart :
    (cs : List ℕ) (max : ℕ) → validate_with is_valid_user_char cs max ≡ true → IsPart cs max
user-IsPart cs max h = valid-IsPart is_valid_user_char cs max (λ c t. t) h

pub slug-IsPart :
    (cs : List ℕ) (max : ℕ) → validate_with is_valid_slug_char cs max ≡ true → IsPart cs max
slug-IsPart cs max h = valid-IsPart is_valid_slug_char cs max same h
