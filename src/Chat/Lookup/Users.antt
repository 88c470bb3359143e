-- ===== src/Chat/Lookup/Users.antt =====
-- What mts_find_user of plugins/chat/mts_state.c answers.
use mutineer.Prelude.{
  ℕ, ◌≡◌, ◌⊎◌, ◌∙◌, ap, sym, refl, subst, inl, inr, Bool, true, false, ◌&&◌, ◌||◌, List, [], ◌∷◌,
  ◌==◌, if◌then◌else◌, Bool-cases, arith,
}
use mutineer.Chat.{Session, State}
use mutineer.Chat.Publish.Recipients.{member}
use mutineer.Chat.Lookup.{
  Found, nobody, ambiguous, user, or_other, find_user_from, is_over, matches_query, find_user,
}

-- The answers that fit the sessions of which `seen` holds: nobody if there is none, one of them if
-- they are all of one user, and otherwise that it is ambiguous.
pub data Fits (heap : ℕ → Session) (seen : ℕ → Bool) : Found → Type 0 where
  no_match : ((p : ℕ) → seen p ≡ false) → Fits heap seen nobody
  one_user :
      (f : ℕ)
      → seen f ≡ true
      → ((p : ℕ) → seen p ≡ true → (heap p).user_id ≡ (heap f).user_id)
      → Fits heap seen (user f)
  two_users :
      (p q : ℕ)
      → seen p ≡ true
      → seen q ≡ true
      → ((heap p).user_id == (heap q).user_id) ≡ false
      → Fits heap seen ambiguous

Fits-same :
    (heap : ℕ → Session) (seen seen' : ℕ → Bool) (r : Found)
    → ((x : ℕ) → seen x ≡ seen' x)
    → Fits heap seen r
    → Fits heap seen' r
Fits-same heap seen seen' nobody e (no_match n) = no_match (λ p. sym (e p) ∙ n p)
Fits-same heap seen seen' (user f) e (one_user g s all) =
    one_user g (sym (e g) ∙ s) (λ p t. all p (e p ∙ t))
Fits-same heap seen seen' ambiguous e (two_users p q s t ne) =
    two_users p q (sym (e p) ∙ s) (sym (e q) ∙ t) ne

-- `p` is looked at, too.
abbrev also : (ℕ → Bool) → (ℕ → Bool) → ℕ → ℕ → Bool
also seen matches p x = seen x || (p == x && matches x)

also_self : (seen matches : ℕ → Bool) (p : ℕ) → matches p ≡ true → also seen matches p p ≡ true
also_self seen matches p h = rw h (ground arith)

also-before : (seen matches : ℕ → Bool) (p x : ℕ) → seen x ≡ true → also seen matches p x ≡ true
also-before seen matches p x h = rw h refl

split_or : (a b m : Bool) → (a || (b && m)) ≡ true → (a ≡ true) ⊎ (b ≡ true)
split_or true b m h = inl refl
split_or false true m h = inr refl
split_or false false m h = absurd (cc h)

-- Who is there now was there before, or is p.
also-cases :
    (seen matches : ℕ → Bool) (p x : ℕ) → also seen matches p x ≡ true → (seen x ≡ true) ⊎ (p ≡ x)
also-cases seen matches p x h = elim (split_or (seen x) (p == x) (matches x) h) [
  | inl t ↦ inl t
  | inr t ↦ inr (ground (arith, t))
]

unchanged : (a b m : Bool) → (b ≡ true → m ≡ false) → a ≡ (a || (b && m))
unchanged true b m h = refl
unchanged false true m h = sym (h refl)
unchanged false false m h = refl

also-none : (seen matches : ℕ → Bool) (p x : ℕ) → matches p ≡ false → seen x ≡ also seen matches p x
also-none seen matches p x h =
    unchanged (seen x) (p == x) (matches x)
      (λ e. let same : p ≡ x = ground (arith, e) in subst (λ y. matches y ≡ false) same h)

look :
    (heap : ℕ → Session) (seen matches : ℕ → Bool) (found : Found) (p : ℕ)
    → Fits heap seen found
    → Fits heap (also seen matches p) (if matches p then or_other heap p found else found)
look heap seen matches found p fits = elim (Bool-cases (matches p)) [
  | inl t ↦ rw t (go found fits t)
  | inr t ↦
      rw t
        (Fits-same heap seen (also seen matches p) found (λ x. also-none seen matches p x t) fits)
]
  where
    only :
        (x : ℕ)
        → ((y : ℕ) → seen y ≡ false)
        → (seen x ≡ true) ⊎ (p ≡ x)
        → (heap x).user_id ≡ (heap p).user_id
    only x n (inl t) = let clash : false ≡ true = sym (n x) ∙ t in absurd (cc clash)
    only x n (inr e) = ap (λ y. (heap y).user_id) (sym e)

    agree :
        (x f : ℕ)
        → ((y : ℕ) → seen y ≡ true → (heap y).user_id ≡ (heap f).user_id)
        → ((heap f).user_id == (heap p).user_id) ≡ true
        → (seen x ≡ true) ⊎ (p ≡ x)
        → (heap x).user_id ≡ (heap p).user_id
    agree x f all u (inl t) =
        let same : (heap f).user_id ≡ (heap p).user_id = ground (arith, u) in all x t ∙ same
    agree x f all u (inr e) = ap (λ y. (heap y).user_id) (sym e)

    go :
        (r : Found)
        → Fits heap seen r
        → matches p ≡ true
        → Fits heap (also seen matches p) (or_other heap p r)
    go nobody (no_match n) t =
        one_user p (also_self seen matches p t) (λ x u. only x n (also-cases seen matches p x u))
    go (user f) (one_user g s all) t = elim (Bool-cases ((heap f).user_id == (heap p).user_id)) [
      | inl u ↦ rw u (
          one_user p (also_self seen matches p t)
            (λ x w. agree x f all u (also-cases seen matches p x w)))
      | inr u ↦ rw u (two_users f p (also-before seen matches p f s) (also_self seen matches p t) u)
    ]
    go ambiguous (two_users a b s t' ne) t =
        two_users a b (also-before seen matches p a s) (also-before seen matches p b t') ne

regroup : (a b c m : Bool) → ((a || (b && m)) || (c && m)) ≡ (a || ((b || c) && m))
regroup true b c m = refl
regroup false true c true = refl
regroup false true true false = refl
regroup false true false false = refl
regroup false false c m = refl

nothing_more : (a m : Bool) → a ≡ (a || (false && m))
nothing_more true m = refl
nothing_more false m = refl

find_user_from-Fits :
    (heap : ℕ → Session) (seen matches : ℕ → Bool) (found : Found) (ps : List ℕ)
    → Fits heap seen found
    → Fits heap (λ x. seen x || (member x ps && matches x)) (find_user_from heap matches found ps)
unfolding find_user_from
find_user_from-Fits heap seen matches found [] fits =
    Fits-same heap seen (λ x. seen x || (false && matches x)) found
      (λ x. nothing_more (seen x) (matches x)) fits
find_user_from-Fits heap seen matches found (p ∷ ps) fits =
    let next = if matches p then or_other heap p found else found in
    Fits-same heap (λ x. also seen matches p x || (member x ps && matches x))
      (λ x. seen x || (member x (p ∷ ps) && matches x)) (find_user_from heap matches next ps)
      (λ x. regroup (seen x) (p == x) (member x ps) (matches x))
      (find_user_from-Fits heap (also seen matches p) matches next ps
        (look heap seen matches found p fits))

-- For a text that is not empty, mts_find_user answers with one of the listed sessions that match it
-- if they are all of one user, that the text is ambiguous if they are of several, and otherwise
-- that there is nobody.
pub find_user-Fits :
    (st : State) (nodes : ℕ → ℕ) (strtol : List ℕ → ℕ × List ℕ) (q : List ℕ)
    → is_over q ≡ false
    → Fits st.heap
        (λ p. member p st.sessions && matches_query st.heap nodes strtol q p)
        (find_user st nodes strtol q)
unfolding find_user
find_user-Fits st nodes strtol q h = rw h (
    find_user_from-Fits (st.heap) (λ x. false) (matches_query st.heap nodes strtol q) nobody
      (st.sessions) (no_match (λ p. refl)))
