-- ===== src/Orchestrator/Slugs.antt =====
-- services/orchestrator/src/orchestrator/groupchat.py: the internal names of the participants. The
-- character classes and the decimal digits of a number are parameters.
use Prim.Native.Nat.{zero, suc}
use mathlib.Core.Path.{subst}
use agent_exec_platform.Common.{
  ℕ, ◌+◌, ◌≤◌, ◌==◌, Bool, true, false, Option, none, some, List, [], ◌∷◌, ◌++◌, map, reverse, Text,
  codes, text_eq, text_eq_iff, contains, length, length-append, ◌≡◌, ◌≢◌, refl, sym, ap, ◌∙◌,
  Bool-cases, inl, inr, arith, if◌then◌else◌,
}

pub record Characters : Type 0 where
  -- what \w matches
  pub is_word : ℕ → Bool
  -- str.isdigit
  pub is_digit : ℕ → Bool
  pub digits : ℕ → Text

abbrev underscore : ℕ
underscore = 95

unfoldable pub drop_underscores : Text → Text
drop_underscores [] = []
drop_underscores (c ∷ s) = if c == underscore then drop_underscores s else c ∷ s

-- s.strip("_")
unfoldable pub strip_underscores : Text → Text
unfolding drop_underscores
strip_underscores s = reverse (drop_underscores (reverse (drop_underscores s)))

abbrev or_agent : Text → Text
or_agent [] = codes "agent"
or_agent (c ∷ s) = c ∷ s

abbrev with_letter : Characters → Text → Text
with_letter k [] = []
with_letter k (c ∷ s) = if k.is_digit c then codes "a_" ++ c ∷ s else c ∷ s

-- The slug before it is made distinct.
unfoldable pub base_slug : Characters → Text → Text
unfolding strip_underscores
base_slug k name =
    with_letter k
      (or_agent (strip_underscores (map (λ c. if k.is_word c then c else underscore) name)))

-- f"{base}_{i}"
abbrev pub numbered : Characters → Text → ℕ → Text
numbered k base i = base ++ (codes "_" ++ k.digits i)

-- The loop of `_slugify` on fuel.
unfoldable pub free_slug : Characters → List Text → Text → ℕ → ℕ → Text → Option Text
unfolding contains
free_slug k taken base zero i slug = if contains taken slug then none else some slug
free_slug k taken base (suc fuel) i slug =
    let rest = free_slug k taken base fuel (i + 1) (numbered k base i) in
    if contains taken slug then rest else some slug

-- _slugify and its `taken.add`; a loop needs no more rounds than names are taken
unfoldable pub slugify : Characters → Text → List Text → Option Text
unfolding base_slug free_slug
slugify k name taken = let base = base_slug k name in free_slug k taken base (length taken) 2 base

abbrev and_then : Option Text → (Text → Option (List Text)) → Option (List Text)
and_then none f = none
and_then (some s) f = f s

abbrev after_slug : Text → Option (List Text) → Option (List Text)
after_slug slug none = none
after_slug slug (some rest) = some (slug ∷ rest)

-- The slugs of all participants, in order.
unfoldable pub slugify_all : Characters → List Text → List Text → Option (List Text)
unfolding slugify
slugify_all k [] taken = some []
slugify_all k (name ∷ names) taken =
    and_then (slugify k name taken) (λ slug. after_slug slug (slugify_all k names (slug ∷ taken)))

-- The list without the first element equal to a text.
remove : Text → List Text → List Text
remove x [] = []
remove x (y ∷ ys) = let rest = remove x ys in if text_eq y x then ys else y ∷ rest

length-remove :
    (x : Text) (l : List Text) → contains l x ≡ true → length l ≡ length (remove x l) + 1
unfolding remove contains
length-remove x [] h = ground arith
length-remove x (y ∷ ys) h = ground (arith, length-remove x ys)

contains-remove :
    (x z : Text) (l : List Text) → contains l z ≡ true → x ≢ z → contains (remove x l) z ≡ true
unfolding remove contains
contains-remove x z [] h n = ground arith
contains-remove x z (y ∷ ys) h n =
    ground (arith, contains-remove x z ys, text_eq_iff y x, text_eq_iff y z)

module _ (k : Characters) (digits_injective : (i j : ℕ) → k.digits i ≡ k.digits j → i ≡ j) where
  -- The texts that the loop tries one after the other.
  abbrev candidate : Text → ℕ → Text
  candidate base zero = base
  candidate base (suc n) = numbered k base (n + 2)

  abbrev tail_of : Text → Text
  tail_of [] = []
  tail_of (c ∷ s) = s

  append-injective : (a s t : Text) → a ++ s ≡ a ++ t → s ≡ t
  append-injective [] s t h = h
  append-injective (c ∷ a) s t h = append-injective a s t (ap tail_of h)

  numbered-longer : (base : Text) (i : ℕ) → base ≡ numbered k base i → ⊥
  numbered-longer base i h =
      ground (arith, ap length h, length-append base (codes "_" ++ k.digits i))

  candidate-injective : (base : Text) (m n : ℕ) → candidate base m ≡ candidate base n → m ≡ n
  candidate-injective base zero zero h = refl
  candidate-injective base zero (suc n) h = absurd (numbered-longer base (n + 2) h)
  candidate-injective base (suc m) zero h = absurd (numbered-longer base (m + 2) (sym h))
  candidate-injective base (suc m) (suc n) h =
      let same : m + 2 ≡ n + 2 = digits_injective (m + 2) (n + 2) (
        ap tail_of (
          append-injective base (codes "_" ++ k.digits (m + 2)) (codes "_" ++ k.digits (n + 2))
            h)) in
      omega arith

  contains-length : (l : List Text) (x : Text) → contains l x ≡ true → 1 ≤ length l
  unfolding contains
  contains-length [] x h = ground arith
  contains-length (y ∷ ys) x h = omega arith

  -- A list that holds every candidate which is taken bounds the rounds of the loop.
  free_slug-some :
      (taken : List Text) (base : Text) (fuel n i : ℕ) (slug : Text) (l : List Text)
      → i ≡ n + 2
      → slug ≡ candidate base n
      → length l ≤ fuel
      → ((j : ℕ)
          → n ≤ j
          → contains taken (candidate base j) ≡ true
          → contains l (candidate base j) ≡ true)
      → (s : Text) × (free_slug k taken base fuel i slug ≡ some s) × (contains taken s ≡ false)
  unfolding free_slug
  free_slug-some taken base zero n i slug l at this bound holds =
      elim (Bool-cases (contains taken slug)) [
        | inl used ↦ absurd (
            omega (
              arith,
              contains-length l (candidate base n)
                  (holds n (omega arith) (subst (λ c. contains taken c ≡ true) this used)),
            ))
        | inr free ↦ (slug, rw free refl, free)
      ]
  free_slug-some taken base (suc fuel) n i slug l at this bound holds =
      elim (Bool-cases (contains taken slug)) [
        | inl used ↦
            let held : contains l (candidate base n) ≡ true =
              holds n (omega arith) (subst (λ c. contains taken c ≡ true) this used) in
            let (s, found, free) =
              free_slug-some taken base fuel (suc n) (i + 1) (numbered k base i)
                (remove (candidate base n) l) (omega arith) (ap (numbered k base) at)
                (omega (arith, length-remove (candidate base n) l held))
                (λ j le t.
                  contains-remove (candidate base n) (candidate base j) l (holds j (omega arith) t)
                    (λ e. absurd (omega (arith, candidate-injective base n j e)))) in
            (s, rw used found, free)
        | inr free ↦ (slug, rw free refl, free)
      ]

  -- The loop ends, and what it gives is not taken yet.
  pub slugify-fresh :
      (name : Text) (taken : List Text)
      → (s : Text) × (slugify k name taken ≡ some s) × (contains taken s ≡ false)
  unfolding slugify
  slugify-fresh name taken =
      free_slug-some taken (base_slug k name) (length taken) 0 2 (base_slug k name) taken refl refl
        (omega arith) (λ j le t. t)

  -- The slugs that a list of names gets: none is taken before, and each is free of those before it.
  abbrev pub IsFresh : List Text → List Text → Type 0
  IsFresh taken [] = Unit
  IsFresh taken (s ∷ ss) = (contains taken s ≡ false) × IsFresh (s ∷ taken) ss

  -- When different numbers have different digits, every list of names gets as many slugs, and they are
  -- distinct from one another and from the slugs that were taken before.
  pub slugify_all-IsFresh :
      (names taken : List Text)
      → (slugs : List Text) × (slugify_all k names taken ≡ some slugs)
        × (length slugs ≡ length names)
        × IsFresh taken slugs
  unfolding slugify_all
  slugify_all-IsFresh [] taken = ([], refl, refl, tt)
  slugify_all-IsFresh (name ∷ names) taken =
      let (s, found, free) = slugify-fresh name taken in
      let (ss, rest, same, fresh) = slugify_all-IsFresh names (s ∷ taken) in
      (
        s ∷ ss,
        ap (λ o. and_then o (λ slug. after_slug slug (slugify_all k names (slug ∷ taken)))) found
            ∙ ap (after_slug s) rest,
        omega arith,
        (free, fresh),
      )
