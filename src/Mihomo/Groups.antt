-- ===== src/Mihomo/Groups.antt =====
-- internal/core/mihomo/build.go: `primaryGroup` and `checkGroupNumbers`.
use Prim.Native.String.{String}
use omihomo.Base.{
  ℕ, ◌*◌, Bool, true, false, not, ◌&&◌, ◌||◌, List, [], ◌∷◌, any, find, keep, map, Option, none,
  some, str_eq, ltb, if◌then◌else◌, ◌≡◌, ◌⊎◌, inl, inr, refl, sym, ap, ◌∙◌, eq_refl, split_bool,
  split_option,
}
use omihomo.Engine.{Any, Options, flag, number, negative, real, Group}
use omihomo.Profile.Reader.{get}
use omihomo.Profile.Rules.{one_of}
use omihomo.Profile.Build.Names.{or_true, or_cases}
use omihomo.Profile.Build.Closed.{and_right}

-- `groupNumbers`
abbrev pub group_numbers : List (String × ℕ)
group_numbers =
    ("interval", 7 * 24 * 60 * 60)
    ∷ ("timeout", 5 * 60 * 1000)
    ∷ ("max-failed-times", 1000)
    ∷ ("tolerance", 65535)
    ∷ []

-- the value of one option, which is no number, or is outside 0 and the limit; `whole` is the integer
-- that a `float64` equals, if there is one
abbrev pub check_number : (whole : String → Option Any) → ℕ → Option Any → Option String
check_number whole limit none = none
check_number whole limit (some (number n)) =
    if ltb limit n then some "must be between 0 and the limit" else none
check_number whole limit (some (negative n)) = some "must be between 0 and the limit"
check_number whole limit (some (real s)) = elim (whole s) [
  | some (number n) ↦ if ltb limit n then some "must be between 0 and the limit" else none
  | some (negative n) ↦ some "must be between 0 and the limit"
  | _ ↦ some "is not a whole number"
]
check_number whole limit (some _) = some "is not a number"

-- the loop of `checkGroupNumbers`
unfoldable pub check_numbers :
    (whole : String → Option Any) → List (String × ℕ) → Options → Option String
check_numbers whole [] options = none
check_numbers whole ((key, limit) ∷ ks) options =
    let rest = check_numbers whole ks options in
    elim (check_number whole limit (get key options)) [ none ↦ rest | some why ↦ some why ]

-- `checkGroupNumbers`
unfoldable pub check_group_numbers : (whole : String → Option Any) → Group → Option String
unfolding check_numbers
check_group_numbers whole g = check_numbers whole group_numbers g.options

abbrev pub is_hidden : Group → Bool
is_hidden g = elim (get "hidden" g.options) [ some (flag b) ↦ b | _ ↦ false ]

abbrev first_name : List Group → String
first_name [] = ""
first_name (g ∷ gs) = g.name

abbrev pub chosen : List Group → List Group → List Group
chosen groups [] = groups
chosen groups (v ∷ vs) = v ∷ vs

-- the first group that is a `select`, or else the first
unfoldable pub first_select : List Group → String
unfolding find
first_select groups = elim (find (λ g. str_eq g.kind "select") groups) [
  | none ↦ first_name groups
  | some g ↦ g.name
]

-- `primaryGroup`
unfoldable pub primary_group : List Group → String → String
unfolding any keep first_select
primary_group groups want =
    if not (str_eq want "") && any (λ g. str_eq g.name want) groups
    then want
    else first_select (chosen groups (keep (λ g. not (is_hidden g)) groups))

abbrev pub names : List Group → List String
names gs = map (λ (g : Group). g.name) gs

-- a name of a group, or no name where there is none
abbrev pub OfGroup : List Group → String → Type 0
OfGroup gs n = (one_of (names gs) n ≡ true) ⊎ ((gs ≡ []) × (n ≡ ""))

want-OfGroup :
    (gs : List Group) (want : String) → any (λ g. str_eq g.name want) gs ≡ one_of (names gs) want
unfolding any
want-OfGroup [] want = refl
want-OfGroup (g ∷ gs) want = ap (λ (b : Bool). str_eq g.name want || b) (want-OfGroup gs want)

found-OfGroup :
    (p : Group → Bool) (gs : List Group) (g : Group)
    → find p gs ≡ some g
    → one_of (names gs) g.name ≡ true
unfolding find any
found-OfGroup p [] g h = cc h
found-OfGroup p (x ∷ gs) g h =
    split_bool (λ (o : Option Group). o ≡ some g → one_of (names (x ∷ gs)) g.name ≡ true) (p x) _ _
      (λ k. λ (e : some x ≡ some g). let z : x ≡ g = cc e in rw z (rw (eq_refl g.name) refl))
      (λ k e. rw (found-OfGroup p gs g e) (or_true (str_eq x.name g.name))) h

first_select-OfGroup : (gs : List Group) → OfGroup gs (first_select gs)
unfolding first_select any
first_select-OfGroup [] = inr (refl, refl)
first_select-OfGroup (g ∷ gs) =
    split_option (OfGroup (g ∷ gs)) (find (λ g. str_eq g.kind "select") (g ∷ gs)) _ _
      (λ k. inl (rw (eq_refl g.name) refl))
      (λ x k. inl (found-OfGroup (λ g. str_eq g.kind "select") (g ∷ gs) x k))

kept-names :
    (p : Group → Bool) (gs : List Group) (n : String)
    → one_of (names (keep p gs)) n ≡ true
    → one_of (names gs) n ≡ true
unfolding keep any
kept-names p [] n = λ h. h
kept-names p (g ∷ gs) n =
    split_bool (λ (l : List Group). one_of (names l) n ≡ true → one_of (names (g ∷ gs)) n ≡ true)
      (p g) _ _
      (λ k h. elim (or_cases (str_eq g.name n) _ h) [
        | inl a ↦ rw a refl
        | inr a ↦ rw (kept-names p gs n a) (or_true (str_eq g.name n))
      ])
      (λ k h. rw (kept-names p gs n h) (or_true (str_eq g.name n)))

chosen-OfGroup :
    (gs : List Group) (kept : List Group)
    → ((n : String) → one_of (names kept) n ≡ true → one_of (names gs) n ≡ true)
    → OfGroup gs (first_select (chosen gs kept))
chosen-OfGroup gs [] h = first_select-OfGroup gs
chosen-OfGroup gs (v ∷ vs) h = elim (first_select-OfGroup (v ∷ vs)) [
  | inl k ↦ inl (h _ k)
  | inr (e, _) ↦ cc e
]

-- The primary group is one of the groups, whatever the owner wants, or none where there is none.
pub primary_group-OfGroup : (gs : List Group) (want : String) → OfGroup gs (primary_group gs want)
unfolding primary_group
primary_group-OfGroup gs want =
    split_bool (OfGroup gs) (not (str_eq want "") && any (λ g. str_eq g.name want) gs) _ _
      (λ h. inl (sym (want-OfGroup gs want) ∙ and_right (not (str_eq want "")) _ h))
      (λ h.
        chosen-OfGroup gs (keep (λ g. not (is_hidden g)) gs)
          (kept-names (λ g. not (is_hidden g)) gs))
