-- ===== src/Base/Split.antt =====
-- `strings.Split` at one character, and what it has to do with `strings.Join`.
use Prim.Native.Char.{Char, code}
use Prim.Native.String.{String}
use Prim.Native.String.{◌++◌ as append}
use mathlib.Core.Path.{◌≡◌, refl, sym, ap, ◌∙◌}
use mathlib.Core.Logic.{inl, inr}
use mathlib.Core.Bool.{Bool, false, ◌||◌}
use mathlib.Core.List.{List, [], ◌∷◌, ◌++◌}
use native.Mathlib.Omega.{arith}
use text.Mathlib.TextEquality.{Char-path}
use text.Mathlib.TextLemmas.{nil-append, cons-append, append-nil, append_assoc}
use omihomo.Base.Tests.{◌==◌, if◌then◌else◌, Bool-cases}
use omihomo.Base.Texts.{join_with}

-- `strings.Contains` of one character
unfoldable pub holds : Char → String → Bool
holds x String.[] = false
holds x (String.◌∷◌ c s) = code c == code x || holds x s

abbrev pub one : Char → String
one x = String.◌∷◌ x ""

-- the first part, and the parts behind it
pub pieces : Char → String → String × List String
pieces x String.[] = ("", [])
pieces x (String.◌∷◌ c s) =
    let (w, ws) = pieces x s in if code c == code x then ("", w ∷ ws) else (String.◌∷◌ c w, ws)

unfoldable pub split_on : Char → String → List String
unfolding pieces
split_on x s = let (w, ws) = pieces x s in w ∷ ws

-- the parts hold no separator
abbrev pub Lacks : Char → List String → Type 0
Lacks x [] = Unit
Lacks x (w ∷ ws) = (holds x w ≡ false) × Lacks x ws

module _ (x : Char) where
  -- a text that holds no separator is one part
  pieces-append :
      (w : String) (s : String)
      → holds x w ≡ false
      → pieces x (append w s) ≡ (append w (pieces x s).0, (pieces x s).1)
  unfolding pieces holds
  pieces-append String.[] s h = rw (nil-append s) (rw (nil-append (pieces x s).0) refl)
  pieces-append (String.◌∷◌ c w) s h =
      let k : (code c == code x) ≡ false = ground arith in
      let m : holds x w ≡ false = ground arith in
      rw (cons-append c w s)
        (rw (pieces-append w s m) (rw (cons-append c w (pieces x s).0) (rw k refl)))

  pieces_at_sep : (s : String) → pieces x (String.◌∷◌ x s) ≡ ("", split_on x s)
  unfolding pieces split_on
  pieces_at_sep s = ground arith

  pieces_of : (w : String) → holds x w ≡ false → pieces x w ≡ (w, [])
  unfolding pieces
  pieces_of w h =
      ap (pieces x) (sym (append-nil w))
      ∙ pieces-append w "" h
      ∙ ap (λ (v : String). (v, [])) (append-nil w)

  one-append : (s : String) → append (one x) s ≡ String.◌∷◌ x s
  one-append s = cons-append x "" s ∙ ap (λ (t : String). String.◌∷◌ x t) (nil-append s)

  -- a first part, and more behind it
  pub join_with-cons :
      (w v : String) (vs : List String)
      → join_with (one x) (w ∷ v ∷ vs) ≡ append w (String.◌∷◌ x (join_with (one x) (v ∷ vs)))
  unfolding join_with
  join_with-cons w v vs = ap (append w) (one-append (join_with (one x) (v ∷ vs)))

  join_with-char :
      (c : Char) (w : String) (ws : List String)
      → join_with (one x) (String.◌∷◌ c w ∷ ws) ≡ String.◌∷◌ c (join_with (one x) (w ∷ ws))
  unfolding join_with
  join_with-char c w [] = refl
  join_with-char c w (v ∷ vs) = cons-append c w _

  -- Parts that are joined already may be joined with the rest.
  pub join_with-join_with :
      (w : String) (ws : List String) (v : String) (vs : List String)
      → join_with (one x) (join_with (one x) (w ∷ ws) ∷ v ∷ vs)
        ≡ join_with (one x) ((w ∷ ws) ++ v ∷ vs)
  join_with-join_with w [] v vs = unfold join_with in refl
  join_with-join_with w (u ∷ us) v vs =
      join_with-cons (join_with (one x) (w ∷ u ∷ us)) v vs
      ∙ rw (join_with-cons w u us) (
          append_assoc w _ _
          ∙ ap (append w) (
              cons-append x _ _
              ∙ ap (λ (t : String). String.◌∷◌ x t)
                  (sym (join_with-cons (join_with (one x) (u ∷ us)) v vs)
                    ∙ join_with-join_with u us v vs)))
      ∙ sym (join_with-cons w u (us ++ v ∷ vs))

  -- Splitting a join gives the parts back, if none holds the separator.
  pub split_on-join_with :
      (w : String) (ws : List String)
      → Lacks x (w ∷ ws)
      → split_on x (join_with (one x) (w ∷ ws)) ≡ w ∷ ws
  unfolding split_on join_with
  split_on-join_with w [] (h, _) = ap (λ (p : String × List String). p.0 ∷ p.1) (pieces_of w h)
  split_on-join_with w (v ∷ vs) (h, hs) =
      ap (split_on x) (join_with-cons w v vs)
      ∙ ap (λ (p : String × List String). p.0 ∷ p.1)
          (pieces-append w _ h
            ∙ rw (pieces_at_sep (join_with (one x) (v ∷ vs)))
                (rw (append-nil w) (ap (λ (l : List String). (w, l)) (split_on-join_with v vs hs))))

  -- Joining the parts of a split gives the text back.
  pub join_with-split_on : (s : String) → join_with (one x) (split_on x s) ≡ s
  unfolding split_on pieces
  join_with-split_on String.[] = unfold join_with in refl
  join_with-split_on (String.◌∷◌ c s) = elim (Bool-cases (code c == code x)) [
    | inl same ↦ rw same (
        join_with-cons "" (pieces x s).0 (pieces x s).1
        ∙ nil-append _
        ∙ rw (join_with-split_on s)
            (ap (λ (d : Char). String.◌∷◌ d s) (Char-path x c (ground (arith, same)))))
    | inr other ↦ rw other (
        join_with-char c (pieces x s).0 (pieces x s).1
        ∙ ap (λ (t : String). String.◌∷◌ c t) (join_with-split_on s))
  ]

  pub split_on-Lacks : (s : String) → Lacks x (split_on x s)
  unfolding split_on holds pieces
  split_on-Lacks String.[] = (refl, tt)
  split_on-Lacks (String.◌∷◌ c s) =
      let ih = split_on-Lacks s in
      elim (Bool-cases (code c == code x)) [
        | inl same ↦ rw same (refl, ih)
        | inr other ↦ rw other (ground (arith, other), ih.1)
      ]

-- a split has a first part
pub split_on-cons : (x : Char) (s : String) → split_on x s ≡ (pieces x s).0 ∷ (pieces x s).1
unfolding split_on
split_on-cons x s = refl
