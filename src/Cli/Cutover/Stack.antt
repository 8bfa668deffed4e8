-- ===== src/Cli/Cutover/Stack.antt =====
-- What stands on the stack of a cutover takes its files back to what they were.
use omihomo.Base.{
  Bool, Bool-cases, true, false, ◌&&◌, List, [], ◌∷◌, Option, none, some, str_eq, eq_iff, eq_refl,
  ◌≡◌, refl, sym, ap, ◌∙◌, inl, inr, arith,
}
use omihomo.Cli.Cutover.{
  Root, system, home, config, Key, Node, Files, same_root, same_key, set, Undo, rename_back, remove,
  revert,
}

same_root-eq : (r s : Root) → same_root r s ≡ true → r ≡ s
same_root-eq system system e = refl
same_root-eq home home e = refl
same_root-eq config config e = refl
same_root-eq system home e = cc e
same_root-eq system config e = cc e
same_root-eq home system e = cc e
same_root-eq home config e = cc e
same_root-eq config system e = cc e
same_root-eq config home e = cc e

same_root_refl : (r : Root) → same_root r r ≡ true
same_root_refl system = refl
same_root_refl home = refl
same_root_refl config = refl

both : (a b : Bool) → (a && b) ≡ true → (a ≡ true) × (b ≡ true)
both a b e = (ground arith, ground arith)

pub same_key-eq : (k l : Key) → same_key k l ≡ true → k ≡ l
unfolding same_key
same_key-eq k l e =
    let (r, n) = both (same_root k.root l.root) (str_eq k.name l.name) e in
    cc (same_root-eq k.root l.root r, (eq_iff k.name l.name).0 n)

pub same_key_refl : (k : Key) → same_key k k ≡ true
unfolding same_key
same_key_refl k = rw (same_root_refl k.root, eq_refl k.name) refl

-- two states of the files that agree at every name are one
pub files-eq : (fs gs : Files) → ((k : Key) → fs k ≡ gs k) → fs ≡ gs
files-eq fs gs h = λ i k. h k i

pub set-set : (k : Key) (v w : Option Node) (fs : Files) → set k v (set k w fs) ≡ set k v fs
unfolding set
set-set k v w fs =
    files-eq _ _ (λ l. elim (Bool-cases (same_key k l)) [ inl e ↦ rw e refl | inr e ↦ rw e refl ])

pub set-id : (k : Key) (v : Option Node) (fs : Files) → fs k ≡ v → set k v fs ≡ fs
unfolding set
set-id k v fs h = files-eq _ _ (λ l. elim (Bool-cases (same_key k l)) [
  | inl e ↦ rw e (sym h ∙ ap fs (same_key-eq k l e))
  | inr e ↦ rw e refl
])

pub set-here : (k : Key) (v : Option Node) (fs : Files) → set k v fs k ≡ v
unfolding set
set-here k v fs = rw (same_key_refl k) refl

pub set-there :
    (k l : Key) (v : Option Node) (fs : Files) → same_key k l ≡ false → set k v fs l ≡ fs l
unfolding set
set-there k l v fs e = rw e refl

differ {ℓ} : {A : Type ℓ} (k l : Key) → same_key k l ≡ false → k ≡ l → A
differ k l other e =
    let x : same_key k k ≡ false = ap (same_key k) e ∙ other in cc (sym (same_key_refl k) ∙ x)

pub set_comm :
    (k l : Key) (v w : Option Node) (fs : Files)
    → same_key k l ≡ false
    → set k v (set l w fs) ≡ set l w (set k v fs)
unfolding set
set_comm k l v w fs other = files-eq _ _ (λ j. elim (Bool-cases (same_key k j)) [
  | inl e ↦ elim (Bool-cases (same_key l j)) [
    | inl f ↦ differ k l other (same_key-eq k j e ∙ sym (same_key-eq l j f))
    | inr f ↦ rw (e, f) refl
  ]
  | inr e ↦ elim (Bool-cases (same_key l j)) [ inl f ↦ rw (e, f) refl | inr f ↦ rw (e, f) refl ]
])

-- the steps of a stack, the first of the list first
unfoldable pub undone : List Undo → Files → Option Files
unfolding revert
undone [] fs = some fs
undone (u ∷ us) fs = elim (revert u fs) [ none ↦ none | some gs ↦ undone us gs ]

pub undone-step :
    (u : Undo) (us : List Undo) (fs gs : Files)
    → revert u gs ≡ some fs
    → undone (u ∷ us) gs ≡ undone us fs
unfolding undone
undone-step u us fs gs e = rw (undone, e) refl

taken : {v : Node} (fs : Files) (k b : Key) → fs k ≡ some v → fs b ≡ none → same_key b k ≡ false
taken fs k b ek eb = elim (Bool-cases (same_key b k)) [
  | inl e ↦ cc (sym ek ∙ ap fs (sym (same_key-eq b k e)) ∙ eb)
  | inr e ↦ e
]

turned : (k b : Key) → same_key b k ≡ false → same_key k b ≡ false
turned k b e = elim (Bool-cases (same_key k b)) [
  | inl f ↦ differ b k e (sym (same_key-eq k b f))
  | inr f ↦ f
]

-- also where something else stands at the name in the meantime
pub revert-rename :
    (k b : Key) (x : Option Node) (v : Node) (fs : Files)
    → fs k ≡ some v
    → fs b ≡ none
    → revert (rename_back b k) (set k x (set b (some v) fs)) ≡ some fs
unfolding revert
revert-rename k b x v fs ek eb =
    let apart = turned k b (taken fs k b ek eb) in
    rw (revert, set-there k b x (set b (some v) fs) apart, set-here b (some v) fs)
      (ap some (
        ap (set k (some v)) (sym (set_comm k b x none (set b (some v) fs) apart))
        ∙ set-set k (some v) x (set b none (set b (some v) fs))
        ∙ ap (set k (some v)) (set-set b none (some v) fs ∙ set-id b none fs eb)
        ∙ set-id k (some v) fs ek))

pub revert-remove :
    (k : Key) (v : Node) (fs : Files)
    → fs k ≡ none
    → revert (remove k) (set k (some v) fs) ≡ some fs
unfolding revert
revert-remove k v fs e =
    rw (revert, set-here k (some v) fs) (ap some (set-set k none (some v) fs ∙ set-id k none fs e))
