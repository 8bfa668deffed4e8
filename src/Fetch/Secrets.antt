-- ===== src/Fetch/Secrets.antt =====
-- What an error of a download may say of the URL.
use Prim.Native.String.{String}
use text.Mathlib.TextLemmas.{nil-append, cons-append}
use omihomo.Base.{
  ◌<◌, true, false, not, some, str_eq, ◌≡◌, ◌≢◌, ◌⊎◌, inl, inr, refl, arith, split_bool, append,
  length, codes, Bool-cases, eq_iff,
}
use omihomo.Profile.GroupOptions.{has_prefix}
use omihomo.Fetch.Address.{Url}
use omihomo.Fetch.Causes.{
  Cause, Err, contains, leaks, err_download_address, err_direct_required, err_unavailable,
  err_withheld, unwrap, scrub_cause, scrub,
}

has_prefix-append : (part post : String) → has_prefix part (append part post) ≡ true
unfolding has_prefix
has_prefix-append String.[] post = refl
has_prefix-append (String.◌∷◌ c s) post =
    rw (cons-append c s post) (
      ground (arith, (eq_iff (String.◌∷◌ c "") (String.◌∷◌ c "")).1 refl, has_prefix-append s post))

has_prefix-contains : (part s : String) → has_prefix part s ≡ true → contains part s ≡ true
unfolding contains
has_prefix-contains part String.[] h = h
has_prefix-contains part (String.◌∷◌ c s) h = rw h refl

contains-append : (pre part post : String) → contains part (append pre (append part post)) ≡ true
unfolding contains
contains-append String.[] part post =
    rw (nil-append (append part post))
      (has_prefix-contains part (append part post) (has_prefix-append part post))
contains-append (String.◌∷◌ c pre) part post =
    rw (cons-append c pre (append part post)) (ground (arith, contains-append pre part post))

-- the parts that an error may not quote: the sign of a URL, and the query, the user and the path of `u`
abbrev pub Secret : Url → String → Type 0
Secret u part =
    (part ≡ "://")
    ⊎ ((part ≡ u.raw_query) × (part ≢ ""))
    ⊎ (u.user ≡ some part)
    ⊎ ((part ≡ u.path) × (1 < length (codes part)))

not_empty : (s : String) → s ≢ "" → str_eq s "" ≡ false
not_empty s h = elim (Bool-cases (str_eq s "")) [
  | inl same ↦ elim (h ((eq_iff s "").0 same)) [ ]
  | inr other ↦ other
]

-- `leaks` finds each of them
leaks-Secret :
    (u : Url) (part msg : String) → Secret u part → contains part msg ≡ true → leaks u msg ≡ true
unfolding leaks
leaks-Secret u part msg (inl e) k = let k' = rw e at k in ground (arith, k')
leaks-Secret u part msg (inr (inl (e, h))) k =
    let n : str_eq u.raw_query "" ≡ false = rw e at (not_empty part h) in
    let k' : contains u.raw_query msg ≡ true = rw e at k in ground (arith, n, k')
leaks-Secret u part msg (inr (inr (inl e))) k = rw e (ground (arith, k))
leaks-Secret u part msg (inr (inr (inr (e, h)))) k =
    let k' : contains u.path msg ≡ true = rw e at k in
    let n : 1 < length (codes u.path) = rw e at h in ground (arith, n, k')

-- one of the errors whose text is fixed
abbrev pub Fixed : Cause → Type 0
Fixed x =
    (x ≡ err_download_address)
    ⊎ (x ≡ err_direct_required)
    ⊎ (x ≡ err_unavailable)
    ⊎ (x ≡ err_withheld)

-- the cause is replaced, or passed on: then its kind is known and it quotes nothing
abbrev Clean : Cause → Url → Cause → Type 0
Clean x u r = Fixed r ⊎ ((r ≡ x) × (r.known ≡ true) × (leaks u r.message ≡ false))

scrub_cause-Clean : (x : Cause) (u : Url) → Clean x u (scrub_cause x u)
unfolding scrub_cause
scrub_cause-Clean x u =
    let P : Cause → Type 0 = Clean x u in
    split_bool P x.download_address _ _ (λ h. inl (inl refl))
      (λ h.
        split_bool P x.direct_required _ _ (λ h. inl (inr (inl refl)))
          (λ h.
            split_bool P x.unavailable _ _ (λ h. inl (inr (inr (inl refl))))
              (λ h.
                split_bool P (not x.known) _ _ (λ k. inl (inr (inr (inr refl))))
                  (λ k.
                    split_bool P (leaks u x.message) _ _ (λ l. inl (inr (inr (inr refl))))
                      (λ l. inr (refl, ground (arith, k), l))))))

-- The error that `scrub` returns is one of four whose text is fixed, or it is the cause itself, of a
-- known kind, and its text has no "://" in it, nor the query or the user of the URL, if it has one, nor
-- its path, if that is longer than one character.
pub scrub-Clean :
    (e : Err) (u : Url) (part pre post : String)
    → Secret u part
    → Fixed (scrub e u)
      ⊎ ((scrub e u ≡ unwrap e)
          × ((scrub e u).known ≡ true)
          × ((scrub e u).message ≢ append pre (append part post)))
unfolding scrub
scrub-Clean e u part pre post secret = elim (scrub_cause-Clean (unwrap e) u) [
  | inl f ↦ inl f
  | inr (same, k, l) ↦ inr (
    same,
    k,
    λ q.
        let msg = (scrub_cause (unwrap e) u).message in
        cc (l, leaks-Secret u part msg secret (rw q (contains-append pre part post))),
  )
]
