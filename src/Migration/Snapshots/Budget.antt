-- ===== src/Migration/Snapshots/Budget.antt =====
-- What an import reads and downloads is within one limit.
use Prim.Native.String.{String}
use omihomo.Base.{
  ℕ, ◌+◌, ◌-◌, ◌≤◌, not, ◌||◌, ◌&&◌, List, [], ◌∷◌, str_eq, ltb, ◌==◌, length, ◌≡◌, refl, sym,
  arith, split_option, split_bool,
}
use omihomo.Update.Transfer.{size}
use omihomo.Profile.GroupOptions.{has_prefix}
use omihomo.Migration.Reads.{
  Old, OldFile, Opened, absent, refused, opened, Read, text, missing, failed, Result, ok, err,
  read_opened, read,
}
use omihomo.Migration.Snapshots.{
  Def, Doc, Download, World, Snap, put, file_taken, file_body, built, read_path, or_cache, or_get,
  provider_body, bodies_of, Taken, parsed_snapshot, read_snapshot, snapshot,
}

-- a text that was read is within the limit
abbrev pub Within : ℕ → Read → Type 0
Within limit (text s) = size s ≤ limit
Within limit missing = Unit
Within limit (failed why) = Unit

read_opened-Within : (f : OldFile) (limit : ℕ) → Within limit (read_opened f limit)
unfolding read_opened
read_opened-Within f limit =
    split_option (Within limit) f.stat_error _ _
      (λ e.
        split_bool (Within limit) (not f.regular) _ _ (λ k. tt)
          (λ k.
            split_bool (Within limit) (ltb limit f.announced) _ _ (λ l. tt)
              (λ l.
                split_bool (Within limit) (ltb limit (size f.content)) _ _ (λ n. tt)
                  (λ n.
                    split_option (Within limit) f.broken _ _ (λ b. ground (arith, n))
                      (λ why b. tt)))))
      (λ why e. tt)

read_as :
    (limit : ℕ) (o : Opened) (why : String → Read)
    → ((s : String) → Within limit (why s))
    → Within limit (elim o as (λ x. Read) [
      | absent ↦ missing
      | refused s ↦ why s
      | opened f ↦ read_opened f limit
    ])
read_as limit absent why h = tt
read_as limit (refused s) why h = h s
read_as limit (opened f) why h = read_opened-Within f limit

pub read-Within : (old : Old) (name : String) (limit : ℕ) → Within limit (read old name limit)
unfolding read
read-Within old name limit = read_as limit (old name) _ (λ s. tt)

-- the size of all bodies
abbrev pub total : List (String × String) → ℕ
total [] = 0
total ((k, b) ∷ m) = size b + total m

put-total : (k b : String) (m : List (String × String)) → total (put k b m) ≤ total m + size b
unfolding put
put-total k b [] = omega arith
put-total k b ((k', b') ∷ m) =
    split_bool (λ (x : List (String × String)). total x ≤ size b' + total m + size b) (str_eq k' k)
      _ _ (λ e. omega arith) (λ e. omega (arith, put-total k b m))

-- the fetcher returns no more than it is asked for
abbrev pub Limited : World → Type 0
Limited w =
    (url : String) (limit : ℕ) (t : w.T) (b : String)
    → (w.get url limit t).0 ≡ ok b
    → size b ≤ limit

split_result {ℓ} :
    {A B : Type 0} (P : B → Type ℓ) (x : Result A) (f : A → B) (g : String → B)
    → ((a : A) → x ≡ ok a → P (f a))
    → ((y : String) → x ≡ err y → P (g y))
    → P (elim x [ ok a ↦ f a | err y ↦ g y ])
split_result P (ok a) f g h k = h a refl
split_result P (err y) f g h k = k y refl

module _ (w : World) (old : Old) where
  -- a result that is within the limit
  abbrev Fits : ℕ → Result String × w.T → Type 0
  Fits limit r = (b : String) → r.0 ≡ ok b → size b ≤ limit

  or_get-Fits :
      (r : Read) (p : Download) (left : ℕ) (t : w.T)
      → Limited w
      → Within left r
      → Fits left (or_get w old r p left t)
  unfolding or_get
  or_get-Fits (text body) p left t l h = λ b e. let same : body ≡ b = cc e in rw (sym same) h
  or_get-Fits (failed why) p left t l h = λ b e. cc e
  or_get-Fits missing p left t l h =
      split_bool (Fits left) (left == 0) _ _ (λ k b e. cc e)
        (λ k. named-Fits p.name (w.get p.url left t).0 (λ b e. l p.url left t b e))
    where
      named-Fits :
          (name : String) (r : Result String)
          → ((b : String) → r ≡ ok b → size b ≤ left)
          → (b : String) → omihomo.Migration.Snapshots.named w old name r ≡ ok b
          → size b ≤ left
      named-Fits name (ok body) h b e = h b e
      named-Fits name (err why) h b e = cc e

  or_cache-Within :
      (r : Read) (p : Download) (left : ℕ) → Within left r → Within left (or_cache w old r p left)
  unfolding or_cache
  or_cache-Within missing p left h = read-Within old _ left
  or_cache-Within (text s) p left h = h
  or_cache-Within (failed why) p left h = tt

  read_path-Within : (d : Def) (left : ℕ) → Within left (read_path w old d left)
  unfolding read_path
  read_path-Within d left =
      split_bool (Within left) (not (str_eq d.path "") && w.is_local d.path) (read old d.path left)
        missing (λ e. read-Within old d.path left) (λ e. tt)

  provider_body-Fits :
      (doc : Doc) (p : Download) (left : ℕ) (t : w.T)
      → Limited w
      → Fits left (provider_body w old doc p left t)
  unfolding provider_body
  provider_body-Fits doc p left t l =
      or_get-Fits _ p left t l (or_cache-Within _ p left (read_path-Within _ left))

  -- the bodies and what is left come to no more than before
  abbrev Spent : ℕ → Result (List (String × String) × ℕ) × w.T → Type 0
  Spent n r = (q : List (String × String) × ℕ) → r.0 ≡ ok q → total q.0 + q.1 ≤ n

  bodies_of-Spent :
      (doc : Doc) (ps : List Download) (bodies : List (String × String)) (left : ℕ) (t : w.T)
      → Limited w
      → Spent (total bodies + left) (bodies_of w old doc ps bodies left t)
  unfolding bodies_of
  bodies_of-Spent doc [] bodies left t l =
      λ q e. let same : (bodies, left) ≡ q = cc e in rw (sym same) (omega arith)
  bodies_of-Spent doc (p ∷ ps) bodies left t l =
      let r = provider_body w old doc p left t in
      let fits : Fits left r = provider_body-Fits doc p left t l in
      split_result (Spent (total bodies + left)) r.0 _ _
        (λ body e q k.
          let h = bodies_of-Spent doc ps (put p.key body bodies) (left - size body) r.1 l q k in
          omega (arith, h, put-total p.key body bodies, fits body e))
        (λ why e q k. cc k)

  -- what a file provider leaves of the limit
  abbrev Less : ℕ → Result (String × ℕ) → Type 0
  Less n r = (body : String) (left : ℕ) → r ≡ ok (body, left) → left ≤ n

  file_taken-Less :
      (next : String → ℕ → Result (String × ℕ)) (left : ℕ) (r : Read)
      → ((raw : String) (n : ℕ) → Less n (next raw n))
      → Less left (file_taken next left r)
  unfolding file_taken
  file_taken-Less next left (text raw) h b n e = omega (arith, h raw (left - size raw) b n e)
  file_taken-Less next left missing h b n e = cc e
  file_taken-Less next left (failed why) h b n e = cc e

  file_body-Less :
      (ds : List (String × Def)) (count : ℕ) (body : String) (left : ℕ)
      → Less left (file_body w old ds count body left)
  unfolding file_body
  file_body-Less [] count body left =
      λ b n e. let same : left ≡ n = cc e in rw (sym same) (omega arith)
  file_body-Less ((name, d) ∷ ds) count body left =
      split_bool (Less left) (not (str_eq d.kind "file")) _ _
        (λ e. file_body-Less ds count body left)
        (λ e.
          split_bool (Less left)
            (not (count == 1) || not (has_prefix "./providers/" d.path) || not (w.is_local d.path))
            _ _ (λ k b n q. cc q)
            (λ k. file_taken-Less _ left (read old d.path left) (file_body-Less ds count)))

  -- the snapshot and what is left come to no more than the limit
  abbrev pub InBudget : ℕ → Result (Taken w old) × w.T → Type 0
  InBudget n r = (q : Taken w old) → r.0 ≡ ok q → total q.0.0.providers + q.1 ≤ n

  built-InBudget :
      (d : w.Parsed) (body : String) (left : ℕ) (r : Result (List (String × String) × ℕ))
      → ((q : List (String × String) × ℕ) → r ≡ ok q → total q.0 + q.1 ≤ left)
      → (q : Taken w old) → built w old d body r ≡ ok q
      → total q.0.0.providers + q.1 ≤ left
  built-InBudget d body left (err why) h = λ q e. cc e
  built-InBudget d body left (ok (bodies, n)) h =
      split_option
        (λ (x : Result (Taken w old)).
          (q : Taken w old) → x ≡ ok q → total q.0.0.providers + q.1 ≤ left)
        (w.build d bodies) _ _ (λ e q k. cc k)
        (λ p e q k.
          let same : ((record { body = body; providers = bodies }, p), n) ≡ q = cc k in
          rw (sym same) (h (bodies, n) refl))

  parsed_snapshot-InBudget :
      (doc : Doc) (body : String) (left : ℕ) (t : w.T)
      → Limited w
      → InBudget left (parsed_snapshot w old doc body left t)
  unfolding parsed_snapshot
  parsed_snapshot-InBudget doc body left t l =
      split_option (InBudget left) (w.parse body) _ _ (λ e q k. cc k)
        (λ d e.
          split_bool (InBudget left) (ltb 64 (length (w.downloads d))) _ _ (λ k q x. cc x)
            (λ k.
              let r = bodies_of w old doc (w.downloads d) [] left t in
              built-InBudget d body left r.0
                (λ q x. omega (arith, bodies_of-Spent doc (w.downloads d) [] left t l q x))))

  read_snapshot-InBudget :
      (doc : Doc) (r : Result (String × ℕ)) (left : ℕ) (t : w.T)
      → Limited w
      → Less left r
      → InBudget left (read_snapshot w old doc r t)
  unfolding read_snapshot
  read_snapshot-InBudget doc (err why) left t l h = λ q e. cc e
  read_snapshot-InBudget doc (ok (body, n)) left t l h =
      λ q e. omega (arith, parsed_snapshot-InBudget doc body n t l q e, h body n refl)

  snapshot-InBudget :
      (body : String) (left : ℕ) (t : w.T) → Limited w → InBudget left (snapshot w old body left t)
  unfolding snapshot
  snapshot-InBudget body left t l =
      split_option (InBudget left) (w.yaml body) _ _ (λ e q k. cc k)
        (λ doc e.
          read_snapshot-InBudget doc
            (file_body w old doc.providers (length doc.providers) body left) left t l
            (file_body-Less doc.providers (length doc.providers) body left))

-- The bodies of a snapshot's providers, and what is left of the limit after it, come to no more than the limit, if
-- the fetcher returns no more than it is asked for.
pub snapshot-budget :
    (w : World) (old : Old) (body : String) (left : ℕ) (t : w.T) (q : Taken w old)
    → Limited w
    → (snapshot w old body left t).0 ≡ ok q
    → total q.0.0.providers + q.1 ≤ left
snapshot-budget w old body left t q l e = snapshot-InBudget w old body left t l q e
