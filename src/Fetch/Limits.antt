-- ===== src/Fetch/Limits.antt =====
-- What a download returns, and when it goes past the proxy.
use Prim.Native.String.{String}
use omihomo.Base.{
  ℕ, ◌≤◌, Bool, false, not, ◌||◌, Option, none, some, str_eq, ltb, ◌==◌, trim_space, ◌≡◌, ◌⊎◌, inl,
  inr, refl, sym, ap, arith, split_bool, split_option,
}
use omihomo.Engine.{Except, good, bad, Failure}
use omihomo.Update.Transfer.{size}
use omihomo.Fetch.Address.{Url, check_url}
use omihomo.Fetch.Body.{
  Response, Gzip, empty, refused, decoded, announced, read_limited, read_gzip, read_body,
}
use omihomo.Fetch.Causes.{Cause}
use omihomo.Fetch.Get.{
  Request, Client, Got, ok, Answer, answered, broke, or_default, default_bytes, default_timeout,
  finish_body, finish_get, get, dial,
}

abbrev Within : ℕ → Except String → Type 0
Within limit x = (body : String) → x ≡ good body → size body ≤ limit

read_limited-Within :
    (limit : ℕ) (body : String) (broken : Bool) → Within limit (read_limited limit body broken)
unfolding read_limited
read_limited-Within limit body broken =
    split_bool (Within limit) (ltb limit (size body)) _ _ (λ h out q. cc q)
      (λ h.
        split_bool (Within limit) broken _ _ (λ k out q. cc q)
          (λ k out. λ (q : good body ≡ good out).
            let z : body ≡ out = cc q in rw (sym z) (ground (arith, h))))

module _ (lower : String → String) (gunzip : String → Gzip) where
  read_gzip-Within : (limit : ℕ) (g : Gzip) → Within limit (read_gzip lower gunzip limit g)
  read_gzip-Within limit empty = λ out q. let z : "" ≡ out = cc q in rw (sym z) (omega arith)
  read_gzip-Within limit refused = λ out q. cc q
  read_gzip-Within limit (decoded body broken) = read_limited-Within limit body broken

  pub read_body-Within : (r : Response) (limit : ℕ) → Within limit (read_body lower gunzip r limit)
  unfolding read_body
  read_body-Within r limit =
      let enc = lower (trim_space r.content_encoding) in
      split_bool (Within limit) (r.uncompressed || str_eq enc "" || str_eq enc "identity") _ _
        (λ h.
          split_bool (Within limit) (announced lower gunzip r.content_length limit) _ _
            (λ k out q. cc q) (λ k. read_limited-Within limit r.body r.broken))
        (λ h.
          split_bool (Within limit) (str_eq enc "gzip" || str_eq enc "x-gzip") _ _
            (λ k. read_gzip-Within limit (gunzip r.body)) (λ k out q. cc q))

module _ (c : Client) where
  abbrev GotWithin : ℕ → Got → Type 0
  GotWithin limit x = (body : String) → x ≡ ok body → size body ≤ limit

  finish_body-GotWithin :
      (limit : ℕ) (u : Url) (x : Except String) (ended : Option Cause)
      → Within limit x
      → GotWithin limit (finish_body c limit u x ended)
  finish_body-GotWithin limit u (bad why) ended h = λ out q. cc q
  finish_body-GotWithin limit u (good body) none h =
      λ out q. h out (let z : body ≡ out = cc q in ap good z)
  finish_body-GotWithin limit u (good body) (some why) h = λ out q. cc q

  finish_get-GotWithin :
      (limit : ℕ) (u : Url) (a : Answer) (s : c.S) → GotWithin limit (finish_get c limit u a s)
  unfolding finish_get
  finish_get-GotWithin limit u (broke e) s = λ out q. cc q
  finish_get-GotWithin limit u (answered resp) s =
      split_bool (GotWithin limit) (not (resp.status == 200)) _ _ (λ h out q. cc q)
        (λ h.
          finish_body-GotWithin limit u (read_body c.lower c.gunzip resp limit) (c.context_done s)
            (read_body-Within c.lower c.gunzip resp limit))

  abbrev Fetched : Request → Got × c.S → Type 0
  Fetched r x =
      (body : String)
      → x.0 ≡ ok body
      → (check_url c.parsers r.url ≡ none) × (size body ≤ or_default r.max_bytes default_bytes)

  abbrev sent : Request → Request
  sent r = record r {
    max_bytes = or_default r.max_bytes default_bytes;
    timeout = or_default r.timeout default_timeout;
  }

  -- A download that succeeds is of a URL that `CheckURL` accepts, and its decoded body is no longer than
  -- the limit of the request, or 64 MiB where the request sets none.
  pub get-Fetched :
      (r : Request) (s : c.S) (body : String)
      → (get c r s).0 ≡ ok body
      → (check_url c.parsers r.url ≡ none) × (size body ≤ or_default r.max_bytes default_bytes)
  unfolding get
  get-Fetched r s =
      split_option (Fetched r) (check_url c.parsers r.url) _ _
        (λ checked.
          split_option (Fetched r) (c.parsers.parse_url r.url) _ _ (λ k body q. cc q)
            (λ u k body q. (
              checked,
              finish_get-GotWithin (or_default r.max_bytes default_bytes) u
                  (c.do_request (sent r) s).0 (c.do_request (sent r) s).1 body q,
            )))
        (λ why k body q. cc q)

Except-cases :
    {A : Type 0} (x : Except A) → ((a : A) × (x ≡ good a)) ⊎ ((y : Failure) × (x ≡ bad y))
Except-cases (good a) = inl (a, refl)
Except-cases (bad y) = inr (y, refl)

-- Without the permission of its request, a connection does not depend on the uplink: only the proxy is
-- dialed.
pub dial-refused :
    {S Conn : Type 0} (proxy direct other : S → Except Conn × S) (ended : S → Bool)
    (recoverable : Failure → Bool) (s : S)
    → dial proxy direct ended recoverable false s ≡ dial proxy other ended recoverable false s
unfolding dial
dial-refused proxy direct other ended recoverable s = elim (Except-cases (proxy s).0) [
  | inl (conn, q) ↦ rw (q, dial) refl
  | inr (why, q) ↦ rw (q, dial) refl
]
