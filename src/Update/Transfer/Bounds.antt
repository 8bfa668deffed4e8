-- ===== src/Update/Transfer/Bounds.antt =====
-- What a download may return.
use Prim.Native.String.{String}
use omihomo.Base.{
  ℕ, ◌+◌, ◌≤◌, Bool, true, not, ◌&&◌, ◌||◌, ltb, ◌==◌, ◌≡◌, sym, arith, split_bool, split_option,
}
use omihomo.Engine.{Except, good, split_except}
use omihomo.Update.Transfer.{
  World, Response, allowed_url, size, sized, received, copied, over, check_response, transfer,
}

-- the limit holds, and a download of a known size has that size
abbrev pub Fits : ℕ → Bool → String → Type 0
Fits limit exact body = (size body ≤ limit) × (exact ≡ true → size body ≡ limit)

sized-Fits :
    (limit : ℕ) (exact : Bool) (body out : String)
    → sized limit exact body ≡ good out
    → Fits limit exact out
unfolding sized
sized-Fits limit exact body out =
    split_bool (λ (x : Except String). x ≡ good out → Fits limit exact out)
      (ltb limit (size body) || exact && not (size body == limit)) _ _ (λ h e. cc e)
      (λ h. λ (e : good body ≡ good out).
        let q : body ≡ out = cc e in rw (sym q) (ground (arith, h), λ x. ground (arith, h, x)))

module _ {S : Type 0} where
  abbrev AllFit : ℕ → Bool → Except String × S → Type 0
  AllFit limit exact x = (out : String) → x.0 ≡ good out → Fits limit exact out

  check_response-Fits :
      (dest : String → S → Bool × S) (limit : ℕ) (exact : Bool) (r : Response) (s : S)
      → AllFit limit exact (check_response dest limit exact r s)
  unfolding check_response
  check_response-Fits dest limit exact r s =
      let P : Except String × S → Type 0 = AllFit limit exact in
      split_bool P (not (r.status == 200)) _ _ (λ h out e. cc e)
        (λ h.
          split_bool P (over r.content_length limit exact) _ _ (λ k out e. cc e)
            (λ k.
              split_except P (copied (limit + 1) r (dest (received (limit + 1) r) s)).0 _ _
                (λ body c out. sized-Fits limit exact body out) (λ why c out e. cc e)))

module _ (w : World) where
  -- A download that succeeds is no longer than its limit, and as long where the size is known, wherever
  -- it is written to.
  pub transfer-Fits :
      (dest : String → w.S → Bool × w.S) (address : String) (limit : ℕ) (exact : Bool) (s : w.S)
      (out : String)
      → (transfer w dest address limit exact s).0 ≡ good out
      → Fits limit exact out
  unfolding transfer
  transfer-Fits dest address limit exact s =
      let P : Except String × w.S → Type 0 = AllFit limit exact in
      split_option P (w.parse_url address) _ _ (λ u out e. cc e)
        (λ u _.
          split_bool P (not (allowed_url u)) _ _ (λ h out e. cc e)
            (λ h.
              split_except P (w.do_request address s).0 _ _
                (λ r a. check_response-Fits dest limit exact r (w.do_request address s).1)
                (λ why a out e. cc e)))
