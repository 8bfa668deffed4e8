-- ===== src/Fetch/Body.antt =====
-- internal/fetch/fetch.go: `readBody`.
use Prim.Native.String.{String}
use omihomo.Base.{
  ℕ, Bool, true, false, ◌||◌, Option, none, some, str_eq, ltb, if◌then◌else◌, trim_space,
}
use omihomo.Engine.{Except, good, bad, err_too_large}
use omihomo.Update.Version.{fail}
use omihomo.Update.Transfer.{size}

-- what `gzip.NewReader` and the reader behind it make of a body: each character is a byte, and `broken`
-- says that reading past the bytes fails
pub data Gzip : Type 0 where
  empty : Gzip
  refused : Gzip
  decoded : (body : String) → (broken : Bool) → Gzip

pub record Response : Type 0 where
  pub status : ℕ
  pub uncompressed : Bool
  pub content_encoding : String
  pub retry_after : String
  pub content_length : Option ℕ
  pub body : String
  pub broken : Bool

-- `ErrTooLarge`
abbrev pub too_large : Except String
too_large = bad (record {
  message = "response is larger than the size limit";
  is = λ e. elim e [ err_too_large ↦ true | _ ↦ false ];
  status = none;
})

-- `io.ReadAll` of one byte more than the limit, and the test of the limit
unfoldable pub read_limited : ℕ → String → Bool → Except String
read_limited limit body broken =
    if ltb limit (size body)
    then too_large
    else if broken
    then fail "the body was cut off"
    else good body

module _ (lower : String → String) (gunzip : String → Gzip) where
  abbrev pub read_gzip : ℕ → Gzip → Except String
  read_gzip limit empty = good ""
  read_gzip limit refused = fail "bad response: gzip does not decode"
  read_gzip limit (decoded body broken) = read_limited limit body broken

  abbrev pub announced : Option ℕ → ℕ → Bool
  announced none limit = false
  announced (some n) limit = ltb limit n

  -- `readBody`
  unfoldable pub read_body : Response → ℕ → Except String
  unfolding read_limited
  read_body r limit =
      let enc = lower (trim_space r.content_encoding) in
      if r.uncompressed || str_eq enc "" || str_eq enc "identity"
      then (if announced r.content_length limit
          then too_large
          else read_limited limit r.body r.broken)
      else if str_eq enc "gzip" || str_eq enc "x-gzip"
      then read_gzip limit (gunzip r.body)
      else fail "bad response: unsupported content encoding"
