-- ===== src/Uplink/Faults/Recovers.antt =====
-- What an error must be for a download to go past the proxy.
use omihomo.Base.{Bool, true, false, ◌&&◌, Option, none, some, ◌≡◌, refl, ap, arith}
use omihomo.Uplink.Faults.{
  Kind, Fault, Faults, plain, wrap, joined, nil, cons, has, has_some, is_download_address, is_tls,
  is_connection, decide, listed, all_recoverable, recoverable,
}

-- an error of TLS wraps no list of errors
abbrev pub Wrapping : Kind → Fault → Type 0
Wrapping k f = (b : Bool) → listed f ≡ some b → is_tls k ≡ false

unfoldable mutual
  pub Honest : Fault → Type 0
  Honest (plain k) = Unit
  Honest (wrap k f) = Wrapping k f × Honest f
  Honest (joined k fs) = (is_tls k ≡ false) × AllHonest fs

  AllHonest : Faults → Type 0
  AllHonest nil = Unit
  AllHonest (cons f fs) = Honest f × AllHonest fs

-- a failure of the connection, and of nothing else
abbrev pub Connecting : Fault → Type 0
Connecting f = (has is_connection f ≡ true) × (has is_tls f ≡ false)

decide-Connecting :
    (f : Fault) (l : Option Bool)
    → (l ≡ some true → Connecting f)
    → decide f l ≡ true
    → Connecting f
decide-Connecting f none h e = (ground arith, ground arith)
decide-Connecting f (some b) h e = h (ground arith)

both : (a b : Bool) → some (a && b) ≡ some true → (a ≡ true) × (b ≡ true)
both true true e = (refl, refl)
both true false e = cc e
both false b e = cc e

mutual
  unfolding listed has Honest

  listed-Connecting : (f : Fault) → Honest f → listed f ≡ some true → Connecting f
  listed-Connecting (plain k) h e = cc e
  listed-Connecting (wrap k f) h e =
      let (found, clean) = listed-Connecting f h.1 e in
      let own : is_tls k ≡ false = h.0 true e in (ground arith, ground arith)
  listed-Connecting (joined k nil) h e = cc e
  listed-Connecting (joined k (cons f fs)) h e =
      let (first, rest) = both (decide f (listed f)) (all_recoverable fs) e in
      let (found, clean) = decide-Connecting f (listed f) (listed-Connecting f h.1.0) first in
      let others = all_recoverable-clean fs h.1.1 rest in
      let own : is_tls k ≡ false = h.0 in (ground arith, ground arith)

  all_recoverable-clean :
      (fs : Faults) → AllHonest fs → all_recoverable fs ≡ true → has_some is_tls fs ≡ false
  all_recoverable-clean nil h e = refl
  all_recoverable-clean (cons f fs) h e =
      let (first, rest) = both (decide f (listed f)) (all_recoverable fs) (ap some e) in
      let (found, clean) = decide-Connecting f (listed f) (listed-Connecting f h.0) first in
      let others = all_recoverable-clean fs h.1 rest in ground arith

refused-address : (f : Fault) → decide f (listed f) ≡ true → has is_download_address f ≡ false
refused-address f e = ground arith

-- An error that lets a download go past the proxy has a failure of the connection in it, none of TLS or a
-- certificate, and no refusal of an address, if no error of TLS wraps a list of errors.
pub recoverable-Connecting :
    (f : Fault)
    → Honest f
    → recoverable f ≡ true
    → (has is_connection f ≡ true) × ((has is_tls f ≡ false) × (has is_download_address f ≡ false))
unfolding recoverable
recoverable-Connecting f h e =
    let (found, clean) = decide-Connecting f (listed f) (listed-Connecting f h) e in
    (found, (clean, refused-address f e))
