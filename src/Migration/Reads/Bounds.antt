-- ===== src/Migration/Reads/Bounds.antt =====
-- The saved request limits are within int64 in milliseconds.
use Prim.Native.String.{String}
use omihomo.Base.{
  ℕ, ◌*◌, ◌^◌, ◌<◌, Bool, Bool-cases, true, false, Option, Option-cases, none, some, ltb, max,
  append, ◌≡◌, refl, sym, ap, ◌∙◌, inl, inr, arith,
}
use omihomo.Migration.Reads.{
  Old, Result, ok, err, Int64, above, below, wrapped, max64, OldLimits, Times, deadline, set_times,
  limits_of, decoded_limits, optional, limits_in, request_state,
}

deadline-bound :
    (d : Option Int64) (n : ℕ) → deadline d ≡ some n → (d ≡ some (above n)) × (n * 1000 < 2 ^ 63)
unfolding deadline
deadline-bound none n e = cc e
deadline-bound (some (below k)) n e = cc e
deadline-bound (some (above k)) n e = elim (Bool-cases (ltb 9007199254740991 k)) [
  | inl large ↦ cc (rw large at e)
  | inr fits ↦ let same : k ≡ n = cc (rw fits at e) in (cc same, ground (arith, same, fits))
]

wrapped-small : (n : ℕ) → n < 2 ^ 63 → wrapped n ≡ above n
unfolding wrapped
wrapped-small n h = ground arith

-- the times of a file of limits, in milliseconds and not wrapped around
pub record InMilliseconds (l : OldLimits) (t : Times) : Type 0 where
  pub attempted : ℕ
  pub automatic : ℕ
  pub manual : ℕ
  pub attempted_is : l.attempted_at ≡ some (above attempted)
  pub automatic_is : l.automatic_after ≡ some (above automatic)
  pub manual_is : l.manual_after ≡ some (above manual)
  pub runs : l.paused ≡ some false
  pub last_attempt : t.last_attempt ≡ above (attempted * 1000)
  pub held_until : t.held_until ≡ above (manual * 1000)
  pub retry_at : t.retry_at ≡ above (max (automatic * 1000) (manual * 1000))

max64-above : (m n : ℕ) → max64 (above m) (above n) ≡ above (max m n)
unfolding max64
max64-above m n = ground arith

limits_of-times :
    (l : OldLimits) (p : Bool) (t : Times) (x y z : Option ℕ)
    → l.paused ≡ some p
    → deadline l.attempted_at ≡ x
    → deadline l.automatic_after ≡ y
    → deadline l.manual_after ≡ z
    → limits_of p x y z ≡ ok (some t)
    → InMilliseconds l t
unfolding limits_of
limits_of-times l true t (some a) (some b) (some c) ep ea eb ec e = cc e
limits_of-times l false t (some a) (some b) (some c) ep ea eb ec e =
    let same : set_times a b c ≡ t = cc e in
    let (ia, ba) = deadline-bound l.attempted_at a ea in
    let (ib, bb) = deadline-bound l.automatic_after b eb in
    let (ic, bc) = deadline-bound l.manual_after c ec in
    record {
      attempted = a;
      automatic = b;
      manual = c;
      attempted_is = ia;
      automatic_is = ib;
      manual_is = ic;
      runs = ep;
      last_attempt = ap (λ (u : Times). u.last_attempt) (sym same) ∙ wrapped-small (a * 1000) ba;
      held_until = ap (λ (u : Times). u.held_until) (sym same) ∙ wrapped-small (c * 1000) bc;
      retry_at =
          ap (λ (u : Times). u.retry_at) (sym same)
          ∙ rw (wrapped-small (b * 1000) bb, wrapped-small (c * 1000) bc)
              (max64-above (b * 1000) (c * 1000));
    }
limits_of-times l p t none y z ep ea eb ec e = cc e
limits_of-times l p t (some a) none z ep ea eb ec e = cc e
limits_of-times l p t (some a) (some b) none ep ea eb ec e = cc e

decoded_limits-times :
    (l : OldLimits) (t : Times) → decoded_limits (some l) ≡ ok (some t) → InMilliseconds l t
unfolding decoded_limits
decoded_limits-times l t e = elim (Option-cases l.paused) [
  | inl unset ↦ cc (rw unset at e)
  | inr (p, there) ↦
      limits_of-times l p t (deadline l.attempted_at) (deadline l.automatic_after)
        (deadline l.manual_after) there refl refl refl (rw there at e)
]

limits_in-times :
    (decode : String → Option OldLimits) (r : Result (Option String)) (t : Times)
    → limits_in decode r ≡ ok (some t)
    → (body : String) × ((l : OldLimits) × ((decode body ≡ some l) × InMilliseconds l t))
unfolding limits_in decoded_limits
limits_in-times decode (err why) t e = cc e
limits_in-times decode (ok none) t e = cc e
limits_in-times decode (ok (some body)) t e = elim (Option-cases (decode body)) [
  | inl unread ↦ cc (rw unread at e)
  | inr (l, read) ↦ (body, (l, (read, decoded_limits-times l t (rw read at e))))
]

-- The times that an old subscription brings are those of its saved limits, in milliseconds: no product exceeds an
-- int64. A file of limits that brings any is not paused.
pub request_state-times :
    (old : Old) (decode : String → Option OldLimits) (hash : String) (t : Times)
    → request_state old decode hash ≡ ok (some t)
    → (body : String) × ((l : OldLimits) × ((decode body ≡ some l) × InMilliseconds l t))
unfolding request_state
request_state-times old decode hash t e =
    limits_in-times decode (optional old (append "requests/" (append hash ".json")) 4096) t e
