-- ===== src/Cli/Entries.antt =====
-- Go's slices of `protocol.RuleEntry`, and the place of a rule in them. A place that is not there leaves
-- the entries as they are, where Go would panic.
use omihomo.Base.{String, ℕ, zero, suc, ◌+◌, Option, none, some, str_eq, ◌==◌, if◌then◌else◌}
use omihomo.Protocol.{RuleFields, RuleEntry, Entries, entry, no_category, category, nil, cons}

unfoldable pub count : Entries → ℕ
count nil = 0
count (cons e es) = suc (count es)

unfoldable pub append : Entries → Entries → Entries
append nil fs = fs
append (cons e es) fs = cons e (append es fs)

-- `slices.Delete` of one entry
unfoldable pub delete : ℕ → Entries → Entries
delete at nil = nil
delete zero (cons e es) = es
delete (suc at) (cons e es) = cons e (delete at es)

-- `slices.Insert` of one entry
unfoldable pub insert : ℕ → RuleEntry → Entries → Entries
insert at x nil = cons x nil
insert zero x (cons e es) = cons x (cons e es)
insert (suc at) x (cons e es) = cons e (insert at x es)

unfoldable pub nth : ℕ → Entries → Option RuleEntry
nth at nil = none
nth zero (cons e es) = some e
nth (suc at) (cons e es) = nth at es

-- a change of one entry in place
unfoldable pub update : ℕ → (RuleEntry → RuleEntry) → Entries → Entries
update at f nil = nil
update zero f (cons e es) = cons (f e) es
update (suc at) f (cons e es) = cons e (update at f es)

-- `slices.Replace` of one entry
unfoldable pub replace : ℕ → (RuleEntry → Entries) → Entries → Entries
unfolding append
replace at f nil = nil
replace zero f (cons e es) = append (f e) es
replace (suc at) f (cons e es) = cons e (replace at f es)

abbrev pub fields : RuleEntry → RuleFields
fields (entry r _) = r

abbrev pub with_fields : (RuleFields → RuleFields) → RuleEntry → RuleEntry
with_fields f (entry r c) = entry (f r) c

-- a change of the rules of a category
abbrev pub with_rules : (Entries → Entries) → RuleEntry → RuleEntry
with_rules f (entry r no_category) = entry r no_category
with_rules f (entry r (category id name rs)) = entry r (category id name (f rs))

-- where a rule is: an entry of its own, or in the category at an entry
pub data Place : Type 0 where
  alone : (at : ℕ) → Place
  within : (parent at : ℕ) → (id : String) → Place

-- the rules of one category, in order; the count of rules before
unfoldable pub place_in : ℕ → ℕ → Entries → ℕ → Option ℕ
place_in n j nil index = none
place_in n j (cons e es) index =
    let rest = place_in (n + 1) (j + 1) es index in if n + 1 == index then some j else rest

-- the loop of `ruleAt`
unfoldable pub place_from : ℕ → ℕ → Entries → ℕ → Option Place
unfolding place_in count
place_from n i nil index = none
place_from n i (cons (entry r no_category) es) index =
    let rest = place_from (n + 1) (i + 1) es index in
    if n + 1 == index then some (alone i) else rest
place_from n i (cons (entry r (category id name rs)) es) index =
    let rest = place_from (n + count rs) (i + 1) es index in
    elim (place_in n 0 rs index) [ some j ↦ some (within i j id) | none ↦ rest ]

-- `ruleAt`
unfoldable pub rule_at : Entries → ℕ → Option Place
rule_at es index = place_from 0 0 es index

-- the category of a place, empty for an entry of its own
abbrev pub category_of : Place → String
category_of (alone at) = ""
category_of (within parent at id) = id

abbrev pub position : Place → ℕ
position (alone at) = at
position (within parent at id) = at

-- a change of the slice that holds a place
unfoldable pub change : Place → (Entries → Entries) → Entries → Entries
unfolding update
change (alone at) f es = f es
change (within parent at id) f es = update parent (with_rules f) es

abbrev rules_of : Option RuleEntry → Entries
rules_of (some (entry r (category id name rs))) = rs
rules_of _ = nil

-- the entry at a place
unfoldable pub entry_at : Place → Entries → Option RuleEntry
unfolding nth
entry_at (alone at) es = nth at es
entry_at (within parent at id) es = nth at (rules_of (nth parent es))

-- the loop of `categoryAt`
unfoldable pub category_from : ℕ → Entries → String → Option ℕ
category_from i nil id = none
category_from i (cons (entry r no_category) es) id = category_from (i + 1) es id
category_from i (cons (entry r (category c name rs)) es) id =
    let rest = category_from (i + 1) es id in if str_eq c id then some i else rest

-- `categoryAt`
unfoldable pub category_at : Entries → String → Option ℕ
category_at es id = category_from 0 es id
