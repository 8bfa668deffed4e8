-- ===== src/Base/Texts.antt =====
-- Texts as the program walks them: Go's `string` decoded from JSON is a sequence of code points.
pub mod Trim
use Prim.Native.Nat.{ℕ, zero, suc, ◌+◌, ◌/◌, ◌%◌}
use Prim.Native.Char.{code}
use Prim.Native.String.{String}
use Prim.Native.String.{◌++◌ as append, compare}
use text.Mathlib.Text.{is_le, ◌==◌ as str_eq}
use mathlib.Core.Bool.{Bool, ◌||◌, ◌&&◌}
use mathlib.Core.List.{List, [], ◌∷◌}
use omihomo.Base.Tests.{ltb, leb, ◌==◌, if◌then◌else◌}

-- the code points of a text
abbrev pub codes : String → List ℕ
codes String.[] = []
codes (String.◌∷◌ c s) = code c ∷ codes s

-- `unicode.IsControl`
abbrev pub is_control : ℕ → Bool
is_control c = ltb c 0x20 || leb 0x7f c && leb c 0x9f

-- `unicode.IsSpace`
abbrev pub is_space : ℕ → Bool
is_space c =
    leb 0x09 c && leb c 0x0d
    || c == 0x20
    || c == 0x85
    || c == 0xa0
    || c == 0x1680
    || leb 0x2000 c && leb c 0x200a
    || c == 0x2028
    || c == 0x2029
    || c == 0x202f
    || c == 0x205f
    || c == 0x3000

abbrev non_empty : String → List String → List String
non_empty String.[] ws = ws
non_empty w ws = w ∷ ws

-- the part that the text begins with, empty before a separator, and the parts behind it
parts : (ℕ → Bool) → String → String × List String
parts sep String.[] = ("", [])
parts sep (String.◌∷◌ c s) =
    let (w, ws) = parts sep s in if sep (code c) then ("", non_empty w ws) else (String.◌∷◌ c w, ws)

-- the parts of a text between separators, but the empty ones
unfoldable pub split_parts : (ℕ → Bool) → String → List String
unfolding parts
split_parts sep s = let (w, ws) = parts sep s in non_empty w ws

-- `strings.Fields`
unfoldable pub fields : String → List String
unfolding split_parts
fields = split_parts is_space

abbrev last_text : String → List String → String
last_text w [] = w
last_text w (v ∷ vs) = last_text v vs

-- `filepath.Base`
unfoldable pub base_name : String → String
unfolding split_parts
base_name path = if str_eq path "" then "." else last_text "/" (split_parts (λ c. c == b'/') path)

abbrev digit : ℕ → String
digit n =
    if n == 0
    then "0"
    else if n == 1
    then "1"
    else if n == 2
    then "2"
    else if n == 3
    then "3"
    else if n == 4
    then "4"
    else if n == 5
    then "5"
    else if n == 6
    then "6"
    else if n == 7
    then "7"
    else if n == 8
    then "8"
    else "9"

decimal_onto : ℕ → ℕ → String → String
decimal_onto zero n acc = acc
decimal_onto (suc fuel) n acc =
    let more = decimal_onto fuel (n / 10) (append (digit (n % 10)) acc) in
    if ltb n 10 then append (digit n) acc else more

-- a number as `fmt` prints it; one more digit than the number has values is enough
unfoldable pub decimal : ℕ → String
unfolding decimal_onto
decimal n = decimal_onto (n + 1) n ""

-- `strings.Join`
unfoldable pub join_with : String → List String → String
join_with sep [] = ""
join_with sep (w ∷ []) = w
join_with sep (w ∷ v ∷ ws) = append w (append sep (join_with sep (v ∷ ws)))

unfoldable pub join : List String → String
unfolding join_with
join = join_with " "

-- `slices.Sorted`, by insertion
unfoldable pub insert_text : String → List String → List String
insert_text w [] = w ∷ []
insert_text w (v ∷ vs) = if is_le (compare w v) then w ∷ v ∷ vs else v ∷ insert_text w vs

unfoldable pub sort_texts : List String → List String
unfolding insert_text
sort_texts [] = []
sort_texts (w ∷ ws) = insert_text w (sort_texts ws)

trim_left : String → String
trim_left String.[] = ""
trim_left (String.◌∷◌ c s) = if is_space (code c) then trim_left s else String.◌∷◌ c s

trim_right : String → String
trim_right String.[] = ""
trim_right (String.◌∷◌ c s) =
    let t = trim_right s in if is_space (code c) && str_eq t "" then "" else String.◌∷◌ c t

-- `strings.TrimSpace`
unfoldable pub trim_space : String → String
unfolding trim_left trim_right
trim_space s = trim_right (trim_left s)
