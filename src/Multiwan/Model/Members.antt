-- ===== src/Multiwan/Model/Members.antt =====
-- The members in `buildModel`, the defaults of values, and the least and the sum of numbers.
use freenetic.Base.{
  suc, ◌+◌, ◌-◌, Bool, true, false, List, [], ◌∷◌, Option, none, some, or_else, Text, codes,
  text_eq, trim_start, trim_end, keep, leb, ltb, if◌then◌else◌,
}
use freenetic.Multiwan.Values.{
  Value, missing, text, texts, Section, option, section_name, number_value, string_of, ℤ, pos,
  negsuc,
}

pub record ModelMember : Type 0 where
  pub name : Text
  pub interface : Text
  pub metric : Option ℤ
  pub weight : Option ℤ

-- `a || b`: an empty text and a missing value are falsy, a list is not.
unfoldable pub value_or : Value → Value → Value
value_or missing v = v
value_or (text []) v = v
value_or (text (c ∷ s)) v = text (c ∷ s)
value_or (texts xs) v = texts xs

-- The key under which an object is asked for a name that may be missing.
unfoldable pub key_of : Option Text → Text
key_of none = codes "undefined"
key_of (some name) = name

unfoldable pub name_or_empty : Option Text → Text
name_or_empty none = []
name_or_empty (some name) = name

-- A member for each member section with a name.
unfoldable pub read_members : List Section → List ModelMember
unfolding section_name option string_of trim_start trim_end number_value
read_members [] = []
read_members (s ∷ ss) = elim (section_name s) [
  | none ↦ read_members ss
  | some name ↦
      record {
        name = name;
        interface = trim_end (trim_start (string_of (option (codes "interface") s)));
        metric = number_value (option (codes "metric") s);
        weight = number_value (option (codes "weight") s);
      }
      ∷ read_members ss
]

-- `membersByInterface[name] || []`
unfoldable pub members_of : Text → List ModelMember → List ModelMember
unfolding text_eq keep
members_of [] members = []
members_of (c ∷ name) members = keep (λ (m : ModelMember). text_eq m.interface (c ∷ name)) members

-- `memberByName[name]`: the last member of that name.
unfoldable pub member_named : Text → List ModelMember → Option ModelMember
unfolding text_eq
member_named name [] = none
member_named name (m ∷ ms) =
    let rest = member_named name ms in or_else rest (if text_eq m.name name then some m else none)

unfoldable pub integer_le : ℤ → ℤ → Bool
integer_le (pos a) (pos b) = leb a b
integer_le (pos a) (negsuc b) = false
integer_le (negsuc a) (pos b) = true
integer_le (negsuc a) (negsuc b) = leb b a

unfoldable pub add : ℤ → ℤ → ℤ
add (pos a) (pos b) = pos (a + b)
add (pos a) (negsuc b) = if ltb b a then pos (a - suc b) else negsuc (b - a)
add (negsuc a) (pos b) = if ltb a b then pos (b - suc a) else negsuc (a - b)
add (negsuc a) (negsuc b) = negsuc (suc (a + b))

-- `filter(value => value != null)`
unfoldable pub present : List (Option ℤ) → List ℤ
present [] = []
present (none ∷ os) = present os
present (some n ∷ os) = n ∷ present os

-- `Math.min.apply(null, metrics)`, null for no metric.
unfoldable pub least : List ℤ → Option ℤ
unfolding integer_le
least [] = none
least (n ∷ ns) = elim (least ns) [
  | none ↦ some n
  | some m ↦ (if integer_le n m then some n else some m)
]

unfoldable pub total_weight : List ℤ → Option ℤ
unfolding add
total_weight [] = none
total_weight (n ∷ ns) = some (sum_from (pos 0) (n ∷ ns))
  where
    sum_from : ℤ → List ℤ → ℤ
    sum_from acc [] = acc
    sum_from acc (n ∷ ns) = sum_from (add acc n) ns
