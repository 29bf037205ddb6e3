-- ===== src/Samples/Values.antt =====
-- The sample values as an instance of the interface. A text is parsed as the string that it is, but
-- for the empty text, which is no JSON, and "{}".
use cliot.Prelude.{
  ℕ, suc, ◌+++◌, String, ◌≡◌, Bool, true, false, Option, none, some, str_eq, if◌then◌else◌, length,
  In,
}
use cliot.Json.{JsonLib, JsonLaws, Checked, value, fails}
use cliot.Samples.Tree
use cliot.Samples.Tree.{
  Tree, Trees, Fields, null, boolean, number, text, array, object, nil, cons, end, field,
}

abbrev is_some {ℓ} : {A : Type ℓ} → Option A → Bool
is_some none = false
is_some (some a) = true

abbrev or_null : Option Tree → Tree
or_null none = null
or_null (some t) = t

abbrev size_trees : Trees → ℕ
size_trees nil = 0
size_trees (cons x xs) = suc (size_trees xs)

abbrev append_trees : Trees → Trees → Trees
append_trees nil ys = ys
append_trees (cons x xs) ys = cons x (append_trees xs ys)

abbrev set_field : String → Tree → Fields → Fields
set_field k v end = field k v end
set_field k v (field j w fs) =
    let rest = set_field k v fs in if str_eq j k then field k v fs else field j w rest

abbrev is_null : Tree → Bool
is_null null = true
is_null _ = false

abbrev is_boolean : Tree → Bool
is_boolean (boolean b) = true
is_boolean _ = false

abbrev is_text : Tree → Bool
is_text (text s) = true
is_text _ = false

abbrev is_array : Tree → Bool
is_array (array xs) = true
is_array _ = false

abbrev is_object : Tree → Bool
is_object (object fs) = true
is_object _ = false

abbrev is_number : Tree → Bool
is_number (number n) = true
is_number _ = false

abbrev size : Tree → ℕ
size null = 0
size (array xs) = size_trees xs
size (object fs) = length (Tree.entries fs)
size _ = 1

abbrev is_hollow : Tree → Bool
is_hollow null = true
is_hollow (array nil) = true
is_hollow (object end) = true
is_hollow _ = false

abbrev member : Tree → String → Option Tree
member (object fs) k = Tree.lookup k fs
member _ k = none

abbrev as_text : Tree → String
as_text (text s) = s
as_text _ = ""

abbrev as_boolean : Tree → Bool
as_boolean (boolean b) = b
as_boolean _ = false

abbrev print : Tree → String
print (text s) = "\"" +++ s +++ "\""
print null = "null"
print (boolean true) = "true"
print (boolean false) = "false"
print (number n) = "number"
print (array xs) = "array"
print (object fs) = "object"

abbrev parse : String → Checked Tree
parse s =
    if str_eq s ""
    then fails "parse error"
    else if str_eq s "{}"
    then value (object end)
    else value (text s)

abbrev set : Tree → String → Tree → Checked Tree
set null k v = value (object (field k v end))
set (object fs) k v = value (object (set_field k v fs))
set _ k v = fails "type error"

abbrev index_fields : Option Tree → Fields → String → Tree × Tree
index_fields (some v) fs k = (v, object fs)
index_fields none fs k = (null, object (set_field k null fs))

abbrev index : Tree → String → Checked (Tree × Tree)
index null k = value (null, object (field k null end))
index (object fs) k = value (index_fields (Tree.lookup k fs) fs k)
index _ k = fails "type error"

abbrev extend : Tree → Tree → Checked Tree
extend (array xs) (array ys) = value (array (append_trees xs ys))
extend _ _ = fails "type error"

abbrev pub sample : JsonLib
sample = record {
  Json = Tree;
  is_null = is_null;
  is_boolean = is_boolean;
  is_string = is_text;
  is_array = is_array;
  is_object = is_object;
  is_number_integer = is_number;
  is_number_unsigned = is_number;
  is_number_float = λ t. false;
  empty = is_hollow;
  size = size;
  items = Tree.items;
  contains = λ t k. is_some (member t k);
  at = λ t k. or_null (member t k);
  same = Tree.same;
  null = null;
  of_string = text;
  of_bool = boolean;
  as_string = as_text;
  as_bool = as_boolean;
  type_error = λ t. "type error";
  print = print;
  dump = print;
  parse = parse;
  index = index;
  set = set;
  extend = extend;
  depth = Tree.depth;
  items_depth = Tree.items_depth;
}

contains_item :
    (t : Tree) (k : String) (v : Tree) → In (k, v) (Tree.items t) → is_some (member t k) ≡ true
contains_item (object fs) k v m = rw (Tree.lookup_of_In fs k v m)
contains_item null k v m = elim m [ ]
contains_item (boolean b) k v m = elim m [ ]
contains_item (number n) k v m = elim m [ ]
contains_item (text s) k v m = elim m [ ]
contains_item (array xs) k v m = elim m [ ]

at_item : (t : Tree) (k : String) (v : Tree) → In (k, v) (Tree.items t) → or_null (member t k) ≡ v
at_item (object fs) k v m = rw (Tree.lookup_of_In fs k v m)
at_item null k v m = elim m [ ]
at_item (boolean b) k v m = elim m [ ]
at_item (number n) k v m = elim m [ ]
at_item (text s) k v m = elim m [ ]
at_item (array xs) k v m = elim m [ ]

pub sample_laws : JsonLaws sample
sample_laws = record {
  contains_item = contains_item;
  at_item = at_item;
  same_refl = Tree.Tree-same_refl;
}
