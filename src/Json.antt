-- ===== src/Json.antt =====
-- Python's JSON values as the job payloads hold them, and the size of their compact encoding, which
-- `json.dumps(payload, separators=(",", ":"), ensure_ascii=False, sort_keys=True).encode("utf-8")`
-- has. Numbers are integers. `sort_keys` does not change the size.
use tenon_backend.Base.{
  ℕ, zero, suc, ◌+◌, ◌/◌, [], ◌∷◌, Bool, true, false, ◌||◌, Option, none, some, ltb, ◌==◌,
  if◌then◌else◌, not, ◌&&◌,
}
use tenon_backend.Base.Text.{Text, same_text}

mutual
  pub data Json : Type 0 where
    null : Json
    boolean : Bool → Json
    -- `negative n` is -(n + 1).
    number negative : ℕ → Json
    string : Text → Json
    array : Items → Json
    object : Fields → Json

  pub data Items : Type 0 where
    no_items : Items
    item : Json → Items → Items

  pub data Fields : Type 0 where
    no_fields : Fields
    field : Text → Json → Fields → Fields

-- The bytes of one code point in UTF-8.
utf8_size : ℕ → ℕ
utf8_size c = if ltb c 0x80 then 1 else if ltb c 0x800 then 2 else if ltb c 0x1_0000 then 3 else 4

-- `\"`, `\\`, `\b`, `\t`, `\n`, `\f` and `\r` have short escapes, the other control characters
-- long ones.
char_size : ℕ → ℕ
unfolding utf8_size
char_size c =
    if c == 34 || (c == 92 || (c == 8 || (c == 9 || (c == 10 || (c == 12 || c == 13)))))
    then 2
    else if ltb c 32
    then 6
    else utf8_size c

chars_size : Text → ℕ
unfolding char_size
chars_size [] = 0
chars_size (c ∷ s) = char_size c + chars_size s

-- The decimal digits of a number; the fuel is the number itself, and each round divides it by ten.
digits_size : ℕ → ℕ → ℕ
digits_size zero n = 1
digits_size (suc fuel) n = let rest = digits_size fuel (n / 10) in if ltb n 10 then 1 else suc rest

unfoldable mutual
  unfolding chars_size digits_size

  pub encoded_size : Json → ℕ
  encoded_size null = 4
  encoded_size (boolean true) = 4
  encoded_size (boolean false) = 5
  encoded_size (number n) = digits_size n n
  encoded_size (negative n) = 1 + digits_size (n + 1) (n + 1)
  encoded_size (string s) = 2 + chars_size s
  encoded_size (array xs) = 2 + items_size xs
  encoded_size (object fs) = 2 + fields_size fs

  pub items_size : Items → ℕ
  items_size no_items = 0
  items_size (item x no_items) = encoded_size x
  items_size (item x (item y xs)) = encoded_size x + 1 + items_size (item y xs)

  pub fields_size : Fields → ℕ
  fields_size no_fields = 0
  fields_size (field k v no_fields) = 3 + chars_size k + encoded_size v
  fields_size (field k v (field l w fs)) =
      3 + chars_size k + encoded_size v + 1 + fields_size (field l w fs)

-- `d.get(key)` on a `dict`.
unfoldable pub get : Text → Fields → Option Json
get k no_fields = none
get k (field l v fs) = if same_text l k then some v else get k fs

count_fields : Fields → ℕ
count_fields no_fields = 0
count_fields (field k v rest) = suc (count_fields rest)

-- Python's `==`, for which `True` is 1, and the order of a dictionary's keys is nothing.
unfoldable mutual
  unfolding get count_fields

  pub same_json : Json → Json → Bool
  same_json null null = true
  same_json (boolean b) (boolean c) = if b then c else not c
  same_json (boolean b) (number n) = n == (if b then 1 else 0)
  same_json (number n) (boolean b) = n == (if b then 1 else 0)
  same_json (number m) (number n) = m == n
  same_json (negative m) (negative n) = m == n
  same_json (string s) (string t) = same_text s t
  same_json (array xs) (array ys) = same_items xs ys
  same_json (object a) (object b) = (count_fields a == count_fields b) && are_in a b
  same_json _ _ = false

  same_items : Items → Items → Bool
  same_items no_items no_items = true
  same_items (item v xs) (item w ys) = same_json v w && same_items xs ys
  same_items _ _ = false

  -- Each key of the first is in the second, with the same value.
  are_in : Fields → Fields → Bool
  are_in no_fields b = true
  are_in (field k v rest) b =
      (elim (get k b) [ none ↦ false | some w ↦ same_json v w ]) && are_in rest b

abbrev pub same_fields : Fields → Fields → Bool
same_fields a b = same_json (object a) (object b)
