-- ===== src/Hypothesis/Freeze.antt =====
-- The helpers of src/jamp/research/hypothesis.py on values and texts. A mapping proxy is the dict it shows.
use Prim.Native.Char.{char, code}
use jamp.Prelude.{
  String, Bool, true, false, not, ◌&&◌, List, [], ◌∷◌, Except, ok, err, ◌>>=◌, ◌>>◌, require,
  refuse_if, if◌then◌else◌,
}
use jamp.Prelude.Text.{is_space, is_blank, is_sha256}
use jamp.Prelude.Dict.{contains}
use jamp.Prelude.Sort.{leb_text, sort}
use jamp.Canonical.{
  Value, null, bool, int, float, str, list, tuple, dict, unsupported, Items, nil, cons, Fields, end,
  field, Key, text, other, CanonicalizationError,
}

pub data HypothesisError : Type 0 where
  integrity transition_error : HypothesisError
  canonicalization : CanonicalizationError → HypothesisError

abbrev pub Checked : Type 0 → Type 0
Checked A = Except HypothesisError A

-- `_RUNTIME_KEYS`
abbrev pub runtime_keys : List String
runtime_keys =
    "timestamp" ∷ "uuid" ∷ "memory_address" ∷ "environment" ∷ "local_path" ∷ "hostname" ∷ "pid"
    ∷ "process_id" ∷ []

abbrev pub is_free : Key → Bool
is_free (text k) = not (contains k runtime_keys)
is_free other = false

-- No key of the run-time set, and every key a text.
abbrev pub all_free : Fields → Bool
all_free end = true
all_free (field k v fs) = is_free k && all_free fs

abbrev pub Entry : Type 0
Entry = Key × Value

abbrev pub entries : Fields → List Entry
entries end = []
entries (field k v fs) = (k, v) ∷ entries fs

abbrev pub of_entries : List Entry → Fields
of_entries [] = end
of_entries ((k, v) ∷ es) = field k v (of_entries es)

-- The order of `sorted` on text keys.
abbrev pub leb_key : Key → Key → Bool
leb_key (text a) (text b) = leb_text a b
leb_key (text a) other = true
leb_key other (text b) = false
leb_key other other = true

abbrev pub leb_entry : Entry → Entry → Bool
leb_entry (k, v) (j, w) = leb_key k j

-- `_freeze`; which of several bad keys is met first makes no difference to the exception.
unfoldable mutual
  unfolding sort

  pub freeze : Value → Checked Value
  freeze null = ok null
  freeze (bool b) = ok (bool b)
  freeze (int n) = ok (int n)
  freeze (float bits) = ok (float bits)
  freeze (str s) = ok (str s)
  freeze (list xs) = freeze_items xs >>= λ ys. ok (tuple ys)
  freeze (tuple xs) = freeze_items xs >>= λ ys. ok (tuple ys)
  freeze (dict fs) =
      require (all_free fs) integrity
      >> (freeze_fields fs >>= λ gs. ok (dict (of_entries (sort leb_entry (entries gs)))))
  freeze unsupported = ok unsupported

  pub freeze_items : Items → Checked Items
  freeze_items nil = ok nil
  freeze_items (cons x xs) = freeze x >>= λ y. freeze_items xs >>= λ ys. ok (cons y ys)

  pub freeze_fields : Fields → Checked Fields
  freeze_fields end = ok end
  freeze_fields (field k x fs) = freeze x >>= λ y. freeze_fields fs >>= λ gs. ok (field k y gs)

-- `_thaw`
unfoldable mutual
  pub thaw : Value → Value
  thaw (tuple xs) = list (thaw_items xs)
  thaw (dict fs) = dict (thaw_fields fs)
  thaw null = null
  thaw (bool b) = bool b
  thaw (int n) = int n
  thaw (float bits) = float bits
  thaw (str s) = str s
  thaw (list xs) = list xs
  thaw unsupported = unsupported

  pub thaw_items : Items → Items
  thaw_items nil = nil
  thaw_items (cons x xs) = cons (thaw x) (thaw_items xs)

  pub thaw_fields : Fields → Fields
  thaw_fields end = end
  thaw_fields (field k x fs) = field k (thaw x) (thaw_fields fs)

-- `_hash`, on a text and on any value.
abbrev pub check_hash : String → Checked (Unit {0})
check_hash s = require (is_sha256 s) integrity

abbrev pub check_hash_value : Value → Checked (Unit {0})
check_hash_value v = elim v [ str s ↦ check_hash s | _ ↦ err integrity ]

-- The words of a text with one space between two: whether a word came before, and whether a space did.
abbrev pub collapse : Bool → Bool → String → String
collapse started gap String.[] = String.[]
collapse started gap (String.◌∷◌ c s) =
    let skip = collapse started true s in
    let rest = collapse true false s in
    if is_space (code c)
    then skip
    else if started && gap
    then String.◌∷◌ (char b' ' tt) (String.◌∷◌ c rest)
    else String.◌∷◌ c rest

-- `_canonical_formulation`
unfoldable pub canonical_formulation : String → Checked String
unfolding is_blank
canonical_formulation s = refuse_if (is_blank s) integrity >> ok (collapse false false s)

-- `dict.fromkeys(xs)`, behind the keys that are there.
abbrev pub unique_from : List String → List String → List String
unique_from seen [] = []
unique_from seen (x ∷ xs) =
    let old = unique_from seen xs in
    let new = unique_from (x ∷ seen) xs in if contains x seen then old else x ∷ new

abbrev pub unique : List String → List String
unique xs = unique_from [] xs
