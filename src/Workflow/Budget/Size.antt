-- ===== src/Workflow/Budget/Size.antt =====
-- The size and the height of a document (backend/src/services/workflow_parse.rs, `check_budget`), of all of
-- it and of what the walk over it sees.
use Prim.Native.Nat.{max}
use overup.Prelude.{ℕ, suc, ◌+◌, ◌≡◌, refl, ap, ap₂, Bool, true, false, ◌&&◌, &&_iff, arith}
use overup.Workflow.Yaml.{
  Value, Items, Entries, sequence, mapping, null, bool, number, string, tagged,
}

-- The nodes of a document: its values, keys and what stands at a tag included.
unfoldable mutual
  pub size : Value → ℕ
  size (sequence xs) = suc (size_items xs)
  size (mapping es) = suc (size_entries es)
  size (tagged t v) = suc (size v)
  size _ = 1

  pub size_items : Items → ℕ
  size_items Items.nil = 0
  size_items (Items.cons v rest) = size v + size_items rest

  pub size_entries : Entries → ℕ
  size_entries Entries.end = 0
  size_entries (Entries.entry key v rest) = size key + size v + size_entries rest

-- The edges of the longest way down, a tag being one.
unfoldable mutual
  pub height : Value → ℕ
  height (sequence xs) = height_items xs
  height (mapping es) = height_entries es
  height (tagged t v) = suc (height v)
  height _ = 0

  pub height_items : Items → ℕ
  height_items Items.nil = 0
  height_items (Items.cons v rest) = max (suc (height v)) (height_items rest)

  pub height_entries : Entries → ℕ
  height_entries Entries.end = 0
  height_entries (Entries.entry key v rest) =
      max (max (suc (height key)) (suc (height v))) (height_entries rest)

-- The document with a null in the place of each tag, and of all that is below it.
unfoldable mutual
  pub cut_tags : Value → Value
  cut_tags (sequence xs) = sequence (cut_items xs)
  cut_tags (mapping es) = mapping (cut_entries es)
  cut_tags (tagged t v) = null
  cut_tags null = null
  cut_tags (bool b) = bool b
  cut_tags (number n) = number n
  cut_tags (string s) = string s

  pub cut_items : Items → Items
  cut_items Items.nil = Items.nil
  cut_items (Items.cons v rest) = Items.cons (cut_tags v) (cut_items rest)

  pub cut_entries : Entries → Entries
  cut_entries Entries.end = Entries.end
  cut_entries (Entries.entry key v rest) =
      Entries.entry (cut_tags key) (cut_tags v) (cut_entries rest)

-- No tag stands anywhere in the document.
unfoldable mutual
  pub is_untagged : Value → Bool
  is_untagged (sequence xs) = untagged_items xs
  is_untagged (mapping es) = untagged_entries es
  is_untagged (tagged t v) = false
  is_untagged _ = true

  pub untagged_items : Items → Bool
  untagged_items Items.nil = true
  untagged_items (Items.cons v rest) = is_untagged v && untagged_items rest

  pub untagged_entries : Entries → Bool
  untagged_entries Entries.end = true
  untagged_entries (Entries.entry key v rest) =
      is_untagged key && (is_untagged v && untagged_entries rest)

mutual
  unfolding cut_tags is_untagged

  cut_value : (v : Value) → is_untagged v ≡ true → cut_tags v ≡ v
  cut_value (sequence xs) h = ap sequence (cut_list xs h)
  cut_value (mapping es) h = ap mapping (cut_pairs es h)
  cut_value (tagged t v) h = cc h
  cut_value null h = refl
  cut_value (bool b) h = refl
  cut_value (number n) h = refl
  cut_value (string s) h = refl

  cut_list : (xs : Items) → untagged_items xs ≡ true → cut_items xs ≡ xs
  cut_list Items.nil h = refl
  cut_list (Items.cons v rest) h =
      let (a, b) = (&&_iff (is_untagged v) (untagged_items rest)).0 h in
      ap₂ Items.cons (cut_value v a) (cut_list rest b)

  cut_pairs : (es : Entries) → untagged_entries es ≡ true → cut_entries es ≡ es
  cut_pairs Entries.end h = refl
  cut_pairs (Entries.entry key v rest) h =
      let (a, more) = (&&_iff (is_untagged key) (is_untagged v && untagged_entries rest)).0 h in
      let (b, c) = (&&_iff (is_untagged v) (untagged_entries rest)).0 more in
      rw (cut_value key a, cut_value v b, cut_pairs rest c) refl

pub cut_tags-untagged : (v : Value) → is_untagged v ≡ true → cut_tags v ≡ v
cut_tags-untagged v h = cut_value v h

-- What the walk counts: a tag as one node, and nothing below it.
unfoldable mutual
  pub walked : Value → ℕ
  walked (sequence xs) = suc (walked_items xs)
  walked (mapping es) = suc (walked_entries es)
  walked _ = 1

  pub walked_items : Items → ℕ
  walked_items Items.nil = 0
  walked_items (Items.cons v rest) = walked v + walked_items rest

  pub walked_entries : Entries → ℕ
  walked_entries Entries.end = 0
  walked_entries (Entries.entry key v rest) = walked key + walked v + walked_entries rest

-- The depth that the walk gets to.
unfoldable mutual
  pub deepest : Value → ℕ
  deepest (sequence xs) = deepest_items xs
  deepest (mapping es) = deepest_entries es
  deepest _ = 0

  pub deepest_items : Items → ℕ
  deepest_items Items.nil = 0
  deepest_items (Items.cons v rest) = max (suc (deepest v)) (deepest_items rest)

  pub deepest_entries : Entries → ℕ
  deepest_entries Entries.end = 0
  deepest_entries (Entries.entry key v rest) =
      max (max (suc (deepest key)) (suc (deepest v))) (deepest_entries rest)

mutual
  unfolding walked size cut_tags

  walked_value : (v : Value) → walked v ≡ size (cut_tags v)
  walked_value (sequence xs) = omega (arith, walked_list xs)
  walked_value (mapping es) = omega (arith, walked_pairs es)
  walked_value (tagged t v) = omega arith
  walked_value null = omega arith
  walked_value (bool b) = omega arith
  walked_value (number n) = omega arith
  walked_value (string s) = omega arith

  walked_list : (xs : Items) → walked_items xs ≡ size_items (cut_items xs)
  walked_list Items.nil = omega arith
  walked_list (Items.cons v rest) = omega (arith, walked_value v, walked_list rest)

  walked_pairs : (es : Entries) → walked_entries es ≡ size_entries (cut_entries es)
  walked_pairs Entries.end = omega arith
  walked_pairs (Entries.entry key v rest) =
      omega (arith, walked_value key, walked_value v, walked_pairs rest)

pub walked-cut_tags : (v : Value) → walked v ≡ size (cut_tags v)
walked-cut_tags v = walked_value v

mutual
  unfolding deepest height cut_tags

  deepest_value : (v : Value) → deepest v ≡ height (cut_tags v)
  deepest_value (sequence xs) = omega (arith, deepest_list xs)
  deepest_value (mapping es) = omega (arith, deepest_pairs es)
  deepest_value (tagged t v) = omega arith
  deepest_value null = omega arith
  deepest_value (bool b) = omega arith
  deepest_value (number n) = omega arith
  deepest_value (string s) = omega arith

  deepest_list : (xs : Items) → deepest_items xs ≡ height_items (cut_items xs)
  deepest_list Items.nil = omega arith
  deepest_list (Items.cons v rest) = omega (arith, deepest_value v, deepest_list rest)

  deepest_pairs : (es : Entries) → deepest_entries es ≡ height_entries (cut_entries es)
  deepest_pairs Entries.end = omega arith
  deepest_pairs (Entries.entry key v rest) =
      omega (arith, deepest_value key, deepest_value v, deepest_pairs rest)

pub deepest-cut_tags : (v : Value) → deepest v ≡ height (cut_tags v)
deepest-cut_tags v = deepest_value v
