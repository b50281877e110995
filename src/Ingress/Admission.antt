-- ===== src/Ingress/Admission.antt =====
-- What the budgets admit, and the tree that is built.
use Prim.Native.Nat.{◌+◌, ◌-◌}
use unitree_webrtc_rs.Base.{
  ℕ, zero, suc, ◌≤◌, ◌≡◌, refl, sym, ap, ◌↔◌, ◌∙◌, inl, inr, Bool, true, ◌&&◌, Option, none, some,
  Bytes, ok, ltb, leb, if◌then◌else◌, length, Option-cases, arith,
}
use unitree_webrtc_rs.Ingress.{
  admit, admit_values, admit_members, parse_json, max_json_nodes, max_json_depth, max_text_bytes,
}
use unitree_webrtc_rs.Json.{
  Value, Values, Members, Number, null, bool, number, string, array, object, nil, cons, end, member,
  pos_int, neg_int, float, is_finite, put,
}

abbrev pub number_ok : Number → Bool
number_ok (pos_int n) = true
number_ok (neg_int n) = true
number_ok (float bits) = is_finite bits

mutual
  -- The values and keys of a document, repeated keys included.
  pub nodes : Value → ℕ
  nodes null = 1
  nodes (bool b) = 1
  nodes (number n) = 1
  nodes (string s) = 1
  nodes (array vs) = suc (nodes_of_values vs)
  nodes (object ms) = suc (nodes_of_members ms)

  pub nodes_of_values : Values → ℕ
  nodes_of_values nil = 0
  nodes_of_values (cons v vs) = nodes v + nodes_of_values vs

  pub nodes_of_members : Members → ℕ
  nodes_of_members end = 0
  nodes_of_members (member k v ms) = suc (nodes v + nodes_of_members ms)

mutual
  -- Arrays and objects nest at most so deep, under `depth` others, and every number is finite.
  pub fits : Value → ℕ → Bool
  fits null depth = true
  fits (bool b) depth = true
  fits (number n) depth = number_ok n
  fits (string s) depth = true
  fits (array vs) depth = ltb depth max_json_depth && fits_values vs (depth + 1)
  fits (object ms) depth = ltb depth max_json_depth && fits_members ms (depth + 1)

  pub fits_values : Values → ℕ → Bool
  fits_values nil depth = true
  fits_values (cons v vs) depth = fits v depth && fits_values vs depth

  pub fits_members : Members → ℕ → Bool
  fits_members end depth = true
  fits_members (member k v ms) depth = fits v depth && fits_members ms depth

mutual
  -- The tree of a document: the last of repeated keys counts.
  pub tree : Value → Value
  tree null = null
  tree (bool b) = bool b
  tree (number n) = number n
  tree (string s) = string s
  tree (array vs) = array (tree_of_values vs)
  tree (object ms) = object (tree_of_members ms end)

  pub tree_of_values : Values → Values
  tree_of_values nil = nil
  tree_of_values (cons v vs) = cons (tree v) (tree_of_values vs)

  pub tree_of_members : Members → Members → Members
  tree_of_members end acc = acc
  tree_of_members (member k v ms) acc = tree_of_members ms (put k (tree v) acc)

mutual
  unfolding admit admit_values admit_members nodes nodes_of_values nodes_of_members fits fits_values
      fits_members tree tree_of_values tree_of_members

  admit_lem :
      (v : Value) (depth r : ℕ)
      → admit v depth r
        ≡ (if leb (nodes v) r && fits v depth then some (tree v, r - nodes v) else none)
  admit_lem null depth zero = refl
  admit_lem null depth (suc r) = ground arith
  admit_lem (bool b) depth zero = refl
  admit_lem (bool b) depth (suc r) = ground arith
  admit_lem (string s) depth zero = refl
  admit_lem (string s) depth (suc r) = ground arith
  admit_lem (number n) depth zero = ground arith
  admit_lem (number (pos_int n)) depth (suc r) = ground arith
  admit_lem (number (neg_int n)) depth (suc r) = ground arith
  admit_lem (number (float n)) depth (suc r) = ground arith
  admit_lem (array vs) depth zero = ground arith
  admit_lem (array vs) depth (suc r) = ground (arith, admit_values_lem vs (depth + 1) r)
  admit_lem (object ms) depth zero = ground arith
  admit_lem (object ms) depth (suc r) = ground (arith, admit_members_lem ms end (depth + 1) r)

  admit_values_lem :
      (vs : Values) (depth r : ℕ)
      → admit_values vs depth r ≡ (
          if leb (nodes_of_values vs) r && fits_values vs depth
          then some (tree_of_values vs, r - nodes_of_values vs)
          else none)
  admit_values_lem nil depth r = ground arith
  admit_values_lem (cons v vs) depth r =
      ground (arith, admit_lem v depth r, admit_values_lem vs depth (r - nodes v))

  admit_members_lem :
      (ms acc : Members) (depth r : ℕ)
      → admit_members ms acc depth r ≡ (
          if leb (nodes_of_members ms) r && fits_members ms depth
          then some (tree_of_members ms acc, r - nodes_of_members ms)
          else none)
  admit_members_lem end acc depth r = ground arith
  admit_members_lem (member k v ms) acc depth zero = ground arith
  admit_members_lem (member k v ms) acc depth (suc r) =
      ground
        (arith, admit_lem v depth r, admit_members_lem ms (put k (tree v) acc) depth (r - nodes v))

module _ (read : Bytes → Option Value) (bytes : Bytes) where
  -- A document that the budgets admit.
  pub record IsAdmitted (document : Value) : Type 0 where
    pub short : length bytes ≤ max_text_bytes
    pub is_read : read bytes ≡ some document
    pub few_nodes : nodes document ≤ max_json_nodes
    pub shallow : fits document 0 ≡ true

  parse_json_admitted :
      (document : Value) → IsAdmitted document → parse_json read bytes ≡ ok (tree document)
  unfolding parse_json
  parse_json_admitted document a =
      ground
        (arith, a.is_read, a.short, a.few_nodes, a.shallow, admit_lem document 0 max_json_nodes)

  parse_json-read :
      (v document : Value)
      → parse_json read bytes ≡ ok v
      → read bytes ≡ some document
      → IsAdmitted document × (v ≡ tree document)
  unfolding parse_json
  parse_json-read v document h e = ground (arith, e, admit_lem document 0 max_json_nodes)

  parse_json_unread : (v : Value) → parse_json read bytes ≡ ok v → read bytes ≡ none → ⊥
  unfolding parse_json
  parse_json_unread v h e = ground (arith, e)

  -- A text is accepted exactly when it has at most 1 MiB and the reader gives a document of at most
  -- 65,536 values and keys, repeated keys included, that nests at most 64 deep and holds finite
  -- numbers only. The result is then the tree of the document, in which the last of repeated keys counts.
  pub parse_json_iff :
      (v : Value)
      → (parse_json read bytes ≡ ok v)
        ↔ ((document : Value) × IsAdmitted document × (v ≡ tree document))
  parse_json_iff v = (accepted, λ p. parse_json_admitted p.0 p.1 ∙ ap ok (sym p.2))
    where
      accepted :
          parse_json read bytes ≡ ok v
          → (document : Value) × IsAdmitted document × (v ≡ tree document)
      accepted h = elim (Option-cases (read bytes)) [
        | inl e ↦ absurd (parse_json_unread v h e)
        | inr (document, e) ↦ let p = parse_json-read v document h e in (document, p.0, p.1)
      ]
