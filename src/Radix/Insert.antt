-- ===== src/Radix/Insert.antt =====
-- `_split`, and the walk of `insert` in src/kv_aware_router/radix.py: `_descend`, the split where
-- it stopped inside an edge, the new leaf, and the residency mark on the whole path.
-- `_descend` goes down by recursion, and `cursor = cursor.parent` is the way back.
use kv_aware_router.Prelude.{ℕ, ◌+◌, [], ◌∷◌, String, ltb, if◌then◌else◌, length, drop, take}
use kv_aware_router.Dict.{Dict, has, get_or, put}
use kv_aware_router.Radix.Node.{Tokens, Node, node, Children, nil, cons, children, at_key, shared}

-- `parent.children[first token] = child`; the path is by keys, so an empty edge has key 0.
abbrev pub key : Tokens → ℕ
key [] = 0
key (t ∷ q) = t

-- `_split`: the new node in the middle, with `child` cut behind it. `d` is the parent's depth.
unfoldable pub split : ℕ → Node → ℕ → Node
split d (node e d' cs rs) at =
    let front = take at e in
    let back = drop at e in
    let middle = d + at in
    node front middle (cons (key back) (node back (middle + length back) cs rs) nil) rs

-- One round of the marking loop, at the cursor: `tokens_used` is charged on the first visit.
unfoldable pub mark : String → ℕ → Node → Dict ℕ → Node × Dict ℕ
mark r now (node e d cs rs) used =
    (node e d cs (put r now rs), if has r rs then used else put r (get_or r 0 used + length e) used)

-- A new leaf for the suffix `rest` of the tokens, under a parent at depth `d`, and its mark.
unfoldable pub leaf : String → ℕ → ℕ → Tokens → Dict ℕ → Node × Dict ℕ
unfolding mark
leaf r now d rest used = mark r now (node rest (d + length rest) nil []) used

-- `node.children[rest[0]] = leaf`, unless no token is left.
unfoldable pub extend : String → ℕ → ℕ → Tokens → Children → Dict ℕ → Children × Dict ℕ
unfolding leaf
extend r now d [] cs used = (cs, used)
extend r now d (t ∷ q) nil used =
    let (new, used') = leaf r now d (t ∷ q) used in (cons t new nil, used')
extend r now d (t ∷ q) (cons k c cs) used =
    let (cs', used') = extend r now d (t ∷ q) cs used in (cons k c cs', used')

-- The children of a node, put back under it, and its mark.
abbrev pub close : String → ℕ → Node → Children × Dict ℕ → Node × Dict ℕ
close r now (node e d _ rs) (cs, used) = mark r now (node e d cs rs) used

-- `insert` below a node at depth `d`, for the tokens `rest` that are left. The path ends at a
-- missing child, inside an edge, or with the tokens.
unfoldable mutual
  unfolding split mark extend

  pub insert_at : String → ℕ → ℕ → Tokens → Node → Dict ℕ → Node × Dict ℕ
  insert_at r now d rest (node e d' cs rs) used =
      let j = shared e rest in
      let deeper = close r now (node e d' cs rs) (insert_below r now d' (drop j rest) cs used) in
      let middle = split d (node e d' cs rs) j in
      let cut = close r now middle (extend r now (d + j) (drop j rest) (children middle) used) in
      if ltb j (length e) then cut else deeper

  pub insert_below : String → ℕ → ℕ → Tokens → Children → Dict ℕ → Children × Dict ℕ
  insert_below r now d rest nil used = extend r now d rest nil used
  insert_below r now d rest (cons k c cs) used =
      let here = insert_at r now d rest c used in
      let there = insert_below r now d rest cs used in
      if at_key k rest then (cons k here.0 cs, here.1) else (cons k c there.0, there.1)
