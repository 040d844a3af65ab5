-- ===== src/Dht/Protocol/Table.antt =====
-- `std::map<uint32_t, …>` as the session uses it: the entries in the order of the keys.
use vds.Common.{
  ℕ, ◌≤◌, ◌<◌, ◌≡◌, refl, sym, arith, subst, List, [], ◌∷◌, Option, none, some, Bool, true, false,
  ltb, ltb→lt, ◌==◌, if◌then◌else◌, All,
}
use mathlib.Core.Option.{some-injective}

module _ {A : Type 0} where
  unfoldable pub find : ℕ → List (ℕ × A) → Option A
  find k [] = none
  find k (e ∷ es) = if k == e.0 then some e.1 else find k es

  -- An entry that is there stays as it is.
  unfoldable pub emplace : ℕ → A → List (ℕ × A) → List (ℕ × A)
  emplace k v [] = (k, v) ∷ []
  emplace k v (e ∷ es) =
      let rest = emplace k v es in
      if ltb k e.0 then (k, v) ∷ e ∷ es else (if k == e.0 then e ∷ es else e ∷ rest)

  abbrev pub Above : ℕ → List (ℕ × A) → Type 0
  Above k [] = Unit {0}
  Above k (e ∷ es) = (k < e.0) × Above e.0 es

  abbrev pub Sorted : List (ℕ × A) → Type 0
  Sorted [] = Unit {0}
  Sorted (e ∷ es) = Above e.0 es

  emplace-Above :
      (k j : ℕ) (v : A) (e : ℕ × A) (es rest : List (ℕ × A)) (less same : Bool)
      → ltb k e.0 ≡ less
      → (k == e.0) ≡ same
      → j < k
      → Above j (e ∷ es)
      → (e.0 < k → Above e.0 rest)
      → Above j (if less then (k, v) ∷ e ∷ es else (if same then e ∷ es else e ∷ rest))
  emplace-Above k j v e es rest true same el es' jk h hr = (jk, (ltb→lt k e.0 el, h.1))
  emplace-Above k j v e es rest false true el es' jk h hr = h
  emplace-Above k j v e es rest false false el es' jk h hr = (h.0, hr (ground arith))

  Above-emplace :
      (k j : ℕ) (v : A) (es : List (ℕ × A)) → j < k → Above j es → Above j (emplace k v es)
  unfolding emplace
  Above-emplace k j v [] jk h = (jk, tt)
  Above-emplace k j v (e ∷ es) jk h =
      emplace-Above k j v e es (emplace k v es) (ltb k e.0) (k == e.0) refl refl jk h
        λ ek. Above-emplace k e.0 v es ek h.1

  emplace-Sorted :
      (k : ℕ) (v : A) (e : ℕ × A) (es rest : List (ℕ × A)) (less same : Bool)
      → ltb k e.0 ≡ less
      → (k == e.0) ≡ same
      → Above e.0 es
      → (e.0 < k → Above e.0 rest)
      → Sorted (if less then (k, v) ∷ e ∷ es else (if same then e ∷ es else e ∷ rest))
  emplace-Sorted k v e es rest true same el es' h hr = (ltb→lt k e.0 el, h)
  emplace-Sorted k v e es rest false true el es' h hr = h
  emplace-Sorted k v e es rest false false el es' h hr = hr (ground arith)

  pub Sorted-emplace : (k : ℕ) (v : A) (es : List (ℕ × A)) → Sorted es → Sorted (emplace k v es)
  unfolding emplace
  Sorted-emplace k v [] h = tt
  Sorted-emplace k v (e ∷ es) h =
      emplace-Sorted k v e es (emplace k v es) (ltb k e.0) (k == e.0) refl refl h
        λ ek. Above-emplace k e.0 v es ek h

  -- Nothing is found below the first key of a sorted table.
  pub find-Above : (k j : ℕ) (es : List (ℕ × A)) → k ≤ j → Above j es → find k es ≡ none
  unfolding find
  find-Above k j [] le h = refl
  find-Above k j (e ∷ es) le h =
      rw (differs k e.0 (omega arith)) (find-Above k e.0 es (omega arith) h.1)
    where
      differs : (a b : ℕ) → a < b → (a == b) ≡ false
      differs a b lt = ground arith

  module _ (P : ℕ → A → Type 0) where
    abbrev pub Entries : List (ℕ × A) → Type 0
    Entries = All (λ e. P e.0 e.1)

    if-Entries :
        (b : Bool) (xs ys : List (ℕ × A)) → Entries xs → Entries ys → Entries (if b then xs else ys)
    if-Entries true xs ys hx hy = hx
    if-Entries false xs ys hx hy = hy

    pub Entries-emplace :
        (k : ℕ) (v : A) (es : List (ℕ × A)) → P k v → Entries es → Entries (emplace k v es)
    unfolding emplace
    Entries-emplace k v [] p h = (p, tt)
    Entries-emplace k v (e ∷ es) p h =
        if-Entries (ltb k e.0) ((k, v) ∷ e ∷ es) _ (p, h)
          (if-Entries (k == e.0) (e ∷ es) (e ∷ emplace k v es) h
            (h.0, Entries-emplace k v es p h.1))

    found_entry :
        (k : ℕ) (v : A) (e : ℕ × A) (rest : Option A) (same : Bool)
        → (k == e.0) ≡ same
        → P e.0 e.1
        → (rest ≡ some v → P k v)
        → (if same then some e.1 else rest) ≡ some v
        → P k v
    found_entry k v e rest true es p h eq =
        subst (λ j. P j v) (sym (same_key k e.0 es)) (subst (P e.0) (some-injective e.1 v eq) p)
      where
        same_key : (a b : ℕ) → (a == b) ≡ true → a ≡ b
        same_key a b t = ground arith
    found_entry k v e rest false es p h eq = h eq

    pub find-Entries : (k : ℕ) (v : A) (es : List (ℕ × A)) → Entries es → find k es ≡ some v → P k v
    unfolding find
    find-Entries k v [] h eq = cc
    find-Entries k v (e ∷ es) h eq =
        found_entry k v e (find k es) (k == e.0) refl h.0 (find-Entries k v es h.1) eq

  found_emplaced :
      (j k : ℕ) (v : A) (e : ℕ × A) (found found' : Option A) (below here : Bool)
      (es rest : List (ℕ × A))
      → ltb k e.0 ≡ below
      → (k == e.0) ≡ here
      → (if here then some e.1 else found') ≡ none
      → (found' ≡ none → find j rest ≡ (if j == k then some v else find j es))
      → find j (if below then (k, v) ∷ e ∷ es else (if here then e ∷ es else e ∷ rest))
        ≡ (if j == k then some v else (if j == e.0 then some e.1 else find j es))
  unfolding find
  found_emplaced j k v e found found' true here es rest eb eh absent ih = refl
  found_emplaced j k v e found found' false true es rest eb eh absent ih = cc
  found_emplaced j k v e found found' false false es rest eb eh absent ih =
      rw (ih absent) (swap (j == k) (j == e.0) refl refl)
    where
      swap :
          (a b : Bool)
          → (j == k) ≡ a
          → (j == e.0) ≡ b
          → (if b then some e.1 else (if a then some v else find j es))
            ≡ (if a then some v else (if b then some e.1 else find j es))
      swap true true ea eb' = absurd (clash j k e.0 ea eb' eh)
        where
          clash : (a b c : ℕ) → (a == b) ≡ true → (a == c) ≡ true → (b == c) ≡ false → ⊥
          clash a b c p q r = ground arith
      swap true false ea eb' = refl
      swap false b ea eb' = refl

  -- What is found after an entry has been added whose key was not there.
  pub find-emplace :
      (j k : ℕ) (v : A) (es : List (ℕ × A))
      → find k es ≡ none
      → find j (emplace k v es) ≡ (if j == k then some v else find j es)
  unfolding find emplace
  find-emplace j k v [] absent = refl
  find-emplace j k v (e ∷ es) absent =
      found_emplaced j k v e none (find k es) (ltb k e.0) (k == e.0) es (emplace k v es) refl refl
        absent (find-emplace j k v es)
