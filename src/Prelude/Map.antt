-- ===== src/Prelude/Map.antt =====
-- Go's map[string]V. A map is a list of entries with distinct keys, newest write first; Go leaves
-- the order in which `range` yields the entries open, so code that ranges over a map takes the
-- entries in the order in which they come as an argument.
use dist_command_exec.Prelude.{
  ℕ, ◌+◌, ◌≡◌, subst, sym, inl, inr, refl, Option, none, some, List, [], ◌∷◌, arith, String, str_eq,
  eq_iff, eq_refl, if◌then◌else◌, length, total, Bool-cases,
}

pub record Map {ℓ} (V : Type ℓ) : Type ℓ where
  pub entries : List (String × V)

module _ {ℓ} {V : Type ℓ} where
  abbrev pub find : String → List (String × V) → Option V
  find k [] = none
  find k ((j, v) ∷ es) = if str_eq j k then some v else find k es

  abbrev without : String → List (String × V) → List (String × V)
  without k [] = []
  without k ((j, v) ∷ es) = let rest = without k es in if str_eq j k then rest else (j, v) ∷ rest

  -- make(map[string]V)
  unfoldable pub empty : Map V
  empty = record { entries = [] }

  -- v, ok := m[k]
  unfoldable pub get : Map V → String → Option V
  get m k = find k m.entries

  -- delete(m, k)
  unfoldable pub delete : Map V → String → Map V
  delete m k = record { entries = without k m.entries }

  -- m[k] = v
  unfoldable pub put : Map V → String → V → Map V
  put m k v = record { entries = (k, v) ∷ without k m.entries }

  -- len(m)
  unfoldable pub len : Map V → ℕ
  len m = length m.entries

  find-without :
      (k j : String) (es : List (String × V))
      → find j (without k es) ≡ (if str_eq k j then none else find j es)
  find-without k j [] = ground arith
  find-without k j ((i, v) ∷ es) =
      ground (arith, find-without k j es, eq_iff i k, eq_iff i j, eq_iff k j)

  pub get-delete :
      (m : Map V) (k j : String) → get (delete m k) j ≡ (if str_eq k j then none else get m j)
  unfolding get delete
  get-delete m k j = find-without k j m.entries

  pub get-put :
      (m : Map V) (k j : String) (v : V)
      → get (put m k v) j ≡ (if str_eq k j then some v else get m j)
  unfolding get put
  get-put m k j v = ground (arith, find-without k j m.entries)

  pub get-put_self : (m : Map V) (k : String) (v : V) → get (put m k v) k ≡ some v
  get-put_self m k v = simp (get-put, eq_refl)

  pub get-delete_self : (m : Map V) (k : String) → get (delete m k) k ≡ none
  get-delete_self m k = simp (get-delete, eq_refl)

pub get-empty {ℓ} : {V : Type ℓ} (k : String) → get (empty {V = V}) k ≡ none
unfolding get empty
get-empty k = refl

pub ruleset map_laws = (get-empty, get-delete, get-put)

-- No key stands twice: what `len` and a `range` rely on.
module _ {ℓ} {V : Type ℓ} where
  abbrev pub Distinct : List (String × V) → Type ℓ
  Distinct [] = Unit
  Distinct ((k, v) ∷ es) = (find k es ≡ none) × Distinct es

  abbrev pub IsMap : Map V → Type ℓ
  IsMap m = Distinct m.entries

  without-Distinct : (k : String) (es : List (String × V)) → Distinct es → Distinct (without k es)
  without-Distinct k [] d = tt
  without-Distinct k ((j, v) ∷ es) d =
      ground (arith, without-Distinct k es d.1, find-without k j es, eq_iff j k)

  pub delete-IsMap : (m : Map V) (k : String) → IsMap m → IsMap (delete m k)
  unfolding delete
  delete-IsMap m k d = without-Distinct k m.entries d

  pub put-IsMap : (m : Map V) (k : String) (v : V) → IsMap m → IsMap (put m k v)
  unfolding put
  put-IsMap m k v d =
      ground (arith, find-without k k m.entries, eq_refl k, without-Distinct k m.entries d)

  -- What the entry of a key weighs.
  abbrev pub weight : (String × V → ℕ) → String → Option V → ℕ
  weight w k none = 0
  weight w k (some v) = w (k, v)

  without_absent : (k : String) (es : List (String × V)) → find k es ≡ none → without k es ≡ es
  without_absent k [] h = refl
  without_absent k ((j, v) ∷ es) h = ground (arith, without_absent k es)

  total-without :
      (w : String × V → ℕ) (k : String) (es : List (String × V))
      → Distinct es
      → total w (without k es) + weight w k (find k es) ≡ total w es
  total-without w k [] d = omega arith
  total-without w k ((j, v) ∷ es) d = elim (Bool-cases (str_eq j k)) [
    | inl hit ↦
        subst
          (λ i.
            total w (without i ((j, v) ∷ es)) + weight w i (find i ((j, v) ∷ es))
            ≡ w (j, v) + total w es)
          ((eq_iff j k).0 hit) (rw (eq_refl j, without_absent j es d.0) (omega arith))
    | inr miss ↦ rw miss (omega (arith, total-without w k es d.1))
  ]

  pub total-delete :
      (w : String × V → ℕ) (m : Map V) (k : String)
      → IsMap m
      → total w (delete m k).entries + weight w k (get m k) ≡ total w m.entries
  unfolding delete get
  total-delete w m k d = total-without w k m.entries d

  pub total-put :
      (w : String × V → ℕ) (m : Map V) (k : String) (v : V)
      → IsMap m
      → total w (put m k v).entries + weight w k (get m k) ≡ total w m.entries + w (k, v)
  unfolding put get
  total-put w m k v d = omega (arith, total-without w k m.entries d)

-- What a `range` over the map yields: each entry once, in any order.
module _ {ℓ} {V : Type ℓ} where
  pub record Visits (m : Map V) (visited : List (String × V)) : Type ℓ where
    pub once : Distinct visited
    pub same : (k : String) → find k visited ≡ get m k

  pub Visits-entries : (m : Map V) → IsMap m → Visits m m.entries
  unfolding get
  Visits-entries m d = record { once = d; same = λ k. refl }

  total_of_no_keys :
      (w : String × V → ℕ) (es : List (String × V))
      → ((k : String) → find k es ≡ none)
      → total w es ≡ 0
  total_of_no_keys w [] h = refl
  total_of_no_keys w ((k, v) ∷ es) h = ground (arith, h k, eq_refl k)

  total_same :
      (w : String × V → ℕ) (es fs : List (String × V))
      → Distinct es
      → Distinct fs
      → ((k : String) → find k es ≡ find k fs)
      → total w es ≡ total w fs
  total_same w [] fs d e h = sym (total_of_no_keys w fs (λ k. sym (h k)))
  total_same w ((k, v) ∷ es) fs d e h =
      let rest : total w es ≡ total w (without k fs) =
        total_same w es (without k fs) d.1 (without-Distinct k fs e)
          (λ j. rw find-without (ground (arith, h j, d.0, eq_iff k j))) in
      ground (arith, rest, total-without w k fs e, h k, eq_refl k)

  -- A sum over the entries does not depend on the order of the visit.
  pub Visits-total :
      (w : String × V → ℕ) (m : Map V) (visited : List (String × V))
      → IsMap m
      → Visits m visited
      → total w visited ≡ total w m.entries
  unfolding get
  Visits-total w m visited d v = total_same w visited m.entries v.once d v.same
