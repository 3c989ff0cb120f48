-- ===== src/Config/Csv.antt =====
-- The lists of commands in a worker's settings: splitCSV of internal/config/worker.go.
use dist_command_exec.Prelude.{
  ℕ, ◌≡◌, ◌≢◌, refl, ap, ◌∙◌, Bool, Bool-cases, inl, inr, true, false, not, ◌&&◌, List, [], ◌∷◌,
  ◌++◌, arith, ◌==◌, All,
}
use dist_command_exec.Config.{
  Text, is_space, trim_left, trim_right, trim_space, is_blank, prefixed, split, comma, trimmed,
  split_csv,
}

-- The parts behind one another, with the separator between them.
abbrev pub join : ℕ → List Text → Text
join sep [] = []
join sep (p ∷ []) = p
join sep (p ∷ (q ∷ ps)) = p ++ sep ∷ join sep (q ∷ ps)

-- A text without the separator.
abbrev pub Lacks : ℕ → Text → Type 0
Lacks sep s = All (λ c. (c == sep) ≡ false) s

-- A text that has no space at its ends, and is not empty.
abbrev pub IsTrimmed : Text → Type 0
IsTrimmed s = (trim_space s ≡ s) × (s ≢ [])

split-append : (sep : ℕ) (p s : Text) → Lacks sep p → split sep (p ++ sep ∷ s) ≡ p ∷ split sep s
unfolding split
split-append sep [] s l = ground arith
split-append sep (c ∷ p) s l = rw (l.0, split-append sep p s l.1) refl

split-Lacks : (sep : ℕ) (p : Text) → Lacks sep p → split sep p ≡ p ∷ []
unfolding split
split-Lacks sep [] l = refl
split-Lacks sep (c ∷ p) l = rw (l.0, split-Lacks sep p l.1) refl

split-join :
    (sep : ℕ) (p : Text) (ps : List Text)
    → All (Lacks sep) (p ∷ ps)
    → split sep (join sep (p ∷ ps)) ≡ p ∷ ps
split-join sep p [] l = split-Lacks sep p l.0
split-join sep p (q ∷ ps) l =
    split-append sep p (join sep (q ∷ ps)) l.0 ∙ ap (λ r. p ∷ r) (split-join sep q ps l.1)

not_blank : (s : Text) → s ≢ [] → is_blank s ≡ false
not_blank [] h = absurd (h refl)
not_blank (c ∷ s) h = refl

trimmed-IsTrimmed : (ps : List Text) → All IsTrimmed ps → trimmed ps ≡ ps
unfolding trimmed
trimmed-IsTrimmed [] t = refl
trimmed-IsTrimmed (p ∷ ps) t = rw (t.0.0, not_blank p t.0.1, trimmed-IsTrimmed ps t.1) refl

join-not_blank :
    (sep : ℕ) (p : Text) (ps : List Text) → p ≢ [] → is_blank (join sep (p ∷ ps)) ≡ false
join-not_blank sep [] ps h = absurd (h refl)
join-not_blank sep (c ∷ p) [] h = refl
join-not_blank sep (c ∷ p) (q ∷ ps) h = refl

-- A list of commands, each without a comma, not empty and without a space at its ends, comes back
-- from the text that lists them with commas between them.
pub split_csv-join :
    (ps : List Text) → All (Lacks comma) ps → All IsTrimmed ps → split_csv (join comma ps) ≡ ps
unfolding split_csv
split_csv-join [] l t = refl
split_csv-join (p ∷ ps) l t =
    rw (join-not_blank comma p ps t.0.1, split-join comma p ps l) (trimmed-IsTrimmed (p ∷ ps) t)

-- Trimming twice is trimming once, and no part is empty.
trim_right_idem : (s : Text) → trim_right (trim_right s) ≡ trim_right s
unfolding trim_right
trim_right_idem [] = refl
trim_right_idem (c ∷ s) = ground (arith, trim_right_idem s)

abbrev starts : Text → Bool
starts [] = true
starts (c ∷ s) = not (is_space c)

starts-trim_left : (s : Text) → starts (trim_left s) ≡ true
unfolding trim_left
starts-trim_left [] = refl
starts-trim_left (c ∷ s) = ground (arith, starts-trim_left s)

trim_left-starts : (s : Text) → starts s ≡ true → trim_left s ≡ s
unfolding trim_left
trim_left-starts [] h = refl
trim_left-starts (c ∷ s) h = ground (arith, h)

starts-trim_right : (s : Text) → starts s ≡ true → starts (trim_right s) ≡ true
unfolding trim_right
starts-trim_right [] h = refl
starts-trim_right (c ∷ s) h = ground (arith, h)

trim_space_idem : (s : Text) → trim_space (trim_space s) ≡ trim_space s
unfolding trim_space
trim_space_idem s =
    ap trim_right (
      trim_left-starts (trim_right (trim_left s))
        (starts-trim_right (trim_left s) (starts-trim_left s)))
    ∙ trim_right_idem (trim_left s)

trim_left-Lacks : (sep : ℕ) (s : Text) → Lacks sep s → Lacks sep (trim_left s)
unfolding trim_left
trim_left-Lacks sep [] l = tt
trim_left-Lacks sep (c ∷ s) l = elim (Bool-cases (is_space c)) [
  | inl space ↦ rw space (trim_left-Lacks sep s l.1)
  | inr solid ↦ rw solid l
]

trim_right-Lacks : (sep : ℕ) (s : Text) → Lacks sep s → Lacks sep (trim_right s)
unfolding trim_right
trim_right-Lacks sep [] l = tt
trim_right-Lacks sep (c ∷ s) l = elim (Bool-cases (is_space c && is_blank (trim_right s))) [
  | inl end ↦ rw end tt
  | inr more ↦ rw more (l.0, trim_right-Lacks sep s l.1)
]

prefixed-Lacks :
    (sep c : ℕ) (ps : List Text)
    → (c == sep) ≡ false
    → All (Lacks sep) ps
    → All (Lacks sep) (prefixed c ps)
prefixed-Lacks sep c [] h l = ((h, tt), tt)
prefixed-Lacks sep c (p ∷ ps) h l = ((h, l.0), l.1)

split-All : (sep : ℕ) (s : Text) → All (Lacks sep) (split sep s)
unfolding split
split-All sep [] = (tt, tt)
split-All sep (c ∷ s) = elim (Bool-cases (c == sep)) [
  | inl hit ↦ rw hit (tt, split-All sep s)
  | inr miss ↦ rw miss (prefixed-Lacks sep c (split sep s) miss (split-All sep s))
]

-- What is left of the parts.
abbrev pub IsCommandList : List Text → Type 0
IsCommandList ps = All (Lacks comma) ps × All IsTrimmed ps

trimmed-IsCommandList : (ps : List Text) → All (Lacks comma) ps → IsCommandList (trimmed ps)
unfolding trimmed trim_space
trimmed-IsCommandList [] l = (tt, tt)
trimmed-IsCommandList (p ∷ ps) l =
    let (lacks, trim) = trimmed-IsCommandList ps l.1 in
    elim (Bool-cases (is_blank (trim_right (trim_left p)))) [
      | inl blank ↦ rw blank (lacks, trim)
      | inr solid ↦ rw solid (
        (trim_right-Lacks comma (trim_left p) (trim_left-Lacks comma p l.0), lacks),
        ((trim_space_idem p, λ e. absurd (ground (arith, solid, ap is_blank e))), trim),
      )
    ]

split_csv-IsCommandList : (s : Text) → IsCommandList (split_csv s)
unfolding split_csv
split_csv-IsCommandList [] = (tt, tt)
split_csv-IsCommandList (c ∷ s) =
    trimmed-IsCommandList (split comma (c ∷ s)) (split-All comma (c ∷ s))

-- Whatever the text, its parts have no comma, no space at their ends and are not empty, and so
-- writing them with commas between them and reading them again gives the same parts.
pub split_csv_lem :
    (s : Text) → IsCommandList (split_csv s) × (split_csv (join comma (split_csv s)) ≡ split_csv s)
split_csv_lem s =
    let good = split_csv-IsCommandList s in (good, split_csv-join (split_csv s) good.0 good.1)
