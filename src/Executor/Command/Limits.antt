-- ===== src/Executor/Command/Limits.antt =====
-- The limits of a command executor: Validate of pkg/executor/command.go.
use mathlib.Core.Logic.Or
use mathlib.Core.List.{Mem, not-mem-nil, mem-cons_self, mem-cons_of_mem, eq-or-mem_of_mem-cons}
use dist_command_exec.Prelude.{
  ◌≡◌, ◌≢◌, ◌↔◌, ◌⊎◌, inl, inr, refl, sym, subst, ◌∙◌, ap, String, str_eq, eq_iff, true, false,
  Bool-cases, Option, Option-cases, none, some, List, [], ◌∷◌, arith,
}
use dist_command_exec.Types.{Bytes}
use dist_command_exec.Executor.Command.{
  CommandPayload, CommandExecutor, listed, validate, validate_payload,
}

listed-Mem : (command : String) (xs : List String) → listed command xs ≡ true → Mem command xs
unfolding listed
listed-Mem command [] h = absurd (ground (arith, h))
listed-Mem command (c ∷ xs) h = elim (Bool-cases (str_eq command c)) [
  | inl hit ↦ subst (λ x. Mem x (c ∷ xs)) (sym ((eq_iff command c).0 hit)) mem-cons_self
  | inr miss ↦ mem-cons_of_mem c (listed-Mem command xs (ground (arith, h, miss)))
]

Mem-listed : (command : String) (xs : List String) → Mem command xs → listed command xs ≡ true
unfolding listed
Mem-listed command [] m = absurd (not-mem-nil m)
Mem-listed command (c ∷ xs) m = elim (Bool-cases (str_eq command c)) [
  | inl hit ↦ rw hit refl
  | inr miss ↦ rw miss (
      Or.elim (hlevel) (eq-or-mem_of_mem-cons m)
        (λ e. absurd (ground (arith, miss, (eq_iff command c).1 e))) (Mem-listed command xs))
]

List-cases :
    (xs : List String) → (xs ≡ []) ⊎ ((c : String) × (rest : List String) × (xs ≡ c ∷ rest))
List-cases [] = inl refl
List-cases (c ∷ rest) = inr (c, rest, refl)

-- What the limits say of a payload.
pub record IsAllowed (e : CommandExecutor) (p : CommandPayload) : Type 0 where
  pub named : p.command ≢ ""
  pub not_blocked : Mem p.command e.blocked_commands → ⊥
  pub in_list : (e.allowed_commands ≡ []) ⊎ Mem p.command e.allowed_commands

module _ (unmarshal : Bytes → Option CommandPayload) (e : CommandExecutor) where
  validate_payload-IsAllowed :
      (p : CommandPayload) → validate_payload unmarshal e (some p) ≡ none → IsAllowed e p
  unfolding validate_payload
  validate_payload-IsAllowed p h = record {
    named = λ empty. absurd (ground (arith, h, (eq_iff p.command "").1 empty));
    not_blocked = λ m. absurd (ground (arith, h, Mem-listed p.command e.blocked_commands m));
    in_list = elim (List-cases e.allowed_commands) [
      | inl empty ↦ inl empty
      | inr (c, rest, some_list) ↦ elim (Bool-cases (listed p.command e.allowed_commands)) [
        | inl hit ↦ inr (listed-Mem p.command e.allowed_commands hit)
        | inr miss ↦ absurd (ground (arith, h, some_list, miss))
      ]
    ];
  }

  validate_payload-none :
      (p : CommandPayload) → IsAllowed e p → validate_payload unmarshal e (some p) ≡ none
  unfolding validate_payload
  validate_payload-none p a = elim a.in_list [
    | inl empty ↦ ground (arith, command, free, empty)
    | inr m ↦ elim (List-cases e.allowed_commands) [
      | inl empty ↦ ground (arith, command, free, empty)
      | inr (c, rest, some_list) ↦
          ground (arith, command, free, some_list, Mem-listed p.command e.allowed_commands m)
    ]
  ]
    where
      command : str_eq p.command "" ≡ false
      command = elim (Bool-cases (str_eq p.command "")) [
        | inl hit ↦ absurd (a.named ((eq_iff p.command "").0 hit))
        | inr miss ↦ miss
      ]

      free : listed p.command e.blocked_commands ≡ false
      free = elim (Bool-cases (listed p.command e.blocked_commands)) [
        | inl hit ↦ absurd (a.not_blocked (listed-Mem p.command e.blocked_commands hit))
        | inr miss ↦ miss
      ]

  -- Validate accepts a payload exactly when it decodes, and its command is not empty, not blocked,
  -- and in the list of allowed commands unless that is empty.
  pub validate_lem :
      (payload : Bytes)
      → (validate unmarshal e payload ≡ none)
        ↔ ((p : CommandPayload) × (unmarshal payload ≡ some p) × IsAllowed e p)
  unfolding validate validate_payload
  validate_lem payload = (
    λ h. elim (Option-cases (unmarshal payload)) [
      | inl unknown ↦ absurd (ground (arith, h, unknown))
      | inr (p, known) ↦ (
        p,
        known,
        validate_payload-IsAllowed p (ap (validate_payload unmarshal e) (sym known) ∙ h),
      )
    ],
    λ (p, known, a). rw known (validate_payload-none p a),
  )
