-- ===== src/Config.antt =====
-- internal/config: the settings of a worker. envconfig fills the records from the environment, and
-- os.Hostname is an argument. Texts that are cut into parts are lists of code points.
pub mod Csv
pub mod Texts
use dist_command_exec.Prelude.{
  ℕ, String, Bool, true, false, ◌||◌, ◌&&◌, List, [], ◌∷◌, ◌++◌, ◌==◌, leb, if◌then◌else◌, str_eq,
}
use dist_command_exec.Prelude.Int.{ℤ}

abbrev pub Text : Type 0
Text = List ℕ

-- unicode.IsSpace
unfoldable pub is_space : ℕ → Bool
is_space c =
    (leb 9 c && leb c 13)
    || (c == 32)
    || (c == 133)
    || (c == 160)
    || (c == 5760)
    || (leb 8192 c && leb c 8202)
    || (c == 8232)
    || (c == 8233)
    || (c == 8239)
    || (c == 8287)
    || (c == 12288)

-- strings.TrimSpace
unfoldable pub trim_left : Text → Text
trim_left [] = []
trim_left (c ∷ s) = let rest = trim_left s in if is_space c then rest else c ∷ s

abbrev pub is_blank : Text → Bool
is_blank [] = true
is_blank (_ ∷ _) = false

unfoldable pub trim_right : Text → Text
trim_right [] = []
trim_right (c ∷ s) = let rest = trim_right s in if is_space c && is_blank rest then [] else c ∷ rest

unfoldable pub trim_space : Text → Text
trim_space s = trim_right (trim_left s)

-- A character in front of the first part.
abbrev pub prefixed : ℕ → List Text → List Text
prefixed c [] = (c ∷ []) ∷ []
prefixed c (p ∷ ps) = (c ∷ p) ∷ ps

-- strings.Split with a separator of one character.
unfoldable pub split : ℕ → Text → List Text
split sep [] = [] ∷ []
split sep (c ∷ s) = let rest = split sep s in if c == sep then [] ∷ rest else prefixed c rest

abbrev pub comma : ℕ
comma = 44

-- The loop of splitCSV.
trimmed : List Text → List Text
trimmed [] = []
trimmed (p ∷ ps) =
    let rest = trimmed ps in if is_blank (trim_space p) then rest else trim_space p ∷ rest

-- splitCSV
unfoldable pub split_csv : Text → List Text
unfolding trimmed
split_csv s = if is_blank s then [] else trimmed (split comma s)

pub record CommandExecutorConfig : Type 0 where
  pub enabled : Bool
  pub allowed_commands : Text
  pub blocked_commands : Text

-- AllowedCommandsList
unfoldable pub allowed_commands_list : CommandExecutorConfig → List Text
allowed_commands_list c = split_csv c.allowed_commands

-- BlockedCommandsList
unfoldable pub blocked_commands_list : CommandExecutorConfig → List Text
blocked_commands_list c = split_csv c.blocked_commands

-- The ID that LoadWorker gives to a worker, from the setting and the hostname.
unfoldable pub worker_id : String → String → String
worker_id id hostname =
    if str_eq id "" then (if str_eq hostname "" then "worker-1" else hostname) else id
