-- ===== src/EnvVars/Variables.antt =====
-- The list of the variables, apart from the segment that holds it (libdrqueue/envvars.c).
use drqueue.Prelude.{
  ℕ, zero, suc, Bool, Option, none, some, List, [], ◌∷◌, CString, if◌then◌else◌, take, str_eq,
}
use drqueue.Job.{EnvVar, maxnamelen}

-- `strncmp (a, b, MAXNAMELEN) == 0`.
abbrev pub same_name : CString → CString → Bool
same_name a b = str_eq (take maxnamelen a) (take maxnamelen b)

abbrev pub next_index : Option ℕ → Option ℕ
next_index none = none
next_index (some i) = some (suc i)

unfoldable pub variable_index : CString → List EnvVar → Option ℕ
variable_index name [] = none
variable_index name (v ∷ vs) =
    let rest = variable_index name vs in if same_name v.name name then some 0 else next_index rest

-- `strncpy (var->value, value, MAXNAMELEN)`.
unfoldable pub with_value : ℕ → CString → List EnvVar → List EnvVar
with_value i value [] = []
with_value zero value (v ∷ vs) = record v { value = take maxnamelen value } ∷ vs
with_value (suc i) value (v ∷ vs) = v ∷ with_value i value vs

-- The loop that copies every variable but those of the name.
unfoldable pub variables_without : CString → List EnvVar → List EnvVar
variables_without name [] = []
variables_without name (v ∷ vs) =
    let rest = variables_without name vs in if same_name v.name name then rest else v ∷ rest

abbrev pub new_variable : CString → CString → EnvVar
new_variable name value = record { name = take maxnamelen name; value = take maxnamelen value }
