-- ===== src/EnvVars/Bindings.antt =====
-- A list of variables that is added to another, one after the other.
use drqueue.Prelude.{
  ℕ, ◌+◌, ◌≤◌, ◌<◌, ◌≡◌, refl, ap, ◌∙◌, inl, inr, true, false, Option, none, some, List, [], ◌∷◌,
  ◌++◌, CString, arith, length, length-append, take, take_all, if◌then◌else◌, Bool-cases,
  Option-cases,
}
use drqueue.Job.{EnvVar, maxnamelen}
use drqueue.Shm.{Shm}
use drqueue.Computer.Pools.Laws.{HasRoom}
use drqueue.EnvVars.{Handle, envvars_variable_add}
use drqueue.EnvVars.Variables.{same_name, variable_index, with_value, new_variable}
use drqueue.EnvVars.Laws.{Holds, add-new, add-known, length-with_value}
use drqueue.EnvVars.Environment.{
  value_of, with_binding, value_of-append, value_of-with_value, same_apart, absent_rest,
}
use drqueue.EnvVars.Deletion.{IsUnique}

abbrev pub bind_all : List EnvVar → (CString → Option CString) → CString → Option CString
bind_all [] env = env
bind_all (v ∷ vs) env = bind_all vs (with_binding env v.name v.value)

pub bind_all_alike :
    (vs : List EnvVar) (env env' : CString → Option CString) (q : CString)
    → ((p : CString) → env p ≡ env' p)
    → bind_all vs env q ≡ bind_all vs env' q
bind_all_alike [] env env' q same = same q
bind_all_alike (v ∷ vs) env env' q same =
    bind_all_alike vs (with_binding env v.name v.value) (with_binding env' v.name v.value) q
      (λ p. ap (λ x. if same_name v.name p then some (take maxnamelen v.value) else x) (same p))

-- No value is longer than its field.
abbrev pub Fits : List EnvVar → Type 0
Fits [] = Unit {0}
Fits (v ∷ vs) = (length v.value ≤ maxnamelen) × Fits vs

value_absent :
    (vs : List EnvVar) (name q : CString)
    → variable_index name vs ≡ none
    → same_name name q ≡ true
    → value_of vs q ≡ none
unfolding value_of
value_absent [] name q absent same = refl
value_absent (v ∷ vs) name q absent same =
    let (other, rest) = absent_rest v vs name absent in
    let later = value_absent vs name q rest same in
    elim (Bool-cases (same_name v.name q)) [
      | inl here ↦ absurd (ground (arith, same_apart v.name name q here other, same))
      | inr away ↦ rw away later
    ]

abbrev or_value : Option CString → Option CString → Option CString
or_value none d = d
or_value (some x) d = some x

-- Of a list where no name stands twice, added to others, every variable has its own value.
bind_unique :
    (vs : List EnvVar) (env : CString → Option CString) (q : CString)
    → IsUnique vs
    → Fits vs
    → bind_all vs env q ≡ or_value (value_of vs q) (env q)
unfolding value_of
bind_unique [] env q u f = refl
bind_unique (v ∷ vs) env q (apart, u) (short, f) =
    let later = bind_unique vs (with_binding env v.name v.value) q u f in
    let kept = take_all maxnamelen v.value short in
    elim (Bool-cases (same_name v.name q)) [
      | inl here ↦ ground (arith, later, kept, here, value_absent vs v.name q apart here)
      | inr away ↦ ground (arith, later, away)
    ]

pub bind_empty :
    (vs : List EnvVar) (q : CString)
    → IsUnique vs
    → Fits vs
    → bind_all vs (value_of []) q ≡ value_of vs q
unfolding value_of
bind_empty vs q u f = ground (arith, bind_unique vs (value_of []) q u f)

-- The system has segments to give, and lets the process attach them.
pub record Ready (shm : Shm) : Type 0 where
  pub available : shm.full ≡ false
  pub attachable : (id : ℕ) → shm.no_attach id ≡ false

pub add_step :
    (shm : Shm) (h : Handle) (vars : List EnvVar) (name value : CString)
    → Holds shm h vars
    → Ready shm
    → length vars < 32_767
    → (shm' : Shm) × (h' : Handle) × (vars' : List EnvVar) × (envvars_variable_add shm h name value
        ≡ some (shm', h', true))
      × Holds shm' h' vars'
      × Ready shm'
      × (length vars' ≤ length vars + 1)
      × ((q : CString) → value_of vars' q ≡ with_binding (value_of vars) name value q)
add_step shm h vars name value hold ready few = elim (Option-cases (variable_index name vars)) [
  | inl absent ↦
      let room : HasRoom shm = record {
        available = ready.available;
        attachable = ready.attachable shm.next_id;
      } in
      let (shm', h', e, held, full, attachable) =
        add-new shm h vars name value hold room absent few in
      (
        shm',
        h',
        vars ++ new_variable name value ∷ [],
        e,
        held,
        record {
          available = full ∙ ready.available;
          attachable = λ id. ap (λ f. f id) attachable ∙ ready.attachable id;
        },
        omega (arith, length-append vars (new_variable name value ∷ [])),
        λ q. value_of-append vars name value q absent,
      )
  | inr (i, there) ↦
      let (shm', h', e, held, full, attachable) = add-known shm h vars name value i hold there in
      (
        shm',
        h',
        with_value i value vars,
        e,
        held,
        record {
          available = full ∙ ready.available;
          attachable = λ id. ap (λ f. f id) attachable ∙ ready.attachable id;
        },
        omega (arith, length-with_value i value vars),
        λ q. value_of-with_value vars name value q i there,
      )
]
