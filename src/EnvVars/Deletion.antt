-- ===== src/EnvVars/Deletion.antt =====
-- What the deletion of an environment variable does to the environment.
use drqueue.Prelude.{
  ℕ, suc, ◌-◌, ◌≤◌, ◌≡◌, refl, sym, ap, subst, ◌∙◌, inl, inr, true, none, some, List, [], ◌∷◌,
  CString, if◌then◌else◌, arith, length, take, take_all, update, Bool-cases, Option-cases, str_eq,
  str_eq_iff,
}
use drqueue.Job.{EnvVar, maxnamelen, envvars_init}
use drqueue.Shm.{Shm}
use drqueue.Database.Registry.{envvars_free}
use drqueue.Computer.Pools.Laws.{HasRoom}
use drqueue.EnvVars.{
  Handle, null, detached_init, envvars_attach, envvars_detach, envvars_get_shared_memory,
  envvars_variable_delete,
}
use drqueue.EnvVars.Variables.{same_name, variable_index, variables_without}
use drqueue.EnvVars.Laws.{Stored, Holds, Stored-Holds, find_none, find_some, moved}
use drqueue.EnvVars.Environment.{value_of, value_of-without}

-- No name stands twice in the list.
abbrev pub IsUnique : List EnvVar → Type 0
IsUnique [] = Unit {0}
IsUnique (v ∷ vs) = (variable_index v.name vs ≡ none) × IsUnique vs

without_absent :
    (vars : List EnvVar) (name : CString)
    → variable_index name vars ≡ none
    → variables_without name vars ≡ vars
unfolding variable_index variables_without
without_absent [] name absent = refl
without_absent (v ∷ vs) name absent = elim (Option-cases (variable_index name vs)) [
  | inl e ↦ ground (arith, without_absent vs name e, absent)
  | inr (i, e) ↦ absurd (ground (arith, absent, e))
]

pub index_alike :
    (vars : List EnvVar) (a b : CString)
    → same_name a b ≡ true
    → variable_index a vars ≡ variable_index b vars
unfolding variable_index
index_alike [] a b e = refl
index_alike (v ∷ vs) a b e =
    let one : take maxnamelen a ≡ take maxnamelen b =
      (str_eq_iff (take maxnamelen a) (take maxnamelen b)).0 e in
    let alike : same_name v.name a ≡ same_name v.name b =
      ap (λ n. str_eq (take maxnamelen v.name) n) one in
    ground (arith, alike, index_alike vs a b e)

length-without :
    (vars : List EnvVar) (name : CString) (i : ℕ)
    → IsUnique vars
    → variable_index name vars ≡ some i
    → suc (length (variables_without name vars)) ≡ length vars
unfolding variable_index variables_without
length-without [] name i u there = absurd (ground (arith, there))
length-without (v ∷ vs) name i (apart, u) there = elim (Bool-cases (same_name v.name name)) [
  | inl same ↦
      let gone = index_alike vs v.name name same in
      ground (arith, same, without_absent vs name (sym gone ∙ apart))
  | inr other ↦ elim (Option-cases (variable_index name vs)) [
    | inl nowhere ↦ absurd (ground (arith, there, other, nowhere))
    | inr (k, e) ↦ ground (arith, other, length-without vs name k u e)
  ]
]

delete_absent :
    (shm : Shm) (h : Handle) (vars : List EnvVar) (name : CString)
    → Holds shm h vars
    → variable_index name vars ≡ none
    → envvars_variable_delete shm h name ≡ (shm, h, true)
unfolding envvars_variable_delete
delete_absent shm h vars name hold absent = ground (arith, find_none shm h vars name hold absent)

delete_last :
    (shm : Shm) (h : Handle) (id i : ℕ) (v : EnvVar) (name : CString)
    → Stored shm h id (v ∷ [])
    → variable_index name (v ∷ []) ≡ some i
    → envvars_variable_delete shm h name
      ≡ (record shm { env_seg = update shm.env_seg id none }, detached_init, true)
unfolding envvars_variable_delete envvars_detach envvars_free envvars_init
delete_last shm h id i v name s there =
    ground (arith, find_some shm h (v ∷ []) name i id s there, s.counted, s.shmid, s.contents)

delete_more :
    (shm : Shm) (h : Handle) (id i : ℕ) (vars : List EnvVar) (name : CString)
    → Stored shm h id vars
    → HasRoom shm
    → variable_index name vars ≡ some i
    → 2 ≤ length vars
    → envvars_variable_delete shm h name ≡ (
      moved shm id (variables_without name vars),
      record {
        envvars = record {
          nvariables = length vars - 1;
          evshmid = some shm.next_id;
          evsemid = none;
        };
        variables = null;
      },
      true,
    )
unfolding envvars_variable_delete envvars_get_shared_memory envvars_attach envvars_detach
    envvars_free envvars_init
delete_more shm h id i vars name s room there many =
    let all = take_all h.envvars.nvariables vars (omega (arith, s.counted)) in
    ground (arith, find_some shm h vars name i id s there, all, room.available, room.attachable)

nil_lem : (vars : List EnvVar) → length vars ≡ 0 → vars ≡ []
nil_lem [] e = refl
nil_lem (v ∷ vs) e = absurd (omega (arith, e))

deleted-Holds :
    (shm : Shm) (h : Handle) (vars : List EnvVar) (name : CString) (i : ℕ)
    → Holds shm h vars
    → HasRoom shm
    → IsUnique vars
    → variable_index name vars ≡ some i
    → let (shm', h', done) = envvars_variable_delete shm h name in
      (done ≡ true) × Holds shm' h' (variables_without name vars)
unfolding variable_index envvars_init
deleted-Holds shm h [] name i hold room u there = absurd (ground (arith, there))
deleted-Holds shm h (v ∷ []) name i (id, s) room u there =
    let e = delete_last shm h id i v name s there in
    let nothing =
      nil_lem (variables_without name (v ∷ []))
        (omega (arith, length-without (v ∷ []) name i u there)) in
    rw e (
      refl,
      subst (Holds (record shm { env_seg = update shm.env_seg id none }) detached_init)
          (sym nothing) (refl, refl, refl),
    )
deleted-Holds shm h (v ∷ w ∷ ws) name i (id, s) room u there =
    let vars : List EnvVar = v ∷ w ∷ ws in
    let e = delete_more shm h id i vars name s room there (ground arith) in
    let size = length-without vars name i u there in
    rw e (
      refl,
      Stored-Holds (moved shm id (variables_without name vars)) _ shm.next_id
          (variables_without name vars)
          (record {
            shmid = refl;
            contents = ground arith;
            attachable = room.attachable;
            given = ground arith;
            counted = omega (arith, size);
            detached = refl;
          })
          (omega (arith, size)),
    )

-- Deleting a variable, of a list where no name stands twice, succeeds where there is room, and leaves the environment without a value
-- at its name and as it was elsewhere; whether there was such a variable, whether it was the only one, or
-- neither.
pub delete-value_of :
    (shm : Shm) (h : Handle) (vars : List EnvVar) (name : CString)
    → Holds shm h vars
    → HasRoom shm
    → IsUnique vars
    → (vars' : List EnvVar) × (let (shm', h', done) = envvars_variable_delete shm h name in
        (done ≡ true) × Holds shm' h' vars')
      × ((q : CString) → value_of vars' q ≡ (if same_name name q then none else value_of vars q))
delete-value_of shm h vars name hold room u = elim (Option-cases (variable_index name vars)) [
  | inl absent ↦
      let e = delete_absent shm h vars name hold absent in
      (
        vars,
        rw e (refl, hold),
        λ q.
            ap (λ l. value_of l q) (sym (without_absent vars name absent))
            ∙ value_of-without vars name q,
      )
  | inr (i, there) ↦ (
    variables_without name vars,
    deleted-Holds shm h vars name i hold room u there,
    value_of-without vars name,
  )
]
