-- ===== src/EnvVars.antt =====
-- The environment variables of a job (libdrqueue/envvars.c): a list in a shared segment that is replaced by
-- a new one where it grows or shrinks. `none` for the whole result stands for a process that dies at a
-- pointer that is not one.
pub mod Variables
pub mod Laws
pub mod Environment
pub mod Deletion
pub mod Bindings
use drqueue.Prelude.{
  ℕ, suc, ◌+◌, ◌-◌, Bool, true, false, not, ◌||◌, ◌&&◌, Option, none, some, List, [], ◌∷◌, ◌++◌,
  CString, ◌==◌, if◌then◌else◌, leb, take, update, u16,
}
use drqueue.Job.{EnvVars, EnvVar, ShmId, is_set, maxnamelen, envvars_init}
use drqueue.Shm.{Shm, attach, store, discard}
use drqueue.Database.Registry.{envvars_free}
use drqueue.EnvVars.Variables.{variable_index, with_value, variables_without, new_variable}

-- The pointer `variables.ptr`: null, the pointer -1 of a failed `shmat`, or a segment.
pub data Pointer : Type 0 where
  null failed : Pointer
  segment : ℕ → Pointer

-- `struct envvars`, with its pointer.
pub record Handle : Type 0 where
  pub envvars : EnvVars
  pub variables : Pointer

abbrev pub detached_init : Handle
detached_init = record {
  envvars = record { nvariables = 0; evshmid = none; evsemid = none };
  variables = null;
}

-- A pointer that is left from before is detached first. The variables are those of the segment.
unfoldable pub envvars_attach : Shm → Handle → Handle × Option (List EnvVar)
envvars_attach shm h = elim h.envvars.evshmid [
  | none ↦ (h, none)
  | some id ↦ elim (attach shm shm.env_seg (some id)) [
    | none ↦ (record h { variables = failed }, none)
    | some vars ↦ (record h { variables = segment id }, some vars)
  ]
]

-- `shmdt` succeeds for a segment that is attached only.
unfoldable pub envvars_detach : Handle → Handle × Bool
envvars_detach h = elim h.variables [
  | null ↦ (h, false)
  | failed ↦ (h, false)
  | segment id ↦ (record h { variables = null }, true)
]

abbrev pub handle_free : Shm → Handle → Shm × Handle × Bool
unfolding envvars_free
handle_free shm h =
    let r = envvars_free shm h.envvars in (r.0, record { envvars = r.1; variables = null }, r.2)

-- The place of the variable in the list; the segment is left attached where there is one.
unfoldable pub envvars_variable_find : Shm → Handle → CString → Handle × Option (ℕ × List EnvVar)
unfolding envvars_attach envvars_detach variable_index
envvars_variable_find shm h name =
    let (attached, there) = envvars_attach shm h in
    elim there [
      | none ↦ (attached, none)
      | some vars ↦ elim (variable_index name (take h.envvars.nvariables vars)) [
        | none ↦ ((envvars_detach attached).0, none)
        | some i ↦ (attached, some (i, vars))
      ]
    ]

unfoldable pub envvars_get_shared_memory : ℕ → Shm → Shm × ShmId
envvars_get_shared_memory size shm = if shm.full || size == 0 then (shm, none) else (
  record shm { env_seg = update shm.env_seg shm.next_id (some []); next_id = suc shm.next_id },
  some shm.next_id,
)

abbrev pub fresh_handle : ℕ → ShmId → Handle
unfolding envvars_init
fresh_handle size id = record {
  envvars = record envvars_init { nvariables = size; evshmid = id };
  variables = null;
}

-- The new segment takes the place of the old one, which is removed.
abbrev pub handle_replaced : Handle → Handle → Handle
unfolding envvars_detach
handle_replaced old new =
    (envvars_detach (record old {
      envvars = record old.envvars {
        nvariables = new.envvars.nvariables;
        evshmid = new.envvars.evshmid;
      };
      variables = new.variables;
    })).0

-- The copy of the old variables, from the pointer that the call of `envvars_attach` leaves, whose result is not looked at.
unfoldable pub old_variables : Shm → Handle → Option (Shm × Handle × List EnvVar)
unfolding envvars_attach envvars_detach envvars_free
old_variables shm h =
    if is_set h.envvars.nvariables
    then (let (attached, there) = envvars_attach shm h in
        elim there [
          | none ↦ none
          | some vars ↦
              let freed = handle_free shm (envvars_detach attached).0 in
              some (freed.0, freed.1, take h.envvars.nvariables vars)
        ])
    else some (shm, h, [])

-- `new_size` is an int16_t, which a number from 32,768 on makes negative: more than the system gives.
abbrev pub get_int16 : ℕ → Shm → Shm × ShmId
unfolding envvars_get_shared_memory
get_int16 size shm = if leb 32_768 size then (shm, none) else envvars_get_shared_memory size shm

unfoldable pub variable_append : Shm → Handle → CString → CString → Option (Shm × Handle × Bool)
unfolding envvars_attach envvars_detach envvars_free envvars_get_shared_memory old_variables
variable_append shm h name value =
    let new_size = u16 (h.envvars.nvariables + 1) in
    let (shm', nshmid) = get_int16 new_size shm in
    elim nshmid [
      | none ↦ elim (envvars_detach h).1 [
        | true ↦ some (shm', (envvars_detach h).0, false)
        | false ↦
            (let freed = handle_free shm' (envvars_detach h).0 in some (freed.0, freed.1, false))
      ]
      | some id ↦
          let (new, there) = envvars_attach shm' (fresh_handle new_size (some id)) in
          elim there [
            | none ↦ some ((handle_free shm' new).0, (envvars_detach h).0, false)
            | some empty ↦ elim (old_variables shm' h) [
              | none ↦ none
              | some (shm'', old, vars) ↦ some (
                record shm'' {
                  env_seg = store shm''.env_seg (some id) (vars ++ new_variable name value ∷ []);
                },
                handle_replaced old new,
                true,
              )
            ]
          ]
    ]

unfoldable pub envvars_variable_add :
    Shm → Handle → CString → CString → Option (Shm × Handle × Bool)
unfolding envvars_variable_find envvars_detach variable_append with_value
envvars_variable_add shm h name value =
    let (found, var) = envvars_variable_find shm h name in
    elim var [
      | none ↦ variable_append shm found name value
      | some (i, vars) ↦ some (
        record shm { env_seg = store shm.env_seg h.envvars.evshmid (with_value i value vars) },
        (envvars_detach found).0,
        true,
      )
    ]

-- Where the call fails, the old segment is left attached.
unfoldable pub envvars_variable_delete : Shm → Handle → CString → Shm × Handle × Bool
unfolding envvars_variable_find envvars_attach envvars_detach envvars_free envvars_get_shared_memory
    variables_without
envvars_variable_delete shm h name =
    let (found, var) = envvars_variable_find shm h name in
    elim var [
      | none ↦ (shm, found, true)
      | some (i, vars) ↦
          if h.envvars.nvariables == 1
          then handle_free shm (envvars_detach found).0
          else let (shm', nshmid) = envvars_get_shared_memory (h.envvars.nvariables - 1) shm in
            elim nshmid [
              | none ↦ (shm', found, false)
              | some id ↦
                  let (new, there) =
                    envvars_attach shm' (fresh_handle (h.envvars.nvariables - 1) (some id)) in
                  elim there [
                    | none ↦ (shm', found, false)
                    | some empty ↦
                        let kept = variables_without name (take h.envvars.nvariables vars) in
                        let written = record shm' { env_seg = store shm'.env_seg (some id) kept } in
                        let freed = handle_free written (envvars_detach found).0 in
                        (freed.0, handle_replaced freed.1 new, true)
                  ]
            ]
    ]
