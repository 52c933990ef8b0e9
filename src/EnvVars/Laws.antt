-- ===== src/EnvVars/Laws.antt =====
-- What the operations on the environment variables do to the list of them.
use drqueue.Prelude.{
  ℕ, zero, suc, ◌+◌, ◌<◌, ◌≡◌, refl, sym, ap, ◌∙◌, true, false, none, some, List, [], ◌∷◌, ◌++◌,
  CString, arith, length, length-append, take_all, update,
}
use drqueue.Job.{EnvVar, envvars_init}
use drqueue.Shm.{Shm}
use drqueue.Database.Registry.{envvars_free}
use drqueue.Computer.Pools.Laws.{HasRoom}
use drqueue.EnvVars.{
  Handle, detached_init, null, segment, envvars_attach, envvars_variable_find, envvars_variable_add,
  envvars_detach, envvars_get_shared_memory, variable_append, old_variables,
}
use drqueue.EnvVars.Variables.{variable_index, with_value, new_variable}

-- The variables lie in segment `id`, which can be attached, and is not attached now.
pub record Stored (shm : Shm) (h : Handle) (id : ℕ) (vars : List EnvVar) : Type 0 where
  pub shmid : h.envvars.evshmid ≡ some id
  pub contents : shm.env_seg id ≡ some vars
  pub attachable : shm.no_attach id ≡ false
  pub given : id < shm.next_id
  pub counted : h.envvars.nvariables ≡ length vars
  pub detached : h.variables ≡ null

-- The structure stands for this list of variables.
abbrev pub Holds : Shm → Handle → List EnvVar → Type 0
Holds shm h [] = (h.envvars.nvariables ≡ 0) × (h.envvars.evshmid ≡ none) × (h.variables ≡ null)
Holds shm h (v ∷ vs) = (id : ℕ) × Stored shm h id (v ∷ vs)

pub find_none :
    (shm : Shm) (h : Handle) (vars : List EnvVar) (name : CString)
    → Holds shm h vars
    → variable_index name vars ≡ none
    → envvars_variable_find shm h name ≡ (h, none)
unfolding envvars_variable_find variable_index
find_none shm h [] name hold absent = ground arith
find_none shm h (v ∷ vs) name (id, s) absent =
    ground (arith, take_all h.envvars.nvariables (v ∷ vs) (omega (arith, s.counted)), absent)

pub find_some :
    (shm : Shm) (h : Handle) (vars : List EnvVar) (name : CString) (i id : ℕ)
    → Stored shm h id vars
    → variable_index name vars ≡ some i
    → envvars_variable_find shm h name ≡ (record h { variables = segment id }, some (i, vars))
unfolding envvars_variable_find
find_some shm h vars name i id s there =
    ground (arith, take_all h.envvars.nvariables vars (omega (arith, s.counted)), there)

-- The shared memory and the structure after a variable is added to no others, and after a change of a list.
abbrev grown : Shm → List EnvVar → Shm
grown shm vars = record shm {
  env_seg = update (update shm.env_seg shm.next_id (some [])) shm.next_id (some vars);
  next_id = suc shm.next_id;
}

abbrev pub moved : Shm → ℕ → List EnvVar → Shm
moved shm id vars = record shm {
  env_seg =
      update (update (update shm.env_seg shm.next_id (some [])) id none) shm.next_id (some vars);
  next_id = suc shm.next_id;
}

append_first :
    (shm : Shm) (h : Handle) (name value : CString)
    → Holds shm h []
    → HasRoom shm
    → variable_append shm h name value
      ≡ some (
        grown shm (new_variable name value ∷ []),
        record {
          envvars = record h.envvars { nvariables = 1; evshmid = some shm.next_id };
          variables = null;
        },
        true,
      )
unfolding variable_append envvars_get_shared_memory old_variables envvars_attach envvars_detach
    envvars_init
append_first shm h name value hold room = ground (arith, room.available, room.attachable)

append_next :
    (shm : Shm) (h : Handle) (id : ℕ) (vars : List EnvVar) (name value : CString)
    → Stored shm h id vars
    → HasRoom shm
    → 0 < length vars
    → length vars < 32_767
    → variable_append shm h name value
      ≡ some (
        moved shm id (vars ++ new_variable name value ∷ []),
        record {
          envvars = record {
            nvariables = length vars + 1;
            evshmid = some shm.next_id;
            evsemid = none;
          };
          variables = null;
        },
        true,
      )
unfolding variable_append envvars_get_shared_memory old_variables envvars_attach envvars_detach
    envvars_free envvars_init
append_next shm h id vars name value s room some_vars few =
    let all = take_all h.envvars.nvariables vars (omega (arith, s.counted)) in
    ground (arith, room.available, room.attachable, all)

add_absent :
    (shm : Shm) (h : Handle) (vars : List EnvVar) (name value : CString)
    → Holds shm h vars
    → variable_index name vars ≡ none
    → envvars_variable_add shm h name value ≡ variable_append shm h name value
unfolding envvars_variable_add
add_absent shm h vars name value hold absent =
    let e = find_none shm h vars name hold absent in
    rw (envvars_variable_add, ap (λ r. r.1) e, ap (λ r. r.0) e) refl

-- A new variable is put at the end of the list, its name and its value cut to MAXNAMELEN.
pub add-new :
    (shm : Shm) (h : Handle) (vars : List EnvVar) (name value : CString)
    → Holds shm h vars
    → HasRoom shm
    → variable_index name vars ≡ none
    → length vars < 32_767
    → (shm' : Shm) × (h' : Handle) × (envvars_variable_add shm h name value ≡ some (shm', h', true))
      × Holds shm' h' (vars ++ new_variable name value ∷ [])
      × (shm'.full ≡ shm.full)
      × (shm'.no_attach ≡ shm.no_attach)
unfolding envvars_variable_add envvars_get_shared_memory variable_append
add-new shm h [] name value hold room absent few = (
  _,
  _,
  add_absent shm h [] name value hold absent ∙ append_first shm h name value hold room,
  (
    shm.next_id,
    record {
      shmid = refl;
      contents = ground arith;
      attachable = room.attachable;
      given = ground arith;
      counted = ground arith;
      detached = refl;
    },
  ),
  refl,
  refl,
)
add-new shm h (v ∷ vs) name value (id, s) room absent few = (
  _,
  _,
  add_absent shm h (v ∷ vs) name value (id, s) absent
      ∙ append_next shm h id (v ∷ vs) name value s room (ground arith) few,
  (
    shm.next_id,
    record {
      shmid = refl;
      contents = ground arith;
      attachable = room.attachable;
      given = ground arith;
      counted = ground (arith, length-append (v ∷ vs) (new_variable name value ∷ []));
      detached = refl;
    },
  ),
  refl,
  refl,
)

pub length-with_value :
    (i : ℕ) (value : CString) (vars : List EnvVar) → length (with_value i value vars) ≡ length vars
unfolding with_value
length-with_value i value [] = refl
length-with_value zero value (v ∷ vs) = refl
length-with_value (suc i) value (v ∷ vs) = ap suc (length-with_value i value vs)

pub Stored-Holds :
    (shm : Shm) (h : Handle) (id : ℕ) (vars : List EnvVar)
    → Stored shm h id vars
    → 0 < length vars
    → Holds shm h vars
Stored-Holds shm h id [] s l = absurd (omega (arith, l))
Stored-Holds shm h id (v ∷ vs) s l = (id, s)

written_lem :
    (shm : Shm) (h : Handle) (id : ℕ) (vars : List EnvVar) (name value : CString) (i : ℕ)
    → Stored shm h id vars
    → variable_index name vars ≡ some i
    → envvars_variable_add shm h name value
      ≡ some
          (record shm { env_seg = update shm.env_seg id (some (with_value i value vars)) }, h, true)
unfolding envvars_variable_add envvars_detach
written_lem shm h id vars name value i s there =
    ground (arith, find_some shm h vars name i id s there)

-- A variable of the list is given the new value where it stands, cut to MAXNAMELEN.
pub add-known :
    (shm : Shm) (h : Handle) (vars : List EnvVar) (name value : CString) (i : ℕ)
    → Holds shm h vars
    → variable_index name vars ≡ some i
    → (shm' : Shm) × (h' : Handle) × (envvars_variable_add shm h name value ≡ some (shm', h', true))
      × Holds shm' h' (with_value i value vars)
      × (shm'.full ≡ shm.full)
      × (shm'.no_attach ≡ shm.no_attach)
unfolding variable_index
add-known shm h [] name value i hold there = absurd (ground (arith, there))
add-known shm h (v ∷ vs) name value i (id, s) there = (
  record shm { env_seg = update shm.env_seg id (some (with_value i value (v ∷ vs))) },
  h,
  written_lem shm h id (v ∷ vs) name value i s there,
  Stored-Holds _ h id (with_value i value (v ∷ vs))
      (record {
        shmid = s.shmid;
        contents = ground arith;
        attachable = s.attachable;
        given = s.given;
        counted = s.counted ∙ sym (length-with_value i value (v ∷ vs));
        detached = s.detached;
      })
      (ground (arith, length-with_value i value (v ∷ vs))),
  refl,
  refl,
)

-- Where the system has no segment to give, a new variable is not added, and the whole list is
-- lost: the call reports the failure, and the structure stands for no variables.
pub add-full :
    (shm : Shm) (h : Handle) (vars : List EnvVar) (name value : CString)
    → Holds shm h vars
    → variable_index name vars ≡ none
    → shm.full ≡ true
    → (shm' : Shm) × (h' : Handle) × (envvars_variable_add shm h name value
        ≡ some (shm', h', false))
      × Holds shm' h' []
unfolding variable_append envvars_detach envvars_free envvars_init envvars_get_shared_memory
add-full shm h [] name value hold absent full = (
  shm,
  detached_init,
  add_absent shm h [] name value hold absent ∙ ground arith,
  (refl, refl, refl),
)
add-full shm h (v ∷ vs) name value (id, s) absent full = (
  record shm { env_seg = update shm.env_seg id none },
  detached_init,
  add_absent shm h (v ∷ vs) name value (id, s) absent ∙ ground arith,
  (refl, refl, refl),
)
