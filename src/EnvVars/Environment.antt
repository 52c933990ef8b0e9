-- ===== src/EnvVars/Environment.antt =====
-- The environment that a list of variables stands for: what each name has for a value. The order of the list and
-- the segments are forgotten.
use drqueue.Prelude.{
  ℕ, zero, suc, ◌<◌, ◌≡◌, refl, sym, ap, subst, ◌∙◌, inl, inr, true, false, Option, none, some,
  List, [], ◌∷◌, ◌++◌, CString, if◌then◌else◌, arith, length, take, Bool-cases, Option-cases,
  str_eq, str_eq_iff,
}
use drqueue.Job.{EnvVar, maxnamelen}
use drqueue.Shm.{Shm}
use drqueue.Computer.Pools.Laws.{HasRoom}
use drqueue.EnvVars.{Handle, envvars_variable_add}
use drqueue.EnvVars.Variables.{
  same_name, variable_index, with_value, variables_without, new_variable,
}
use drqueue.EnvVars.Laws.{Holds, add-new, add-known}

unfoldable pub value_of : List EnvVar → CString → Option CString
value_of [] q = none
value_of (v ∷ vs) q = let rest = value_of vs q in if same_name v.name q then some v.value else rest

take_again : (n : ℕ) (xs : CString) → take n (take n xs) ≡ take n xs
take_again zero xs = refl
take_again (suc n) [] = refl
take_again (suc n) (x ∷ xs) = ap (◌∷◌ x) (take_again n xs)

-- The name as it is stored compares as the name does.
same_stored : (name q : CString) → same_name (take maxnamelen name) q ≡ same_name name q
same_stored name q = ap (λ n. str_eq n (take maxnamelen q)) (take_again maxnamelen name)

-- Two names that are one name compare alike.
pub same_alike : (a b q : CString) → same_name a b ≡ true → same_name a q ≡ same_name b q
same_alike a b q e =
    ap (λ n. str_eq n (take maxnamelen q))
      ((str_eq_iff (take maxnamelen a) (take maxnamelen b)).0 e)

pub same_apart :
    (a b q : CString) → same_name a q ≡ true → same_name a b ≡ false → same_name b q ≡ false
same_apart a b q e c = elim (Bool-cases (same_name b q)) [
  | inr other ↦ other
  | inl same ↦ absurd (
      ground (
        arith,
        str_eq_iff (take maxnamelen a) (take maxnamelen q),
        str_eq_iff (take maxnamelen b) (take maxnamelen q),
        str_eq_iff (take maxnamelen a) (take maxnamelen b),
        e,
        c,
        same,
      ))
]

pub absent_rest :
    (v : EnvVar) (vs : List EnvVar) (name : CString)
    → variable_index name (v ∷ vs) ≡ none
    → (same_name v.name name ≡ false) × (variable_index name vs ≡ none)
unfolding variable_index
absent_rest v vs name absent = elim (Bool-cases (same_name v.name name)) [
  | inl same ↦ absurd (ground (arith, absent, same))
  | inr other ↦ (other, ground (arith, absent, other))
]

abbrev pub with_binding : (CString → Option CString) → CString → CString → CString → Option CString
with_binding env name value q = if same_name name q then some (take maxnamelen value) else env q

pub value_of-append :
    (vars : List EnvVar) (name value q : CString)
    → variable_index name vars ≡ none
    → value_of (vars ++ new_variable name value ∷ []) q ≡ with_binding (value_of vars) name value q
unfolding value_of variable_index
value_of-append [] name value q absent = rw (same_stored name q) refl
value_of-append (v ∷ vs) name value q absent =
    let (other, rest) = absent_rest v vs name absent in
    let later = value_of-append vs name value q rest in
    elim (Bool-cases (same_name v.name q)) [
      | inl here ↦ rw (here, same_apart v.name name q here other) refl
      | inr there ↦ rw there later
    ]

pub value_of-with_value :
    (vars : List EnvVar) (name value q : CString) (i : ℕ)
    → variable_index name vars ≡ some i
    → value_of (with_value i value vars) q ≡ with_binding (value_of vars) name value q
unfolding value_of variable_index with_value
value_of-with_value [] name value q i there = absurd (ground (arith, there))
value_of-with_value (v ∷ vs) name value q i there = elim (Bool-cases (same_name v.name name)) [
  | inl same ↦
      let first : i ≡ 0 = ground (arith, there, same) in
      let alike = same_alike v.name name q same in
      subst
        (λ k.
          value_of (with_value k value (v ∷ vs)) q ≡ with_binding (value_of (v ∷ vs)) name value q)
        (sym first) (ground (arith, alike))
  | inr other ↦ elim (Option-cases (variable_index name vs)) [
    | inl nowhere ↦ absurd (ground (arith, there, nowhere, other))
    | inr (k, e) ↦
        let next : i ≡ suc k = ground (arith, there, e, other) in
        let later = value_of-with_value vs name value q k e in
        subst
          (λ m.
            value_of (with_value m value (v ∷ vs)) q
            ≡ with_binding (value_of (v ∷ vs)) name value q)
          (sym next)
          (elim (Bool-cases (same_name v.name q)) [
            | inl here ↦ rw (here, same_apart v.name name q here other) refl
            | inr away ↦ rw away later
          ])
  ]
]

pub value_of-without :
    (vars : List EnvVar) (name q : CString)
    → value_of (variables_without name vars) q
      ≡ (if same_name name q then none else value_of vars q)
unfolding value_of variables_without
value_of-without [] name q = ground arith
value_of-without (v ∷ vs) name q =
    let later = value_of-without vs name q in
    elim (Bool-cases (same_name v.name name)) [
      | inl same ↦ rw same (later ∙ ground (arith, same_alike v.name name q same))
      | inr other ↦ rw other (elim (Bool-cases (same_name v.name q)) [
        | inl here ↦ rw (here, same_apart v.name name q here other) refl
        | inr there ↦ rw there later
      ])
    ]

-- Setting a variable, new or known, succeeds where there is room, and changes the environment at its name only, where it gives the
-- value, cut to MAXNAMELEN. Names are compared up to MAXNAMELEN.
pub add-value_of :
    (shm : Shm) (h : Handle) (vars : List EnvVar) (name value : CString)
    → Holds shm h vars
    → HasRoom shm
    → length vars < 32_767
    → (shm' : Shm) × (h' : Handle) × (vars' : List EnvVar) × (envvars_variable_add shm h name value
        ≡ some (shm', h', true))
      × Holds shm' h' vars'
      × ((q : CString) → value_of vars' q ≡ with_binding (value_of vars) name value q)
add-value_of shm h vars name value hold room few = elim (Option-cases (variable_index name vars)) [
  | inl absent ↦
      let (shm', h', e, held, full, attachable) =
        add-new shm h vars name value hold room absent few in
      (
        shm',
        h',
        vars ++ new_variable name value ∷ [],
        e,
        held,
        λ q. value_of-append vars name value q absent,
      )
  | inr (i, there) ↦
      let (shm', h', e, held, full, attachable) = add-known shm h vars name value i hold there in
      (
        shm',
        h',
        with_value i value vars,
        e,
        held,
        λ q. value_of-with_value vars name value q i there,
      )
]
