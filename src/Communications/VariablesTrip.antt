-- ===== src/Communications/VariablesTrip.antt =====
-- What one end sends of a list of environment variables, the other receives.
use drqueue.Prelude.{
  ◌+◌, ◌<◌, ◌≡◌, refl, ◌∙◌, Bool, List, [], ◌∷◌, CString, arith, length, take_all, if◌then◌else◌,
}
use drqueue.Prelude.Bytes.{Host}
use drqueue.Job.{EnvVar, is_set, envvars_init}
use drqueue.Shm.{Shm}
use drqueue.Database.Registry.{envvars_free}
use drqueue.EnvVars.{Handle, detached_init, envvars_attach, envvars_variable_add}
use drqueue.EnvVars.Laws.{Holds}
use drqueue.EnvVars.Environment.{value_of, with_binding}
use drqueue.EnvVars.Deletion.{IsUnique}
use drqueue.EnvVars.Bindings.{bind_all, bind_all_alike, Fits, bind_empty, Ready, add_step}
use drqueue.Communications.Wire.{Packet, ok, ◌>>=◌, ◌>>◌, read_object}
use drqueue.Communications.Delivery.{
  Talks-ok, Talks-bind, Talks-write, Talks-read, Delivers, Delivers-bind,
}
use drqueue.Communications.Records.{
  Layout, as_envvar, write_16b, read_16b, send_envvar, recv_envvar,
}
use drqueue.Communications.ListTrips.{silent, optional_size, word16_delivered}
use drqueue.Communications.Variables.{
  send_variables, attached_variables, send_envvars, added, recv_variables, recv_envvars,
}

variable_delivered :
    (s r : Host) (sizeof : Layout) (v : EnvVar) (do_checksize : Bool)
    → sizeof.envvar < 4_294_967_296
    → Delivers (send_envvar s sizeof v do_checksize) (recv_envvar r sizeof do_checksize) v
unfolding send_envvar recv_envvar ◌>>◌
variable_delivered s r sizeof v do_checksize l =
    Delivers-bind (λ _. read_object >>= λ p. as_envvar p)
      (optional_size s r sizeof.envvar do_checksize l)
      (record {
        there = Packet.envvar v ∷ [];
        back = [];
        sends = Talks-write (Packet.envvar v);
        receives = Talks-bind (λ p. as_envvar p) (Talks-read (Packet.envvar v)) (Talks-ok v);
      })

-- The list of the receiver after it has added the variables `vs` to `have`.
record AddedAll (vs have : List EnvVar) (shm : Shm) (h : Handle) : Type 0 where
  vars : List EnvVar
  held : Holds shm h vars
  ready : Ready shm
  values : (q : CString) → value_of vars q ≡ bind_all vs (value_of have) q

variables_delivered :
    (vs : List EnvVar) (s r : Host) (sizeof : Layout) (shm : Shm) (h : Handle) (have : List EnvVar)
    (do_checksize : Bool)
    → sizeof.envvar < 4_294_967_296
    → Holds shm h have
    → Ready shm
    → length have + length vs < 32_768
    → (shm' : Shm) × (h' : Handle) × Delivers
        (send_variables s sizeof vs do_checksize)
        (recv_variables (length vs) r sizeof shm h do_checksize)
        (shm', h')
      × AddedAll vs have shm' h'
unfolding send_variables recv_variables ◌>>◌ ◌>>=◌
variables_delivered [] s r sizeof shm h have do_checksize l hold ready few = (
  shm,
  h,
  silent (shm, h),
  record { vars = have; held = hold; ready = ready; values = λ q. refl },
)
variables_delivered (v ∷ vs) s r sizeof shm h have do_checksize l hold ready few =
    let (shm1, h1, have1, e, held, ready1, longer, values) =
      add_step shm h have v.name v.value hold ready (omega (arith, few)) in
    let (shm', h', d, all) =
      variables_delivered vs s r sizeof shm1 h1 have1 do_checksize l held ready1
        (omega (arith, few, longer)) in
    let rest : Delivers (send_variables s sizeof vs do_checksize)
        (added (envvars_variable_add shm h v.name v.value) >>= λ p.
          recv_variables (length vs) r sizeof p.0 p.1 do_checksize)
        (shm', h') =
      rw e d in
    (
      shm',
      h',
      Delivers-bind
          (λ w. added (envvars_variable_add shm h w.name w.value) >>= λ p.
            recv_variables (length vs) r sizeof p.0 p.1 do_checksize)
          (variable_delivered s r sizeof v do_checksize l) rest,
      record {
        vars = all.vars;
        held = all.held;
        ready = all.ready;
        values = λ q.
            all.values q
            ∙ bind_all_alike vs (value_of have1) (with_binding (value_of have) v.name v.value) q
                values;
      },
    )

sent_variables :
    (shm : Shm) (h : Handle) (vs : List EnvVar)
    → Holds shm h vs
    → (if is_set h.envvars.nvariables then attached_variables shm h else ok []) ≡ ok vs
unfolding envvars_attach
sent_variables shm h [] hold = ground (arith, hold.0)
sent_variables shm h (v ∷ vs) (id, st) = ground (
  arith,
  st.counted,
  st.shmid,
  st.contents,
  st.attachable,
  take_all h.envvars.nvariables (v ∷ vs) (omega (arith, st.counted)),
)

size_sent :
    (shm : Shm) (h : Handle) (vs : List EnvVar) → Holds shm h vs → h.envvars.nvariables ≡ length vs
size_sent shm h [] hold = hold.0
size_sent shm h (v ∷ vs) (id, st) = st.counted

send_lem :
    (host : Host) (sizeof : Layout) (shm : Shm) (h : Handle) (vs : List EnvVar)
    (do_checksize : Bool)
    → Holds shm h vs
    → send_envvars host sizeof shm h do_checksize
      ≡ (write_16b host (length vs) >> send_variables host sizeof vs do_checksize)
unfolding send_envvars ◌>>=◌ ◌>>◌
send_lem host sizeof shm h vs do_checksize hold =
    rw (send_envvars, sent_variables shm h vs hold, size_sent shm h vs hold) refl

recv_lem :
    (host : Host) (sizeof : Layout) (shm : Shm) (h : Handle) (do_checksize : Bool)
    → Holds shm h []
    → recv_envvars host sizeof shm h do_checksize
      ≡ (read_16b host >>= λ n. recv_variables n host sizeof shm detached_init do_checksize)
unfolding recv_envvars envvars_free envvars_init ◌>>=◌
recv_lem host sizeof shm h do_checksize hold = rw (recv_envvars, hold.1) refl

-- A list of fewer than 32,768 environment variables, where no name stands twice and every value
-- fits, that one end sends, the other has in the end, in segments of its own: every name has the
-- value that it has at the sender. The receiver starts with an empty list, and its system has
-- segments to give, before and after. The hosts may order bytes differently.
pub envvars_delivered :
    (s r : Host) (sizeof : Layout) (shm_s shm_r : Shm) (h_s h_r : Handle) (vs : List EnvVar)
    (do_checksize : Bool)
    → sizeof.envvar < 4_294_967_296
    → Holds shm_s h_s vs
    → Holds shm_r h_r []
    → Ready shm_r
    → length vs < 32_768
    → IsUnique vs
    → Fits vs
    → (shm' : Shm) × (h' : Handle) × (vars' : List EnvVar) × Delivers
        (send_envvars s sizeof shm_s h_s do_checksize)
        (recv_envvars r sizeof shm_r h_r do_checksize)
        (shm', h')
      × Holds shm' h' vars'
      × Ready shm'
      × ((q : CString) → value_of vars' q ≡ value_of vs q)
envvars_delivered s r sizeof shm_s shm_r h_s h_r vs do_checksize l hold hold_r ready few u f =
    let (shm', h', d, all) =
      variables_delivered vs s r sizeof shm_r detached_init [] do_checksize l (refl, refl, refl)
        ready (omega (arith, few)) in
    (
      shm',
      h',
      all.vars,
      rw
          (
            send_lem s sizeof shm_s h_s vs do_checksize hold,
            recv_lem r sizeof shm_r h_r do_checksize hold_r,
          )
          (Delivers-bind (λ n. recv_variables n r sizeof shm_r detached_init do_checksize)
            (word16_delivered s r (length vs) (omega (arith, few))) d),
      all.held,
      all.ready,
      λ q. all.values q ∙ bind_empty vs q u f,
    )
