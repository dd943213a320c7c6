-- ===== src/Tools/Creation.antt =====
-- When the tool of src/service/tool/vm_create.go asks for a VM.
use spacetrek.Prelude.{
  arith, ◌≢◌, ◌∙◌, Bool, lookup, subst, ◌≡◌, ◌⊎◌, refl, sym, ap, inl, inr, Bool-cases, Option-cases,
  true, false, Option, none, some, Text, codes, ℤ,
}
use spacetrek.Exception.{AppError, Result, ok, err}
use spacetrek.Vm.{Vm, Status, provisioning, ready, running, idle, terminated}
use spacetrek.Vm.State.{is_active, is_terminal}
use spacetrek.Tools.{Call, ToolResult, failed, missing, read_string_arg}
use spacetrek.Tools.Vms.{Manager}
use spacetrek.Tools.Arguments.{
  IsType, IsPort, port_of, read-typed, typed-read, requested_port-of, ranged, in_range,
}
use spacetrek.Tools.Create.{
  in_port_range, requested_port, created_vm, assigned_new, blocked_by, provision, at_port,
  unless_blocked, in_environment, vm_create,
}

module _ {W : Type 0} (say : AppError → Text) (m : Manager W) where
  -- The call fails and does not reach the service.
  abbrev pub IsRefused : W → ToolResult × W → Type 0
  IsRefused w p = (p.1 ≡ w) × (p.0.is_ok ≡ false)

  -- The lookup of a VM of the chat with the environment fails, for whatever reason, or finds one that
  -- is terminated.
  abbrev pub IsFree : Result Vm → Type 0
  IsFree (err e) = Unit
  IsFree (ok v) = v.status ≡ terminated

  -- The state that the service is left in, and whether the tool reports success.
  abbrev pub after_assign : Result Vm × W → W × Bool
  after_assign (err e, w) = (w, false)
  after_assign (ok v, w) = (w, true)

  -- The VM that was created is assigned to the chat, if it was.
  abbrev pub after_create : Text → Result Vm × W → W × Bool
  after_create chat (err e, w) = (w, false)
  after_create chat (ok v, w) = after_assign (m.assign v.id chat w)

  -- What must hold for a VM to be created.
  pub record IsAllowed (chat : Option Text) (call : Call) (w : W) : Type 0 where
    pub id : Text
    pub env_type : Text
    pub env : Text
    pub in_chat : chat ≡ some id
    pub has_type : IsType (lookup (codes "environment") call.arguments) env_type
    pub is_known : m.resolve_environment env_type w ≡ ok env
    pub is_free : IsFree (m.by_environment env id w)
    pub in_range : IsPort (port_of (lookup (codes "service_port") call.arguments))

  -- It is created for the chat with the environment and the port that the call names, and then
  -- assigned to the chat.
  abbrev pub IsAsked :
      (chat : Option Text) (call : Call) (w : W) (a : IsAllowed chat call w)
      → ToolResult × W
      → Type 0
  IsAsked chat call w a p =
      (p.1, p.0.is_ok)
      ≡ after_create a.id
          (m.create_vm a.env a.id (port_of (lookup (codes "service_port") call.arguments)) w)

  assigned-after :
      (call : Call) (env_type : Text) (r : Result Vm × W)
      → let p = created_vm say m call env_type r in (p.1, p.0.is_ok) ≡ after_assign r
  assigned-after call env_type (err e, w) = refl
  assigned-after call env_type (ok v, w) = refl

  created-after :
      (call : Call) (env_type chat : Text) (r : Result Vm × W)
      → let p = assigned_new say m call env_type chat r in (p.1, p.0.is_ok) ≡ after_create chat r
  created-after call env_type chat (err e, w) = refl
  created-after call env_type chat (ok v, w) = assigned-after call env_type (m.assign v.id chat w)

  provision-after :
      (call : Call) (env_type env chat : Text) (port : Option ℤ) (w : W)
      → let p = provision say m call env_type env chat port w in
        (p.1, p.0.is_ok) ≡ after_create chat (m.create_vm env chat port w)
  unfolding provision
  provision-after call env_type env chat port w =
      created-after call env_type chat (m.create_vm env chat port w)

  over : (s : Status) → is_terminal s ≡ true → s ≡ terminated
  unfolding is_terminal
  over provisioning h = absurd (cc)
  over ready h = absurd (cc)
  over running h = absurd (cc)
  over idle h = absurd (cc)
  over terminated h = refl

  blocked_by-none : (r : Result Vm) (w : W) → blocked_by say m r w ≡ none → IsFree r
  blocked_by-none (err e) w h = tt
  blocked_by-none (ok u) w h = over u.status (ground arith)

  blocked_by-some :
      (r : Result Vm) (w : W) {why : Text} → blocked_by say m r w ≡ some why → ¬ IsFree r
  unfolding is_terminal is_active
  blocked_by-some (err e) w h free = absurd (cc)
  blocked_by-some (ok u) w h free = absurd (some≢none (sym h ∙ unblocked u w free))
    where
      some≢none : {why : Text} → some why ≢ none
      some≢none e = absurd (cc)

      unblocked : (v : Vm) (w : W) → v.status ≡ terminated → blocked_by say m (ok v) w ≡ none
      unblocked v w h = rw h refl

  at_port-cases :
      (call : Call) (env_type env chat : Text) (port : Option ℤ) (w : W)
      → (IsRefused w (at_port say m call env_type env chat port w) × ¬ IsPort port)
        ⊎ (IsPort port
            × (at_port say m call env_type env chat port w
                ≡ provision say m call env_type env chat port w))
  at_port-cases call env_type env chat none w = inr (tt, refl)
  at_port-cases call env_type env chat (some port) w = elim (Bool-cases (in_port_range port)) [
    | inl q ↦ inr (ranged port q, rw q refl)
    | inr q ↦ inl (rw q (refl, refl), λ h. absurd (true≢false (sym (in_range port h) ∙ q)))
  ]
    where
      true≢false : true ≢ false
      true≢false e = absurd (cc)

  -- A VM is asked for as it should be, in the chat.
  abbrev IsDone : Text → Call → W → ToolResult × W → Type 0
  IsDone id call w p =
      (IsRefused w p × ¬ IsAllowed (some id) call w)
      ⊎ ((a : IsAllowed (some id) call w) × IsAsked (some id) call w a p)

  -- The environment that an allowed call names is the one of the type that is read.
  resolved :
      {id : Text} {call : Call} {w : W} (a : IsAllowed (some id) call w) {env_type : Text}
      → read_string_arg (codes "environment") call.arguments ≡ some env_type
      → m.resolve_environment env_type w ≡ ok a.env
  resolved {id} {call} {w} a typed =
      let named = read-typed call a.env_type a.has_type in let known = a.is_known in cc

  -- The lookup of an allowed call is the one made.
  IsFree-of :
      {id : Text} {call : Call} {w : W} {env_type env : Text}
      → IsAllowed (some id) call w
      → read_string_arg (codes "environment") call.arguments ≡ some env_type
      → m.resolve_environment env_type w ≡ ok env
      → IsFree (m.by_environment env id w)
  IsFree-of {id} {call} {w} {env_type} {env} a typed known =
      let looked : m.by_environment a.env a.id w ≡ m.by_environment env id w =
        (let asked = resolved a typed in let chat = a.in_chat in cc) in
      subst (λ r. IsFree r) looked a.is_free

  -- Where the chat, the type and the environment are known.
  unless_blocked-cases :
      (id : Text) (call : Call) (env_type env : Text) (w : W) (o : Option Text)
      → read_string_arg (codes "environment") call.arguments ≡ some env_type
      → m.resolve_environment env_type w ≡ ok env
      → blocked_by say m (m.by_environment env id w) w ≡ o
      → IsDone id call w (unless_blocked say m call env_type env id w o)
  unless_blocked-cases id call env_type env w (some why) typed known q =
      inl (
        (refl, refl),
        λ a. blocked_by-some (m.by_environment env id w) w q (IsFree-of a typed known),
      )
  unless_blocked-cases id call env_type env w none typed known q =
      elim (at_port-cases call env_type env id (requested_port call.arguments) w) [
        | inl (h, out) ↦
            inl (h, λ a. out (subst (λ o. IsPort o) (sym (requested_port-of call)) a.in_range))
        | inr (ranged, h) ↦ inr (
          record {
            id = id;
            env_type = env_type;
            env = env;
            in_chat = refl;
            has_type = typed-read call env_type typed;
            is_known = known;
            is_free = blocked_by-none (m.by_environment env id w) w q;
            in_range = subst (λ o. IsPort o) (requested_port-of call) ranged;
          },
          ap (λ p. (p.1, p.0.is_ok)) h
              ∙ provision-after call env_type env id (requested_port call.arguments) w
              ∙ ap (λ o. after_create id (m.create_vm env id o w)) (requested_port-of call),
        )
      ]

  in_environment-cases :
      (id : Text) (call : Call) (env_type : Text) (w : W) (r : Result Text)
      → read_string_arg (codes "environment") call.arguments ≡ some env_type
      → m.resolve_environment env_type w ≡ r
      → IsDone id call w (in_environment say m call env_type id w r)
  in_environment-cases id call env_type w (err e) typed known =
      inl ((refl, refl), λ a. unknown (sym (resolved a typed) ∙ known))
    where
      unknown : {t : Text} → ok t ≢ err e
      unknown h = absurd (cc)
  in_environment-cases id call env_type w (ok env) typed known =
      unless_blocked-cases id call env_type env w (blocked_by say m (m.by_environment env id w) w)
        typed known refl

  -- The tool that creates VMs is to create one in a chat, where the call names an environment that the
  -- service knows, and no port or one between 1 and 65535, and where the lookup of a VM of the chat with
  -- this environment fails, for whatever reason, or finds one that is terminated. Then it asks the
  -- service for a VM in the environment and with the port that the call names, if any, and to assign
  -- that VM to the chat; it reports success if both are done. In every other case it reports a failure
  -- and leaves the VM service as it is.
  pub vm_create_lem :
      (chat : Option Text) (call : Call) (w : W)
      → (IsRefused w (vm_create say m chat call w) × ¬ IsAllowed chat call w)
        ⊎ ((a : IsAllowed chat call w) × IsAsked chat call w a (vm_create say m chat call w))
  unfolding vm_create
  vm_create_lem none call w = inl ((refl, refl), λ a. nowhere a.in_chat)
    where
      nowhere : {t : Text} → none ≢ some t
      nowhere e = absurd (cc)
  vm_create_lem (some id) call w =
      elim (Option-cases (read_string_arg (codes "environment") call.arguments)) [
        | inl q ↦ inl (
          (ap (λ p. p.1) (opened q), ap (λ p. p.0.is_ok) (opened q)),
          λ a. untyped (sym q ∙ read-typed call a.env_type a.has_type),
        )
        | inr (env_type, q) ↦
            subst (λ p. IsDone id call w p) (sym (opened q))
              (in_environment-cases id call env_type w (m.resolve_environment env_type w) q refl)
      ]
    where
      untyped : {t : Text} → none ≢ some t
      untyped e = absurd (cc)

      typed_as : Option Text → ToolResult × W
      typed_as none = (failed call (missing (codes "environment")), w)
      typed_as (some env_type) =
          in_environment say m call env_type id w (m.resolve_environment env_type w)

      opened :
          {o : Option Text}
          → read_string_arg (codes "environment") call.arguments ≡ o
          → vm_create say m (some id) call w ≡ typed_as o
      opened q =
          ap
            (λ o. elim o [
              | none ↦ (failed call (missing (codes "environment")), w)
              | some env_type ↦
                  in_environment say m call env_type id w (m.resolve_environment env_type w)
            ])
            q
