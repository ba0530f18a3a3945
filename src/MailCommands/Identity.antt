-- ===== src/MailCommands/Identity.antt =====
-- app/playersrv/mail_commands.go: which call a mail command makes, and for whom.
use globalmail.Prelude.{
  ◌≡◌, ◌==◌, false, refl, sym, subst, inl, inr, In, arith, Option, none, some, List, [], ◌∷◌,
  Result, ok, err, int_eq,
}
use globalmail.Prelude.Int.{ℤ, pos}
use globalmail.Prelude.Dict.{lookup, insert, lookup-insert, lookup-insert_self}
use globalmail.Types.{Error, Bytes, command_already_registered}
use globalmail.Cache.Snapshot.{CacheSnapshot}
use globalmail.PlayerMail.Service.{Readings}
use globalmail.Commands.{
  CommandRequest, CommandDefinition, CommandHandler, CommandRegistration, CommandRegistry, register,
  dispatch_registered,
}
use globalmail.MailCommands.{RpcUserProfile, to_domain_profile}
use globalmail.MailCommands.Server.{MailRpcServer}
use globalmail.MailCommands.Handlers.{
  MessageCodec, Handler, Registration, Registry, ensure_command_profile, apply_command_identity,
  list_handler, registrations, register_all, register_mail_command_handlers, command_definition,
}

-- The call is made for the player of the command, whatever player the payload names.
to_domain_profile-ensure_command_profile :
    (req : CommandRequest) (profile : Option RpcUserProfile)
    → let p = to_domain_profile (ensure_command_profile req profile) in
      (p.uid ≡ req.uid) × ((p.role_id ≡ req.role_id) × (p.server_id ≡ req.server_id))
unfolding to_domain_profile ensure_command_profile apply_command_identity
to_domain_profile-ensure_command_profile req profile = ground arith

module _ {W : Type 0} where
  abbrev entry : CommandDefinition → CommandHandler W → CommandRegistration W
  entry d h = record { definition = d; handler = h }

  -- A registration that succeeds adds its command, which was not there.
  register-eq-ok :
      (d : CommandDefinition) (h : CommandHandler W) (registry r : CommandRegistry W)
      → register (some d) (some h) registry ≡ ok r
      → (lookup d.command_id registry ≡ none) × (insert d.command_id (entry d h) registry ≡ r)
  unfolding register
  register-eq-ok d h registry r e = ground (arith, e)

module _ {W : Type 0} (codec : MessageCodec) (mail : MailRpcServer W) (t : Readings) where
  -- What is registered stays registered as it is.
  register_all-keeps :
      (k : ℤ) (x : CommandRegistration (CacheSnapshot × W)) (rs : List (Registration codec mail t))
      (registry r : Registry codec mail t)
      → lookup k registry ≡ some x
      → register_all codec mail t rs registry ≡ ok r
      → lookup k r ≡ some x
  unfolding register_all
  register_all-keeps k x [] registry r l e = ground (arith, l, e)
  register_all-keeps k x ((d, h) ∷ rs) registry r l e =
      by_result (register (some d) (some h) registry) (λ more. register_all-keeps k x rs more r)
        refl
    where
      by_result :
          (o : Result Error (Registry codec mail t))
          → ((more : Registry codec mail t)
              → lookup k more ≡ some x
              → register_all codec mail t rs more ≡ ok r
              → lookup k r ≡ some x)
          → register (some d) (some h) registry ≡ o
          → lookup k r ≡ some x
      by_result (err z) later f = absurd (ground (arith, e, f))
      by_result (ok longer) later f =
          let (fresh, g) = register-eq-ok d h registry longer f in
          let kept : lookup k longer ≡ some x = ground (
            arith,
            lookup-insert k d.command_id (entry d h) registry,
            fresh,
            g,
            l,
            int_eq.beq_iff d.command_id k,
          ) in
          later longer kept (ground (arith, e, f))

  register_all-adds :
      (d : CommandDefinition) (h : Handler codec mail t) (rs : List (Registration codec mail t))
      (registry r : Registry codec mail t)
      → In (d, h) rs
      → register_all codec mail t rs registry ≡ ok r
      → lookup d.command_id r ≡ some (entry d h)
  unfolding register_all
  register_all-adds d h [] registry r m e = absurd (m tt)
  register_all-adds d h ((d₁, h₁) ∷ rs) registry r m e =
      by_result (register (some d₁) (some h₁) registry) (λ more. register_all-adds d h rs more r)
        refl m
    where
      by_result :
          (o : Result Error (Registry codec mail t))
          → ((more : Registry codec mail t)
              → In (d, h) rs
              → register_all codec mail t rs more ≡ ok r
              → lookup d.command_id r ≡ some (entry d h))
          → register (some d₁) (some h₁) registry ≡ o
          → In (d, h) ((d₁, h₁) ∷ rs)
          → lookup d.command_id r ≡ some (entry d h)
      by_result (err z) later f m = absurd (ground (arith, e, f))
      by_result (ok longer) later f (inr m) = later longer m (ground (arith, e, f))
      by_result (ok longer) later f (inl p) =
          let (fresh, g) = register-eq-ok d₁ h₁ registry longer f in
          let found : lookup d₁.command_id longer ≡ some (entry d₁ h₁) =
            subst (λ x. lookup d₁.command_id x ≡ some (entry d₁ h₁)) g
              (lookup-insert_self d₁.command_id (entry d₁ h₁) registry) in
          let kept =
            register_all-keeps d₁.command_id (entry d₁ h₁) rs longer r found
              (ground (arith, e, f)) in
          subst (λ (x : Registration codec mail t). lookup x.0.command_id r ≡ some (entry x.0 x.1))
            (sym p) kept

  -- The handler that is registered for a request answers it.
  pub dispatch_registered-entry :
      (d : CommandDefinition) (h : Handler codec mail t) (registry r : Registry codec mail t)
      (req : CommandRequest) (w w' : CacheSnapshot × W) (answer : Option Bytes)
      → register_mail_command_handlers codec mail t registry ≡ ok r
      → In (d, h) (registrations codec mail t)
      → req.command_id ≡ d.command_id
      → h req w ≡ (ok answer, w')
      → dispatch_registered r req w ≡ (
        ok (record {
          command_id = req.command_id;
          seq = req.seq;
          code = pos 0;
          message = "ok";
          payload = answer;
        }),
        w',
      )
  unfolding register_mail_command_handlers dispatch_registered
  dispatch_registered-entry d h registry r req w w' answer e m k a =
      let found = register_all-adds d h (registrations codec mail t) registry r m e in
      ground (arith, found, k, a)

  abbrev rest : List (Registration codec mail t)
  unfolding registrations
  rest = elim (registrations codec mail t) [ [] ↦ [] | _ ∷ rs ↦ rs ]

  register_all-known :
      (d : CommandDefinition) (h : Handler codec mail t) (rs : List (Registration codec mail t))
      (registry : Registry codec mail t) (x : CommandRegistration (CacheSnapshot × W))
      → (d.command_id == pos 0) ≡ false
      → lookup d.command_id registry ≡ some x
      → register_all codec mail t ((d, h) ∷ rs) registry ≡ err command_already_registered
  unfolding register_all register
  register_all-known d h rs registry x n l = ground (arith, n, l)

  -- The mail commands are registered once: registering them again is an error.
  register_mail_command_handlers-again :
      (registry r : Registry codec mail t)
      → register_mail_command_handlers codec mail t registry ≡ ok r
      → register_mail_command_handlers codec mail t r ≡ err command_already_registered
  unfolding register_mail_command_handlers registrations command_definition
  register_mail_command_handlers-again registry r e =
      let d =
        command_definition (pos 1001) "mail.list_global" "globalmail.rpc.ListGlobalMailsRequest"
          "globalmail.rpc.ListGlobalMailsResponse" in
      let h = list_handler codec mail t in
      register_all-known d h rest r (entry d h) refl
        (register_all-adds d h (registrations codec mail t) registry r (inl refl) e)
