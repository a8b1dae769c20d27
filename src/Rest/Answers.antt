-- ===== src/Rest/Answers.antt =====
-- What the client of the handler of cmd/start_rest.go gets: refused tokens, panicking endpoints, unknown paths,
-- and the answers of the endpoints.
use boilerplate_go_be.Base.{
  All, Bool, str_eq, str_eq_iff, String, true, false, ◌≡◌, refl, sym, ◌∙◌, ap, subst, arith, ◌⊎◌,
  inl, inr, List, [], ◌∷◌, Option, none, some,
}
use boilerplate_go_be.Runtime.{Outcome, ret, panic, exit}
use boilerplate_go_be.Logger.{Log}
use boilerplate_go_be.Platform.{Platform}
use boilerplate_go_be.World.{World}
use boilerplate_go_be.World.Ctx.{
  Ctx, get_logger_from_context, set_logger_to_context, set_repo_ctx, set_outbound_ctx,
  set_token_ctx,
}
use mathlib.Core.List.{Memᴰ}
use boilerplate_go_be.Runtime.{ok}
use boilerplate_go_be.Startup.{with_logger}
use boilerplate_go_be.Startup.Keyless.{with_logger-Keyless}
use boilerplate_go_be.Returns.{go_on}
use boilerplate_go_be.Rest.{Reply, Layer}
use boilerplate_go_be.Rest.Auth.{
  IsFresh, status_sent, all_open, refused_without_keys, same_without_keys,
}
use boilerplate_go_be.Rest.Middleware.{
  Exchange, Request, Handler, respond, push_layer, pop_layer, auth_middleware,
  error_format_middleware, recover_middleware, wrap_http_middleware, request_logger,
}
use boilerplate_go_be.Rest.Files.{Files}
use boilerplate_go_be.Rest.Routes.{
  files_router, system_router, items_router, group, Input, Framework, Operation, Registration,
  Routed, registered, registrations, routed, root, serve, handler_chain, rest_handler,
}
use boilerplate_go_be.Contained.{Same}
use boilerplate_go_be.Rest.Chain.{held, request_of, inner, by_stage, passed, stopped, broken}

module _ (P : Platform) where
  abbrev pub pushed : Exchange P → Exchange P
  pushed x = record x { reply = push_layer P x.reply }

  pushed-IsFresh : (x : Exchange P) → IsFresh x.reply → IsFresh (pushed x).reply
  unfolding push_layer IsFresh all_open
  pushed-IsFresh x (unsent, empty, opened) = ground arith

  pop_layer-open :
      (ls : List Layer) (b : Reply)
      → all_open ls ≡ true
      → status_sent (pop_layer P ls b) ≡ status_sent b
  unfolding pop_layer all_open
  pop_layer-open [] b h = refl
  pop_layer-open (l ∷ ls) b h = ground arith

  pub request_of-logger :
      (l : Log) (r : Request P) → get_logger_from_context (request_of P l r).ctx ≡ some l
  unfolding request_of get_logger_from_context set_logger_to_context set_repo_ctx set_outbound_ctx
      set_token_ctx
  request_of-logger l r = refl

  -- What `ErrorFormatMiddleware` makes of the router's outcome.
  abbrev pub after_router : Outcome (Unit {0}) × Exchange P → Outcome (Unit {0}) × Exchange P
  after_router d = go_on d (λ _. respond P (λ reply. pop_layer P reply.layers reply))

  -- The recovery leaves alone what returns.
  pub recovered_ret :
      (log : Log) (r : Request P) (x : Exchange P) (d : Outcome (Unit {0}) × Exchange P)
      → d.0 ≡ ret tt
      → recover_middleware P log (λ _ _. d) r x ≡ d
  unfolding recover_middleware
  recovered_ret log r x (ret tt, y) h = refl
  recovered_ret log r x (panic p, y) h = absurd (ground arith)
  recovered_ret log r x (exit, y) h = absurd (ground arith)

  -- The router disposes of the request in this way, whatever its context.
  abbrev pub Goes :
      {F : Files P} {app_name : String}
      → Framework F app_name
      → Request P
      → Routed registrations
      → Type 0
  Goes T r to = (ctx : Ctx P) → T.route registrations (record r { ctx = ctx }) ≡ to

  -- The router finds this registration among those of the program, whatever the request's context.
  abbrev pub Finds :
      {F : Files P} {app_name : String} → Framework F app_name → Request P → Registration → Type 0
  Finds T r reg =
      (ctx : Ctx P)
      → (found : Memᴰ reg registrations) × (T.route registrations (record r { ctx = ctx })
          ≡ registered reg found)

  -- The request is decoded for an operation, whatever its context.
  abbrev pub Decodes :
      {F : Files P} {app_name : String} → Framework F app_name → Request P → Operation → Type 0
  Decodes T r op =
      (ctx : Ctx P)
      → (input : Input op.handler) × (T.decode op (record r { ctx = ctx }) ≡ inl input)

pub Goes-request_of :
    {P : Platform} {F : Files P} {app_name : String} (T : Framework F app_name) (r : Request P)
    (to : Routed registrations) (l : Log)
    → Goes P T r to
    → T.route registrations (request_of P l r) ≡ to
unfolding request_of
Goes-request_of {P} T r to l goes = goes (request_of P l r).ctx

pub Finds-request_of :
    {P : Platform} {F : Files P} {app_name : String} (T : Framework F app_name) (r : Request P)
    (reg : Registration) (l : Log)
    → Finds P T r reg
    → (found : Memᴰ reg registrations) × (T.route registrations (request_of P l r)
        ≡ registered reg found)
unfolding request_of
Finds-request_of {P} T r reg l finds = finds (request_of P l r).ctx

All-at : {A : Type 0} (Q : A → Type 0) (a : A) (l : List A) → All Q l → Memᴰ a l → Q a
All-at Q a [] all found = elim found [ ]
All-at Q a (x ∷ xs) all (Memᴰ.head e) = subst Q (sym e) all.0
All-at Q a (x ∷ xs) all (Memᴰ.tail m) = All-at Q a xs all.1 m

other_prefix : (p : String) (b : Bool) → str_eq p "/items" ≡ false → p ≡ "/items" → b ≡ true
other_prefix p b differs same = absurd (ground (arith, (str_eq_iff p "/items").1 same))

-- Every registration of the items is behind the authentication.
items_secured :
    (reg : Registration) → Memᴰ reg registrations → reg.prefix ≡ "/items" → reg.secured ≡ true
unfolding registrations group items_router system_router files_router
items_secured reg found items =
    let system = other_prefix "/system" false refl in
    let files = other_prefix "/files" false refl in
    let item : "/items" ≡ "/items" → true ≡ true = λ _. refl in
    All-at (λ reg. reg.prefix ≡ "/items" → reg.secured ≡ true) reg registrations
      (
        item,
        (item, (item, (item, (item, (system, (system, (system, (files, (files, (files, tt)))))))))),
      )
      found items

module _ {P : Platform} (F : Files P) (app_name : String) (T : Framework F app_name)
    (act : Operation → Handler P) (r : Request P) where
  -- The router's outcome behind the layer of the error formatter.
  pub inner-ret :
      (l : Log) (x1 : Exchange P) (d : Outcome (Unit {0}) × Exchange P)
      → root F app_name T act (request_of P l r) (pushed P x1) ≡ d
      → d.0 ≡ ret tt
      → inner F app_name T act r l x1
        ≡ (ret tt, record (d.1) { reply = pop_layer P d.1.reply.layers d.1.reply })
  unfolding inner error_format_middleware
  inner-ret l x1 d e done = ground arith

  pub inner-panic :
      (l : Log) (x1 y : Exchange P) (p : String)
      → root F app_name T act (request_of P l r) (pushed P x1) ≡ (panic p, y)
      → inner F app_name T act r l x1 ≡ (panic p, y)
  unfolding inner error_format_middleware
  inner-panic l x1 y p e = ground arith

  -- Behind a secured operation's authentication.
  pub secured_root :
      (l : Log) (y : Exchange P) (reg : Registration)
      → Finds P T r reg
      → reg.secured ≡ true
      → root F app_name T act (request_of P l r) y
        ≡ auth_middleware P (act reg.operation) (request_of P l r) y
  unfolding root routed wrap_http_middleware request_of
  secured_root l y reg goes secured =
      let (found, e) = Finds-request_of T r reg l goes in ground (arith, e)

  pub open_root :
      (l : Log) (y : Exchange P) (reg : Registration)
      → Finds P T r reg
      → reg.secured ≡ false
      → root F app_name T act (request_of P l r) y ≡ act reg.operation (request_of P l r) y
  unfolding root routed request_of
  open_root l y reg goes unsecured =
      let (found, e) = Finds-request_of T r reg l goes in ground (arith, e)

module _ {P : Platform} (F : Files P) (app_name : String) (T : Framework F app_name) (log : Log)
    (r : Request P) (x : Exchange P) where
  -- What runs for the operations makes no difference if it makes none behind the logger.
  handler_chain_by_root :
      (act other : Operation → Handler P)
      → x.world.db.connected ≡ true
      → ((l : Log) (x1 : Exchange P)
          → Same x.world x1.world
          → root F app_name T act (request_of P l r) (pushed P x1)
            ≡ root F app_name T other (request_of P l r) (pushed P x1))
      → (o : Outcome (Option Log) × Exchange P) → request_logger P r x ≡ o
      → handler_chain F app_name T act log r x ≡ handler_chain F app_name T other log r x
  unfolding inner error_format_middleware
  handler_chain_by_root act other opened same (ret none, x1) e =
      stopped F app_name T act log r x x1 e ∙ sym (stopped F app_name T other log r x x1 e)
  handler_chain_by_root act other opened same (ret (some l), x1) e =
      passed F app_name T act log r x l x1 e
      ∙ ap (λ d. recover_middleware P log (λ _ _. (after_router P d)) r x)
          (same l x1 (held F app_name T act log r x opened (ret (some l), x1) e).1)
      ∙ sym (passed F app_name T other log r x l x1 e)
  handler_chain_by_root act other opened same (panic p, x1) e =
      broken F app_name T act log r x p x1 e ∙ sym (broken F app_name T other log r x p x1 e)
  handler_chain_by_root act other opened same (exit, x1) e =
      elim (held F app_name T act log r x opened (exit, x1) e).0 [ ]

  keyless :
      (started : World P) (own_log ready : Log) (x1 : Exchange P)
      → started.jwt.once_done ≡ false
      → (with_logger P own_log started).0 ≡ ret (ok ready)
      → x.world.jwt ≡ (with_logger P own_log started).1.jwt
      → Same x.world x1.world
      → x1.world.jwt.instance_ ≡ some (record { private_key = none; public_key = none })
  keyless started own_log ready x1 unspent made initial (_, same) =
      ap (λ j. j.instance_) (same ∙ initial)
      ∙ with_logger-Keyless P own_log ready started unspent made

  refused_answer :
      (act : Operation → Handler P) (started : World P) (own_log ready : Log) (reg : Registration)
      (l : Log) (x1 : Exchange P)
      → started.jwt.once_done ≡ false
      → (with_logger P own_log started).0 ≡ ret (ok ready)
      → x.world.jwt ≡ (with_logger P own_log started).1.jwt
      → IsFresh x1.reply
      → Finds P T r reg
      → reg.secured ≡ true
      → Same x.world x1.world
      → ((inner F app_name T act r l x1).0 ≡ ret tt)
        × (status_sent (inner F app_name T act r l x1).1.reply ≡ some 401)
  refused_answer act started own_log ready reg l x1 unspent made initial fresh goes secured same =
      let y = pushed P x1 in
      let (done, sent, opened) =
        refused_without_keys P (act reg.operation) (request_of P l r) l y (request_of-logger P l r)
          (keyless started own_log ready x1 unspent made initial same)
          (pushed-IsFresh P x1 fresh) in
      let popped =
        inner-ret F app_name T act r l x1 _ (secured_root F app_name T act r l y reg goes secured)
          done in
      (
        ap (λ d. d.0) popped,
        ap (λ d. status_sent d.1.reply) popped ∙ pop_layer-open P _ _ opened ∙ sent,
      )

  -- In a process whose JWT service was not initialised before and is as the steps of `initDependencies`
  -- after its logger have left it, which succeeded, and over an open database handle: a request for which the
  -- router finds one of the program's registrations under "/items" is answered with status 401, or 500 where
  -- its logger could not be made, whatever its token; and no endpoint runs for it: with any other endpoints in
  -- place of the program's, the outcome and the whole state are the same.
  pub secured-refused :
      (other : Operation → Handler P) (started : World P) (own_log ready : Log) (reg : Registration)
      → started.jwt.once_done ≡ false
      → (with_logger P own_log started).0 ≡ ret (ok ready)
      → x.world.jwt ≡ (with_logger P own_log started).1.jwt
      → x.world.db.connected ≡ true
      → IsFresh x.reply
      → Finds P T r reg
      → reg.prefix ≡ "/items"
      → ((rest_handler F app_name T log r x).0 ≡ ret tt)
        × ((status_sent (rest_handler F app_name T log r x).1.reply ≡ some 401)
            ⊎ (status_sent (rest_handler F app_name T log r x).1.reply ≡ some 500))
        × (rest_handler F app_name T log r x ≡ handler_chain F app_name T other log r x)
  unfolding rest_handler
  secured-refused other started own_log ready reg unspent made initial opened fresh goes items =
      let secured = items_secured reg (goes r.ctx).0 items in
      let act = serve F app_name T in
      let (done, sent) =
        by_stage F app_name T act log r x
          (λ d.
            (d.0 ≡ ret tt)
            × ((status_sent d.1.reply ≡ some 401) ⊎ (status_sent d.1.reply ≡ some 500)))
          fresh opened (λ d done sent. (done, inr sent))
          (λ l x1 kept same.
            let (done, sent) =
              refused_answer act started own_log ready reg l x1 unspent made initial
                (subst IsFresh (sym kept) fresh) goes secured same in
            let same_end = recovered_ret P log r x (inner F app_name T act r l x1) done in
            (ap (λ d. d.0) same_end ∙ done, inl (ap (λ d. status_sent d.1.reply) same_end ∙ sent)))
          (request_logger P r x) refl in
      (
        done,
        sent,
        handler_chain_by_root act other opened
            (λ l x1 same.
              secured_root F app_name T act r l (pushed P x1) reg goes secured
              ∙ same_without_keys P (act reg.operation) (other reg.operation) (request_of P l r) l
                  (pushed P x1) (request_of-logger P l r)
                  (keyless started own_log ready x1 unspent made initial same)
              ∙ sym (secured_root F app_name T other r l (pushed P x1) reg goes secured))
            (request_logger P r x) refl,
      )
