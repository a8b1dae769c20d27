-- ===== src/Servers/Ends.antt =====
-- `doneChan` over a start of each build.
use boilerplate_go_be.Base.{
  String, subst, ◌&&◌, not, str_eq, String, ◌≡◌, refl, sym, ◌∙◌, arith, Bool, true, false, Option,
  none, some, if◌then◌else◌, ◌||◌,
}
use boilerplate_go_be.Runtime.{
  Error, Result, ok, err, Outcome, ret, panic, exit, Prog, pure, modify, gets, ◌>>=◌,
}
use boilerplate_go_be.Logger.{Log, info}
use boilerplate_go_be.Returns.{go_on}
use boilerplate_go_be.Platform.{Platform}
use boilerplate_go_be.World.{World, call, log_f}
use boilerplate_go_be.Logging.Closing.{close_log_file_lem}
use boilerplate_go_be.Logging.{close_log_file}
use boilerplate_go_be.Startup.{init_dependencies}
use boilerplate_go_be.Supervisor.{on_start_up}
use boilerplate_go_be.Servers.{
  Network, App, Done, open_channel, closed_channel, in_world, std_log, info_f, close_done,
  parse_flags, notify_ready, deferring, log_end, finish, after_init, after_flags, start_with,
}

module _ {P : Platform} (N : Network P) where
  -- The channel after a call that found it in a state: as told where the call returns, still open where
  -- it panics.
  abbrev pub ChannelAfter : {A : Type 0} → (A → Done) → Outcome A → Done → Type 0
  ChannelAfter Q (ret x) d = d ≡ Q x
  ChannelAfter Q (panic p) d = d ≡ open_channel
  ChannelAfter Q exit d = Unit {0}

  pub record Leaves {A : Type 0} (from : Done) (Q : A → Done) (m : Prog (App N) A) : Type 0 where
    pub run : (a : App N) → a.done ≡ from → ChannelAfter Q (m a).0 (m a).1.done

  pub Leaves-pure : {A : Type 0} {Q : A → Done} (x : A) → Leaves (Q x) Q (pure x)
  Leaves-pure x = record { run = λ a h. h }

  pub Leaves-if :
      {A : Type 0} {from : Done} {Q : A → Done} (b : Bool) {m k : Prog (App N) A}
      → Leaves from Q m
      → Leaves from Q k
      → Leaves from Q (if b then m else k)
  Leaves-if true hm hk = hm
  Leaves-if false hm hk = hk

  -- What does not touch the channel.
  abbrev pub Keeps : {A : Type 0} → Prog (App N) A → Type 0
  Keeps m = Leaves open_channel (λ _. open_channel) m

  kept :
      {A : Type 0} (r : Outcome A) (d : Done)
      → d ≡ open_channel
      → ChannelAfter (λ _. open_channel) r d
  kept (ret x) d h = h
  kept (panic p) d h = h
  kept exit d h = tt

  pub Leaves-in_world : {A : Type 0} (m : Prog (World P) A) → Keeps (in_world N m)
  Leaves-in_world m = record { run = λ a h. kept (m a.world).0 a.done h }

  pub Leaves-close : Leaves open_channel (λ _. closed_channel) (close_done N)
  unfolding close_done
  Leaves-close = record { run = λ a h. ground (arith, h) }

  pub Leaves-go_on :
      {A B : Type 0} (R : A → Done) (Q : B → Done) (r : Outcome A × App N) (k : A → Prog (App N) B)
      → ChannelAfter R r.0 r.1.done
      → ((x : A) → Leaves (R x) Q (k x))
      → ChannelAfter Q (go_on r k).0 (go_on r k).1.done
  Leaves-go_on R Q (ret x, a) k hm hk = (hk x).run a hm
  Leaves-go_on R Q (panic p, a) k hm hk = hm
  Leaves-go_on R Q (exit, a) k hm hk = tt

  pub Leaves-then :
      {A B : Type 0} {from : Done} (R : A → Done) {Q : B → Done} (m : Prog (App N) A)
      (k : A → Prog (App N) B)
      → Leaves from R m
      → ((x : A) → Leaves (R x) Q (k x))
      → Leaves from Q (m >>= k)
  Leaves-then R {Q} m k hm hk = record { run = λ a h. Leaves-go_on R Q (m a) k (hm.run a h) hk }

  pub Leaves-bind :
      {A B : Type 0} {Q : B → Done} (m : Prog (App N) A) (k : A → Prog (App N) B)
      → Keeps m
      → ((x : A) → Leaves open_channel Q (k x))
      → Leaves open_channel Q (m >>= k)
  Leaves-bind m k hm hk = Leaves-then (λ _. open_channel) m k hm hk

  pub Leaves-option :
      {A B : Type 0} {from : Done} {Q : B → Done} (o : Option A) (m : Prog (App N) B)
      (k : A → Prog (App N) B)
      → Leaves from Q m
      → ((x : A) → Leaves from Q (k x))
      → Leaves from Q (elim o [ none ↦ m | some x ↦ k x ])
  Leaves-option none m k hm hk = hm
  Leaves-option (some x) m k hm hk = hk x

  pub Leaves-result :
      {A B : Type 0} {from : Done} {Q : B → Done} (r : Result A) (m : A → Prog (App N) B)
      (k : Error → Prog (App N) B)
      → ((x : A) → Leaves from Q (m x))
      → ((e : Error) → Leaves from Q (k e))
      → Leaves from Q (elim r [ ok x ↦ m x | err e ↦ k e ])
  Leaves-result (ok x) m k hm hk = hm x
  Leaves-result (err e) m k hm hk = hk e

  pub Leaves-modify : (f : App N → App N) → ((a : App N) → (f a).done ≡ a.done) → Keeps (modify f)
  Leaves-modify f same = record { run = λ a h. same a ∙ h }

  pub Leaves-gets : {A : Type 0} (f : App N → A) → Keeps (gets f)
  Leaves-gets f = record { run = λ a h. h }

  pub Leaves-std_log : (msg : String) → Keeps (std_log N msg)
  Leaves-std_log msg = Leaves-modify _ (λ a. refl)

  pub Leaves-info_f : (l : Log) (msg : String) → Keeps (info_f N l msg)
  Leaves-info_f l msg = Leaves-in_world (log_f l info msg)

  pub Leaves-notify_ready : Keeps (notify_ready N)
  unfolding notify_ready
  Leaves-notify_ready =
      Leaves-bind (in_world N (on_start_up P)) _ (Leaves-in_world (on_start_up P)) (λ started.
        Leaves-bind (elim started [ none ↦ pure tt | some e ↦ std_log N "startup:" ]) _
          (Leaves-option started (pure tt) (λ e. std_log N "startup:")
            (Leaves-pure {Q = λ _. open_channel} tt) (λ e. Leaves-std_log "startup:"))
          (λ _.
            Leaves-if (P.systemd && not (str_eq (P.getenv "NOTIFY_SOCKET") ""))
              (Leaves-bind (in_world N (call P N.sd_notify)) _
                (Leaves-in_world (call P N.sd_notify))
                (λ notified.
                  Leaves-option notified (pure tt) (λ e. std_log N "systemd notify failed: %v")
                    (Leaves-pure {Q = λ _. open_channel} tt)
                    (λ e. Leaves-std_log "systemd notify failed: %v")))
              (Leaves-pure {Q = λ _. open_channel} tt)))

  pub Leaves-finish :
      (is_closed : Error → Bool) (l : Log) (ended : Option Error)
      → Leaves open_channel (λ _. closed_channel) (finish N is_closed l ended)
  unfolding finish log_end
  Leaves-finish is_closed l none = Leaves-close
  Leaves-finish is_closed l (some e) =
      Leaves-bind (log_end N l (is_closed e)) (λ _. close_done N)
        (Leaves-if (is_closed e) (Leaves-info_f l "server closed")
          (Leaves-info_f l "Failed to start the server: %v"))
        (λ _. Leaves-close)

  abbrev flags_done : Option String → Done
  flags_done none = closed_channel
  flags_done (some path) = open_channel

  pub Leaves-parse_flags : Leaves open_channel flags_done (parse_flags N)
  unfolding parse_flags
  Leaves-parse_flags =
      Leaves-if (N.flags.show_version || N.flags.show_short)
        (Leaves-bind _ _ (Leaves-modify _ (λ a. refl)) (λ _.
          Leaves-then (λ _. closed_channel) (close_done N) (λ _. pure none) Leaves-close
            (λ _. Leaves-pure {Q = flags_done} none)))
        (Leaves-pure {Q = flags_done} (some N.flags.file_path))

  -- The deferred call has to return.
  after_cleanup :
      (cleanup : Prog (World P) (Unit {0})) (r : Outcome (Unit {0}) × App N)
      → ((w : World P) → (cleanup w).0 ≡ ret tt)
      → ChannelAfter (λ _. closed_channel) r.0 r.1.done
      → ChannelAfter
          (λ _. closed_channel)
          (deferring N (in_world N cleanup) (λ _. r) r.1).0
          (deferring N (in_world N cleanup) (λ _. r) r.1).1.done
  after_cleanup cleanup (ret x, a) returns h =
      subst (λ o. ChannelAfter (λ _. closed_channel) o a.done) (sym (returns a.world)) h
  after_cleanup cleanup (panic p, a) returns h = ground (arith, returns a.world)
  after_cleanup cleanup (exit, a) returns h = tt

  pub Leaves-after_init :
      (serve : Log → Prog (App N) (Unit {0})) (made : Result Log)
      → ((l : Log) → Leaves open_channel (λ _. closed_channel) (serve l))
      → Leaves open_channel (λ _. closed_channel) (after_init N serve made)
  unfolding after_init
  Leaves-after_init serve (err e) h =
      Leaves-bind (std_log N "Initialization failed: %v") (λ _. close_done N)
        (Leaves-std_log "Initialization failed: %v") (λ _. Leaves-close)
  Leaves-after_init serve (ok l) h = record {
    run = λ a opened.
        after_cleanup (close_log_file P) (serve l a) (close_log_file_lem P) ((h l).run a opened);
  }

  pub Leaves-after_flags :
      (serve : Log → Prog (App N) (Unit {0})) (path : Option String)
      → ((l : Log) → Leaves open_channel (λ _. closed_channel) (serve l))
      → Leaves (flags_done path) (λ _. closed_channel) (after_flags N serve path)
  unfolding after_flags
  Leaves-after_flags serve none h = Leaves-pure {Q = λ _. closed_channel} tt
  Leaves-after_flags serve (some path) h =
      Leaves-bind (in_world N (init_dependencies P path)) (after_init N serve)
        (Leaves-in_world (init_dependencies P path)) (λ made. Leaves-after_init serve made h)

  pub Leaves-start_with :
      (serve : Log → Prog (App N) (Unit {0}))
      → ((l : Log) → Leaves open_channel (λ _. closed_channel) (serve l))
      → Leaves open_channel (λ _. closed_channel) (start_with N serve)
  unfolding start_with
  Leaves-start_with serve h =
      Leaves-then flags_done (parse_flags N) (after_flags N serve) Leaves-parse_flags
        (λ path. Leaves-after_flags serve path h)
