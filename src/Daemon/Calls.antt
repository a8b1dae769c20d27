-- ===== src/Daemon/Calls.antt =====
-- What a restart message asks of the host, and that examples/systemd/supervisor does it.
use boilerplate_go_be.Base.{
  Option, Option-cases, some, true, zero, suc, ℤ, pos, int_eq, atoi, codes_eq, is_some, not, ◌&&◌,
  seconds, inr, inl, false, if◌then◌else◌, ℕ, ◌≡◌, ap, refl, ◌∙◌, arith, String, none, [], ◌∷◌,
  Runes, codes, NoSpace, trim_space, trim_space-word,
}
use boilerplate_go_be.Runtime.{Error, Prog, lift, gets, modify, pure, ◌>>◌, ◌>>=◌}
use boilerplate_go_be.Daemon.{
  Wait, waiting, wait_active, is_after, second, ended, Host, restart_main, start_temporary,
  timeout_of, close_after,
}

module _ (H : Host) where
  -- The calls of the host that a restart message asks for, one by one.
  noted : String → Option Error → Prog H.State (Unit {0})
  noted msg failed = elim failed [ none ↦ pure tt | some e ↦ modify (H.log_printf msg) ]

  -- The wait: `systemctl is-active` until it prints "active" or the time is over, a second between two calls.
  unfoldable pub awaits : ℕ → ℕ → ℤ → Runes → Prog H.State Wait
  awaits zero from d temp = pure waiting
  awaits (suc fuel) from d temp = do
    answered ← lift (H.is_active temp)
    elim (not (is_some answered.1) && codes_eq (trim_space answered.0) (codes "active")) [
      | true ↦ pure ended
      | false ↦ do
        now ← gets H.now
        elim (is_after now from d) [
          | true ↦ do modify (H.log_printf "temporary service not active: %v %s"); pure ended
          | false ↦ do modify (H.sleep second); awaits fuel from d temp
        ]
    ]

  -- The environment's number of seconds, or 30 where it has none or 0.
  unfoldable pub time_to_wait : ℤ
  time_to_wait = elim (atoi (H.getenv "TEMP_SERVICE_ACTIVE_TIMEOUT")) [
    | none ↦ pos 30
    | some z ↦ if int_eq z (pos 0) then pos 30 else z
  ]

  unfoldable pub start_and_wait : ℕ → Runes → Prog H.State Wait
  unfolding awaits time_to_wait
  start_and_wait fuel [] = pure ended
  start_and_wait fuel (c ∷ temp) = do
    started ← lift (H.systemctl "start" (c ∷ temp))
    elim started [
      | some e ↦ do modify (H.log_printf "systemctl start %s failed: %v"); pure ended
      | none ↦ do from ← gets H.now; awaits fuel from (seconds time_to_wait) (c ∷ temp)
    ]

  unfoldable pub restart_and_close : Runes → Wait → Prog H.State Wait
  unfolding noted
  restart_and_close main waiting = pure waiting
  restart_and_close main ended = do
    restarted ← lift (H.systemctl "restart" main)
    noted "systemctl restart %s failed: %v" restarted
    closed ← lift H.close_conn
    noted "Failed to close connection: %v" closed
    pure ended

  wait_active-awaits :
      (fuel from : ℕ) (d : ℤ) (temp : Runes) (s : H.State)
      → wait_active H fuel from d temp s ≡ awaits fuel from d temp s
  unfolding wait_active awaits
  wait_active-awaits zero from d temp s = refl
  wait_active-awaits (suc fuel) from d temp s = ground (
    arith,
    wait_active-awaits fuel from d temp (H.sleep second (H.is_active temp s).1),
    Option-cases (H.is_active temp s).0.1,
  )

  timeout_of-default : timeout_of H [] ≡ time_to_wait
  unfolding timeout_of time_to_wait
  timeout_of-default = ground (arith, Option-cases (atoi (H.getenv "TEMP_SERVICE_ACTIVE_TIMEOUT")))

  pub start_temporary-calls :
      (fuel : ℕ) (temp : Runes) (s : H.State)
      → NoSpace temp
      → start_temporary H fuel (timeout_of H []) (temp ∷ []) s ≡ start_and_wait fuel temp s
  unfolding start_temporary start_and_wait
  start_temporary-calls fuel [] s unit = unfold trim_space in refl
  start_temporary-calls fuel (c ∷ temp) s unit =
      let started = H.systemctl "start" (c ∷ temp) s in
      let trimmed = trim_space-word c temp unit in
      let waited =
        wait_active-awaits fuel (H.now started.1) (seconds (timeout_of H [])) (c ∷ temp)
          started.1 in
      elim (Option-cases started.0) [
        | inr (e, failed) ↦ rw (trimmed, failed) refl
        | inl fine ↦
            rw (trimmed, fine, trimmed)
              (waited
                ∙ ap (λ t. awaits fuel (H.now started.1) (seconds t) (c ∷ temp) started.1)
                    timeout_of-default)
      ]

  pub restart_main-calls :
      (main : Runes) (wait : Wait) (s : H.State)
      → (restart_main H main wait >>= close_after H) s ≡ restart_and_close main wait s
  unfolding restart_main close_after restart_and_close
  restart_main-calls main waiting s = refl
  restart_main-calls main ended s =
      let r = H.systemctl "restart" main s in
      elim (Option-cases r.0) [
        | inl fine ↦ elim (Option-cases (H.close_conn r.1).0) [
          | inl fine' ↦ ground arith
          | inr (e, broken) ↦ ground arith
        ]
        | inr (e, failed) ↦
            elim (Option-cases
              (H.close_conn (H.log_printf "systemctl restart %s failed: %v" r.1)).0) [
                | inl fine' ↦ ground arith
                | inr (e', broken) ↦ ground arith
              ]
      ]
