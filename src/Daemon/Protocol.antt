-- ===== src/Daemon/Protocol.antt =====
-- The messages of infrastructure/supervisor, as examples/systemd/supervisor reads them.
use boilerplate_go_be.Base.{
  inr, str_eq_iff, inl, Bool-cases, str_eq, false, if◌then◌else◌, ℕ, ◌++◌, ◌≡◌, ap, refl, ◌∙◌, sym,
  arith, String, str_append, none, List, [], ◌∷◌, Runes, codes, codes-append, NoSpace, Lacks,
  trim_space, fields, trim_prefix_text, trim_space-line, subst, trim_space-word,
  trim_space-blank_word, fields-word, fields-two, split_on-Lacks, split_on-two,
  trim_prefix_text-append, NoSpace-append, is_space, is_empty,
}
use Prim.Native.Char.{Char}
use mathlib.Core.List.{append_assoc, append-nil}
use boilerplate_go_be.Runtime.{pure, ◌>>=◌}
use boilerplate_go_be.Returns.{bind-at, bind_assoc, bind_cong}
use boilerplate_go_be.Platform.{Platform}
use boilerplate_go_be.Supervisor.{restart_message}
use boilerplate_go_be.Daemon.Calls.{
  start_and_wait, restart_and_close, start_temporary-calls, restart_main-calls,
}
use boilerplate_go_be.Daemon.{
  serve_line, ended, Host, handle, serve, command, restart_words, restart_parts, restart_main,
  start_temporary, timeout_of, stop_unit, close_after,
}

-- The name of a unit: no blank in it and no comma.
abbrev pub IsUnit : Runes → Type 0
IsUnit w = NoSpace w × Lacks b',' w

trim_space-two :
    (b : ℕ) (v : Runes) (c : ℕ) (w : Runes)
    → NoSpace (b ∷ v)
    → NoSpace (c ∷ w)
    → trim_space ((b ∷ v ++ 32 ∷ c ∷ w) ++ 10 ∷ []) ≡ b ∷ v ++ 32 ∷ c ∷ w
trim_space-two b v c w first last =
    subst (λ t. trim_space ((b ∷ t) ++ 10 ∷ []) ≡ b ∷ t) (append_assoc v (32 ∷ []) (c ∷ w))
      (trim_space-line b (v ++ 32 ∷ []) c w first.0 last)

-- What follows the main unit in a message.
abbrev temp_part : Runes → Runes
temp_part [] = []
temp_part (d ∷ t) = b',' ∷ d ∷ t

NoSpace-units : (u t : Runes) → NoSpace u → NoSpace t → NoSpace (u ++ temp_part t)
unfolding is_space
NoSpace-units u [] main temp = NoSpace-append u [] main tt
NoSpace-units u (d ∷ t) main temp = NoSpace-append u (b',' ∷ d ∷ t) main (refl, temp)

str_eq-cons : (c : Char) (s : String) → str_eq (String.◌∷◌ c s) "" ≡ false
str_eq-cons c s = elim (Bool-cases (str_eq (String.◌∷◌ c s) "")) [
  | inl same ↦
      ground (arith, ap (λ t. is_empty (codes t)) ((str_eq_iff (String.◌∷◌ c s) "").0 same))
  | inr other ↦ other
]

codes-restart_message :
    (P : Platform) (main temp : String)
    → codes (str_append (restart_message P main temp) "\n")
      ≡ (codes "restart" ++ 32 ∷ codes main ++ temp_part (codes temp)) ++ 10 ∷ []
unfolding restart_message
codes-restart_message P main String.[] =
    codes-append (str_append "restart " main) "\n"
    ∙ ap (λ t. t ++ 10 ∷ [])
        (codes-append "restart " main
          ∙ ap (λ t. codes "restart " ++ t) (sym (append-nil (codes main))))
codes-restart_message P main (String.◌∷◌ c temp) =
    let unit = String.◌∷◌ c temp in
    ap
      (λ b. codes (
        str_append
          (if b
            then str_append "restart " main
            else str_append (str_append "restart " main) (str_append "," unit))
          "\n"))
      (str_eq-cons c temp)
    ∙ codes-append (str_append (str_append "restart " main) (str_append "," unit)) "\n"
    ∙ ap (λ t. t ++ 10 ∷ [])
        (codes-append (str_append "restart " main) (str_append "," unit)
          ∙ ap (λ t. t ++ codes (str_append "," unit)) (codes-append "restart " main)
          ∙ ap (λ t. (codes "restart " ++ codes main) ++ t) (codes-append "," unit))

module _ (H : Host) where
  -- A line of two words.
  serve-two :
      (fuel : ℕ) (b : ℕ) (v : Runes) (c : ℕ) (w : Runes) (s s1 : H.State)
      → NoSpace (b ∷ v)
      → NoSpace (c ∷ w)
      → H.read_line s ≡ (((b ∷ v ++ 32 ∷ c ∷ w) ++ 10 ∷ [], none), s1)
      → serve H fuel s ≡ command H fuel (b ∷ v ++ 32 ∷ c ∷ w) ((b ∷ v) ∷ (c ∷ w) ∷ []) s1
  unfolding serve serve_line
  serve-two fuel b v c w s s1 first last read =
      ap (λ r. serve_line H fuel r.0 r.1) read
      ∙ ap (λ t. (if is_empty t then pure ended else command H fuel t (fields t)) s1)
          (trim_space-two b v c w first last)
      ∙ ap (λ ws. command H fuel (b ∷ v ++ 32 ∷ c ∷ w) ws s1) (fields-two b v c w first last)

  argument-two :
      (b : ℕ) (v : Runes) (c : ℕ) (w : Runes)
      → NoSpace (c ∷ w)
      → trim_space (trim_prefix_text (b ∷ v ++ 32 ∷ c ∷ w) (b ∷ v)) ≡ c ∷ w
  argument-two b v c w last =
      ap trim_space (trim_prefix_text-append (b ∷ v) (32 ∷ c ∷ w)) ∙ trim_space-blank_word c w last

  command-restart :
      (fuel : ℕ) (c : ℕ) (w : Runes) (rest : List Runes)
      → NoSpace (c ∷ w)
      → command H fuel (codes "restart" ++ 32 ∷ c ∷ w) (codes "restart" ∷ rest)
        ≡ restart_words H fuel ((c ∷ w) ∷ [])
  unfolding command
  command-restart fuel c w rest h =
      ap (λ arg. restart_words H fuel (fields arg)) (argument-two b'r' (codes "estart") c w h)
      ∙ ap (restart_words H fuel) (fields-word c w h)

  command-stop :
      (fuel : ℕ) (c : ℕ) (w : Runes) (rest : List Runes)
      → NoSpace (c ∷ w)
      → command H fuel (codes "stop" ++ 32 ∷ c ∷ w) (codes "stop" ∷ rest) ≡ stop_unit H (c ∷ w)
  unfolding command
  command-stop fuel c w rest h =
      ap (λ arg. stop_unit H (trim_space arg)) (argument-two b's' (codes "top") c w h)
      ∙ ap (stop_unit H) (trim_space-word c w h)

  -- The units of a message: the main one, and the temporary one if there is any.
  restart_parts-units :
      (fuel : ℕ) (c : ℕ) (w t : Runes)
      → IsUnit (c ∷ w)
      → IsUnit t
      → restart_words H fuel ((c ∷ w ++ temp_part t) ∷ [])
        ≡ (start_temporary H fuel (timeout_of H []) (t ∷ []) >>= restart_main H (c ∷ w))
  unfolding restart_words restart_parts start_temporary trim_space
  restart_parts-units fuel c w [] main temp =
      rw (append-nil (c ∷ w), split_on-Lacks b',' (c ∷ w) main.1, trim_space-word c w main.0) refl
  restart_parts-units fuel c w (d ∷ t) main temp =
      rw (split_on-two b',' (c ∷ w) (d ∷ t) main.1 temp.1, trim_space-word c w main.0) refl

  serve-restart :
      (fuel : ℕ) (u t : Runes) (s s1 : H.State)
      → is_empty u ≡ false
      → IsUnit u
      → IsUnit t
      → H.read_line s ≡ (((codes "restart" ++ 32 ∷ u ++ temp_part t) ++ 10 ∷ [], none), s1)
      → serve H fuel s ≡ (start_temporary H fuel (timeout_of H []) (t ∷ []) >>= restart_main H u) s1
  unfolding is_space
  serve-restart fuel [] t s s1 named main temp read = ground arith
  serve-restart fuel (c ∷ w) t s s1 named main temp read =
      let units = NoSpace-units (c ∷ w) t main.0 temp.0 in
      serve-two fuel b'r' (codes "estart") c (w ++ temp_part t) s s1
        (refl, (refl, (refl, (refl, (refl, (refl, (refl, tt))))))) units read
      ∙ ap (λ p. p s1)
          (command-restart fuel c (w ++ temp_part t) ((c ∷ w ++ temp_part t) ∷ []) units
            ∙ restart_parts-units fuel c w t main temp)

  serve-stop :
      (fuel : ℕ) (u : Runes) (s s1 : H.State)
      → is_empty u ≡ false
      → NoSpace u
      → H.read_line s ≡ (((codes "stop" ++ 32 ∷ u) ++ 10 ∷ [], none), s1)
      → serve H fuel s ≡ stop_unit H u s1
  unfolding is_space
  serve-stop fuel [] s s1 named word read = ground arith
  serve-stop fuel (c ∷ w) s s1 named word read =
      serve-two fuel b's' (codes "top") c w s s1 (refl, (refl, (refl, (refl, tt)))) word read
      ∙ ap (λ p. p s1) (command-stop fuel c w ((c ∷ w) ∷ []) word)

  handle-restart_steps :
      (P : Platform) (fuel : ℕ) (main temp : String) (s s1 : H.State)
      → is_empty (codes main) ≡ false
      → IsUnit (codes main)
      → IsUnit (codes temp)
      → H.read_line s ≡ ((codes (str_append (restart_message P main temp) "\n"), none), s1)
      → handle H fuel s
        ≡ (do
          restarted ← (do
            started ← start_temporary H fuel (timeout_of H []) (codes temp ∷ [])
            restart_main H (codes main) started)
          close_after H restarted)
            s1
  unfolding handle
  handle-restart_steps P fuel main temp s s1 named main_unit temp_unit read =
      bind-at (serve H fuel)
        (λ w.
          (start_temporary H fuel (timeout_of H []) (codes temp ∷ [])
              >>= restart_main H (codes main))
            w)
        (close_after H) s s1
        (serve-restart fuel (codes main) (codes temp) s s1 named main_unit temp_unit
          (read ∙ ap (λ line. ((line, none), s1)) (codes-restart_message P main temp)))

  -- Where the daemon reads the message of `request_restart` for a main unit and a temporary one, or none, it
  -- starts the temporary unit and, if that succeeded, waits until `systemctl is-active` prints "active" or the
  -- seconds of the environment, 30 without them, are over; then, if the wait ends, it restarts the main unit
  -- and closes the connection. The names have no blank and no comma, and the main one is not empty.
  pub handle-restart_message :
      (P : Platform) (fuel : ℕ) (main temp : String) (s s1 : H.State)
      → is_empty (codes main) ≡ false
      → IsUnit (codes main)
      → IsUnit (codes temp)
      → H.read_line s ≡ ((codes (str_append (restart_message P main temp) "\n"), none), s1)
      → handle H fuel s
        ≡ (do waited ← start_and_wait H fuel (codes temp); restart_and_close H (codes main) waited)
            s1
  handle-restart_message P fuel main temp s s1 named main_unit temp_unit read =
      handle-restart_steps P fuel main temp s s1 named main_unit temp_unit read
      ∙ bind_assoc (start_temporary H fuel (timeout_of H []) (codes temp ∷ []))
          (restart_main H (codes main)) (close_after H) s1
      ∙ bind_cong (start_temporary H fuel (timeout_of H []) (codes temp ∷ []))
          (start_and_wait H fuel (codes temp))
          (λ started. restart_main H (codes main) started >>= close_after H)
          (restart_and_close H (codes main)) s1 s1
          (start_temporary-calls H fuel (codes temp) s1 temp_unit.0)
          (restart_main-calls H (codes main))

  -- A message to stop a unit makes the daemon stop that unit and close the connection. The name has no
  -- blank and is not empty.
  pub handle-stop_message :
      (fuel : ℕ) (unit : String) (s s1 : H.State)
      → is_empty (codes unit) ≡ false
      → NoSpace (codes unit)
      → H.read_line s ≡ ((codes (str_append (str_append "stop " unit) "\n"), none), s1)
      → handle H fuel s ≡ (do stopped ← stop_unit H (codes unit); close_after H stopped) s1
  unfolding handle
  handle-stop_message fuel unit s s1 named word read =
      bind-at (serve H fuel) (stop_unit H (codes unit)) (close_after H) s s1 (
        serve-stop fuel (codes unit) s s1 named word (
          read
          ∙ ap (λ line. ((line, none), s1))
              (codes-append (str_append "stop " unit) "\n"
                ∙ ap (λ t. t ++ 10 ∷ []) (codes-append "stop " unit))))
